-- ===== src/Stats/Ticks/Bounds.antt =====
-- What holds of the collector and its thread at every moment.
use caen_daq.Base.{
  [], false, if-split, if◌then◌else◌, length-append, min, subst, sym, ◌∷◌, All, Bool-cases, Option,
  arith, inl, inr, length, none, refl, some, ℕ, ◌+◌, ◌<◌, ◌==◌, ◌≡◌, ◌≤◌, ◌⊎◌,
}
use caen_daq.Graphite.{default_timeout_ms, new_client}
use caen_daq.Stats.{sanitize_prefix, clamp_interval}
use caen_daq.Stats.Collector.{
  StatsOptions, new_collector, set_graphite, set_interval, Collector, add_client, retarget,
}
use caen_daq.Stats.Prefix.{ends_with_dot, sanitize_prefix_lem, starts_with_dot, IsClean}
use caen_daq.Stats.Ticks.{
  Ticker, begin_wait, Phase, StatsRun, waiting_for, sampling, reporting, ended,
}
use caen_daq.Board.{Text}
use caen_daq.Base.Int.{ℤ, pos, negsuc}

-- 100 ms to 10 minutes
abbrev pub InLimits : ℕ → Type 0
InLimits ms = (100 ≤ ms) × (ms ≤ 600000)

-- Not empty, of characters that Graphite takes, and without a dot at either end
abbrev pub UsablePrefix : Text → Type 0
UsablePrefix s =
    (0 < length s) × All IsClean s × (starts_with_dot s ≡ false) × (ends_with_dot s ≡ false)

abbrev pub PointsInto : ℕ → Option ℕ → Type 0
PointsInto n none = Unit
PointsInto n (some i) = i < n

abbrev pub SinkIn : {R : Type 0} → ℕ → Phase R → Type 0
SinkIn n (waiting_for gen) = Unit
SinkIn n sampling = Unit
SinkIn n (reporting sink prefix rates) = PointsInto n sink × UsablePrefix prefix
SinkIn n ended = Unit

-- The interval and the wait keep to the limits; the client in use, and the one that a report was
-- begun with, are there; the prefixes are clean.
pub record CollectorIsSound {R : Type 0} (c : Collector R) : Type 0 where
  pub interval_ok : InLimits c.interval
  pub target : PointsInto (length c.clients) c.graphite
  pub clean : UsablePrefix c.opt.prefix

pub record StatsIsSound {R W : Type 0} (s : StatsRun R W) : Type 0 where
  pub settings : CollectorIsSound s.collector
  pub wait_ok : InLimits s.ticker.wait
  pub sink : SinkIn (length s.collector.clients) s.ticker.phase

pub clamp_interval-InLimits : (ms : ℤ) → InLimits (clamp_interval ms)
unfolding clamp_interval
clamp_interval-InLimits (negsuc n) = (omega arith, omega arith)
clamp_interval-InLimits (pos ms) = ground arith

PointsInto-grows : (n : ℕ) (o : Option ℕ) → PointsInto n o → PointsInto (n + 1) o
PointsInto-grows n none h = tt
PointsInto-grows n (some i) h = omega (arith, h)

used_prefix :
    (old prefix : Text)
    → UsablePrefix old
    → UsablePrefix (if length prefix == 0 then old else sanitize_prefix prefix)
used_prefix old prefix h =
    if-split UsablePrefix (length prefix == 0) (λ _. h) (λ _. sanitize_prefix_lem prefix)

pub min-InLimits : (a b : ℕ) → InLimits a → InLimits b → InLimits (min a b)
min-InLimits a b h k = (omega (arith, h.0, k.0), omega (arith, h.1, k.1))

module _ {R : Type 0} where
  SinkIn-grows : (n : ℕ) (p : Phase R) → SinkIn n p → SinkIn (n + 1) p
  SinkIn-grows n (waiting_for gen) h = tt
  SinkIn-grows n sampling h = tt
  SinkIn-grows n (reporting sink prefix rates) h = (PointsInto-grows n sink h.0, h.1)
  SinkIn-grows n ended h = tt

  -- What a change of the target does to the clients
  retarget-cases :
      (host : Text) (port : ℤ) (c : Collector R)
      → (retarget host port c ≡ record c { graphite = none })
        ⊎ (retarget host port c ≡ add_client host port c)
  unfolding retarget
  retarget-cases host port c = elim (Bool-cases (length host == 0)) [
    | inl e ↦ inl (rw e refl)
    | inr e ↦ inr (rw e refl)
  ]

  -- The clients are as many as before, or one more, and the one in use is there.
  abbrev Retargeted : ℕ → Collector R → Collector R → Type 0
  Retargeted n c c' =
      (length c'.clients ≡ n ⊎ length c'.clients ≡ n + 1)
      × PointsInto (length c'.clients) c'.graphite
      × (c'.interval ≡ c.interval)
      × (c'.opt.prefix ≡ c.opt.prefix)

  retarget-Retargeted :
      (host : Text) (port : ℤ) (c : Collector R)
      → Retargeted (length c.clients) c (retarget host port c)
  retarget-Retargeted host port c = elim (retarget-cases host port c) [
    | inl e ↦ rw e (inl refl, tt, refl, refl)
    | inr e ↦
        let made = new_client host port default_timeout_ms default_timeout_ms in
        let more = length-append c.clients (made ∷ []) in
        rw e (inr more, omega (arith, more), refl, refl)
  ]

  pub new_collector-IsSound : (opt : StatsOptions) → CollectorIsSound (new_collector {R = R} opt)
  unfolding new_collector
  new_collector-IsSound opt =
      let bare : Collector R = record {
        opt = record opt {
          prefix = sanitize_prefix opt.prefix;
          interval_ms = pos (clamp_interval opt.interval_ms);
        };
        interval = clamp_interval opt.interval_ms;
        interval_gen = 0;
        clients = [];
        graphite = none;
        running = false;
        latest = [];
      } in
      let (grown, target, same, kept) =
        retarget-Retargeted opt.graphite_host opt.graphite_port bare in
      record {
        interval_ok = subst InLimits (sym same) (clamp_interval-InLimits opt.interval_ms);
        target = target;
        clean = subst UsablePrefix (sym kept) (sanitize_prefix_lem opt.prefix);
      }

  pub set_graphite-IsSound :
      (host : Text) (port : ℤ) (prefix : Text) (c : Collector R) (p : Phase R)
      → CollectorIsSound c
      → SinkIn (length c.clients) p
      → CollectorIsSound (set_graphite host port prefix c)
        × SinkIn (length (set_graphite host port prefix c).clients) p
  unfolding set_graphite
  set_graphite-IsSound host port prefix c p s sink =
      let used = if length prefix == 0 then c.opt.prefix else sanitize_prefix prefix in
      let (grown, target, same, kept) =
        retarget-Retargeted host port (record c { opt = record c.opt { prefix = used } }) in
      (
        record {
          interval_ok = subst InLimits (sym same) s.interval_ok;
          target = target;
          clean = subst UsablePrefix (sym kept) (used_prefix c.opt.prefix prefix s.clean);
        },
        elim grown [
          | inl e ↦ subst (λ n. SinkIn n p) (sym e) sink
          | inr e ↦ subst (λ n. SinkIn n p) (sym e) (SinkIn-grows (length c.clients) p sink)
        ],
      )

  pub set_interval-IsSound :
      (ms : ℤ) (c : Collector R)
      → CollectorIsSound c
      → CollectorIsSound (set_interval ms c) × ((set_interval ms c).clients ≡ c.clients)
  unfolding set_interval
  set_interval-IsSound ms c s =
      if-split (λ (c' : Collector R). CollectorIsSound c' × (c'.clients ≡ c.clients))
        (c.interval == clamp_interval ms) (λ _. (s, refl))
        (λ _. (
          record { interval_ok = clamp_interval-InLimits ms; target = s.target; clean = s.clean },
          refl,
        ))

  -- The thread between two pieces of work
  abbrev pub TickerIsSound : ℕ → Ticker R → Type 0
  TickerIsSound n t = InLimits t.wait × SinkIn n t.phase

  pub begin_wait-IsSound :
      (now n : ℕ) (c : Collector R) (t : Ticker R)
      → InLimits t.wait
      → TickerIsSound n (begin_wait now c t)
  unfolding begin_wait
  begin_wait-IsSound now n c t h =
      if-split (TickerIsSound n) c.running (λ _. (h, tt)) (λ _. (h, tt))
