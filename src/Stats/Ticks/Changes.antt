-- ===== src/Stats/Ticks/Changes.antt =====
-- When a change of the interval is felt.
use caen_daq.Base.{
  set, Option, none, Bool-cases, inl, inr, Bool, ap, arith, if_on, min, not, some, ◌||◌, ◌∙◌, false,
  if-split, if_off, refl, true, ℕ, ◌*◌, ◌+◌, ◌<◌, ◌==◌, ◌^◌, ◌≡◌, ◌≤◌, List,
}
use caen_daq.Stats.Rates.{BoardRate, BoardSample, format_graphite}
use caen_daq.Board.{Text}
use caen_daq.Graphite.{Sockets}
use caen_daq.Stats.Ticks.{
  begin_wait, expire, report, send_to, take_sample, Ticker, deadline, must_wake, wake_early,
  waiting_for, sampling, ended,
}
use caen_daq.Base.Words.{u32}
use caen_daq.Stats.{clamp_interval}
use caen_daq.Stats.Collector.{Collector, set_interval}
use caen_daq.Base.Int.{ℤ}

other_gen : (gen old : ℕ) → old ≡ gen → gen < 2 ^ 32 → (u32 (old + 1) == gen) ≡ false
other_gen gen old e h = ground (arith, e)

or_true : (b : Bool) → (b || true) ≡ true
or_true true = refl
or_true false = refl

same_number : (n : ℕ) → (n == n) ≡ true
same_number n = ground arith

module _ {R : Type 0} where
  set_interval-on :
      (ms : ℤ) (c : Collector R)
      → (c.interval == clamp_interval ms) ≡ false
      → set_interval ms c
        ≡ record c { interval = clamp_interval ms; interval_gen = u32 (c.interval_gen + 1) }
  unfolding set_interval
  set_interval-on ms c e =
      if_off (c.interval == clamp_interval ms) c
        (record c { interval = clamp_interval ms; interval_gen = u32 (c.interval_gen + 1) }) e

  set_interval-running : (ms : ℤ) (c : Collector R) → (set_interval ms c).running ≡ c.running
  unfolding set_interval
  set_interval-running ms c =
      if-split (λ (c' : Collector R). c'.running ≡ c.running) (c.interval == clamp_interval ms)
        (λ _. refl) (λ _. refl)

  wake_early-on :
      (c : Collector R) (t : Ticker R)
      → c.running ≡ true
      → wake_early c t
        ≡ record t { wait = min t.wait c.interval; phase = waiting_for c.interval_gen }
  unfolding wake_early
  wake_early-on c t on =
      if_on c.running
        (record t { wait = min t.wait c.interval; phase = waiting_for c.interval_gen })
        (record t { phase = ended }) on

  -- A running thread is woken just by a new generation.
  must_wake-new :
      (gen : ℕ) (c : Collector R) → (c.interval_gen == gen) ≡ false → must_wake gen c ≡ true
  must_wake-new gen c e = ap (λ (b : Bool). not c.running || not b) e ∙ or_true (not c.running)

  must_wake-same : (c : Collector R) → c.running ≡ true → must_wake c.interval_gen c ≡ false
  must_wake-same c on =
      ap (λ (b : Bool). not b || not (c.interval_gen == c.interval_gen)) on
      ∙ ap not (same_number c.interval_gen)

  -- An interval that is not the old one, set while the running thread waits, having seen the last
  -- change, ends the wait: the thread waits on, for the next change, and neither beyond the new
  -- interval nor beyond its old deadline. The generation is below 2^32.
  pub set_interval-felt :
      (ms : ℤ) (gen : ℕ) (c : Collector R) (t : Ticker R)
      → c.running ≡ true
      → c.interval_gen ≡ gen
      → gen < 2 ^ 32
      → (c.interval == clamp_interval ms) ≡ false
      → (must_wake gen (set_interval ms c) ≡ true)
        × ((wake_early (set_interval ms c) t).phase ≡ waiting_for (set_interval ms c).interval_gen)
        × (deadline (wake_early (set_interval ms c) t) ≤ t.tick_start + clamp_interval ms * 10 ^ 6)
        × (deadline (wake_early (set_interval ms c) t) ≤ deadline t)
  set_interval-felt ms gen c t on same small new =
      let e = set_interval-on ms c new in
      let k = clamp_interval ms in
      let later = record c { interval = k; interval_gen = u32 (c.interval_gen + 1) } in
      rw (e, wake_early-on later t on)
        (
          must_wake-new gen later (other_gen gen c.interval_gen same small),
          refl,
          omega arith,
          omega arith,
        )

  expire-on :
      (c : Collector R) (t : Ticker R)
      → c.running ≡ true
      → expire c t ≡ record t { wait = c.interval; phase = sampling }
  unfolding expire
  expire-on c t on =
      if_on c.running (record t { wait = c.interval; phase = sampling })
        (record t { phase = ended }) on

  begin_wait-on :
      (now : ℕ) (c : Collector R) (t : Ticker R)
      → c.running ≡ true
      → begin_wait now c t ≡ record t { tick_start = now; phase = waiting_for c.interval_gen }
  unfolding begin_wait
  begin_wait-on now c t on =
      if_on c.running (record t { tick_start = now; phase = waiting_for c.interval_gen })
        (record t { phase = ended }) on

  set_interval-interval :
      (ms : ℤ) (c : Collector R) → (set_interval ms c).interval ≡ clamp_interval ms
  unfolding set_interval
  set_interval-interval ms c = elim (Bool-cases (c.interval == clamp_interval ms)) [
    | inl e ↦ rw e (ground (arith, e))
    | inr e ↦ rw e refl
  ]

  -- The thread waits for `old` ms from `now` on, although the interval is `ms` by now, and has
  -- read the generation already, so that nothing but a further change or a stop wakes it.
  abbrev pub OldInterval : ℤ → ℕ → ℕ → Collector R → Ticker R → Type 0
  OldInterval ms old now c t =
      (c.interval ≡ clamp_interval ms)
      × (t.phase ≡ waiting_for c.interval_gen)
      × (must_wake c.interval_gen c ≡ false)
      × (deadline t ≡ now + old * 10 ^ 6)

  begin_wait-OldInterval :
      (ms : ℤ) (old now : ℕ) (c : Collector R) (t : Ticker R)
      → t.wait ≡ old
      → c.running ≡ true
      → c.interval ≡ clamp_interval ms
      → OldInterval ms old now c (begin_wait now c t)
  begin_wait-OldInterval ms old now c t long on set =
      let e = begin_wait-on now c t on in
      (
        set,
        ap (λ (v : Ticker R). v.phase) e,
        must_wake-same c on,
        ap (λ (v : Ticker R). deadline v) e ∙ ap (λ n. now + n * 10 ^ 6) long,
      )

module _ {R W : Type 0} (per_second : ℕ → ℕ → R) (zero_rate : R) (sys : Sockets W)
    (print : R → Text) where
  report-OldInterval :
      (ms : ℤ) (old now : ℕ) (epoch : Text) (sink : Option ℕ) (prefix : Text)
      (rates : List (BoardRate R)) (c : Collector R) (t : Ticker R) (w : W)
      → t.wait ≡ old
      → c.running ≡ true
      → c.interval ≡ clamp_interval ms
      → let r = report sys print now epoch sink prefix rates c t w in OldInterval ms old now r.0 r.1
  unfolding report
  report-OldInterval ms old now epoch sink prefix rates c t w long on set =
      let sent = send_to sys print sink (format_graphite print rates prefix epoch) c.clients w in
      begin_wait-OldInterval ms old now (record c { clients = sent.0 }) t long on set

  -- An interval that is set on a running collector between the end of a wait and the next one is
  -- not felt in that next wait, which lasts as long as the old interval and which nothing but a
  -- further change or a stop ends before: whether it is set while a sampler runs that succeeds, or
  -- one that throws, or between the sample and the end of the report.
  pub set_interval-missed :
      (ms : ℤ) (sampled done : ℕ) (epoch : Text) (cur : List BoardSample) (c : Collector R)
      (t : Ticker R) (w : W)
      → c.running ≡ true
      → (let (c1, t1) =
            take_sample per_second zero_rate sampled (some cur) (set_interval ms c) (expire c t) in
          let r = report sys print done epoch c1.graphite c1.opt.prefix c1.latest c1 t1 w in
          OldInterval ms c.interval done r.0 r.1)
        × (let (c1, t1) =
              take_sample per_second zero_rate done none (set_interval ms c) (expire c t) in
            OldInterval ms c.interval done c1 t1)
        × (let (c1, t1) = take_sample per_second zero_rate sampled (some cur) c (expire c t) in
            let r =
              report sys print done epoch c1.graphite c1.opt.prefix c1.latest
                (set_interval ms c1)
                t1
                w in
            OldInterval ms c.interval done r.0 r.1)
  unfolding take_sample
  set_interval-missed ms sampled done epoch cur c t w on =
      let still = set_interval-running ms c ∙ on in
      let set = set_interval-interval ms c in
      let c' = set_interval ms c in
      let t1 = expire c t in
      let long = ap (λ (v : Ticker R). v.wait) (expire-on c t on) in
      let (c2, t2) = take_sample per_second zero_rate sampled (some cur) c' t1 in
      let (c3, t3) = take_sample per_second zero_rate sampled (some cur) c t1 in
      (
        report-OldInterval ms c.interval done epoch c2.graphite c2.opt.prefix c2.latest c2 t2 w long
            still set,
        begin_wait-OldInterval ms c.interval done c' t1 long still set,
        report-OldInterval ms c.interval done epoch c3.graphite c3.opt.prefix c3.latest
            (set_interval ms c3) t3 w long (set_interval-running ms c3 ∙ on)
            (set_interval-interval ms c3),
      )
