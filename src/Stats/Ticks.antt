-- ===== src/Stats/Ticks.antt =====
-- src/StatsCollector.cpp: the statistics thread, `loop`, cut where other threads can come between.
-- Times are in ns, intervals in ms.
pub mod Bounds
pub mod Changes
pub mod Soundness
use caen_daq.Base.{
  false, true, ◌≡◌, ◌≤◌, Bool, Option, [], err, get_elem?, if◌then◌else◌, leb, min, none, not, ok,
  set, some, ℕ, ◌*◌, ◌+◌, ◌-◌, ◌==◌, ◌^◌, ◌||◌, List,
}
use caen_daq.Stats.Collector.{
  StatsOptions, new_collector, set_graphite, set_interval, start_collector, stop_collector,
  Collector,
}
use caen_daq.Board.{Text}
use caen_daq.Graphite.{GraphiteClient, Sockets, is_enabled, send}
use caen_daq.Stats.{clamp_interval}
use caen_daq.Stats.Rates.{BoardRate, BoardSample, board_rates, format_graphite}
use caen_daq.Base.Int.{ℤ, pos, negsuc}

-- Where the thread is: in its wait, with the generation that it has read; from the end of the wait
-- to the sample; from the publication to the end of the report; returned.
pub data Phase (R : Type 0) : Type 0 where
  waiting_for : ℕ → Phase R
  sampling : Phase R
  reporting : Option ℕ → Text → List (BoardRate R) → Phase R
  ended : Phase R

pub record Ticker (R : Type 0) : Type 0 where
  pub wait : ℕ
  pub tick_start : ℕ
  pub phase : Phase R
  pub prev : List BoardSample
  pub prev_time : ℕ

-- The sampler's result; none, if it throws.
abbrev pub SampleResult : Type 0
SampleResult = Option (List BoardSample)

abbrev pub sample_or_empty : SampleResult → List BoardSample
sample_or_empty none = []
sample_or_empty (some s) = s

module _ {R : Type 0} where
  -- From the head of the loop to the wait, where the generation is read
  unfoldable pub begin_wait : ℕ → Collector R → Ticker R → Ticker R
  begin_wait now c t =
      if c.running
      then record t { tick_start = now; phase = waiting_for c.interval_gen }
      else record t { phase = ended }

  -- From the start of the thread to its first wait
  unfoldable pub first_wait : ℕ → SampleResult → Collector R → Ticker R
  first_wait now s c = begin_wait now c (record {
    wait = min (clamp_interval c.opt.first_interval_ms) c.interval;
    tick_start = now;
    phase = sampling;
    prev = sample_or_empty s;
    prev_time = now;
  })

  -- What `wait_until` waits for
  abbrev pub must_wake : ℕ → Collector R → Bool
  must_wake gen c = not c.running || not (c.interval_gen == gen)

  abbrev pub deadline : Ticker R → ℕ
  deadline t = t.tick_start + t.wait * 10 ^ 6

  -- The wait ends before its deadline: the thread returns, or goes on waiting.
  unfoldable pub wake_early : Collector R → Ticker R → Ticker R
  wake_early c t =
      if c.running
      then record t { wait = min t.wait c.interval; phase = waiting_for c.interval_gen }
      else record t { phase = ended }

  -- The wait comes to its deadline.
  unfoldable pub expire : Collector R → Ticker R → Ticker R
  expire c t =
      if c.running
      then record t { wait = c.interval; phase = sampling }
      else record t { phase = ended }

-- The time between two samples; `dt = 1e-6` where the clock stood still.
abbrev pub elapsed : ℕ → ℕ → ℕ
elapsed before now = if leb now before then 1000 else now - before

-- `per_second dt n`: n over the time dt in ns.
module _ {R : Type 0} (per_second : ℕ → ℕ → R) (zero_rate : R) where
  -- A sample: the rates are published, the sink is taken.
  unfoldable pub take_sample : ℕ → SampleResult → Collector R → Ticker R → Collector R × Ticker R
  take_sample now none c t = (c, begin_wait now c t)
  take_sample now (some cur) c t =
      let rates = board_rates (per_second (elapsed t.prev_time now)) zero_rate t.prev cur in
      (
        record c { latest = rates },
        record t { phase = reporting c.graphite c.opt.prefix rates; prev = cur; prev_time = now },
      )

-- `epoch`: the text of `std::time(nullptr)`.
module _ {R W : Type 0} (sys : Sockets W) (print : R → Text) where
  -- The client that is used; the sending always returns.
  unfoldable pub send_with :
      ℕ → Text → GraphiteClient → List GraphiteClient → W → List GraphiteClient × W
  send_with i payload client clients w = elim (send sys payload client w) [
    | ok r ↦ (set clients i r.1, r.2)
    | err e ↦ (clients, w)
  ]

  unfoldable pub send_found :
      ℕ → Text → Option GraphiteClient → List GraphiteClient → W → List GraphiteClient × W
  send_found i payload none clients w = (clients, w)
  send_found i payload (some client) clients w =
      if is_enabled client then send_with i payload client clients w else (clients, w)

  unfoldable pub send_to : Option ℕ → Text → List GraphiteClient → W → List GraphiteClient × W
  send_to none payload clients w = (clients, w)
  send_to (some i) payload clients w = send_found i payload (get_elem? clients i) clients w

  -- The report, and the way back to the wait
  unfoldable pub report :
      ℕ
      → Text
      → Option ℕ
      → Text
      → List (BoardRate R)
      → Collector R
      → Ticker R
      → W
      → Collector R × Ticker R × W
  report now epoch sink prefix rates c t w =
      let (clients, w') = send_to sink (format_graphite print rates prefix epoch) c.clients w in
      let c' = record c { clients = clients } in (c', begin_wait now c' t, w')

-- The collector, its thread and the world of the sockets
pub record StatsRun (R W : Type 0) : Type 0 where
  pub collector : Collector R
  pub ticker : Ticker R
  pub world : W

module _ {R W : Type 0} where
  abbrev pub after_sample : Collector R × Ticker R → StatsRun R W → StatsRun R W
  after_sample (c, t) s = record s { collector = c; ticker = t }

  -- A collector that was made, and started, and has reached its first wait
  abbrev pub stats_started : StatsOptions → ℕ → SampleResult → W → StatsRun R W
  stats_started opt now o w =
      let (_, c) = start_collector (new_collector opt) in
      record { collector = c; ticker = first_wait now o c; world = w }

module _ {R W : Type 0} (per_second : ℕ → ℕ → R) (zero_rate : R) (sys : Sockets W)
    (print : R → Text) where
  -- What may happen next: another thread changes a setting or stops the collector; the thread's
  -- wait is over, early or at its deadline; it samples; it reports.
  pub data StatsStep (s : StatsRun R W) : StatsRun R W → Type 0 where
    sets_interval : (ms : ℤ) → StatsStep s (record s { collector = set_interval ms s.collector })
    sets_graphite :
        (host : Text) (port : ℤ) (prefix : Text)
        → StatsStep s (record s { collector = set_graphite host port prefix s.collector })
    stops : StatsStep s (record s { collector = (stop_collector s.collector).1 })
    wakes :
        (gen : ℕ)
        → s.ticker.phase ≡ waiting_for gen
        → must_wake gen s.collector ≡ true
        → StatsStep s (record s { ticker = wake_early s.collector s.ticker })
    expires :
        (now gen : ℕ)
        → s.ticker.phase ≡ waiting_for gen
        → must_wake gen s.collector ≡ false
        → deadline s.ticker ≤ now
        → StatsStep s (record s { ticker = expire s.collector s.ticker })
    samples :
        (now : ℕ) (o : SampleResult)
        → s.ticker.phase ≡ sampling
        → StatsStep s (after_sample (take_sample per_second zero_rate now o s.collector s.ticker) s)
    reports :
        (now : ℕ) (epoch : Text) (sink : Option ℕ) (prefix : Text) (rates : List (BoardRate R))
        → s.ticker.phase ≡ reporting sink prefix rates
        → StatsStep s (
            let r = report sys print now epoch sink prefix rates s.collector s.ticker s.world in
            record { collector = r.0; ticker = r.1; world = r.2 })

  pub data StatsReach (s : StatsRun R W) : StatsRun R W → Type 0 where
    at_start : StatsReach s s
    one_more : {t u : StatsRun R W} → StatsReach s t → StatsStep t u → StatsReach s u
