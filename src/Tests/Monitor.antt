-- ===== src/Tests/Monitor.antt =====
-- The statistics' thread and the settings at concrete inputs.
use caen_daq.Stats.Collector.{
  Collector, StatsOptions, new_collector, retarget, set_graphite, set_interval, start_collector,
}
use caen_daq.Stats.Ticks.{
  SampleResult, Ticker, StatsReach, StatsRun, after_sample, begin_wait, deadline, expire,
  first_wait, must_wake, report, stats_started, take_sample, wake_early, waiting_for, sets_graphite,
  expires, samples, at_start, one_more,
}
use caen_daq.Stats.Ticks.Changes.{OldInterval, set_interval-felt, set_interval-missed}
use caen_daq.Base.{[], arith, none, refl, some, true, ℕ, ◌*◌, ◌+◌, ◌/◌, ◌^◌, ◌≡◌, ◌≤◌, List}
use caen_daq.Daq.Statistics.{DaqStats, default_stats}
use caen_daq.Stats.{clamp_interval}
use caen_daq.Stats.Ticks.Bounds.{StatsIsSound}
use caen_daq.Stats.Ticks.Soundness.{StatsReach-IsSound}
use caen_daq.Writer.Names.{decimal}
use caen_daq.Base.Int.{pos}
use caen_daq.Board.{codes}
use caen_daq.Tests.Devices.{sockets}

-- A rate is kept as a whole number of ns between two counts.
abbrev per_second : ℕ → ℕ → ℕ
per_second dt n = n * 10 ^ 9 / dt

abbrev slow : StatsOptions
slow = record {
  interval_ms = pos 60000;
  first_interval_ms = pos 2000;
  graphite_host = codes "h";
  graphite_port = pos 2003;
  prefix = codes "a.b";
}

abbrev begun : StatsRun ℕ (ℕ × List ℕ)
begun = stats_started slow 0 none (0, [])

abbrev due : StatsRun ℕ (ℕ × List ℕ)
due = record begun { ticker = expire begun.collector begun.ticker }

abbrev retargeted : StatsRun ℕ (ℕ × List ℕ)
retargeted = record due { collector = set_graphite [] (pos 0) [] due.collector }

-- The first tick comes after two seconds; meanwhile the target is taken away.
abbrev three_steps : StatsReach per_second 0 sockets decimal begun (
    after_sample
      (take_sample per_second 0 2000000000 (some []) retargeted.collector retargeted.ticker)
      retargeted)
unfolding first_wait begin_wait new_collector start_collector retarget clamp_interval expire
    set_graphite
three_steps =
    one_more
      (one_more (one_more at_start (expires 2000000000 0 refl refl (omega arith)))
        (sets_graphite [] (pos 0) []))
      (samples 2000000000 (some []) refl)

StatsReach-IsSound_example : StatsIsSound (
    after_sample
      (take_sample per_second 0 2000000000 (some []) retargeted.collector retargeted.ticker)
      retargeted)
StatsReach-IsSound_example =
    StatsReach-IsSound per_second 0 sockets decimal slow 0 none (0, []) three_steps

-- From a minute to a second
set_interval-felt_example :
    (must_wake 0 (set_interval (pos 1000) begun.collector) ≡ true)
    × ((wake_early (set_interval (pos 1000) begun.collector) begun.ticker).phase
        ≡ waiting_for (set_interval (pos 1000) begun.collector).interval_gen)
    × (deadline (wake_early (set_interval (pos 1000) begun.collector) begun.ticker)
        ≤ begun.ticker.tick_start + clamp_interval (pos 1000) * 10 ^ 6)
    × (deadline (wake_early (set_interval (pos 1000) begun.collector) begun.ticker)
        ≤ deadline begun.ticker)
unfolding new_collector start_collector retarget clamp_interval
set_interval-felt_example =
    set_interval-felt (pos 1000) 0 begun.collector begun.ticker refl refl (omega arith) refl

-- The collector and the ticker when a sampler has ended during which the interval was set
abbrev set_while_sampling : SampleResult → Collector ℕ × Ticker ℕ
set_while_sampling o =
    take_sample per_second 0 5 o (set_interval (pos 1000) begun.collector)
      (expire begun.collector begun.ticker)

set_interval-missed_example :
    (let (c1, t1) = set_while_sampling (some []) in
      let r =
        report sockets decimal 5 (codes "1") c1.graphite c1.opt.prefix c1.latest c1 t1 (0, []) in
      OldInterval (pos 1000) begun.collector.interval 5 r.0 r.1)
    × (let (c1, t1) = set_while_sampling none in
        OldInterval (pos 1000) begun.collector.interval 5 c1 t1)
    × (let (c1, t1) =
          take_sample per_second 0 5
            (some [])
            begun.collector
            (expire begun.collector begun.ticker) in
        let r =
          report sockets decimal 5
            (codes "1")
            c1.graphite
            c1.opt.prefix
            c1.latest
            (set_interval (pos 1000) c1)
            t1
            (0, []) in
        OldInterval (pos 1000) begun.collector.interval 5 r.0 r.1)
unfolding start_collector
set_interval-missed_example =
    set_interval-missed per_second 0 sockets decimal (pos 1000) 5 5 (codes "1") [] begun.collector
      begun.ticker (0, []) refl

abbrev fresh_stats : DaqStats ℕ
fresh_stats = default_stats
