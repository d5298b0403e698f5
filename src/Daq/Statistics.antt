-- ===== src/Daq/Statistics.antt =====
-- What Daq keeps of the statistics: the options, and the collector once a run was started.
pub mod Interval
use caen_daq.Board.{codes}
use caen_daq.Base.{Option, [], if◌then◌else◌, length, none, some, ◌==◌, ◌≡◌, List}
use caen_daq.Board.{Text}
use caen_daq.Stats.{clamp_interval}
use caen_daq.Stats.Collector.{
  Collector, StatsOptions, new_collector, set_graphite, set_interval, start_collector,
  stop_collector,
}
use caen_daq.Stats.Rates.{BoardRate}
use caen_daq.Base.Int.{ℤ, pos}

-- The `graphite...` and `stats...` members of `Options`, and `stats_`
pub record DaqStats (R : Type 0) : Type 0 where
  pub interval_ms : ℤ
  pub first_interval_ms : ℤ
  pub graphite_host : Text
  pub graphite_port : ℤ
  pub graphite_prefix : Text
  pub stats : Option (Collector R)

abbrev pub default_stats : {R : Type 0} → DaqStats R
default_stats = record {
  interval_ms = pos 1000;
  first_interval_ms = pos 2000;
  graphite_host = [];
  graphite_port = pos 2003;
  graphite_prefix = codes "ancillary.rates";
  stats = none;
}

module _ {R : Type 0} where
  abbrev pub change_stats :
      (Collector R → Collector R) → Option (Collector R) → Option (Collector R)
  change_stats f none = none
  change_stats f (some c) = some (f c)

  -- The options of the collector that `start` builds; an empty prefix leaves the default.
  abbrev pub collector_options : DaqStats R → StatsOptions
  collector_options s = record {
    interval_ms = s.interval_ms;
    first_interval_ms = s.first_interval_ms;
    graphite_host = s.graphite_host;
    graphite_port = s.graphite_port;
    prefix = if length s.graphite_prefix == 0 then codes "ancillary.rates" else s.graphite_prefix;
  }

  -- The collector of a new run, started
  unfoldable pub start_stats : DaqStats R → DaqStats R
  start_stats s =
      let (fresh, c) = start_collector (new_collector (collector_options s)) in
      record s { stats = some c }

  -- The collector of a run that is stopped stays, with its last rates.
  unfoldable pub stop_stats : DaqStats R → DaqStats R
  stop_stats s = record s { stats = change_stats (λ c. (stop_collector c).1) s.stats }

  unfoldable pub set_stats_graphite : Text → ℤ → Text → DaqStats R → DaqStats R
  set_stats_graphite host port prefix s = record s {
    graphite_host = host;
    graphite_port = port;
    graphite_prefix = if length prefix == 0 then s.graphite_prefix else prefix;
    stats = change_stats (set_graphite host port prefix) s.stats;
  }

  unfoldable pub set_stats_interval : ℤ → DaqStats R → DaqStats R
  set_stats_interval ms s =
      let clamped = pos (clamp_interval ms) in
      record s { interval_ms = clamped; stats = change_stats (set_interval clamped) s.stats }

  unfoldable pub stats_interval_ms : DaqStats R → ℤ
  stats_interval_ms s = elim s.stats [ none ↦ s.interval_ms | some c ↦ pos c.interval ]

  abbrev pub latest_rates : DaqStats R → List (BoardRate R)
  latest_rates s = elim s.stats [ none ↦ [] | some c ↦ c.latest ]
