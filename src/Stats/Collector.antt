-- ===== src/Stats/Collector.antt =====
-- src/StatsCollector.cpp: the collector that Daq builds for a run, and the calls that change its
-- settings while its thread works.
use caen_daq.Base.{
  Bool, Option, [], false, if◌then◌else◌, length, none, not, some, true, ℕ, ◌++◌, ◌+◌, ◌==◌, ◌∷◌,
  List,
}
use caen_daq.Base.Words.{u32}
use caen_daq.Board.{Text}
use caen_daq.Graphite.{GraphiteClient, default_timeout_ms, new_client}
use caen_daq.Stats.{clamp_interval, sanitize_prefix}
use caen_daq.Stats.Rates.{BoardRate}
use caen_daq.Base.Int.{ℤ, pos}

pub record StatsOptions : Type 0 where
  pub interval_ms : ℤ
  pub first_interval_ms : ℤ
  pub graphite_host : Text
  pub graphite_port : ℤ
  pub prefix : Text

-- `clients`: the clients made so far, so that a shared pointer is a place in the list. `latest`:
-- the rates of the last tick.
pub record Collector (R : Type 0) : Type 0 where
  pub opt : StatsOptions
  pub interval : ℕ
  pub interval_gen : ℕ  -- unsigned
  pub clients : List GraphiteClient
  pub graphite : Option ℕ
  pub running : Bool
  pub latest : List (BoardRate R)

module _ {R : Type 0} where
  -- `std::make_shared<GraphiteClient>(host, port)`
  abbrev pub add_client : Text → ℤ → Collector R → Collector R
  add_client host port c = record c {
    clients = c.clients ++ new_client host port default_timeout_ms default_timeout_ms ∷ [];
    graphite = some (length c.clients);
  }

  -- The target of the reports; an empty host is none.
  unfoldable pub retarget : Text → ℤ → Collector R → Collector R
  retarget host port c =
      if length host == 0 then record c { graphite = none } else add_client host port c

  unfoldable pub new_collector : StatsOptions → Collector R
  new_collector opt =
      let clamped = clamp_interval opt.interval_ms in
      retarget opt.graphite_host opt.graphite_port (record {
        opt = record opt { prefix = sanitize_prefix opt.prefix; interval_ms = pos clamped };
        interval = clamped;
        interval_gen = 0;
        clients = [];
        graphite = none;
        running = false;
        latest = [];
      })

  -- The first component: the thread is to be started.
  unfoldable pub start_collector : Collector R → Bool × Collector R
  start_collector c = (not c.running, record c { running = true })

  -- The first component: the thread is woken and joined.
  unfoldable pub stop_collector : Collector R → Bool × Collector R
  stop_collector c = (c.running, record c { running = false })

  unfoldable pub set_graphite : Text → ℤ → Text → Collector R → Collector R
  set_graphite host port prefix c =
      let used = if length prefix == 0 then c.opt.prefix else sanitize_prefix prefix in
      let c' = retarget host port (record c { opt = record c.opt { prefix = used } }) in
      record c' { opt = record c'.opt { graphite_host = host; graphite_port = port } }

  -- An interval that is already set is no change.
  unfoldable pub set_interval : ℤ → Collector R → Collector R
  set_interval ms c =
      let clamped = clamp_interval ms in
      if c.interval == clamped
      then c
      else record c { interval = clamped; interval_gen = u32 (c.interval_gen + 1) }
