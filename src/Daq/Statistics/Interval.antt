-- ===== src/Daq/Statistics/Interval.antt =====
-- The sampling interval that Daq reports.
use caen_daq.Base.{==_iff, Option, ap, arith, if-split, length, none, refl, some, ◌==◌, ◌∙◌, ◌≡◌}
use caen_daq.Board.{Text}
use caen_daq.Daq.Statistics.{
  DaqStats, change_stats, collector_options, set_stats_interval, start_stats, stats_interval_ms,
}
use caen_daq.Stats.{clamp_interval}
use caen_daq.Stats.Collector.{Collector, new_collector, retarget, set_interval, start_collector}
use caen_daq.Base.Int.{ℤ, pos, negsuc}

clamp_interval-twice : (ms : ℤ) → clamp_interval (pos (clamp_interval ms)) ≡ clamp_interval ms
unfolding clamp_interval
clamp_interval-twice (negsuc n) = refl
clamp_interval-twice (pos ms) = ground arith

module _ {R : Type 0} where
  set_interval-interval :
      (ms : ℤ) (c : Collector R) → (set_interval ms c).interval ≡ clamp_interval ms
  unfolding set_interval
  set_interval-interval ms c =
      if-split (λ (c' : Collector R). c'.interval ≡ clamp_interval ms)
        (c.interval == clamp_interval ms) (λ same. (==_iff c.interval (clamp_interval ms)).0 same)
        (λ _. refl)

  retarget-interval :
      (host : Text) (port : ℤ) (c : Collector R) → (retarget host port c).interval ≡ c.interval
  unfolding retarget
  retarget-interval host port c =
      if-split (λ (c' : Collector R). c'.interval ≡ c.interval) (length host == 0) (λ _. refl)
        (λ _. refl)

  changed :
      (ms : ℤ) (s : DaqStats R) (o : Option (Collector R))
      → stats_interval_ms (record s {
        interval_ms = pos (clamp_interval ms);
        stats = change_stats (set_interval (pos (clamp_interval ms))) o;
      })
        ≡ pos (clamp_interval ms)
  unfolding stats_interval_ms
  changed ms s none = refl
  changed ms s (some c) =
      ap (λ n. pos n) (set_interval-interval (pos (clamp_interval ms)) c ∙ clamp_interval-twice ms)

  -- After a change of the interval Daq reports the new one, held to its limits, with and without a
  -- run; and so it does once a further run has made its collector.
  pub set_stats_interval-reported :
      (ms : ℤ) (s : DaqStats R)
      → (stats_interval_ms (set_stats_interval ms s) ≡ pos (clamp_interval ms))
        × (stats_interval_ms (start_stats (set_stats_interval ms s)) ≡ pos (clamp_interval ms))
  unfolding set_stats_interval start_stats new_collector start_collector stats_interval_ms
  set_stats_interval-reported ms s =
      let opt = collector_options (set_stats_interval ms s) in
      (
        changed ms s s.stats,
        ap (λ n. pos n)
            (retarget-interval opt.graphite_host opt.graphite_port _ ∙ clamp_interval-twice ms),
      )
