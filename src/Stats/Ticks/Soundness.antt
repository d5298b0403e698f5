-- ===== src/Stats/Ticks/Soundness.antt =====
-- Every step of the collector's thread, and every call from outside, keeps it sound.
use caen_daq.Stats.Ticks.{
  send_found, wake_early, SampleResult, StatsReach, StatsRun, StatsStep, Ticker, expire, first_wait,
  report, sample_or_empty, send_to, send_with, stats_started, take_sample, sampling, sets_interval,
  sets_graphite, stops, wakes, expires, samples, reports, at_start, one_more,
}
use caen_daq.Base.{
  Bool, Option, Result, err, get_elem?, if-split, length, length-set, min, none, ok, refl, set,
  some, subst, sym, true, ℕ, ◌≡◌, List,
}
use caen_daq.Board.{Text}
use caen_daq.Graphite.{GraphiteClient, Sockets, is_enabled, send}
use caen_daq.Stats.{clamp_interval}
use caen_daq.Stats.Collector.{
  Collector, StatsOptions, new_collector, start_collector, stop_collector,
}
use caen_daq.Stats.Rates.{format_graphite}
use caen_daq.Stats.Ticks.Bounds.{
  CollectorIsSound, InLimits, PointsInto, SinkIn, StatsIsSound, TickerIsSound, begin_wait-IsSound,
  clamp_interval-InLimits, min-InLimits, new_collector-IsSound, set_graphite-IsSound,
  set_interval-IsSound,
}

module _ {R : Type 0} where
  wake_early-IsSound :
      (n : ℕ) (c : Collector R) (t : Ticker R)
      → CollectorIsSound c
      → InLimits t.wait
      → TickerIsSound n (wake_early c t)
  unfolding wake_early
  wake_early-IsSound n c t s h =
      if-split (TickerIsSound n) c.running
        (λ _. (min-InLimits t.wait c.interval h s.interval_ok, tt)) (λ _. (h, tt))

  expire-IsSound :
      (n : ℕ) (c : Collector R) (t : Ticker R)
      → CollectorIsSound c
      → InLimits t.wait
      → TickerIsSound n (expire c t)
  unfolding expire
  expire-IsSound n c t s h =
      if-split (TickerIsSound n) c.running (λ _. (s.interval_ok, tt)) (λ _. (h, tt))

  take_sample-IsSound :
      (per_second : ℕ → ℕ → R) (zero_rate : R) (now : ℕ) (o : SampleResult) (c : Collector R)
      (t : Ticker R)
      → CollectorIsSound c
      → InLimits t.wait
      → CollectorIsSound (take_sample per_second zero_rate now o c t).0
        × TickerIsSound
            (length (take_sample per_second zero_rate now o c t).0.clients)
            (take_sample per_second zero_rate now o c t).1
  unfolding take_sample
  take_sample-IsSound per_second zero_rate now none c t s h =
      (s, begin_wait-IsSound now (length c.clients) c t h)
  take_sample-IsSound per_second zero_rate now (some cur) c t s h = (
    record { interval_ok = s.interval_ok; target = s.target; clean = s.clean },
    (h, (s.target, s.clean)),
  )

module _ {R W : Type 0} (sys : Sockets W) (print : R → Text) where
  send_with-length :
      (i : ℕ) (clients : List GraphiteClient) (w : W) (o : Result (Bool × GraphiteClient × W))
      → length
          (elim o as (λ _. List GraphiteClient × W) [
            | ok r ↦ (set clients i r.1, r.2)
            | err e ↦ (clients, w)
          ]).0
        ≡ length clients
  send_with-length i clients w (ok r) = length-set clients i r.1
  send_with-length i clients w (err e) = refl

  send_found-length :
      (i : ℕ) (payload : Text) (o : Option GraphiteClient) (clients : List GraphiteClient) (w : W)
      → length (send_found sys print i payload o clients w).0 ≡ length clients
  unfolding send_found send_with
  send_found-length i payload none clients w = refl
  send_found-length i payload (some client) clients w =
      if-split (λ (r : List GraphiteClient × W). length r.0 ≡ length clients) (is_enabled client)
        (λ _. send_with-length i clients w (send sys payload client w)) (λ _. refl)

  send_to-length :
      (sink : Option ℕ) (payload : Text) (clients : List GraphiteClient) (w : W)
      → length (send_to sys print sink payload clients w).0 ≡ length clients
  unfolding send_to
  send_to-length none payload clients w = refl
  send_to-length (some i) payload clients w =
      send_found-length i payload (get_elem? clients i) clients w

module _ {R W : Type 0} (per_second : ℕ → ℕ → R) (zero_rate : R) (sys : Sockets W)
    (print : R → Text) where
  StatsStep-IsSound :
      {s t : StatsRun R W}
      → StatsStep per_second zero_rate sys print s t
      → StatsIsSound s
      → StatsIsSound t
  unfolding stop_collector report
  StatsStep-IsSound {s} (sets_interval ms) h =
      let (sound, same) = set_interval-IsSound ms s.collector h.settings in
      record {
        settings = sound;
        wait_ok = h.wait_ok;
        sink =
            subst (λ (cs : List GraphiteClient). SinkIn (length cs) s.ticker.phase) (sym same)
              h.sink;
      }
  StatsStep-IsSound {s} (sets_graphite host port prefix) h =
      let (sound, sink) =
        set_graphite-IsSound host port prefix s.collector s.ticker.phase h.settings h.sink in
      record { settings = sound; wait_ok = h.wait_ok; sink = sink }
  StatsStep-IsSound stops h = record {
    settings = record {
      interval_ok = h.settings.interval_ok;
      target = h.settings.target;
      clean = h.settings.clean;
    };
    wait_ok = h.wait_ok;
    sink = h.sink;
  }
  StatsStep-IsSound {s} (wakes gen e up) h =
      let (wait, sink) =
        wake_early-IsSound (length s.collector.clients) s.collector s.ticker h.settings h.wait_ok in
      record { settings = h.settings; wait_ok = wait; sink = sink }
  StatsStep-IsSound {s} (expires now gen e quiet late) h =
      let (wait, sink) =
        expire-IsSound (length s.collector.clients) s.collector s.ticker h.settings h.wait_ok in
      record { settings = h.settings; wait_ok = wait; sink = sink }
  StatsStep-IsSound {s} (samples now o e) h =
      let (sound, kept) =
        take_sample-IsSound per_second zero_rate now o s.collector s.ticker h.settings h.wait_ok in
      record { settings = sound; wait_ok = kept.0; sink = kept.1 }
  StatsStep-IsSound {s} (reports now epoch sink prefix rates e) h =
      let text = format_graphite print rates prefix epoch in
      let sent = send_to sys print sink text s.collector.clients s.world in
      let same = send_to-length sys print sink text s.collector.clients s.world in
      let c = record s.collector { clients = sent.0 } in
      let (wait, back) = begin_wait-IsSound now (length sent.0) c s.ticker h.wait_ok in
      record {
        settings = record {
          interval_ok = h.settings.interval_ok;
          target = subst (λ n. PointsInto n s.collector.graphite) (sym same) h.settings.target;
          clean = h.settings.clean;
        };
        wait_ok = wait;
        sink = back;
      }

  stats_started-IsSound :
      (opt : StatsOptions) (now : ℕ) (o : SampleResult) (w : W)
      → StatsIsSound (stats_started {R = R} opt now o w)
  unfolding start_collector first_wait
  stats_started-IsSound opt now o w =
      let sound = new_collector-IsSound opt in
      let c = record (new_collector {R = R} opt) { running = true } in
      let (wait, sink) =
        begin_wait-IsSound now (length c.clients) c
          (record {
            wait = min (clamp_interval c.opt.first_interval_ms) c.interval;
            tick_start = now;
            phase = sampling;
            prev = sample_or_empty o;
            prev_time = now;
          })
          (min-InLimits (clamp_interval c.opt.first_interval_ms) c.interval
            (clamp_interval-InLimits c.opt.first_interval_ms) sound.interval_ok) in
      record {
        settings = record {
          interval_ok = sound.interval_ok;
          target = sound.target;
          clean = sound.clean;
        };
        wait_ok = wait;
        sink = sink;
      }

  -- Whatever is set while the thread works, its waits and the interval stay between 100 ms and 10
  -- minutes, the client that a report uses was not destroyed, and the prefix is usable in a path.
  pub StatsReach-IsSound :
      (opt : StatsOptions) (now : ℕ) (o : SampleResult) (w : W) {s : StatsRun R W}
      → StatsReach per_second zero_rate sys print (stats_started opt now o w) s
      → StatsIsSound s
  StatsReach-IsSound opt now o w at_start = stats_started-IsSound opt now o w
  StatsReach-IsSound opt now o w (one_more path step) =
      StatsStep-IsSound step (StatsReach-IsSound opt now o w path)
