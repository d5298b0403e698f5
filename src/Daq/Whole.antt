-- ===== src/Daq/Whole.antt =====
-- Daq::start and Daq::stop with the statistics' thread.
use caen_daq.Base.{Bool, if◌then◌else◌, not, ◌&&◌}
use caen_daq.Daq.Session.{Daq, Env, start_run, stop_run}
use caen_daq.Daq.Statistics.{DaqStats, start_stats, stop_stats}
use caen_daq.Decoder.Frames.{FrameLib}
use caen_daq.Digitizer.{Digitizer}
use caen_daq.Histogram.{Floats}

module _ {D Frame R : Type 0} (ops : Digitizer D) where
  -- The collector is made once everything else goes.
  unfoldable pub start_daq :
      FrameLib Frame → Floats → Env → Daq D Frame × DaqStats R → Bool × Daq D Frame × DaqStats R
  start_daq lib floats env (d, s) =
      let (good, d') = start_run ops lib floats env d in
      (good, d', if good && not d.running then start_stats s else s)

  -- The collector's thread ends before the boards are stopped.
  unfoldable pub stop_daq : Env → Daq D Frame × DaqStats R → Daq D Frame × DaqStats R
  stop_daq env (d, s) = if d.running then (stop_run ops env d, stop_stats s) else (d, s)
