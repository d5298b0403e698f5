-- ===== src/Daq/Session/Start.antt =====
-- The start and the stop of a whole run.
use caen_daq.Base.{ap, if_off, if_on, Bool, All, List, [], false, subst, sym, true, ◌∙◌, ◌≡◌}
use caen_daq.Daq.Session.{stop_all, abandon, Daq, Env, stop_run}
use caen_daq.Daq.Session.Endings.{StartEnds, abandon-boards, stop_all-Down}
use caen_daq.BoardRunner.Lifecycle.Responds.{IsDown, IsQuiet, Responds}
use mathlib.Core.List.{append-nil}
use caen_daq.Decoder.Frames.{FrameLib}
use caen_daq.Digitizer.{Digitizer}
use caen_daq.Histogram.{Floats}
use caen_daq.BoardRunner.Lifecycle.{Board}

module _ {D Frame : Type 0} (ops : Digitizer D) (Acquiring Idle Closed : D → Type 0)
    (laws : Responds ops Acquiring Idle Closed) (lib : FrameLib Frame) (floats : Floats) where
  abbrev Quiet : Board D Frame → Type 0
  Quiet = IsQuiet ops Acquiring Idle Closed laws

  abbrev pub HowStarted : Bool × Daq D Frame → Type 0
  HowStarted = StartEnds ops Acquiring Idle Closed laws

  abbrev RestIn : Daq D Frame → Bool × Daq D Frame → Type 0
  RestIn d r = All Quiet r.1.boards × (r.1.running ≡ d.running)

module _ {D Frame : Type 0} (ops : Digitizer D) where
  stop_run-idle : (env : Env) (d : Daq D Frame) → d.running ≡ false → stop_run ops env d ≡ d
  unfolding stop_run
  stop_run-idle env d off =
      if_off d.running (record (abandon ops env d.boards [] d) { running = false }) d off

  pub stop_run-on :
      (env : Env) (d : Daq D Frame)
      → d.running ≡ true
      → stop_run ops env d ≡ record (abandon ops env d.boards [] d) { running = false }
  unfolding stop_run
  stop_run-on env d on =
      if_on d.running (record (abandon ops env d.boards [] d) { running = false }) d on

  stop_run-boards :
      (env : Env) (d : Daq D Frame)
      → d.running ≡ true
      → (stop_run ops env d).boards ≡ (stop_all ops env.in_time 0 d.boards d.write_queue).0
  stop_run-boards env d on =
      ap (λ (r : Daq D Frame). r.boards) (stop_run-on env d on)
      ∙ (abandon-boards ops env d.boards [] d).0
      ∙ append-nil (stop_all ops env.in_time 0 d.boards d.write_queue).0

module _ {D Frame : Type 0} (ops : Digitizer D) (Acquiring Idle Closed : D → Type 0)
    (laws : Responds ops Acquiring Idle Closed) where
  -- A stop of a running run whose boards all run, in the schedule in which no other thread comes in
  -- between, leaves every board neither running nor read out, with its device closed, the queue
  -- closed and the run not running; and a further stop changes nothing. The devices respond as laid
  -- down.
  pub stop_run-ends :
      (env later : Env) (d : Daq D Frame)
      → d.running ≡ true
      → All (λ b. b.running ≡ true) d.boards
      → All (IsDown ops Acquiring Idle Closed laws) (stop_run ops env d).boards
        × ((stop_run ops env d).write_queue.closed ≡ true)
        × ((stop_run ops env d).running ≡ false)
        × (stop_run ops later (stop_run ops env d) ≡ stop_run ops env d)
  stop_run-ends env later d on all =
      let e = stop_run-on ops env d on in
      let off = ap (λ (r : Daq D Frame). r.running) e in
      (
        subst (All (IsDown ops Acquiring Idle Closed laws)) (sym (stop_run-boards ops env d on))
            (stop_all-Down ops Acquiring Idle Closed laws env.in_time 0 d.boards d.write_queue all),
        ap (λ (r : Daq D Frame). r.write_queue.closed) e ∙ (abandon-boards ops env d.boards [] d).1,
        off,
        stop_run-idle ops later (stop_run ops env d) off,
      )
