-- ===== src/Cli/Begin/Ends.antt =====
-- How the program comes up, and with which code it ends if it does not.
use caen_daq.Base.{Bool, All, Option, false, none, some, true, ◌≡◌, ◌⊎◌}
use caen_daq.BoardRunner.Lifecycle.Responds.{IsUp, Responds}
use caen_daq.Cli.{CliArgs, CliEnd, helped, refused_at, settled, stopped}
use caen_daq.Cli.Begin.{CliRun, exits, goes, new_daq, spec_of}
use caen_daq.Daq.Boards.{BoardSpec, add_board}
use caen_daq.Daq.Session.{Daq, Env, start_run}
use caen_daq.Decoder.Frames.{FrameLib}
use caen_daq.Digitizer.{Digitizer}
use caen_daq.Histogram.{Floats}
use caen_daq.Writer.{Disk}

module _ {D Frame : Type 0} (ops : Digitizer D) (Acquiring Idle Closed : D → Type 0)
    (laws : Responds ops Acquiring Idle Closed) (lib : FrameLib Frame) (floats : Floats) (env : Env)
    (make : BoardSpec → Option D)
    (made_idle : (spec : BoardSpec) (dev : D) → make spec ≡ some dev → Idle dev) (disk : Disk) where
  -- The start of the run of the one board that the settings describe
  abbrev pub run_of : CliArgs → D → Bool × Daq D Frame
  run_of a dev = start_run ops lib floats env (add_board (spec_of a) (some dev) (new_daq a disk)).1

  -- Without a board, or when the start fails, exit code 1; otherwise the run goes on.
  abbrev pub RunOrFail : CliArgs → CliRun D Frame → Type 0
  RunOrFail a r =
      ((make (spec_of a) ≡ none) × (r ≡ exits 1))
      ⊎ ((dev : D) × (make (spec_of a) ≡ some dev)
          × (((run_of a dev).0 ≡ false) × (r ≡ exits 1)
              ⊎ ((run_of a dev).0 ≡ true)
                × (r ≡ goes (run_of a dev).1)
                × ((run_of a dev).1.running ≡ true)
                × All (IsUp ops Acquiring Idle Closed laws) (run_of a dev).1.boards))

  -- Code 0 on a call for help, 2 on a line that is refused.
  abbrev pub Begun : CliEnd → CliRun D Frame → Type 0
  Begun (stopped helped) r = r ≡ exits 0
  Begun (stopped (refused_at a)) r = r ≡ exits 2
  Begun (settled a) r = RunOrFail a r
