-- ===== src/Tests/Sessions.antt =====
-- Runs of several boards at concrete inputs.
use caen_daq.CaenDigitizer.{no_info}
use caen_daq.Base.{
  arith, if◌then◌else◌, max, min, ◌≤◌, All, List, [], false, ltb, refl, some, true, ℕ, ◌-◌, ◌∷◌,
  ◌≡◌,
}
use caen_daq.ClockSync.{clock_chain_order}
use caen_daq.Daq.Session.{
  align_clock_chain, prepare_run, start_boards, start_prepared, Daq, Env, start_run, stop_run,
}
use caen_daq.Queue.{new_queue, push}
use caen_daq.Daq.Boards.{default_spec, BoardSpec, new_runner}
use caen_daq.BoardRunner.Lifecycle.Responds.{IsDown, Responds}
use caen_daq.Daq.Session.Retry.{start_run-retry}
use caen_daq.Daq.Session.Start.{stop_run-ends}
use caen_daq.Digitizer.{Digitizer}
use caen_daq.Board.{codes}
use caen_daq.BoardRunner.Lifecycle.{Board, start}
use caen_daq.Tests.{V1730, v1730, whole_bins, all_works, one_part, writing}

-- A device whose state is how often it may still be started.
abbrev pub device : Digitizer ℕ
device = record {
  open_board = λ d. (true, d);
  configure = λ d. (true, d);
  start_mode = λ d. 0;
  start_board = λ d. (ltb 0 d, d - 1);
  arm_board = λ d. (ltb 0 d, d - 1);
  send_sw_trigger = λ d. (true, d);
  read_board = λ d. (some [], d);
  write_register = λ a v d. (true, d);
  read_register = λ a d. (some 0, d);
  stop_board = λ d. (true, d);
  close_board = λ d. d;
  info = λ d. no_info;
}

abbrev pub test_spec : BoardSpec
test_spec = record default_spec { params = record default_spec.params { name = codes "b" } }

abbrev boards : ℕ → ℕ → List (Board ℕ V1730)
boards m n = new_runner test_spec m (new_queue 10) ∷ new_runner test_spec n (new_queue 10) ∷ []

abbrev started : ℕ → Board ℕ V1730
started n = record (new_runner test_spec n (new_queue 10)) { running = true; reader_up = true }

abbrev pub test_session : List (Board ℕ V1730) → Daq ℕ V1730
test_session bs = record {
  run = 7;
  max_file_bytes = 0;
  write_header = false;
  boards = bs;
  write_queue = new_queue 10;
  writer = some writing;
  disk = one_part;
  writer_up = false;
  writer_failed = false;
  any_write = true;
  prepared = true;
  running = false;
}

abbrev pub test_env : Env
test_env = record {
  open_io = all_works;
  in_time = λ i n. true;
  last_writes = λ i. (all_works, false);
}

-- A device that is closed (0), open (1) or acquiring (2)
abbrev pub switched : Digitizer ℕ
switched = record device {
  open_board = λ d. (true, max 1 d);
  start_board = λ d. (ltb 0 d, if ltb 0 d then 2 else d);
  arm_board = λ d. (ltb 0 d, if ltb 0 d then 2 else d);
  stop_board = λ d. (true, min 1 d);
  close_board = λ d. 0;
}

abbrev pub IsAcquiring : ℕ → Type 0
IsAcquiring d = d ≡ 2

abbrev pub IsIdle : ℕ → Type 0
IsIdle d = d ≤ 1

abbrev pub IsClosed : ℕ → Type 0
IsClosed d = d ≡ 0

pub switched-Responds : Responds switched IsAcquiring IsIdle IsClosed
switched-Responds = record {
  starts = λ d e. ground (arith, e);
  arms = λ d e. ground (arith, e);
  fires = λ d h. h;
  no_start = λ d h e. ground (arith, h, e);
  no_arm = λ d h e. ground (arith, h, e);
  opens = λ d h. omega (arith, h);
  configures = λ d h. h;
  aligns = λ d h. h;
  looks = λ a d h. h;
  stops = λ d. omega arith;
  empties = λ d h. h;
  closes = λ d h. refl;
  closed_idle = λ d h. omega (arith, h);
}

-- Two boards that acquire, and a block that is still in the queue
abbrev going : Daq ℕ V1730
going = record (test_session (started 2 ∷ started 2 ∷ [])) {
  running = true;
  writer_up = true;
  write_queue = (push (some (4 ∷ 5 ∷ [])) (new_queue 10)).1;
}

stop_run-ends_example :
    All
      (IsDown switched IsAcquiring IsIdle IsClosed switched-Responds)
      (stop_run switched test_env going).boards
    × ((stop_run switched test_env going).write_queue.closed ≡ true)
    × ((stop_run switched test_env going).running ≡ false)
    × (stop_run switched test_env (stop_run switched test_env going)
        ≡ stop_run switched test_env going)
stop_run-ends_example =
    stop_run-ends switched IsAcquiring IsIdle IsClosed switched-Responds test_env test_env going
      refl (refl, (refl, tt))

-- The second board does not start.
start_run-retry_example :
    (push
      (some (1 ∷ []))
      (start_run device v1730 whole_bins test_env
        (start_run device v1730 whole_bins test_env (test_session (boards 1 0))).1).1.write_queue).0
    ≡ false
unfolding start_run prepare_run start_prepared start_boards align_clock_chain clock_chain_order
    start
start_run-retry_example =
    start_run-retry device v1730 whole_bins test_env test_env (test_session (boards 1 0))
      (some (1 ∷ [])) refl refl refl
