-- ===== src/Cli/Begin.antt =====
-- What the program does with its settings: one board, one run.
pub mod Ends
use caen_daq.Cli.{CliEnd, CliArgs, CliStop, helped, parse_args, refused_at, settled, stopped}
use caen_daq.Base.{Bool, Option, [], false, if◌then◌else◌, none, ℕ, ◌-◌, ◌^◌, List}
use caen_daq.Board.{Text}
use caen_daq.Daq.Boards.{BoardSpec, add_board, default_spec}
use caen_daq.Daq.Session.{Daq, Env, start_run}
use caen_daq.Decoder.Frames.{FrameLib}
use caen_daq.Digitizer.{Digitizer}
use caen_daq.Histogram.{Floats}
use caen_daq.Queue.{new_queue}
use caen_daq.Writer.{Disk}
use caen_daq.Base.Int.{ℤ, pos, negsuc}

module _ {D Frame : Type 0} where
  -- The constructor of `Daq`; the shared queue takes 8192 blocks.
  unfoldable pub new_daq : CliArgs → Disk → Daq D Frame
  new_daq a disk = record {
    run = a.run;
    max_file_bytes = a.max_size;
    write_header = a.write_head;
    boards = [];
    write_queue = new_queue 8192;
    writer = none;
    disk = disk;
    writer_up = false;
    writer_failed = false;
    any_write = false;
    prepared = false;
    running = false;
  }

-- The pattern of an `int` in 32 bits
abbrev pub int_bits : ℤ → ℕ
int_bits (pos n) = n
int_bits (negsuc n) = 2 ^ 32 - 1 - n

abbrev pub spec_of : CliArgs → BoardSpec
spec_of a = record default_spec {
  params = record {
    name = a.name;
    conn_type = int_bits a.conn_type;
    link_num = int_bits a.link_num;
    node = int_bits a.node;
    vme_base = a.vme_base;
    config_path = a.config_path;
  };
  mock = a.mock;
  decode = a.decode;
  mock_rate = a.mock_rate;
  mock_dpp = a.dpp;
}

-- The program ends with an exit code, or a run goes on.
pub data CliRun (D Frame : Type 0) : Type 0 where
  exits : ℕ → CliRun D Frame
  goes : Daq D Frame → CliRun D Frame

abbrev pub stop_code : CliStop → ℕ
stop_code helped = 0
stop_code (refused_at a) = 2

module _ {D Frame : Type 0} (ops : Digitizer D) (lib : FrameLib Frame) (floats : Floats)
    (env : Env) where
  abbrev pub start_code : Bool × Daq D Frame → CliRun D Frame
  start_code (good, d) = if good then goes d else exits 1

  abbrev pub with_added : ℤ × Daq D Frame → CliRun D Frame
  with_added (negsuc n, d) = exits 1
  with_added (pos n, d) = start_code (start_run ops lib floats env d)

  abbrev pub begin_with : (BoardSpec → Option D) → Disk → CliEnd → CliRun D Frame
  begin_with make disk (stopped s) = exits (stop_code s)
  begin_with make disk (settled a) =
      with_added (add_board (spec_of a) (make (spec_of a)) (new_daq a disk))

  -- `main`, up to the loop that waits for the end of the run. `make`: `makeDigitizer`.
  unfoldable pub cli_begin : (BoardSpec → Option D) → Disk → List Text → CliRun D Frame
  cli_begin make disk argv = begin_with make disk (parse_args argv)
