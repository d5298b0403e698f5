-- ===== src/Daq/Boards.antt =====
-- Daq::addBoard and the accesses to one board by its index.
use caen_daq.Base.{
  Bool, Option, [], false, get_elem?, if◌then◌else◌, length, map, none, some, ℕ, ◌++◌, ◌||◌, ◌∷◌,
  true,
}
use caen_daq.Board.{BoardInfo, DppType, psd, codes}
use caen_daq.Digitizer.{BoardParams, Digitizer}
use caen_daq.BoardRunner.{RunnerCounts}
use caen_daq.CaenDigitizer.{no_info}
use caen_daq.Daq.Session.{Daq, put_devs, write_nth}
use caen_daq.HitTap.{new_tap}
use caen_daq.Queue.{BlockQueue}
use caen_daq.Base.Int.{ℤ, pos, negsuc}
use caen_daq.BoardRunner.Lifecycle.{Board}

pub record BoardSpec : Type 0 where
  pub params : BoardParams
  pub mock : Bool
  pub decode : Bool
  pub write : Bool
  pub mock_rate : ℕ
  pub mock_waveforms : Bool
  pub mock_fail_every : ℕ
  pub mock_dpp : DppType
  pub mock_start_mode : ℕ

-- A specification as it is before anything is set
abbrev pub default_spec : BoardSpec
default_spec = record {
  params = record {
    name = codes "board";
    conn_type = 0;
    link_num = 0;
    node = 0;
    vme_base = 0;
    config_path = [];
  };
  mock = false;
  decode = false;
  write = true;
  mock_rate = 200;
  mock_waveforms = false;
  mock_fail_every = 0;
  mock_dpp = psd;
  mock_start_mode = 0;
}

abbrev pub zero_counts : RunnerCounts
zero_counts = record {
  buffers_read = 0;
  bytes_read = 0;
  bytes_written = 0;
  blocks_dropped = 0;
  comm_errors = 0;
}

-- A new runner, with the default capacity of the decode queue.
abbrev pub new_runner : {D Frame : Type 0} → BoardSpec → D → BlockQueue → Board D Frame
new_runner spec dev q = record {
  name = spec.params.name;
  dev = dev;
  cfg = record { decode = spec.decode; decode_queue_capacity = 1024 };
  board_info = no_info;
  histograms = [];
  hits = new_tap;
  running = false;
  reader_up = false;
  stage_up = false;
  runner = record { writes = spec.write; write_queue = q; stage = none; counts = zero_counts };
}

module _ {D Frame : Type 0} where
  -- `made`: what `makeDigitizer` gives for the board, or null.
  unfoldable pub add_board : BoardSpec → Option D → Daq D Frame → ℤ × Daq D Frame
  add_board spec none d = (negsuc 0, d)
  add_board spec (some dev) d = if d.running || d.prepared then (negsuc 0, d) else (
    pos (length d.boards),
    record d {
      boards = d.boards ++ new_runner spec dev d.write_queue ∷ [];
      any_write = d.any_write || spec.write;
    },
  )

  unfoldable pub board_info_at : ℤ → Daq D Frame → BoardInfo
  board_info_at (negsuc n) d = no_info
  board_info_at (pos n) d = elim (get_elem? d.boards n) [ none ↦ no_info | some b ↦ b.board_info ]

module _ {D Frame : Type 0} (ops : Digitizer D) where
  -- An index out of range is refused.
  unfoldable pub write_register_at : ℤ → ℕ → ℕ → Daq D Frame → Bool × Daq D Frame
  unfolding write_nth put_devs
  write_register_at (negsuc n) address value d = (false, d)
  write_register_at (pos n) address value d =
      let (done, devs) = write_nth ops n address value (map (λ b. b.dev) d.boards) in
      (done, record d { boards = put_devs d.boards devs })
