-- ===== src/Digitizer.antt =====
-- include/caendaq/IDigitizer.hpp: what the program asks of a board, real or simulated.
use caen_daq.Base.{ℕ, Bool, not, Option, List, ◌==◌}
use caen_daq.Board.{Text, BoardInfo}

-- `BoardParams`, without the register file's path, which only a driver reads.
pub record BoardParams : Type 0 where
  pub name : Text
  pub conn_type : ℕ
  pub link_num : ℕ
  pub node : ℕ
  pub vme_base : ℕ
  pub config_path : Text

-- The operations on a driver's state `D`. A readout is `none` on a communication error, and the
-- bytes that the board had, perhaps none, otherwise. A register that could not be read is `none`.
pub record Digitizer (D : Type 0) : Type 0 where
  pub open_board : D → Bool × D
  pub configure : D → Bool × D
  pub start_mode : D → ℕ
  pub start_board : D → Bool × D
  pub arm_board : D → Bool × D
  pub send_sw_trigger : D → Bool × D
  pub read_board : D → Option (List ℕ) × D
  pub write_register : ℕ → ℕ → D → Bool × D
  pub read_register : ℕ → D → Option ℕ × D
  pub stop_board : D → Bool × D
  pub close_board : D → D
  pub info : D → BoardInfo

abbrev pub start_mode_sw : ℕ
start_mode_sw = 0

-- The board waits for an external start.
abbrev pub synchronised : {D : Type 0} → Digitizer D → D → Bool
synchronised ops d = not (ops.start_mode d == start_mode_sw)
