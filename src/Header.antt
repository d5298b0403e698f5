-- ===== src/Header.antt =====
-- include/caendaq/DataFileHeader.hpp: the XDAQ header of a run's first file.
pub mod Fields
pub mod Parse
use caen_daq.Base.{List, [], bit_or, length, map, ℕ, ◌%◌, ◌*◌, ◌+◌, ◌/◌, ◌^◌, ◌∷◌}
use caen_daq.Base.Words.{u32}
use caen_daq.Board.{psd, pha, BoardInfo, DppType}

abbrev pub key_frame : ℕ
key_frame = 0xFA0201A0

-- Each field is a `uint8_t`.
pub record BoardDef : Type 0 where
  pub ns_per_sample : ℕ
  pub ns_per_timetag : ℕ
  pub dpp_version : ℕ
  pub channels : ℕ
  pub board_reg_id : ℕ

unfoldable pub dpp_version_of : DppType → ℕ
dpp_version_of psd = 1
dpp_version_of pha = 0
dpp_version_of _ = 0

unfoldable pub board_def_from : BoardInfo → BoardDef
unfolding dpp_version_of
board_def_from bi = record {
  ns_per_sample = bi.ns_per_sample;
  ns_per_timetag = bi.ns_per_timetag;
  dpp_version = dpp_version_of bi.dpp_type;
  channels = bi.channels % 2 ^ 8;
  board_reg_id = bi.board_reg_id % 2 ^ 8;
}

unfoldable pub pack_board_def : BoardDef → ℕ
pack_board_def b =
    bit_or
      (bit_or
        (bit_or (bit_or (b.ns_per_sample % 2 ^ 6) (b.ns_per_timetag % 2 ^ 6 * 2 ^ 6))
          (b.dpp_version % 2 ^ 4 * 2 ^ 12))
        (b.channels % 2 ^ 8 * 2 ^ 16))
      (b.board_reg_id % 2 ^ 8 * 2 ^ 24)

unfoldable pub build_xdaq_header : List BoardDef → ℕ → ℕ → ℕ → List ℕ
unfolding pack_board_def
build_xdaq_header boards epoch_start_time ts0 ts1 =
    let nb = u32 (length boards) in
    u32 (6 + nb) ∷ key_frame ∷ nb ∷ ts0 ∷ ts1 ∷ epoch_start_time ∷ map pack_board_def boards

-- The words of the array in memory, lowest byte first.
unfoldable pub bytes_of : List ℕ → List ℕ
bytes_of [] = []
bytes_of (w ∷ ws) =
    (w % 2 ^ 8) ∷ (w / 2 ^ 8 % 2 ^ 8) ∷ (w / 2 ^ 16 % 2 ^ 8) ∷ (w / 2 ^ 24 % 2 ^ 8) ∷ bytes_of ws
