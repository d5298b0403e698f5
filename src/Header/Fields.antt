-- ===== src/Header/Fields.antt =====
-- The fields of a packed word, read back as the header's description places them.
use caen_daq.Base.Bits.{bit_or_shifted}
use caen_daq.Base.{arith, ℕ, ◌%◌, ◌*◌, ◌+◌, ◌<◌, ◌^◌, ◌≡◌}
use caen_daq.Base.Words.{field}
use caen_daq.Header.{BoardDef, pack_board_def}

pack_sum :
    (b : BoardDef)
    → pack_board_def b
      ≡ b.ns_per_sample % 2 ^ 6
        + b.ns_per_timetag % 2 ^ 6 * 2 ^ 6
        + b.dpp_version % 2 ^ 4 * 2 ^ 12
        + b.channels % 2 ^ 8 * 2 ^ 16
        + b.board_reg_id % 2 ^ 8 * 2 ^ 24
unfolding pack_board_def
pack_sum b =
    rw (bit_or_shifted 6 (b.ns_per_sample % 2 ^ 6) (b.ns_per_timetag % 2 ^ 6) (omega arith)) (
      rw
        (bit_or_shifted 12 (b.ns_per_sample % 2 ^ 6 + b.ns_per_timetag % 2 ^ 6 * 2 ^ 6)
          (b.dpp_version % 2 ^ 4) (omega arith))
        (rw
          (bit_or_shifted 16
            (b.ns_per_sample % 2 ^ 6
              + b.ns_per_timetag % 2 ^ 6 * 2 ^ 6
              + b.dpp_version % 2 ^ 4 * 2 ^ 12)
            (b.channels % 2 ^ 8) (omega arith))
          (bit_or_shifted 24
            (b.ns_per_sample % 2 ^ 6
              + b.ns_per_timetag % 2 ^ 6 * 2 ^ 6
              + b.dpp_version % 2 ^ 4 * 2 ^ 12
              + b.channels % 2 ^ 8 * 2 ^ 16)
            (b.board_reg_id % 2 ^ 8) (omega arith))))

-- What a reader takes out of a packed word.
abbrev pub unpack_board_def : ℕ → BoardDef
unpack_board_def w = record {
  ns_per_sample = field w 0 6;
  ns_per_timetag = field w 6 6;
  dpp_version = field w 12 4;
  channels = field w 16 8;
  board_reg_id = field w 24 8;
}

-- The packed word of a board holds its clock periods modulo 64, its firmware modulo 16, its
-- number of channels and its id modulo 256, and fits in 32 bits.
pub unpack-pack :
    (b : BoardDef)
    → (unpack_board_def (pack_board_def b) ≡ record {
      ns_per_sample = b.ns_per_sample % 2 ^ 6;
      ns_per_timetag = b.ns_per_timetag % 2 ^ 6;
      dpp_version = b.dpp_version % 2 ^ 4;
      channels = b.channels % 2 ^ 8;
      board_reg_id = b.board_reg_id % 2 ^ 8;
    })
      × (pack_board_def b < 2 ^ 32)
unpack-pack b = rw (pack_sum b) (ground arith)
