-- ===== src/Header/Parse.antt =====
-- A reader of the header, as its description has it, against the header that is built.
use caen_daq.Base.{
  ◌%◌, ◌∙◌, List, Option, [], ap, arith, drop, if◌then◌else◌, leb, length, length-append,
  length-map, map, none, refl, some, take, ℕ, ◌&&◌, ◌++◌, ◌+◌, ◌<◌, ◌==◌, ◌^◌, ◌∷◌, ◌≡◌,
}
use caen_daq.Histogram.{key}
use caen_daq.Base.Words.{u32_small}
use caen_daq.Header.{BoardDef, build_xdaq_header, pack_board_def}
use caen_daq.Header.Fields.{unpack-pack, unpack_board_def}

-- What a reader finds: the boards, the two words of the time, the start time, the payload.
pub record Parsed : Type 0 where
  pub boards : List BoardDef
  pub ts0 : ℕ
  pub ts1 : ℕ
  pub epoch_start_time : ℕ
  pub payload : List ℕ

-- The size word counts the six fixed words and one for each board; the key is that of the
-- description; the fields of a board are taken out of their bits.
unfoldable pub parse_header : List ℕ → Option Parsed
parse_header (h_size ∷ key ∷ nb ∷ ts0 ∷ ts1 ∷ epoch ∷ rest) =
    if key == 0xFA0201A0 && h_size == 6 + nb && leb nb (length rest)
    then some (record {
      boards = map unpack_board_def (take nb rest);
      ts0 = ts0;
      ts1 = ts1;
      epoch_start_time = epoch;
      payload = drop nb rest;
    })
    else none
parse_header _ = none

-- A board as the widths of its fields hold it
abbrev pub in_widths : BoardDef → BoardDef
in_widths b = record {
  ns_per_sample = b.ns_per_sample % 2 ^ 6;
  ns_per_timetag = b.ns_per_timetag % 2 ^ 6;
  dpp_version = b.dpp_version % 2 ^ 4;
  channels = b.channels % 2 ^ 8;
  board_reg_id = b.board_reg_id % 2 ^ 8;
}

unpack_all :
    (boards : List BoardDef)
    → map unpack_board_def (map pack_board_def boards) ≡ map in_widths boards
unpack_all [] = refl
unpack_all (b ∷ boards) =
    ap (λ (c : BoardDef). c ∷ map unpack_board_def (map pack_board_def boards)) (unpack-pack b).0
    ∙ ap (λ (t : List BoardDef). in_widths b ∷ t) (unpack_all boards)

take-append : (xs ys : List ℕ) → take (length xs) (xs ++ ys) ≡ xs
take-append [] ys = refl
take-append (x ∷ xs) ys = ap (λ (t : List ℕ). x ∷ t) (take-append xs ys)

drop-append : (xs ys : List ℕ) → drop (length xs) (xs ++ ys) ≡ ys
drop-append [] ys = refl
drop-append (x ∷ xs) ys = drop-append xs ys

-- A reader of the described header finds in what is written before the payload the boards in
-- their order, with the clock periods modulo 64, the firmware modulo 16, the number of channels and
-- the id modulo 256, then both words of the time, the start time and the payload itself, for fewer
-- than 2 ^ 32 - 6 boards.
pub parse-build :
    (boards : List BoardDef) (epoch ts0 ts1 : ℕ) (payload : List ℕ)
    → length boards + 6 < 2 ^ 32
    → parse_header (build_xdaq_header boards epoch ts0 ts1 ++ payload)
      ≡ some (record {
        boards = map in_widths boards;
        ts0 = ts0;
        ts1 = ts1;
        epoch_start_time = epoch;
        payload = payload;
      })
unfolding parse_header build_xdaq_header
parse-build boards epoch ts0 ts1 payload small =
    rw (u32_small (length boards) (omega arith), ← length-map pack_board_def boards)
      (ground (
        arith,
        take-append (map pack_board_def boards) payload,
        drop-append (map pack_board_def boards) payload,
        length-append (map pack_board_def boards) payload,
        length-map pack_board_def boards,
        unpack_all boards,
      ))
