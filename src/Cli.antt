-- ===== src/Cli.antt =====
-- apps/caendaq_cli.cpp: the command line and the run that it asks for.
pub mod Numbers
pub mod Arguments
pub mod Begin
pub mod Finish
use caen_daq.Base.{
  inl, inr, suc, zero, Bool, Option, [], false, if◌then◌else◌, leb, ltb, none, not, some, true, ℕ,
  ◌&&◌, ◌*◌, ◌+◌, ◌-◌, ◌==◌, ◌^◌, ◌||◌, ◌∷◌, ◌⊎◌, List,
}
use caen_daq.Base.Words.{u32}
use caen_daq.Board.{codes, Text, DppType, pha, psd}
use caen_daq.CaenDigitizer.Config.{clamp_ulong, hex_digit, negate_ulong, skip_spaces, starts_hex}
use caen_daq.Writer.Names.{same_text}
use caen_daq.Base.Int.{ℤ, pos, negsuc}

-- The value of a decimal digit.
abbrev pub dec_digit : ℕ → Option ℕ
dec_digit c = if leb 48 c && leb c 57 then some (c - 48) else none

-- An octal digit's
abbrev pub oct_digit : ℕ → Option ℕ
oct_digit c = if leb 48 c && leb c 55 then some (c - 48) else none

-- The digits at the front in a base, after the value `acc`.
unfoldable pub value_in : ℕ → (ℕ → Option ℕ) → ℕ → Text → ℕ
value_in base digit acc [] = acc
value_in base digit acc (c ∷ t) = elim (digit c) [
  | none ↦ acc
  | some d ↦ value_in base digit (acc * base + d) t
]

-- "0x" before a digit: base 16; "0": base 8; else base 10.
unfoldable pub unsigned_any : Text → ℕ
unsigned_any [] = 0
unsigned_any (c ∷ []) = value_in 10 dec_digit 0 (c ∷ [])
unsigned_any (c ∷ x ∷ t) =
    if not (c == b'0')
    then value_in 10 dec_digit 0 (c ∷ x ∷ t)
    else (if (x == b'x' || x == b'X') && starts_hex t
        then value_in 16 hex_digit 0 t
        else value_in 8 oct_digit 0 (x ∷ t))

-- `std::strtoull(s, nullptr, 0)`
unfoldable pub parse_u64 : Text → ℕ
parse_u64 text = elim (skip_spaces text) [
  | [] ↦ 0
  | c ∷ t ↦
      if c == b'-'
      then negate_ulong (unsigned_any t)
      else (if c == b'+' then clamp_ulong (unsigned_any t) else clamp_ulong (unsigned_any (c ∷ t)))
]

-- What is set on the command line.
pub record CliArgs : Type 0 where
  pub dir : Text
  pub run : ℕ  -- uint32
  pub max_size : ℕ  -- uint64
  pub write_head : Bool
  pub decode : Bool
  pub run_seconds : ℕ  -- uint32
  pub mock_rate : ℕ  -- uint32
  pub name : Text
  pub mock : Bool
  pub dpp : DppType
  pub config_path : Text
  pub conn_type : ℤ  -- int
  pub link_num : ℤ  -- int
  pub node : ℤ  -- int
  pub vme_base : ℕ  -- uint32

abbrev pub default_args : CliArgs
default_args = record {
  dir = codes "./data";
  run = 0;
  max_size = 0;
  write_head = true;
  decode = false;
  run_seconds = 0;
  mock_rate = 200;
  name = codes "V1730";
  mock = true;
  dpp = psd;
  config_path = [];
  conn_type = pos 0;
  link_num = pos 0;
  node = pos 0;
  vme_base = 0;
}

pub data CliOption : Type 0 where
  opt_run opt_dir opt_board opt_dpp opt_config opt_maxsize opt_seconds opt_rate opt_no_header
        opt_decode opt_caen opt_help opt_unknown :
      CliOption

-- The options in the order of the tests
abbrev pub cli_options : List (Text × CliOption)
cli_options =
    (codes "--run", opt_run)
    ∷ (codes "--dir", opt_dir)
    ∷ (codes "--board", opt_board)
    ∷ (codes "--dpp", opt_dpp)
    ∷ (codes "--config", opt_config)
    ∷ (codes "--maxsize", opt_maxsize)
    ∷ (codes "--seconds", opt_seconds)
    ∷ (codes "--rate", opt_rate)
    ∷ (codes "--no-header", opt_no_header)
    ∷ (codes "--decode", opt_decode)
    ∷ (codes "--caen", opt_caen)
    ∷ (codes "-h", opt_help)
    ∷ (codes "--help", opt_help)
    ∷ []

unfoldable pub find_option : Text → List (Text × CliOption) → CliOption
find_option a [] = opt_unknown
find_option a ((name, o) ∷ options) = if same_text a name then o else find_option a options

-- `static_cast<int>`
abbrev pub to_int : ℕ → ℤ
to_int n = let v = u32 n in if ltb v (2 ^ 31) then pos v else negsuc (2 ^ 32 - 1 - v)

abbrev pub dpp_of : Text → DppType
dpp_of v =
    if same_text v (codes "pha") || same_text v (codes "PHA") || same_text v (codes "DPP-PHA")
    then pha
    else psd

-- An option with one value
abbrev pub set_value : CliOption → Text → CliArgs → Option CliArgs
set_value opt_run v a = some (record a { run = u32 (parse_u64 v) })
set_value opt_dir v a = some (record a { dir = v })
set_value opt_board v a = some (record a { name = v })
set_value opt_dpp v a = some (record a { dpp = dpp_of v })
set_value opt_config v a = some (record a { config_path = v })
set_value opt_maxsize v a = some (record a { max_size = parse_u64 v })
set_value opt_seconds v a = some (record a { run_seconds = u32 (parse_u64 v) })
set_value opt_rate v a = some (record a { mock_rate = u32 (parse_u64 v) })
set_value _ v a = none

abbrev pub set_caen : Text → Text → Text → Text → CliArgs → CliArgs
set_caen conn link node base a = record a {
  mock = false;
  conn_type = to_int (parse_u64 conn);
  link_num = to_int (parse_u64 link);
  node = to_int (parse_u64 node);
  vme_base = u32 (parse_u64 base);
}

-- Where the command line is not taken: at a call for help, exit code 0, or at an option that is
-- unknown or incomplete, exit code 2.
pub data CliStop : Type 0 where
  helped : CliStop
  refused_at : Text → CliStop

pub data CliEnd : Type 0 where
  settled : CliArgs → CliEnd
  stopped : CliStop → CliEnd

-- After one option: the number of arguments that it took, and the settings; or the stop.
abbrev pub CliNext : Type 0
CliNext = ℕ × CliArgs ⊎ CliStop

abbrev pub took_value : Text → Option CliArgs → CliNext
took_value a none = inr (refused_at a)
took_value a (some args) = inl (1, args)

abbrev pub with_value : Text → CliOption → List Text → CliArgs → CliNext
with_value a o [] args = inr (refused_at a)
with_value a o (v ∷ rest) args = took_value a (set_value o v args)

abbrev pub with_board : Text → List Text → CliArgs → CliNext
with_board a (conn ∷ link ∷ node ∷ base ∷ rest) args = inl (4, set_caen conn link node base args)
with_board a _ args = inr (refused_at a)

-- The test of one argument, with those behind it
abbrev pub apply_option : Text → CliOption → List Text → CliArgs → CliNext
apply_option a opt_no_header rest args = inl (0, record args { write_head = false })
apply_option a opt_decode rest args = inl (0, record args { decode = true })
apply_option a opt_help rest args = inr helped
apply_option a opt_caen rest args = with_board a rest args
apply_option a o rest args = with_value a o rest args

-- The loop over `argv`, with the number of arguments that the last option has taken.
unfoldable pub parse_loop : ℕ → List Text → CliArgs → CliEnd
parse_loop n [] args = settled args
parse_loop (suc n) (a ∷ rest) args = parse_loop n rest args
parse_loop zero (a ∷ rest) args = elim (apply_option a (find_option a cli_options) rest args) [
  | inr stop ↦ stopped stop
  | inl (n, args') ↦ parse_loop n rest args'
]

abbrev pub parse_args : List Text → CliEnd
parse_args argv = parse_loop 0 argv default_args
