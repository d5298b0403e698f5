-- ===== src/Cli/Arguments.antt =====
-- What a command line sets.
use caen_daq.Cli.{
  parse_args, default_args, find_option, parse_loop, set_caen, settled, CliArgs, dpp_of, parse_u64,
  to_int,
}
use caen_daq.Base.{
  if-split, Bool, [], ap, arith, false, if◌then◌else◌, inl, inr, not, refl, true, ℕ, ◌++◌, ◌-◌, ◌<◌,
  ◌^◌, ◌∙◌, ◌∷◌, ◌≡◌, ◌⊎◌, List,
}
use caen_daq.Base.Words.{u32}
use caen_daq.Board.{Text, DppType, pha, psd, codes}
use caen_daq.Cli.Numbers.{parse_u64-decimal}
use caen_daq.Writer.Names.{decimal, same_text}
use caen_daq.Base.Int.{ℤ, pos, negsuc}

-- The options that set everything in `a`
abbrev pub dpp_text : DppType → Text
dpp_text pha = codes "pha"
dpp_text _ = codes "psd"

abbrev pub of_int : ℤ → ℕ
of_int (pos n) = n
of_int (negsuc n) = 2 ^ 32 - 1 - n

abbrev pub flag_text : Bool → Text → List Text
flag_text true name = []
flag_text false name = name ∷ []

abbrev pub board_text : CliArgs → List Text
board_text a =
    if a.mock
    then []
    else codes "--caen"
      ∷ decimal (of_int a.conn_type)
      ∷ decimal (of_int a.link_num)
      ∷ decimal (of_int a.node)
      ∷ decimal a.vme_base
      ∷ []

abbrev pub flags_text : CliArgs → List Text
flags_text a =
    flag_text a.write_head (codes "--no-header")
    ++ (flag_text (not a.decode) (codes "--decode") ++ board_text a)

unfoldable pub args_text : CliArgs → List Text
args_text a =
    codes "--run"
    ∷ decimal a.run
    ∷ codes "--dir"
    ∷ a.dir
    ∷ codes "--board"
    ∷ a.name
    ∷ codes "--dpp"
    ∷ dpp_text a.dpp
    ∷ codes "--config"
    ∷ a.config_path
    ∷ codes "--maxsize"
    ∷ decimal a.max_size
    ∷ codes "--seconds"
    ∷ decimal a.run_seconds
    ∷ codes "--rate"
    ∷ decimal a.mock_rate
    ∷ flags_text a

-- An `int`
abbrev pub IsInt : ℤ → Type 0
IsInt (pos n) = n < 2 ^ 31
IsInt (negsuc n) = n < 2 ^ 31

-- The settings of a program: the numbers are in the range of their types, the firmware is one of
-- the two, and the address is that of a board where there is one.
pub record Settings (a : CliArgs) : Type 0 where
  pub run_ok : a.run < 2 ^ 32
  pub size_ok : a.max_size < 2 ^ 64
  pub seconds_ok : a.run_seconds < 2 ^ 32
  pub rate_ok : a.mock_rate < 2 ^ 32
  pub base_ok : a.vme_base < 2 ^ 32
  pub address_ok : IsInt a.conn_type × IsInt a.link_num × IsInt a.node
  pub firmware : (a.dpp ≡ pha) ⊎ (a.dpp ≡ psd)
  pub no_address :
      a.mock ≡ true
      → (a.conn_type ≡ pos 0) × (a.link_num ≡ pos 0) × (a.node ≡ pos 0) × (a.vme_base ≡ 0)

u32-decimal : (n : ℕ) → n < 2 ^ 32 → u32 (parse_u64 (decimal n)) ≡ n
u32-decimal n h = ap u32 (parse_u64-decimal n (omega (arith, h))) ∙ omega (arith, h)

to_int-decimal : (k : ℤ) → IsInt k → to_int (parse_u64 (decimal (of_int k))) ≡ k
to_int-decimal (pos n) h = ap to_int (parse_u64-decimal n (omega (arith, h))) ∙ ground (arith, h)
to_int-decimal (negsuc n) h =
    ap to_int (parse_u64-decimal (2 ^ 32 - 1 - n) (omega (arith, h))) ∙ ground (arith, h)

dpp_of-text : (d : DppType) → (d ≡ pha) ⊎ (d ≡ psd) → dpp_of (dpp_text d) ≡ d
unfolding same_text
dpp_of-text d (inl e) = rw e refl
dpp_of-text d (inr e) = rw e refl

-- The settings after the options with a value
abbrev after_values : CliArgs → CliArgs
after_values a = record default_args {
  run = u32 (parse_u64 (decimal a.run));
  dir = a.dir;
  name = a.name;
  dpp = dpp_of (dpp_text a.dpp);
  config_path = a.config_path;
  max_size = parse_u64 (decimal a.max_size);
  run_seconds = u32 (parse_u64 (decimal a.run_seconds));
  mock_rate = u32 (parse_u64 (decimal a.mock_rate));
}

parse_loop-values :
    (a : CliArgs)
    → parse_loop 0 (args_text a) default_args ≡ parse_loop 0 (flags_text a) (after_values a)
unfolding parse_loop find_option same_text args_text
parse_loop-values a = refl

parse_loop-header :
    (b : Bool) (rest : List Text) (args : CliArgs)
    → args.write_head ≡ true
    → parse_loop 0 (flag_text b (codes "--no-header") ++ rest) args
      ≡ parse_loop 0 rest (record args { write_head = b })
unfolding parse_loop find_option same_text
parse_loop-header true rest args e =
    ap (λ (b : Bool). parse_loop 0 rest (record args { write_head = b })) e
parse_loop-header false rest args e = refl

parse_loop-decode :
    (b : Bool) (rest : List Text) (args : CliArgs)
    → args.decode ≡ false
    → parse_loop 0 (flag_text (not b) (codes "--decode") ++ rest) args
      ≡ parse_loop 0 rest (record args { decode = b })
unfolding parse_loop find_option same_text
parse_loop-decode false rest args e =
    ap (λ (b : Bool). parse_loop 0 rest (record args { decode = b })) e
parse_loop-decode true rest args e = refl

-- With the flags read too
abbrev after_flags : CliArgs → CliArgs
after_flags a = record (after_values a) { write_head = a.write_head; decode = a.decode }

parse_loop-board :
    (a args : CliArgs)
    → (a.mock ≡ true → settled args ≡ settled a)
    → (a.mock ≡ false
        → set_caen
            (decimal (of_int a.conn_type))
            (decimal (of_int a.link_num))
            (decimal (of_int a.node))
            (decimal a.vme_base)
            args
          ≡ a)
    → parse_loop 0 (board_text a) args ≡ settled a
unfolding parse_loop find_option same_text
parse_loop-board a args f g =
    if-split (λ (t : List Text). parse_loop 0 t args ≡ settled a) a.mock f
      (λ off. ap (λ (v : CliArgs). settled v) (g off))

-- The numbers are those that were written.
after_flags_lem :
    (a : CliArgs)
    → Settings a
    → after_flags a
      ≡ record a { mock = true; conn_type = pos 0; link_num = pos 0; node = pos 0; vme_base = 0 }
after_flags_lem a s =
    rw
      (
        u32-decimal a.run s.run_ok,
        parse_u64-decimal a.max_size s.size_ok,
        u32-decimal a.run_seconds s.seconds_ok,
        u32-decimal a.mock_rate s.rate_ok,
        dpp_of-text a.dpp s.firmware,
      )
      refl

mock_lem :
    (a : CliArgs)
    → Settings a
    → a.mock ≡ true
    → record a { mock = true; conn_type = pos 0; link_num = pos 0; node = pos 0; vme_base = 0 } ≡ a
mock_lem a s on =
    let (conn, link, node, base) = s.no_address on in rw (on, conn, link, node, base) refl

board_lem :
    (a : CliArgs)
    → Settings a
    → a.mock ≡ false
    → set_caen
        (decimal (of_int a.conn_type))
        (decimal (of_int a.link_num))
        (decimal (of_int a.node))
        (decimal a.vme_base)
        (record a { mock = true; conn_type = pos 0; link_num = pos 0; node = pos 0; vme_base = 0 })
      ≡ a
board_lem a s off =
    let (conn, link, node) = s.address_ok in
    rw
      (
        to_int-decimal a.conn_type conn,
        to_int-decimal a.link_num link,
        to_int-decimal a.node node,
        u32-decimal a.vme_base s.base_ok,
        off,
      )
      refl

-- The options that are written for any settings set just these. The numbers are in the range of
-- their types, the firmware is PHA or PSD, and without a board there is no address.
pub parse_args-args_text : (a : CliArgs) → Settings a → parse_args (args_text a) ≡ settled a
parse_args-args_text a s =
    let values = after_values a in
    let headed = record values { write_head = a.write_head } in
    let plain = record a {
      mock = true;
      conn_type = pos 0;
      link_num = pos 0;
      node = pos 0;
      vme_base = 0;
    } in
    let rest = flag_text (not a.decode) (codes "--decode") ++ board_text a in
    let e1 = parse_loop-values a in
    let e2 = parse_loop-header a.write_head rest values refl in
    let e3 = parse_loop-decode a.decode (board_text a) headed refl in
    let e4 = ap (parse_loop 0 (board_text a)) (after_flags_lem a s) in
    let e5 =
      parse_loop-board a plain (λ on. ap (λ (v : CliArgs). settled v) (mock_lem a s on))
        (board_lem a s) in
    e1 ∙ e2 ∙ e3 ∙ e4 ∙ e5
