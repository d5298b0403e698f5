-- ===== src/MockDigitizer.antt =====
-- src/MockDigitizer.cpp: a board that is made up. Times are in ns.
pub mod Aggregate
pub mod Registers
use caen_daq.Base.{
  Bool, List, Option, [], bit_xor, false, if◌then◌else◌, leb, ltb, max, min, none, not, some, suc,
  true, zero, ℕ, ◌%◌, ◌&&◌, ◌*◌, ◌++◌, ◌+◌, ◌-◌, ◌/◌, ◌==◌, ◌^◌, ◌||◌, ◌∷◌,
}
use caen_daq.Base.Words.{flag, u32, u64}
use caen_daq.CaenDigitizer.Config.{configure}
use caen_daq.CaenDigitizer.Operations.{read_register, send_sw_trigger, write_register}
use caen_daq.Digitizer.{BoardParams, Digitizer}
use caen_daq.Header.{bytes_of}
use caen_daq.Board.{codes, pha, BoardInfo, DppType, SyncRole, Text}

-- The buffer's bounds are left out: it grows as needed.
pub record MockOptions : Type 0 where
  pub rate_per_sec : ℕ
  pub waveforms : Bool
  pub trace_samples : ℕ
  pub fail_every : ℕ
  pub dpp : DppType
  pub board_id : ℕ
  pub start_mode : ℕ

pub record MockDigitizer : Type 0 where
  pub params : BoardParams
  pub opt : MockOptions
  pub info : BoardInfo
  pub is_open : Bool
  pub running : Bool
  pub registers : List (ℕ × ℕ)
  pub lfsr : ℕ  -- uint32
  pub counter : ℕ  -- uint64
  pub next_emit : ℕ
  pub started : ℕ

unfoldable pub mock_info : Text → MockOptions → BoardInfo
mock_info model opt = record {
  model_name = model;
  model = 730;
  channels = 16;
  board_reg_id = opt.board_id % 32;
  dpp_type = opt.dpp;
  ns_per_sample = 2;
  ns_per_timetag = 8;
  acquisition_control = opt.start_mode % 4;
  sync_role = SyncRole.independent;
}

unfoldable pub new_mock : BoardParams → MockOptions → MockDigitizer
unfolding mock_info
new_mock params opt = record {
  params = params;
  opt = opt;
  info = mock_info (codes "MOCK-V1730") opt;
  is_open = false;
  running = false;
  registers = [];
  lfsr = 0x1234567;
  counter = 0;
  next_emit = 0;
  started = 0;
}

-- xorshift32
unfoldable pub next_rand : ℕ → ℕ
next_rand x =
    let a = bit_xor x (u32 (x * 2 ^ 13)) in
    let b = bit_xor a (a / 2 ^ 17) in bit_xor b (u32 (b * 2 ^ 5))

unfoldable pub start_mock : ℕ → MockDigitizer → Bool × MockDigitizer
start_mock now s = (true, record s { running = true; counter = 0; next_emit = now; started = now })

-- The trace's shape: a baseline, a rise, a decay; a trace has fewer than 2^26 samples.
abbrev pub raw_sample : ℕ → ℕ
raw_sample idx =
    if leb 20 idx && ltb idx 30
    then 1000 + (idx - 20) * 250
    else (if leb 30 idx then 3500 - (idx - 30) * 30 else 1000)

abbrev pub trace_sample : ℕ → ℕ
trace_sample idx = max 300 (min 16383 (raw_sample idx))

-- Two samples in a word, from sample `s` on.
unfoldable pub trace_words : ℕ → ℕ → List ℕ
trace_words zero s = []
trace_words (suc n) s = (trace_sample s + trace_sample (s + 1) * 2 ^ 16) ∷ trace_words n (s + 2)

-- The last word of an event, after the pile-up flag was drawn, and the generator's state.
unfoldable pub data_word : DppType → ℕ → ℕ × ℕ
unfolding next_rand
data_word pha x =
    let p = next_rand x in
    let a = next_rand p in
    let b = next_rand a in
    ((8000 + (a % 1600 + b % 1600)) % 2 ^ 15 + flag (p % 20 == 0) * 2 ^ 15, b)
data_word dpp x =
    let p = next_rand x in
    let a = next_rand p in
    let b = next_rand a in
    let c = next_rand b in
    let qlong = (4800 + (a % 800 + b % 800 + c % 800)) % 2 ^ 16 in
    (qlong / 2 % 2 ^ 15 + flag (p % 20 == 0) * 2 ^ 15 + qlong * 2 ^ 16, c)

-- The time of event `e`: even events are evenly spaced, odd ones come after their partner.
unfoldable pub event_time : ℕ → ℕ → ℕ → ℕ → ℕ × ℕ
unfolding next_rand
event_time base pair_step e x =
    let t = base + e / 2 * pair_step in
    let a = next_rand x in
    let b = next_rand a in
    if e % 2 == 0
    then (t, x)
    else (if a % 3 == 0 then (t + 10, a) else (t + 1 + b % (pair_step / 2 + 1), b))

-- The words of `n` events from number `e` on.
unfoldable pub mock_event_words : DppType → ℕ → ℕ → ℕ → ℕ → ℕ → ℕ → List ℕ × ℕ
unfolding trace_words data_word event_time
mock_event_words dpp trace_len base pair_step zero e x = ([], x)
mock_event_words dpp trace_len base pair_step (suc n) e x =
    let (t, x1) = event_time base pair_step e x in
    let (word, x2) = data_word dpp x1 in
    let (rest, last) = mock_event_words dpp trace_len base pair_step n (e + 1) x2 in
    (((e % 2 * 2 ^ 31 + t % 2 ^ 31) ∷ trace_words trace_len 0) ++ word ∷ rest, last)

abbrev pub emits_trace : MockOptions → Bool
emits_trace opt = opt.waveforms && leb 2 opt.trace_samples

abbrev pub sample_count : MockOptions → ℕ
sample_count opt = if emits_trace opt then opt.trace_samples - opt.trace_samples % 16 else 0

abbrev pub at_least_one : ℕ → ℕ
at_least_one n = if n == 0 then 1 else n

abbrev pub emit_period : MockOptions → ℕ
emit_period opt = 1000000000 / at_least_one opt.rate_per_sec

-- The flag for a failed board, and the generator's state.
abbrev pub fail_flag : MockOptions → ℕ → ℕ × ℕ
fail_flag opt x =
    if opt.fail_every == 0
    then (0, x)
    else (flag (next_rand x % at_least_one opt.fail_every == 0), next_rand x)

-- One board aggregate: its words, and the generator's state.
unfoldable pub aggregate : MockDigitizer → List ℕ × ℕ
unfolding mock_event_words
aggregate s =
    let samples = sample_count s.opt in
    let x1 = next_rand s.lfsr in
    let events = 8 + x1 % 24 in
    let couple_size = u32 (2 + events * (2 + samples / 2)) in
    let agg_len = u32 (4 + couple_size) in
    let (fail, x2) = fail_flag s.opt x1 in
    let tick = at_least_one s.info.ns_per_sample in
    let now_ticks = (s.next_emit + emit_period s.opt - s.started) / tick in
    let span = emit_period s.opt / tick in
    let pair_step = at_least_one (span / ((events + 1) / 2)) in
    let (words, x3) =
      mock_event_words s.info.dpp_type (samples / 2) (now_ticks - span) pair_step events 0 x2 in
    (
      (0xA0000000 + agg_len % 2 ^ 28)
          ∷ (s.info.board_reg_id % 32 * 2 ^ 27 + fail * 2 ^ 26 + 1)
          ∷ s.counter % 2 ^ 23
          ∷ u32 s.counter
          ∷ couple_size
          ∷ (2 ^ 30 + 2 ^ 29 + (if emits_trace s.opt then 2 ^ 27 + samples / 8 % 2 ^ 16 else 0))
          ∷ words,
      x3,
    )

-- A read at the time `now`: nothing, if it is too early.
unfoldable pub read_mock : ℕ → MockDigitizer → Option (List ℕ) × MockDigitizer
unfolding aggregate
read_mock now s =
    let (words, x) = aggregate s in
    if not s.running || ltb now s.next_emit then (some [], s) else (
      some (bytes_of words),
      record s {
        lfsr = x;
        counter = u64 (s.counter + 1);
        next_emit = s.next_emit + emit_period s.opt;
      },
    )

-- `registers_[address] = value`
unfoldable pub put_register : ℕ → ℕ → List (ℕ × ℕ) → List (ℕ × ℕ)
put_register a v [] = (a, v) ∷ []
put_register a v ((a', v') ∷ rest) =
    let later = put_register a v rest in if a' == a then (a', v) ∷ rest else (a', v') ∷ later

-- An address that was never written is 0.
unfoldable pub get_register : ℕ → List (ℕ × ℕ) → ℕ
get_register a [] = 0
get_register a ((a', v') ∷ rest) = if a' == a then v' else get_register a rest

unfoldable pub mock_write_register : ℕ → ℕ → MockDigitizer → Bool × MockDigitizer
unfolding put_register
mock_write_register a v s =
    if not s.is_open
    then (false, s)
    else (true, record s { registers = put_register a v s.registers })

unfoldable pub mock_read_register : ℕ → MockDigitizer → Option ℕ × MockDigitizer
unfolding get_register
mock_read_register a s = (if not s.is_open then none else some (get_register a s.registers), s)

-- The board as the rest of the program uses it, with a clock that stands at `now`.
abbrev pub mock_digitizer : ℕ → Digitizer MockDigitizer
mock_digitizer now = record {
  open_board = λ s. (true, record s { is_open = true });
  configure = λ s. (true, s);
  start_mode = λ s. s.opt.start_mode;
  start_board = start_mock now;
  arm_board = start_mock now;
  send_sw_trigger = λ s. (true, s);
  read_board = read_mock now;
  write_register = mock_write_register;
  read_register = mock_read_register;
  stop_board = λ s. (true, record s { running = false });
  close_board = λ s. record s { is_open = false };
  info = λ s. s.info;
}
