-- ===== src/Daq/Devices.antt =====
-- Daq::makeDigitizer: a simulated or a real board behind one interface.
use caen_daq.Base.{Bool, Option, if◌then◌else◌, inl, inr, length, none, some, ℕ, ◌⊎◌}
use caen_daq.Base.Int.{ℤ}
use caen_daq.Base.Words.{u32}
use caen_daq.CaenDigitizer.{CaenDigitizer, new_digitizer}
use caen_daq.Daq.Boards.{BoardSpec, add_board}
use caen_daq.Daq.Session.{Daq}
use caen_daq.Digitizer.{Digitizer}
use caen_daq.MockDigitizer.{MockDigitizer, MockOptions, new_mock}

-- A `std::unique_ptr<IDigitizer>`
abbrev pub AnyBoard : Type 0 → Type 0
AnyBoard V = MockDigitizer ⊎ CaenDigitizer V

abbrev pub map_answer : {A B C : Type 0} → (A → B) → C × A → C × B
map_answer f (c, a) = (c, f a)

-- The call goes to the kind of board that stands there.
abbrev pub on_either : {A B C : Type 0} → (A → C × A) → (B → C × B) → A ⊎ B → C × (A ⊎ B)
on_either f g (inl a) = map_answer (λ x. inl x) (f a)
on_either f g (inr b) = map_answer (λ x. inr x) (g b)

abbrev pub get_either : {A B C : Type 0} → (A → C) → (B → C) → A ⊎ B → C
get_either f g (inl a) = f a
get_either f g (inr b) = g b

abbrev pub close_either : {A B : Type 0} → (A → A) → (B → B) → A ⊎ B → A ⊎ B
close_either f g (inl a) = inl (f a)
close_either f g (inr b) = inr (g b)

abbrev pub either_ops : {A B : Type 0} → Digitizer A → Digitizer B → Digitizer (A ⊎ B)
either_ops f g = record {
  open_board = on_either f.open_board g.open_board;
  configure = on_either f.configure g.configure;
  start_mode = get_either f.start_mode g.start_mode;
  start_board = on_either f.start_board g.start_board;
  arm_board = on_either f.arm_board g.arm_board;
  send_sw_trigger = on_either f.send_sw_trigger g.send_sw_trigger;
  read_board = on_either f.read_board g.read_board;
  write_register = λ a v. on_either (f.write_register a v) (g.write_register a v);
  read_register = λ a. on_either (f.read_register a) (g.read_register a);
  stop_board = on_either f.stop_board g.stop_board;
  close_board = close_either f.close_board g.close_board;
  info = get_either f.info g.info;
}

-- What is passed on to a simulated board; the rest are its defaults.
abbrev pub mock_options_of : BoardSpec → ℕ → MockOptions
mock_options_of spec index = record {
  rate_per_sec = spec.mock_rate;
  waveforms = spec.mock_waveforms;
  trace_samples = 128;
  fail_every = spec.mock_fail_every;
  dpp = spec.mock_dpp;
  board_id = u32 index;
  start_mode = spec.mock_start_mode;
}

-- `with_caen`: the program was built with the driver's library.
unfoldable pub make_digitizer : {V : Type 0} → Bool → BoardSpec → ℕ → Option (AnyBoard V)
make_digitizer with_caen spec index =
    if spec.mock
    then some (inl (new_mock spec.params (mock_options_of spec index)))
    else (if with_caen then some (inr (new_digitizer spec.params)) else none)

-- `addBoard`, from the specification on
unfoldable pub add_spec :
    {V Frame : Type 0} → Bool → BoardSpec → Daq (AnyBoard V) Frame → ℤ × Daq (AnyBoard V) Frame
add_spec with_caen spec d = add_board spec (make_digitizer with_caen spec (length d.boards)) d
