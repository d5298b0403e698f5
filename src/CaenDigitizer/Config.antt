-- ===== src/CaenDigitizer/Config.antt =====
-- CaenDigitizer::configure: the register dump or the configuration file, then the readout buffer.
use caen_daq.Base.{
  Bool, List, Option, [], false, if◌then◌else◌, leb, length, min, none, not, some, true, ℕ, ◌%◌,
  ◌&&◌, ◌*◌, ◌+◌, ◌-◌, ◌==◌, ◌^◌, ◌||◌, ◌∷◌,
}
use caen_daq.Base.Words.{u32}
use caen_daq.CaenDigitizer.{
  CaenDigitizer, Driver, call, clear_error, has_buffer, has_driver, is_fault, refresh_board_info,
}
use caen_daq.Base.Int.{ℤ, pos, negsuc}
use caen_daq.Board.{Text}

-- A member of the dump's "registers": its "address" and its "value", if it has them, as text.
pub record DumpEntry : Type 0 where
  pub address : Option Text
  pub value : Option Text

abbrev pub is_space : ℕ → Bool
is_space c = c == 32 || leb 9 c && leb c 13

abbrev pub skip_spaces : Text → Text
skip_spaces [] = []
skip_spaces (c ∷ t) = if is_space c then skip_spaces t else c ∷ t

-- The value of a hexadecimal digit.
abbrev pub hex_digit : ℕ → Option ℕ
hex_digit c =
    if leb 48 c && leb c 57
    then some (c - 48)
    else (if leb 97 c && leb c 102
        then some (c - 87)
        else (if leb 65 c && leb c 70 then some (c - 55) else none))

-- The digits at the front, after the value `acc`.
unfoldable pub hex_value : ℕ → Text → ℕ
hex_value acc [] = acc
hex_value acc (c ∷ t) = elim (hex_digit c) [ none ↦ acc | some d ↦ hex_value (acc * 16 + d) t ]

abbrev pub starts_hex : Text → Bool
starts_hex [] = false
starts_hex (c ∷ t) = elim (hex_digit c) [ none ↦ false | some d ↦ true ]

-- "0x" is passed over where a digit follows it.
abbrev pub skip_prefix : Text → Text
skip_prefix (z ∷ x ∷ t) = if z == 48 && (x == 120 || x == 88) && starts_hex t then t else z ∷ x ∷ t
skip_prefix t = t

-- `ULONG_MAX` stands for what is too large; a minus sign negates what is not.
abbrev pub clamp_ulong : ℕ → ℕ
clamp_ulong n = min n (2 ^ 64 - 1)

abbrev pub negate_ulong : ℕ → ℕ
negate_ulong n = if leb (2 ^ 64) n then 2 ^ 64 - 1 else (2 ^ 64 - n) % 2 ^ 64

abbrev pub unsigned_hex : Text → ℕ
unsigned_hex t = hex_value 0 (skip_prefix t)

-- `std::strtoul(text, nullptr, 16)`
unfoldable pub strtoul_16 : Text → ℕ
unfolding hex_value
strtoul_16 text = elim (skip_spaces text) [
  | [] ↦ 0
  | c ∷ t ↦
      if c == 45
      then negate_ulong (unsigned_hex t)
      else (if c == 43 then clamp_ulong (unsigned_hex t) else clamp_ulong (unsigned_hex (c ∷ t)))
]

-- The driver's error -60: the file is not found.
abbrev pub is_missing : ℤ → Bool
is_missing (pos n) = false
is_missing (negsuc n) = n == 59

module _ {V : Type 0} (drv : Driver V) where
  -- `FreeReadoutBuffer` on the address of the pointer, if it is not null.
  unfoldable pub free_at : Option ℕ → CaenDigitizer V → CaenDigitizer V
  unfolding call
  free_at none s = s
  free_at (some b) s = record (call (drv.free_buffer b) s) { readout_buffer = none }

  -- The buffer is given back; its size stays.
  unfoldable pub free_only : CaenDigitizer V → CaenDigitizer V
  unfolding free_at
  free_only s = free_at s.readout_buffer s

  unfoldable pub release_buffer : CaenDigitizer V → CaenDigitizer V
  unfolding free_only
  release_buffer s = if has_buffer s then record (free_only s) { buffer_size = 0 } else s

  unfoldable pub allocate_buffer : CaenDigitizer V → Bool × CaenDigitizer V
  allocate_buffer s = elim s.dgtz [
    | none ↦ (false, s)
    | some v ↦
        let (b, size, e, v') = drv.malloc_buffer (pos 0) v in
        let s' = record s { errcode = e; dgtz = some v'; readout_buffer = b; buffer_size = size } in
        (not (is_fault e || not (has_buffer s')), s')
  ]

module _ {V : Type 0} (drv : Driver V) (registers : Text → Option (List DumpEntry)) where
  -- One register of the dump. An error is tolerated.
  unfoldable pub apply_entry : DumpEntry → CaenDigitizer V → CaenDigitizer V
  unfolding call
  apply_entry r s = elim r.address [
    | none ↦ s
    | some a ↦ elim r.value [
      | none ↦ s
      | some v ↦
          clear_error
            (call (drv.write_register (u32 (strtoul_16 a)) (u32 (strtoul_16 v))) (clear_error s))
    ]
  ]

  unfoldable pub apply_entries : List DumpEntry → CaenDigitizer V → CaenDigitizer V
  unfolding apply_entry
  apply_entries [] s = s
  apply_entries (r ∷ rs) s = apply_entries rs (apply_entry r s)

  -- `registers path`: the members of "registers" in the JSON file, if it is one that has them.
  unfoldable pub apply_register_dump : Text → CaenDigitizer V → Bool × CaenDigitizer V
  unfolding apply_entries
  apply_register_dump path s = elim (registers path) [
    | none ↦ (false, s)
    | some entries ↦ (true, apply_entries entries s)
  ]

  -- The first part of `applyConfig`: false if the file is not found.
  unfoldable pub load_config : CaenDigitizer V → Bool × CaenDigitizer V
  unfolding apply_register_dump call
  load_config s =
      let (handled, dumped) = apply_register_dump s.params.config_path s in
      let other = call (drv.configure_from_file s.params.config_path) (clear_error dumped) in
      if length s.params.config_path == 0
      then (true, s)
      else (if handled then (true, dumped) else (not (is_missing other.errcode), other))

  unfoldable pub apply_config : CaenDigitizer V → Bool × CaenDigitizer V
  unfolding load_config release_buffer allocate_buffer
  apply_config s =
      let (found, loaded) = load_config s in
      if not (has_driver s)
      then (false, s)
      else (if not found then (false, loaded) else allocate_buffer drv (release_buffer drv loaded))

  unfoldable pub configure : CaenDigitizer V → Bool × CaenDigitizer V
  unfolding apply_config
  configure s =
      let (done, s') = apply_config s in
      if not done
      then (false, s')
      else (true, record (refresh_board_info drv s') { configured = true })
