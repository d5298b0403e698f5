-- ===== src/MockDigitizer/Registers.antt =====
-- Online tuning of a board that is made up.
use caen_daq.Base.{
  Bool, if-split, not, Bool-cases, ap, if_off, if_on, inl, inr, ◌∙◌, List, [], arith, if◌then◌else◌,
  refl, some, true, ℕ, ◌==◌, ◌∷◌, ◌≡◌,
}
use caen_daq.MockDigitizer.{
  MockDigitizer, get_register, mock_read_register, mock_write_register, put_register,
}

get-put :
    (a b v : ℕ) (regs : List (ℕ × ℕ))
    → get_register b (put_register a v regs) ≡ (if a == b then v else get_register b regs)
unfolding get_register put_register
get-put a b v [] = refl
get-put a b v ((a', v') ∷ rest) = ground (arith, get-put a b v rest)

-- On an open board a register that was written reads back as what was written, and every other
-- register as before; writing and reading succeed.
pub mock_write_register-reads :
    (a b v : ℕ) (s : MockDigitizer)
    → s.is_open ≡ true
    → ((mock_write_register a v s).0 ≡ true)
      × ((mock_read_register b (mock_write_register a v s).1).0
          ≡ (if a == b then some v else (mock_read_register b s).0))
unfolding mock_write_register mock_read_register
mock_write_register-reads a b v s h =
    let e = get-put a b v s.registers in
    elim (Bool-cases (a == b)) [
      | inl same ↦
          rw (h, same) (refl, ap some (e ∙ if_on (a == b) v (get_register b s.registers) same))
      | inr other ↦
          rw (h, other) (refl, ap some (e ∙ if_off (a == b) v (get_register b s.registers) other))
    ]

-- Only an open board takes a write.
mock_write_register-open :
    (a v : ℕ) (s : MockDigitizer) → (mock_write_register a v s).0 ≡ true → s.is_open ≡ true
unfolding mock_write_register
mock_write_register-open a v s =
    if-split (λ (r : Bool × MockDigitizer). r.0 ≡ true → s.is_open ≡ true) (not s.is_open)
      (λ shut. λ h. cc h) (λ still. λ h. ground arith)

-- What a board took, it reads back.
pub mock_write_register-kept :
    (a v : ℕ) (s : MockDigitizer)
    → (mock_write_register a v s).0 ≡ true
    → (mock_read_register a (mock_write_register a v s).1).0 ≡ some v
mock_write_register-kept a v s h =
    (mock_write_register-reads a a v s (mock_write_register-open a v s h)).1
    ∙ if_on (a == a) (some v) (mock_read_register a s).0 (ground arith)
