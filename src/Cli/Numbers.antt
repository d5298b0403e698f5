-- ===== src/Cli/Numbers.antt =====
-- A number that is printed in decimal is read back.
use caen_daq.Base.{
  sym, ◌^◌, none, Option, [], Bool-cases, ap, arith, inl, inr, refl, some, suc, zero, ℕ, ◌%◌, ◌*◌,
  ◌+◌, ◌/◌, ◌<◌, ◌==◌, ◌∙◌, ◌∷◌, ◌≡◌, ◌≤◌,
}
use caen_daq.Writer.Names.{decimal, digits_from}
use caen_daq.CaenDigitizer.Config.{clamp_ulong}
use caen_daq.Cli.{parse_u64, unsigned_any, dec_digit, value_in}
use caen_daq.Board.{Text}

-- A first character that is no sign, no space and not the zero of another base
abbrev pub IsPlain : ℕ → Type 0
IsPlain c = (b'1' ≤ c) × (c ≤ b'9')

dec_digit-shown : (n : ℕ) → n < 10 → dec_digit (b'0' + n) ≡ some n
dec_digit-shown n h = ground arith

value_in-some :
    (base : ℕ) (digit : ℕ → Option ℕ) (acc c d : ℕ) (t : Text)
    → digit c ≡ some d
    → value_in base digit acc (c ∷ t) ≡ value_in base digit (acc * base + d) t
unfolding value_in
value_in-some base digit acc c d t e =
    ap (λ (o : Option ℕ). elim o [ none ↦ acc | some v ↦ value_in base digit (acc * base + v) t ]) e

value_in-digit :
    (acc n : ℕ) (t : Text)
    → n < 10
    → value_in 10 dec_digit acc ((b'0' + n) ∷ t) ≡ value_in 10 dec_digit (acc * 10 + n) t
value_in-digit acc n t h = value_in-some 10 dec_digit acc (b'0' + n) n t (dec_digit-shown n h)

pub value_in-digits :
    (fuel n : ℕ) (t : Text)
    → n < fuel
    → value_in 10 dec_digit 0 (digits_from fuel n t) ≡ value_in 10 dec_digit n t
unfolding digits_from
value_in-digits zero n t h = omega (arith, h)
value_in-digits (suc fuel) n t h = elim (Bool-cases (n / 10 == 0)) [
  | inl e ↦ rw e (
      value_in-digit 0 (n % 10) t (omega arith)
      ∙ ap (λ v. value_in 10 dec_digit v t) (ground (arith, e)))
  | inr e ↦ rw e (
      value_in-digits fuel (n / 10) ((b'0' + n % 10) ∷ t) (ground (arith, e))
      ∙ value_in-digit (n / 10) (n % 10) t (omega arith)
      ∙ ap (λ v. value_in 10 dec_digit v t) (omega arith))
]

-- The number that is left, from its first digit on
digits_from-starts :
    (fuel n : ℕ) (t : Text)
    → 0 < n
    → n < fuel
    → (c : ℕ) × (rest : Text) × (digits_from fuel n t ≡ c ∷ rest) × IsPlain c
unfolding digits_from
digits_from-starts zero n t h k = absurd (omega (arith, k))
digits_from-starts (suc fuel) n t h k = elim (Bool-cases (n / 10 == 0)) [
  | inl e ↦ rw e (b'0' + n % 10, t, refl, (ground (arith, e), omega arith))
  | inr e ↦ rw e (
      digits_from-starts fuel (n / 10) ((b'0' + n % 10) ∷ t) (ground (arith, e))
        (ground (arith, e)))
]

-- Behind a plain first character the text is read in base 10.
parse_plain :
    (c : ℕ) (rest : Text)
    → IsPlain c
    → parse_u64 (c ∷ rest) ≡ clamp_ulong (value_in 10 dec_digit 0 (c ∷ rest))
unfolding parse_u64 unsigned_any
parse_plain c [] h = ground arith
parse_plain c (x ∷ rest) h = ground arith

-- The options read back every number below 2^64 that is written in decimal.
pub parse_u64-decimal : (n : ℕ) → n < 2 ^ 64 → parse_u64 (decimal n) ≡ n
unfolding decimal parse_u64 unsigned_any value_in digits_from
parse_u64-decimal zero h = refl
parse_u64-decimal (suc n) h =
    let (c, rest, e, plain) =
      digits_from-starts (suc n + 1) (suc n) [] (omega arith) (omega arith) in
    ap parse_u64 e
    ∙ parse_plain c rest plain
    ∙ ap (λ t. clamp_ulong (value_in 10 dec_digit 0 t)) (sym e)
    ∙ ap clamp_ulong (value_in-digits (suc n + 1) (suc n) [] (omega arith))
    ∙ omega (arith, h)
