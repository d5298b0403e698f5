-- ===== src/Base/Bits.antt =====
-- `|` on words whose bits do not overlap is a sum.
use caen_daq.Base.{
  ap, arith, bit_or, max, refl, suc, zero, ℕ, ◌%◌, ◌*◌, ◌+◌, ◌/◌, ◌<◌, ◌^◌, ◌≡◌, ◌≤◌,
}
use Prim.Native.Nat.{digits, bit_or-bitwise}
use native.Mathlib.Nat.{pow-suc}

-- The definition that the native operation stands for, on fuel.
abbrev or_digits : ℕ → ℕ → ℕ → ℕ
or_digits n a b = digits (λ b. b) max n a b

or_digits_fuel : (n m a b : ℕ) → a ≤ n → a ≤ m → or_digits n a b ≡ or_digits m a b
or_digits_fuel zero zero a b p q = refl
or_digits_fuel zero (suc m) zero b p q = refl
or_digits_fuel zero (suc m) (suc a) b p q = absurd (omega arith)
or_digits_fuel (suc n) zero zero b p q = refl
or_digits_fuel (suc n) zero (suc a) b p q = absurd (omega arith)
or_digits_fuel (suc n) (suc m) zero b p q = refl
or_digits_fuel (suc n) (suc m) (suc a) b p q =
    omega (arith, or_digits_fuel n m (suc a / 2) (b / 2) (omega arith) (omega arith))

pub zero-bit_or : (b : ℕ) → bit_or 0 b ≡ b
zero-bit_or b = bit_or-bitwise 0 b

pub bit_or_step : (a b : ℕ) → bit_or a b ≡ bit_or (a / 2) (b / 2) * 2 + max (a % 2) (b % 2)
bit_or_step zero b = omega (arith, zero-bit_or b, zero-bit_or (b / 2))
bit_or_step (suc a) b = omega (
  arith,
  bit_or-bitwise (suc a) b,
  bit_or-bitwise (suc a / 2) (b / 2),
  or_digits_fuel a (suc a / 2) (suc a / 2) (b / 2) (omega arith) (omega arith),
)

-- A value of at most `k` bits, and another that is shifted past it.
pub bit_or_shifted : (k a b : ℕ) → a < 2 ^ k → bit_or a (b * 2 ^ k) ≡ a + b * 2 ^ k
bit_or_shifted zero a b h =
    omega (arith, zero-bit_or (b * 2 ^ 0), ap (λ (n : ℕ). bit_or n (b * 2 ^ 0)) zero_a)
  where
    zero_a : a ≡ 0
    zero_a = omega arith
bit_or_shifted (suc k) a b h = rw double (
    omega (
      arith,
      bit_or_step a (b * 2 ^ k * 2),
      bit_or_shifted k (a / 2) b (omega (arith, pow-suc 2 k)),
      ap (bit_or (a / 2)) halves,
    ))
  where
    double : b * 2 ^ suc k ≡ b * 2 ^ k * 2
    double = omega (arith, ap (λ (n : ℕ). b * n) (pow-suc 2 k))

    halves : b * 2 ^ k * 2 / 2 ≡ b * 2 ^ k
    halves = omega arith
