-- ===== src/Base/Words.antt =====
-- Unsigned machine words as native numbers: a sum or a product wraps by `%`, a shift right is a
-- division, and a shift with a mask of consecutive ones is a field.
use caen_daq.Base.{ℕ, ◌/◌, ◌%◌, ◌^◌, ◌<◌, ◌≡◌, Bool, arith, ◌==◌, if◌then◌else◌}

abbrev pub u32 : ℕ → ℕ
u32 n = n % 2 ^ 32

abbrev pub u64 : ℕ → ℕ
u64 n = n % 2 ^ 64

-- `(w >> lo) & ((1 << width) - 1)`
abbrev pub field : ℕ → ℕ → ℕ → ℕ
field w lo width = w / 2 ^ lo % 2 ^ width

-- Bit `k` of `w`, as the source tests it: `(w >> k) & 1`, or `(w & (1 << k)) != 0`.
abbrev pub test_bit : ℕ → ℕ → Bool
test_bit w k = w / 2 ^ k % 2 == 1

abbrev pub flag : Bool → ℕ
flag b = if b then 1 else 0

pub u32_small : (n : ℕ) → n < 2 ^ 32 → u32 n ≡ n
u32_small n h = omega arith

pub u64_small : (n : ℕ) → n < 2 ^ 64 → u64 n ≡ n
u64_small n h = omega arith
