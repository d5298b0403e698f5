-- ===== src/Base/Results.antt =====
-- Results of code that reads a buffer by index or loops on fuel.
use mathlib.Core.Bool.{Bool, true, false}
use caen_daq.Base.Tests.{if◌then◌else◌}
use Prim.Native.Nat.{ℕ, zero, suc, ◌<◌}
use mathlib.Core.Path.{◌≡◌, refl}
use mathlib.Core.List.{List, [], ◌∷◌}
use mathlib.Core.Option.{none, some}
use native.Mathlib.Omega.{arith}
use caen_daq.Base.Lists.{length, get_elem?}

-- What the source leaves undefined, and what the model adds: a read past the end of an array,
-- and a loop that used up its fuel.
pub data Fault : Type 0 where
  out_of_bounds out_of_fuel : Fault

pub data Result {ℓ} (A : Type ℓ) : Type ℓ where
  ok : A → Result A
  err : Fault → Result A

infixl 5 ◌>>=◌
abbrev pub ◌>>=◌ {ℓ κ} : {A : Type ℓ} {B : Type κ} → Result A → (A → Result B) → Result B
ok a >>= f = f a
err e >>= f = err e

-- `buf[i]`
abbrev pub read {ℓ} : {A : Type ℓ} → List A → ℕ → Result A
read buf i = elim (get_elem? buf i) [ none ↦ err out_of_bounds | some w ↦ ok w ]

-- The code returns, and what it returns satisfies `P`.
abbrev pub Returns {ℓ} : {A : Type ℓ} → (A → Type 0) → Result A → Type 0
Returns P (ok a) = P a
Returns P (err e) = ⊥

pub Returns-bind {ℓ κ} :
    {A : Type ℓ} {B : Type κ} (P : A → Type 0) (Q : B → Type 0) (m : Result A) (f : A → Result B)
    → Returns P m
    → ((a : A) → P a → Returns Q (f a))
    → Returns Q (m >>= f)
Returns-bind P Q (ok a) f p q = q a p
Returns-bind P Q (err e) f p q = absurd p

pub Returns-weaken {ℓ} :
    {A : Type ℓ} (P Q : A → Type 0) (m : Result A)
    → Returns P m
    → ((a : A) → P a → Q a)
    → Returns Q m
Returns-weaken P Q (ok a) p q = q a p
Returns-weaken P Q (err e) p q = absurd p

-- A result that satisfies something is a value.
pub Returns-ok {ℓ} :
    {A : Type ℓ} (P : A → Type 0) (m : Result A) → Returns P m → (a : A) × (m ≡ ok a) × P a
Returns-ok P (ok a) p = (a, refl, p)
Returns-ok P (err e) p = absurd p

-- A read in range returns.
pub read-Returns {ℓ} :
    {A : Type ℓ} (buf : List A) (i : ℕ) → i < length buf → Returns (λ _. Unit {0}) (read buf i)
read-Returns [] i h = absurd (omega arith)
read-Returns (x ∷ xs) zero h = tt
read-Returns (x ∷ xs) (suc i) h = read-Returns xs i (omega arith)

-- Both branches of a test return what is wanted.
pub Returns-if {ℓ} :
    {A : Type ℓ} (P : A → Type 0) (b : Bool) (x y : Result A)
    → (b ≡ true → Returns P x)
    → (b ≡ false → Returns P y)
    → Returns P (if b then x else y)
Returns-if P true x y p q = p refl
Returns-if P false x y p q = q refl
