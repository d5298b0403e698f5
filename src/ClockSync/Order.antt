-- ===== src/ClockSync/Order.antt =====
-- Which boards the chain holds, and in which order.
use caen_daq.Base.{
  Bool-cases, inl, inr, length, none, some, true, ◌||◌, ◌≤◌, Bool, List, Option, [], arith, false,
  not, refl, suc, zero, ℕ, ◌&&◌, ◌++◌, ◌+◌, ◌<◌, ◌==◌, ◌∷◌, ◌≡◌,
}
use caen_daq.Base.Int.{ℤ}
use caen_daq.ClockSync.{
  any_external, clock_chain_order, first_of, valid_master, chain_from, is_index, takes_clock,
}
use caen_daq.Base.Words.{flag}

-- How often a board stands in a list of indices.
abbrev pub times_in : ℕ → List ℕ → ℕ
times_in i [] = 0
times_in i (j ∷ js) = flag (j == i) + times_in i js

-- Board `i` exists and takes its clock from outside.
abbrev pub external_at : List ℕ → ℕ → Bool
external_at [] i = false
external_at (acq ∷ acqs) zero = takes_clock acq
external_at (acq ∷ acqs) (suc i) = external_at acqs i

times-append : (i : ℕ) (xs ys : List ℕ) → times_in i (xs ++ ys) ≡ times_in i xs + times_in i ys
times-append i [] ys = omega arith
times-append i (x ∷ xs) ys = omega (arith, times-append i xs ys)

-- No board before the first one looked at.
chain_from-below :
    (lead : Option ℕ) (i k : ℕ) (acqs : List ℕ) → i < k → times_in i (chain_from lead k acqs) ≡ 0
unfolding chain_from
chain_from-below lead i k [] h = refl
chain_from-below lead i k (acq ∷ acqs) h =
    ground (arith, chain_from-below lead i (k + 1) acqs (omega arith))

chain_from-times :
    (lead : Option ℕ) (k i j : ℕ) (acqs : List ℕ)
    → j ≡ k + i
    → times_in j (chain_from lead k acqs) ≡ flag (not (is_index lead j) && external_at acqs i)
unfolding chain_from
chain_from-times lead k i j [] h = ground arith
chain_from-times lead k zero j (acq ∷ acqs) h =
    ground (arith, chain_from-below lead j (k + 1) acqs (omega (arith, h)))
chain_from-times lead k (suc i) j (acq ∷ acqs) h =
    ground (arith, chain_from-times lead (k + 1) i j acqs (omega (arith, h)))

first_of-times : (lead : Option ℕ) (i : ℕ) → times_in i (first_of lead) ≡ flag (is_index lead i)
first_of-times none i = refl
first_of-times (some m) i = omega arith

-- If any board takes its clock from outside, the chain holds exactly the master, where its index
-- is in range, and every board that takes its clock from outside, each of them once; otherwise it
-- is empty.
pub clock_chain_order-members :
    (acqs : List ℕ) (master_index : ℤ) (i : ℕ)
    → times_in i (clock_chain_order acqs master_index)
      ≡ flag (
          any_external acqs
          && (is_index (valid_master master_index (length acqs)) i || external_at acqs i))
unfolding clock_chain_order
clock_chain_order-members acqs master_index i = elim (Bool-cases (any_external acqs)) [
  | inl some_external ↦ rw some_external (
      ground (
        arith,
        times-append i (first_of lead) (chain_from lead 0 acqs),
        first_of-times lead i,
        chain_from-times lead 0 i i acqs (omega arith),
      ))
  | inr no_external ↦ rw no_external refl
]
  where
    lead : Option ℕ
    lead = valid_master master_index (length acqs)

-- The indices ascend, and lie from `k` on.
abbrev pub AscendsFrom : ℕ → List ℕ → Type 0
AscendsFrom k [] = Unit
AscendsFrom k (i ∷ is) = (k ≤ i) × AscendsFrom (i + 1) is

ascends_later : (k l : ℕ) (is : List ℕ) → k ≤ l → AscendsFrom l is → AscendsFrom k is
ascends_later k l [] h a = tt
ascends_later k l (i ∷ is) h a = (omega (arith, a.0), a.1)

chain_from-ascends :
    (lead : Option ℕ) (k : ℕ) (acqs : List ℕ) → AscendsFrom k (chain_from lead k acqs)
unfolding chain_from
chain_from-ascends lead k [] = tt
chain_from-ascends lead k (acq ∷ acqs) =
    let later = ascends_later k (k + 1) (chain_from lead (k + 1) acqs) in
    elim (Bool-cases (is_index lead k)) [
      | inl same ↦ rw same (later (omega arith) (chain_from-ascends lead (k + 1) acqs))
      | inr other ↦ rw other (elim (Bool-cases (takes_clock acq)) [
        | inl clocked ↦ rw clocked (omega arith, chain_from-ascends lead (k + 1) acqs)
        | inr unclocked ↦ rw unclocked (later (omega arith) (chain_from-ascends lead (k + 1) acqs))
      ])
    ]

-- The master comes first, and the other boards of the chain follow in the order of the boards.
pub clock_chain_order-ascends :
    (acqs : List ℕ) (master_index : ℤ)
    → any_external acqs ≡ true
    → (rest : List ℕ) × (clock_chain_order acqs master_index
        ≡ first_of (valid_master master_index (length acqs)) ++ rest)
      × AscendsFrom 0 rest
unfolding clock_chain_order
clock_chain_order-ascends acqs master_index some_external = (
  chain_from (valid_master master_index (length acqs)) 0 acqs,
  rw some_external refl,
  chain_from-ascends (valid_master master_index (length acqs)) 0 acqs,
)
