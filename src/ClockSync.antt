-- ===== src/ClockSync.antt =====
-- src/ClockSync.cpp: the boards that share a daisy-chained clock, and their alignment.
pub mod Order
pub mod Procedure
use caen_daq.Base.Int.{pos}
use caen_daq.Base.{
  Bool, List, Option, [], false, if◌then◌else◌, length, ltb, none, some, ℕ, ◌++◌, ◌+◌, ◌==◌, ◌||◌,
  ◌∷◌,
}
use caen_daq.Base.Int.{negsuc, ℤ}
use caen_daq.Base.Words.{test_bit}

-- `acq & kAcqControlExternalClock`
abbrev pub takes_clock : ℕ → Bool
takes_clock acq = test_bit acq 6

abbrev pub any_external : List ℕ → Bool
any_external [] = false
any_external (acq ∷ acqs) = takes_clock acq || any_external acqs

-- `haveMaster && i == masterIndex`
abbrev pub is_index : Option ℕ → ℕ → Bool
is_index none i = false
is_index (some m) i = m == i

-- The last loop, from board `i` on: the boards after the lead.
unfoldable pub chain_from : Option ℕ → ℕ → List ℕ → List ℕ
chain_from lead i [] = []
chain_from lead i (acq ∷ acqs) =
    let rest = chain_from lead (i + 1) acqs in
    if is_index lead i then rest else (if takes_clock acq then i ∷ rest else rest)

-- `haveMaster`: an index in range, else none
abbrev pub valid_master : ℤ → ℕ → Option ℕ
valid_master (pos m) n = if ltb m n then some m else none
valid_master (negsuc m) n = none

abbrev pub first_of : Option ℕ → List ℕ
first_of none = []
first_of (some m) = m ∷ []

unfoldable pub clock_chain_order : List ℕ → ℤ → List ℕ
unfolding chain_from
clock_chain_order acqs master_index =
    let lead = valid_master master_index (length acqs) in
    if any_external acqs then first_of lead ++ chain_from lead 0 acqs else []
