-- ===== src/Daq/Master.antt =====
-- Daq::masterIndex and the roles that Daq::start gives to the boards.
pub mod Choice
use caen_daq.Base.{Bool, List, [], false, if◌then◌else◌, not, ℕ, ◌+◌, ◌==◌, ◌∷◌}
use caen_daq.Base.Int.{ltb_ℤ, negsuc, ℤ, pos}
use caen_daq.Board.{SyncRole, independent, master, slave}

-- What is asked of a runner: `synchronised()`, and `boardInfo().boardRegId`.
pub record Member : Type 0 where
  pub synchronised : Bool
  pub board_reg_id : ℕ

-- The loop from board `i` on, with `firstSynced` as an `int`.
unfoldable pub master_from : ℕ → ℤ → List Member → ℤ
master_from i first [] = first
master_from i first (r ∷ runners) =
    let skipped = master_from (i + 1) first runners in
    let later = master_from (i + 1) (if ltb_ℤ first (pos 0) then pos i else first) runners in
    if r.synchronised then (if r.board_reg_id == 0 then pos i else later) else skipped

unfoldable pub master_index : List Member → ℤ
unfolding master_from
master_index runners = master_from 0 (negsuc 0) runners

-- `static_cast<int>(i) == master`
abbrev pub is_master : ℕ → ℤ → Bool
is_master i (pos m) = i == m
is_master i (negsuc m) = false

-- The role of board `i`, once it is started or armed.
abbrev pub role_of : ℤ → ℕ → Member → SyncRole
role_of chosen i r =
    if not r.synchronised
    then SyncRole.independent
    else (if is_master i chosen then SyncRole.master else SyncRole.slave)
