-- ===== src/Daq/Master/Choice.antt =====
-- Which board becomes the master.
use caen_daq.Base.{
  Bool, List, Option, [], arith, if◌then◌else◌, none, refl, some, ℕ, ◌&&◌, ◌+◌, ◌==◌, ◌∷◌, ◌≡◌,
}
use caen_daq.Base.Int.{negsuc, ℤ, pos}
use caen_daq.Daq.Master.{Member, master_from, master_index}

abbrev pub leads : Member → Bool
leads r = r.synchronised && r.board_reg_id == 0

-- The first board, from number `i` on, that passes a test.
abbrev pub first_index : (Member → Bool) → ℕ → List Member → Option ℕ
first_index test i [] = none
first_index test i (r ∷ runners) = if test r then some i else first_index test (i + 1) runners

abbrev pub or_else : Option ℕ → ℤ → ℤ
or_else none other = other
or_else (some m) other = pos m

-- Once a synchronised board was seen, only one that leads takes its place.
master_from-seen :
    (i m : ℕ) (runners : List Member)
    → master_from i (pos m) runners ≡ or_else (first_index leads i runners) (pos m)
unfolding master_from
master_from-seen i m [] = refl
master_from-seen i m (r ∷ runners) = ground (arith, master_from-seen (i + 1) m runners)

master_from-unseen :
    (i : ℕ) (runners : List Member)
    → master_from i (negsuc 0) runners
      ≡ or_else
          (first_index leads i runners)
          (or_else (first_index (λ r. r.synchronised) i runners) (negsuc 0))
unfolding master_from
master_from-unseen i [] = refl
master_from-unseen i (r ∷ runners) =
    ground (arith, master_from-unseen (i + 1) runners, master_from-seen (i + 1) i runners)

-- The master is the first synchronised board with register id 0; without one, the first
-- synchronised board; without any, -1.
pub master_index_lem :
    (runners : List Member)
    → master_index runners
      ≡ or_else
          (first_index leads 0 runners)
          (or_else (first_index (λ r. r.synchronised) 0 runners) (negsuc 0))
unfolding master_index
master_index_lem runners = master_from-unseen 0 runners
