-- ===== src/CaenDigitizer/Links.antt =====
-- linkMutex of src/CaenDigitizer.cpp: one mutex for each physical link.
pub mod Sharing
use caen_daq.Base.{Bool, List, Option, [], if◌then◌else◌, none, some, ℕ, ◌&&◌, ◌+◌, ◌==◌, ◌∷◌}

-- A mutex is a number: how many were made before it.
pub record Links : Type 0 where
  pub registry : List ((ℕ × ℕ) × ℕ)
  pub made : ℕ

abbrev pub no_links : Links
no_links = record { registry = []; made = 0 }

abbrev pub same_link : ℕ × ℕ → ℕ × ℕ → Bool
same_link a b = a.0 == b.0 && a.1 == b.1

unfoldable pub find_link : ℕ × ℕ → List ((ℕ × ℕ) × ℕ) → Option ℕ
find_link k [] = none
find_link k ((k', m) ∷ links) = if same_link k' k then some m else find_link k links

unfoldable pub link_mutex : ℕ → ℕ → Links → ℕ × Links
unfolding find_link
link_mutex conn_type link_num s = elim (find_link (conn_type, link_num) s.registry) [
  | some m ↦ (m, s)
  | none ↦ (
    s.made,
    record { registry = ((conn_type, link_num), s.made) ∷ s.registry; made = s.made + 1 },
  )
]

-- The mutexes of boards that are made one after the other.
unfoldable pub link_mutexes : List (ℕ × ℕ) → Links → List ℕ × Links
unfolding link_mutex
link_mutexes [] s = ([], s)
link_mutexes (k ∷ ks) s =
    let (m, s1) = link_mutex k.0 k.1 s in let (ms, s2) = link_mutexes ks s1 in (m ∷ ms, s2)
