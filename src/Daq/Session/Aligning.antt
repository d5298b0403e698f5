-- ===== src/Daq/Session/Aligning.antt =====
-- The accesses of an alignment, board by board, begin no acquisition.
use caen_daq.Base.{
  All, Bool, List, Option, [], false, map, none, some, subst, suc, true, zero, ℕ, ◌∷◌,
}
use caen_daq.Base.Int.{ℤ}
use caen_daq.BoardRunner.Lifecycle.Responds.{Responds}
use caen_daq.ClockSync.Procedure.{ChainBoard, reg_sync}
use caen_daq.ClockSync.Procedure.Kept.{Keeps}
use caen_daq.Daq.Session.{chain_board, chain_options, read_nth, write_nth}
use caen_daq.Digitizer.{Digitizer}

module _ {D : Type 0} (ops : Digitizer D) (Acquiring Idle Closed : D → Type 0)
    (laws : Responds ops Acquiring Idle Closed) where
  write_nth-idle : (n : ℕ) (ds : List D) → All Idle ds → All Idle (write_nth ops n reg_sync 1 ds).1
  unfolding write_nth
  write_nth-idle n [] h = tt
  write_nth-idle zero (d ∷ ds) h = (laws.aligns d h.0, h.1)
  write_nth-idle (suc n) (d ∷ ds) h = (h.0, write_nth-idle n ds h.1)

  answered :
      (o : Option ℕ) (old : ℕ) (ds : List D)
      → All Idle ds
      → All Idle
          (elim o as (λ _. Bool × ℕ × List D) [
            | none ↦ (false, old, ds)
            | some v ↦ (true, v, ds)
          ]).2
  answered none old ds h = h
  answered (some v) old ds h = h

  read_nth-idle :
      (n address old : ℕ) (ds : List D) → All Idle ds → All Idle (read_nth ops n address old ds).2
  unfolding read_nth
  read_nth-idle n address old [] h = tt
  read_nth-idle zero address old (d ∷ ds) h =
      answered (ops.read_register address d).0 old ((ops.read_register address d).1 ∷ ds)
        (laws.looks address d h.0, h.1)
  read_nth-idle (suc n) address old (d ∷ ds) h = (h.0, read_nth-idle n address old ds h.1)

  abbrev pub ChainKeeps : ChainBoard (List D) → Type 0
  ChainKeeps = Keeps (chain_options D) (All Idle) (λ ms w h. h)

  chain_board-keeps : (chosen : ℤ) (i : ℕ) → ChainKeeps (chain_board ops chosen i)
  chain_board-keeps chosen i = record {
    writes = write_nth-idle i;
    reads = λ read e address old w h.
        subst
          (λ (f : Option (ℕ → ℕ → List D → Bool × ℕ × List D)). elim f [
            | none ↦ Unit
            | some g ↦ All Idle (g address old w).2
          ])
          e (read_nth-idle i address old w h);
  }

  pub chain_boards-keep :
      (chosen : ℤ) (order : List ℕ) → All ChainKeeps (map (chain_board ops chosen) order)
  chain_boards-keep chosen [] = tt
  chain_boards-keep chosen (i ∷ order) =
      (chain_board-keeps chosen i, chain_boards-keep chosen order)
