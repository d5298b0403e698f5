-- ===== src/Decoder/State/Registry.antt =====
-- The boards of a decoder: what is marked as supported has a known format.
use caen_daq.Base.{All, List, [], arith, some, true, ℕ, ◌∷◌, ◌≡◌}
use caen_daq.Board.{DppType, Text}
use caen_daq.Decoder.Frames.{FrameLib}
use caen_daq.Decoder.State.{BoardDec, Decoder, find, insert, new_board, register_board}

-- The entry of every board that is marked as supported has a frame of a known family.
abbrev pub IsKnown : {Frame : Type 0} (lib : FrameLib Frame) → ℕ × BoardDec Frame → Type 0
IsKnown lib e = e.1.supported ≡ true → lib.is_supported e.1.frame ≡ true

abbrev pub IsSound : {Frame : Type 0} (lib : FrameLib Frame) → Decoder Frame → Type 0
IsSound lib d = All (IsKnown lib) d.boards

module _ {Frame : Type 0} (lib : FrameLib Frame) where
  pub find-IsKnown :
      (k : ℕ) (m : List (ℕ × BoardDec Frame)) (bd : BoardDec Frame)
      → All (IsKnown lib) m
      → find k m ≡ some bd
      → bd.supported ≡ true
      → lib.is_supported bd.frame ≡ true
  unfolding find
  find-IsKnown k [] bd h e p = cc
  find-IsKnown k ((j, v) ∷ m) bd h e p = ground (arith, find-IsKnown k m bd h.1)

  pub insert-IsKnown :
      (k : ℕ) (m : List (ℕ × BoardDec Frame)) (bd : BoardDec Frame)
      → All (IsKnown lib) m
      → (bd.supported ≡ true → lib.is_supported bd.frame ≡ true)
      → All (IsKnown lib) (insert k bd m)
  unfolding insert
  insert-IsKnown k [] bd h p = (p, tt)
  insert-IsKnown k ((j, v) ∷ m) bd h p = ground (arith, insert-IsKnown k m bd h.1 p)

  -- Registering a board keeps the registry sound.
  pub register_board-IsSound :
      (id : ℕ) (dpp : DppType) (name : Text) (ps : ℕ) (d : Decoder Frame)
      → IsSound lib d
      → IsSound lib (register_board lib id dpp name ps d)
  unfolding register_board
  register_board-IsSound id dpp name ps d h =
      insert-IsKnown id d.boards (new_board lib dpp name ps) h (λ e. e)
