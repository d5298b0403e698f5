-- ===== src/ClockSync/Procedure/Total.antt =====
-- The procedure comes to an end whatever the boards answer, with one state for each board.
use caen_daq.ClockSync.Procedure.{
  reg_vme, reg_status, check_all, check_board, judge, synchronise_clock_chain, ChainBoard,
  LockState, SyncOptions, realign, wait_ready,
}
use caen_daq.Base.{
  ◌&&◌, ◌||◌, Bool-cases, Option, Returns-bind, arith, false, inl, inr, leb, none, ok, some, true,
  ◌>>=◌, ◌∙◌, Bool, List, Returns, [], refl, suc, zero, ℕ, ◌+◌, ◌<◌, ◌∷◌, ◌≡◌,
}
use caen_daq.Base.Words.{test_bit}
use caen_daq.Queue.{is_ready}

-- The states are those of the boards, in their order.
unfoldable pub Match : {W : Type 0} → List (ChainBoard W) → List LockState → Type 0
Match [] [] = Unit
Match (b ∷ chain) (s ∷ states) = (s.name ≡ b.name) × (s.is_first ≡ b.is_first) × Match chain states
Match _ _ = ⊥

module _ {W : Type 0} (options : SyncOptions W) where
  wait_ready-Returns :
      (fuel : ℕ) (read : ℕ → ℕ → W → Bool × ℕ × W) (waited : ℕ) (seen : Bool) (status : ℕ) (w : W)
      → 0 < options.poll_ms
      → 0 < fuel
      → options.ready_timeout_ms < waited + fuel
      → Returns (λ _. Unit {0}) (wait_ready options fuel read waited seen status w)
  unfolding wait_ready
  wait_ready-Returns zero read waited seen status w pause some_fuel enough = absurd (omega arith)
  wait_ready-Returns (suc fuel) read waited seen status w pause some_fuel enough =
      elim (Bool-cases ((read reg_status status w).0 && test_bit (read reg_status status w).1 8)) [
        | inl is_ready ↦ rw is_ready tt
        | inr not_ready ↦ rw not_ready (elim (Bool-cases (leb options.ready_timeout_ms waited)) [
          | inl late ↦ rw late tt
          | inr early ↦ rw early (
              wait_ready-Returns fuel read (waited + options.poll_ms)
                (seen || (read reg_status status w).0) (read reg_status status w).1
                (options.sleep options.poll_ms (read reg_status status w).2) pause (ground arith)
                (ground arith))
        ])
      ]

  -- A check keeps whose state it is.
  judge_keeps :
      (read : ℕ → ℕ → W → Bool × ℕ × W) (s : LockState) (r : Bool × ℕ × W)
      → ((judge options read s r).0.name ≡ s.name)
        × ((judge options read s r).0.is_first ≡ s.is_first)
  judge_keeps read s (false, status, w) = (refl, refl)
  judge_keeps read s (true, status, w) =
      elim (Bool-cases
        (read reg_status status (options.sleep options.stable_ms (read reg_vme 0 w).2)).0) [
          | inl good ↦ rw good (refl, refl)
          | inr bad ↦ rw bad (refl, refl)
        ]

  check_board-Returns :
      (b : ChainBoard W) (s : LockState) (w : W)
      → 0 < options.poll_ms
      → Returns
          (λ (r : LockState × W). (r.0.name ≡ s.name) × (r.0.is_first ≡ s.is_first))
          (check_board options b s w)
  unfolding check_board
  check_board-Returns b s w pause = with_read b.read
    where
      with_read :
          (o : Option (ℕ → ℕ → W → Bool × ℕ × W))
          → Returns
              (λ (r : LockState × W). (r.0.name ≡ s.name) × (r.0.is_first ≡ s.is_first))
              (elim o [
                | none ↦ ok (s, w)
                | some read ↦
                    wait_ready options (options.ready_timeout_ms + 1) read 0 false 0 w >>= λ r.
                    ok (judge options read s r)
              ])
      with_read none = (refl, refl)
      with_read (some read) =
          Returns-bind (λ _. Unit {0}) _
            (wait_ready options (options.ready_timeout_ms + 1) read 0 false 0 w) _
            (wait_ready-Returns (options.ready_timeout_ms + 1) read 0 false 0 w pause (omega arith)
              (omega arith))
            λ r _. judge_keeps read s r

  check_all-Returns :
      (chain : List (ChainBoard W)) (states : List LockState) (w : W)
      → 0 < options.poll_ms
      → Match chain states
      → Returns (λ (r : List LockState × W). Match chain r.0) (check_all options chain states w)
  unfolding check_all Match
  check_all-Returns [] [] w pause m = tt
  check_all-Returns [] (s ∷ states) w pause m = absurd m
  check_all-Returns (b ∷ chain) [] w pause m = absurd m
  check_all-Returns (b ∷ chain) (s ∷ states) w pause m =
      Returns-bind _ _ (check_board options b s w) _ (check_board-Returns b s w pause) λ r same.
        Returns-bind (λ (r : List LockState × W). Match chain r.0) _
          (check_all options chain states r.1) _ (check_all-Returns chain states r.1 pause m.2)
          λ rest matched. (same.0 ∙ m.0, same.1 ∙ m.1, matched)

  realign-Match : (chain : List (ChainBoard W)) (w : W) → Match chain (realign options chain w).0
  unfolding realign Match
  realign-Match [] w = tt
  realign-Match (b ∷ chain) w = (refl, refl, realign-Match chain _)

-- Whatever the callbacks answer, null and failing ones included, the procedure returns, with one
-- state for each board of the chain, in the order of the chain. The pause between two polls is
-- not zero.
pub synchronise_clock_chain-Returns :
    {W : Type 0} (options : SyncOptions W) (chain : List (ChainBoard W)) (w : W)
    → 0 < options.poll_ms
    → Returns
        (λ (r : List LockState × W). Match chain r.0)
        (synchronise_clock_chain options chain w)
unfolding synchronise_clock_chain
synchronise_clock_chain-Returns options chain w pause =
    check_all-Returns options chain (realign options chain w).0 (realign options chain w).1 pause
      (realign-Match options chain w)
