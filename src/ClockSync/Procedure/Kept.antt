-- ===== src/ClockSync/Procedure/Kept.antt =====
-- The alignment keeps what each of its accesses keeps.
use caen_daq.Base.{
  false, not, ◌+◌, ◌||◌, All, Bool, List, Option-cases, Result, [], err, if-split, inl, inr, leb,
  ok, some, suc, zero, ℕ, ◌&&◌, ◌∷◌, ◌≡◌, ◌>>=◌,
}
use caen_daq.Base.Words.{test_bit}
use caen_daq.ClockSync.Procedure.{
  ChainBoard, LockState, SyncOptions, call_write, check_all, check_board, judge, realign,
  reg_status, reg_vme, synchronise_clock_chain, wait_ready,
}

module _ {W : Type 0} (options : SyncOptions W) (Good : W → Type 0)
    (sleeps : (ms : ℕ) (w : W) → Good w → Good (options.sleep ms w)) where
  -- What the callbacks of a board keep.
  pub record Keeps (b : ChainBoard W) : Type 0 where
    pub writes : (w : W) → Good w → Good (call_write options b.write w).1
    pub reads :
        (read : ℕ → ℕ → W → Bool × ℕ × W)
        → b.read ≡ some read
        → (address old : ℕ) (w : W) → Good w
        → Good (read address old w).2

  -- If there is a result, its world is still good.
  abbrev pub GoodIn : {A : Type 0} → (A → W) → Result A → Type 0
  GoodIn f (ok a) = Good (f a)
  GoodIn f (err e) = Unit

  realign-kept :
      (chain : List (ChainBoard W)) (w : W)
      → All Keeps chain
      → Good w
      → Good (realign options chain w).1
  unfolding realign
  realign-kept [] w k h = h
  realign-kept (b ∷ chain) w k h =
      let w' = (call_write options b.write w).1 in
      realign-kept chain (options.sleep options.settle_ms w') k.1
        (sleeps options.settle_ms w' (k.0.writes w h))

  wait_ready-kept :
      (read : ℕ → ℕ → W → Bool × ℕ × W)
      → ((address old : ℕ) (w : W) → Good w → Good (read address old w).2)
      → (fuel waited : ℕ) (seen : Bool) (status : ℕ) (w : W) → Good w
      → GoodIn (λ (r : Bool × ℕ × W). r.2) (wait_ready options fuel read waited seen status w)
  unfolding wait_ready
  wait_ready-kept read k zero waited seen status w h = tt
  wait_ready-kept read k (suc fuel) waited seen status w h =
      let (good, now, w') = read reg_status status w in
      let h' = k reg_status status w h in
      let P = GoodIn (λ (r : Bool × ℕ × W). r.2) in
      if-split P (good && test_bit now 8) (λ _. h')
        (λ _.
          if-split P (leb options.ready_timeout_ms waited) (λ _. h')
            (λ _.
              wait_ready-kept read k fuel (waited + options.poll_ms) (seen || good) now
                (options.sleep options.poll_ms w') (sleeps options.poll_ms w' h')))

  judge-kept :
      (read : ℕ → ℕ → W → Bool × ℕ × W)
      → ((address old : ℕ) (w : W) → Good w → Good (read address old w).2)
      → (s : LockState) (r : Bool × ℕ × W) → Good r.2
      → Good (judge options read s r).1
  judge-kept read k s (seen, status, w) h =
      let w1 = (read reg_vme 0 w).2 in
      let w2 = options.sleep options.stable_ms w1 in
      let h2 = k reg_status status w2 (sleeps options.stable_ms w1 (k reg_vme 0 w h)) in
      let P = λ (r : LockState × W). Good r.1 in
      if-split P (not seen) (λ _. h)
        (λ _. if-split P (read reg_status status w2).0 (λ _. h2) (λ _. h2))

  GoodIn-bind :
      {A B : Type 0} (f : A → W) (g : B → W) (m : Result A) (k : A → Result B)
      → GoodIn f m
      → ((a : A) → Good (f a) → GoodIn g (k a))
      → GoodIn g (m >>= k)
  GoodIn-bind f g (ok a) k h step = step a h
  GoodIn-bind f g (err e) k h step = tt

  check_board-kept :
      (b : ChainBoard W) (s : LockState) (w : W)
      → Keeps b
      → Good w
      → GoodIn (λ (r : LockState × W). r.1) (check_board options b s w)
  unfolding check_board
  check_board-kept b s w k h = elim (Option-cases b.read) [
    | inl e ↦ rw e h
    | inr (read, e) ↦
        let fuel = options.ready_timeout_ms + 1 in
        rw e (
          GoodIn-bind (λ (r : Bool × ℕ × W). r.2) (λ (r : LockState × W). r.1)
            (wait_ready options fuel read 0 false 0 w) (λ r. ok (judge options read s r))
            (wait_ready-kept read (k.reads read e) fuel 0 false 0 w h)
            (λ r g. judge-kept read (k.reads read e) s r g))
  ]

  check_all-kept :
      (chain : List (ChainBoard W)) (states : List LockState) (w : W)
      → All Keeps chain
      → Good w
      → GoodIn (λ (r : List LockState × W). r.1) (check_all options chain states w)
  unfolding check_all
  check_all-kept [] states w k h = h
  check_all-kept (b ∷ chain) [] w k h = h
  check_all-kept (b ∷ chain) (s ∷ states) w k h =
      GoodIn-bind (λ (r : LockState × W). r.1) (λ (r : List LockState × W). r.1)
        (check_board options b s w) _ (check_board-kept b s w k.0 h)
        (λ r g.
          GoodIn-bind (λ (r : List LockState × W). r.1) (λ (r : List LockState × W). r.1)
            (check_all options chain states r.1) _ (check_all-kept chain states r.1 k.1 g)
            (λ rest g'. g'))

  -- The world after an alignment
  pub synchronise_clock_chain-kept :
      (chain : List (ChainBoard W)) (w : W)
      → All Keeps chain
      → Good w
      → GoodIn (λ (r : List LockState × W). r.1) (synchronise_clock_chain options chain w)
  unfolding synchronise_clock_chain
  synchronise_clock_chain-kept chain w k h =
      let (states, w') = realign options chain w in
      check_all-kept chain states w' k (realign-kept chain w k h)
