-- ===== src/Daq/Session/Endings.antt =====
-- How a start and a stop of all boards end.
use caen_daq.Base.{
  All, All-append, Bool, Bool-cases, List, Option, Result, [], err, false, if-split, inl, inr,
  length, ltb, map, none, ok, refl, some, subst, suc, sym, true, zero, ℕ, ◌++◌, ◌+◌, ◌∙◌, ◌∷◌, ◌≡◌,
  ◌⊎◌,
}
use caen_daq.Base.Int.{ℤ, pos, negsuc}
use caen_daq.BoardRunner.Lifecycle.{Board, stop}
use caen_daq.BoardRunner.Lifecycle.Responds.{
  CanStop, IsDown, IsQuiet, IsUp, Responds, Runs, start_reader-IsUp, started_one-ends, stop-IsDown,
  stop-IsQuiet,
}
use caen_daq.ClockSync.{clock_chain_order}
use caen_daq.ClockSync.Procedure.{ChainBoard, LockState, synchronise_clock_chain}
use caen_daq.ClockSync.Procedure.Kept.{GoodIn, synchronise_clock_chain-kept}
use caen_daq.Daq.Session.Aligning.{chain_boards-keep, ChainKeeps}
use caen_daq.Daq.Session.{
  Daq, Env, abandon, align_chain, align_clock_chain, chain_board, chain_options, choose_master,
  put_devs, start_boards, start_prepared, start_readers, stop_all, teardown_with, teardown_writer,
  trigger_master, trigger_nth,
}
use caen_daq.Digitizer.{Digitizer}
use caen_daq.Queue.{BlockQueue, close}
use caen_daq.Writer.{Writer}

module _ {D Frame : Type 0} (ops : Digitizer D) where
  pub teardown-boards :
      (env : Env) (o : Option Writer) (d : Daq D Frame)
      → ((teardown_with env o d).boards ≡ d.boards)
        × ((teardown_with env o d).write_queue.closed ≡ true)
        × ((teardown_with env o d).running ≡ d.running)
        × ((teardown_with env o d).prepared ≡ d.prepared)
  unfolding teardown_with close
  teardown-boards env none d = (refl, refl, refl, refl)
  teardown-boards env (some w) d = (refl, refl, refl, refl)

  pub abandon-boards :
      (env : Env) (tried left : List (Board D Frame)) (d : Daq D Frame)
      → ((abandon ops env tried left d).boards
          ≡ (stop_all ops env.in_time 0 tried d.write_queue).0 ++ left)
        × ((abandon ops env tried left d).write_queue.closed ≡ true)
        × ((abandon ops env tried left d).running ≡ d.running)
  unfolding abandon teardown_writer
  abandon-boards env tried left d =
      let stopped = stop_all ops env.in_time 0 tried d.write_queue in
      let t =
        teardown-boards env d.writer
          (record d { boards = stopped.0 ++ left; write_queue = stopped.1 }) in
      (t.0, t.1, t.2)

module _ {D Frame : Type 0} (ops : Digitizer D) (Acquiring Idle Closed : D → Type 0)
    (laws : Responds ops Acquiring Idle Closed) where
  abbrev Running : Board D Frame → Type 0
  Running = Runs ops Acquiring Idle Closed laws

  abbrev Up : Board D Frame → Type 0
  Up = IsUp ops Acquiring Idle Closed laws

  abbrev Quiet : Board D Frame → Type 0
  Quiet = IsQuiet ops Acquiring Idle Closed laws

  abbrev Down : Board D Frame → Type 0
  Down = IsDown ops Acquiring Idle Closed laws

  abbrev Stoppable : Board D Frame → Type 0
  Stoppable = CanStop ops Acquiring Idle Closed laws

  stop_all-Quiet :
      (in_time : ℕ → ℕ → Bool) (i : ℕ) (bs : List (Board D Frame)) (q : BlockQueue)
      → All Stoppable bs
      → All Quiet (stop_all ops in_time i bs q).0
  unfolding stop_all
  stop_all-Quiet in_time i [] q h = tt
  stop_all-Quiet in_time i (b ∷ bs) q h =
      let lent = record b { runner = record b.runner { write_queue = q } } in
      (
        stop-IsQuiet ops Acquiring Idle Closed laws (in_time i) lent h.0,
        stop_all-Quiet in_time (i + 1) bs (stop ops (in_time i) lent).runner.write_queue h.1,
      )

  pub stop_all-Down :
      (in_time : ℕ → ℕ → Bool) (i : ℕ) (bs : List (Board D Frame)) (q : BlockQueue)
      → All (λ b. b.running ≡ true) bs
      → All Down (stop_all ops in_time i bs q).0
  unfolding stop_all
  stop_all-Down in_time i [] q h = tt
  stop_all-Down in_time i (b ∷ bs) q h =
      let lent = record b { runner = record b.runner { write_queue = q } } in
      (
        stop-IsDown ops Acquiring Idle Closed laws (in_time i) lent h.0,
        stop_all-Down in_time (i + 1) bs (stop ops (in_time i) lent).runner.write_queue h.1,
      )

  -- All boards run, or those that were tried can be stopped and the others are quiet.
  abbrev Tried : Bool × List (Board D Frame) × List (Board D Frame) → Type 0
  Tried r = ((r.0 ≡ true) × All Running r.1) ⊎ ((r.0 ≡ false) × All Stoppable r.1 × All Quiet r.2)

  start_boards-Tried :
      (chosen : ℤ) (i : ℕ) (bs : List (Board D Frame))
      → All Quiet bs
      → Tried (start_boards ops chosen i bs)
  unfolding start_boards
  start_boards-Tried chosen i [] h = inl (refl, tt)
  start_boards-Tried chosen i (b ∷ bs) h =
      elim (started_one-ends ops Acquiring Idle Closed laws b h.0) [
        | inr (e, quiet) ↦ rw e (inr (refl, (inr quiet, tt), h.1))
        | inl (e, runs) ↦ rw e (elim (start_boards-Tried chosen (i + 1) bs h.1) [
          | inl (all, rest) ↦ inl (all, (runs, rest))
          | inr (f, tried, left) ↦ inr (f, (inl runs.0, tried), left)
        ])
      ]

  trigger_nth-Running :
      (m : ℕ) (bs : List (Board D Frame)) → All Running bs → All Running (trigger_nth ops m bs).1
  unfolding trigger_nth
  trigger_nth-Running m [] h = tt
  trigger_nth-Running zero (b ∷ bs) h = ((h.0.0, laws.fires b.dev h.0.1), h.1)
  trigger_nth-Running (suc m) (b ∷ bs) h = (h.0, trigger_nth-Running m bs h.1)

  trigger_master-Running :
      (chosen : ℤ) (bs : List (Board D Frame))
      → All Running bs
      → All Running (trigger_master ops chosen bs).1
  trigger_master-Running (pos m) bs h = trigger_nth-Running m bs h
  trigger_master-Running (negsuc m) bs h = h

  stoppable : (bs : List (Board D Frame)) → All Running bs → All Stoppable bs
  stoppable [] h = tt
  stoppable (b ∷ bs) h = (inl h.0.0, stoppable bs h.1)

  start_readers-Up : (bs : List (Board D Frame)) → All Running bs → All Up (start_readers ops bs)
  start_readers-Up [] h = tt
  start_readers-Up (b ∷ bs) h =
      (start_reader-IsUp ops Acquiring Idle Closed laws b h.0, start_readers-Up bs h.1)

  devices-idle : (bs : List (Board D Frame)) → All Quiet bs → All Idle (map (λ b. b.dev) bs)
  devices-idle [] h = tt
  devices-idle (b ∷ bs) h = (h.0.1, devices-idle bs h.1)

  put_devs-Quiet :
      (bs : List (Board D Frame)) (ds : List D)
      → All Quiet bs
      → All Idle ds
      → All Quiet (put_devs bs ds)
  unfolding put_devs
  put_devs-Quiet [] ds h k = tt
  put_devs-Quiet (b ∷ bs) [] h k = h
  put_devs-Quiet (b ∷ bs) (d ∷ ds) h k = ((h.0.0, k.0), put_devs-Quiet bs ds h.1 k.1)

  -- Whatever an alignment gives, the boards stay quiet.
  aligned :
      (bs : List (Board D Frame)) (m : Result (List LockState × List D))
      → All Quiet bs
      → GoodIn (chain_options D) (All Idle) (λ ms w h. h) (λ (r : List LockState × List D). r.1) m
      → All Quiet (elim m [ ok r ↦ put_devs bs r.1 | err e ↦ bs ])
  aligned bs (ok r) h k = put_devs-Quiet bs r.1 h k
  aligned bs (err e) h k = h

  align_chain-Quiet :
      (chain : List (ChainBoard (List D))) (bs : List (Board D Frame))
      → All (ChainKeeps ops Acquiring Idle Closed laws) chain
      → All Quiet bs
      → All Quiet (align_chain ops chain bs)
  unfolding align_chain
  align_chain-Quiet chain bs k h =
      let devs = map (λ (b : Board D Frame). b.dev) bs in
      if-split (All Quiet) (ltb (length chain) 2) (λ _. h)
        (λ _. aligned bs (synchronise_clock_chain (chain_options D) chain devs) h (
          synchronise_clock_chain-kept (chain_options D) (All Idle) (λ ms w h. h) chain devs k
            (devices-idle bs h)))

  align_clock_chain-Quiet :
      (bs : List (Board D Frame)) → All Quiet bs → All Quiet (align_clock_chain ops bs)
  unfolding align_clock_chain
  align_clock_chain-Quiet bs h =
      let chosen = choose_master ops bs in
      let order = clock_chain_order (map (λ b. b.board_info.acquisition_control) bs) chosen in
      align_chain-Quiet (map (chain_board ops chosen) order) bs
        (chain_boards-keep ops Acquiring Idle Closed laws chosen order) h

  abandon-Quiet :
      (env : Env) (tried left : List (Board D Frame)) (d : Daq D Frame)
      → All Stoppable tried
      → All Quiet left
      → All Quiet (abandon ops env tried left d).boards
  abandon-Quiet env tried left d h k =
      subst (All Quiet) (sym (abandon-boards ops env tried left d).0) (
        All-append Quiet (stop_all ops env.in_time 0 tried d.write_queue).0 left
          (stop_all-Quiet env.in_time 0 tried d.write_queue h) k)

  -- How the start of a set of boards ends.
  abbrev pub StartEnds : Bool × Daq D Frame → Type 0
  StartEnds r =
      ((r.0 ≡ true) × (r.1.running ≡ true) × All Up r.1.boards)
      ⊎ ((r.0 ≡ false) × (r.1.running ≡ false) × All Quiet r.1.boards)

  pub start_prepared-ends :
      (env : Env) (d : Daq D Frame)
      → d.running ≡ false
      → All Quiet d.boards
      → StartEnds (start_prepared ops env d)
  unfolding start_prepared
  start_prepared-ends env d off h =
      let bs = align_clock_chain ops d.boards in
      let chosen = choose_master ops bs in
      let tries = start_boards ops chosen 0 bs in
      let fired = trigger_master ops chosen tries.1 in
      let ready = record d { writer_failed = false; writer_up = d.any_write } in
      elim (start_boards-Tried chosen 0 bs (align_clock_chain-Quiet d.boards h)) [
        | inr (e, tried, left) ↦
            let a = abandon-boards ops env tries.1 tries.2 ready in
            rw e (inr (refl, a.2 ∙ off, abandon-Quiet env tries.1 tries.2 ready tried left))
        | inl (e, runs) ↦
            let going = trigger_master-Running chosen tries.1 runs in
            elim (Bool-cases fired.0) [
              | inr e' ↦
                  let a = abandon-boards ops env fired.1 [] ready in
                  rw (e, e')
                    (inr (
                      refl,
                      a.2 ∙ off,
                      abandon-Quiet env fired.1 [] ready (stoppable fired.1 going) tt,
                    ))
              | inl e' ↦ rw (e, e') (inl (refl, refl, start_readers-Up fired.1 going))
            ]
      ]
