-- ===== src/Daq/Session/Retry.antt =====
-- What is left for a second start after a first one that failed.
use caen_daq.Base.{
  if_off, if_on, Bool, Bool-cases, List, [], ap, inl, inr, sym, ◌++◌, ◌∙◌, ◌⊎◌, false, refl, true,
  ◌≡◌,
}
use caen_daq.Daq.Session.{
  prepare_first, start_after, abandon, align_clock_chain, choose_master, prepare_run, start_boards,
  start_run, stop_all, teardown_writer, trigger_master, Daq, Env, start_prepared,
}
use caen_daq.Daq.Session.Endings.{teardown-boards}
use caen_daq.Decoder.Frames.{FrameLib}
use caen_daq.Histogram.{Floats}
use caen_daq.Digitizer.{Digitizer}
use caen_daq.Queue.{BlockPtr, BlockQueue, push, push_enter}
use caen_daq.BoardRunner.Lifecycle.{Board}

push-closed :
    (b : BlockPtr) (q : BlockQueue) → q.closed ≡ true → ((push b q).0 ≡ false) × ((push b q).1 ≡ q)
unfolding push push_enter
push-closed b q h = rw h (refl, refl)

module _ {D Frame : Type 0} (ops : Digitizer D) where
  -- A failed start closes the queue, and nothing opens it again.
  abbrev Closes : Daq D Frame → Bool × Daq D Frame → Type 0
  Closes d r =
      ((d.write_queue.closed ≡ true) ⊎ (r.0 ≡ false) → r.1.write_queue.closed ≡ true)
      × (r.0 ≡ false → (r.1.running ≡ d.running) × (r.1.prepared ≡ d.prepared))

  abandoned :
      (env : Env) (tried left : List (Board D Frame)) (d : Daq D Frame)
      → ((abandon ops env tried left d).write_queue.closed ≡ true)
        × ((abandon ops env tried left d).running ≡ d.running)
        × ((abandon ops env tried left d).prepared ≡ d.prepared)
  unfolding abandon teardown_writer
  abandoned env tried left d =
      let stopped = stop_all ops env.in_time 0 tried d.write_queue in
      let t =
        teardown-boards ops env d.writer
          (record d { boards = stopped.0 ++ left; write_queue = stopped.1 }) in
      (t.1, t.2, t.3)

  start_prepared-Closes : (env : Env) (d : Daq D Frame) → Closes d (start_prepared ops env d)
  unfolding start_prepared
  start_prepared-Closes env d =
      let bs = align_clock_chain ops d.boards in
      let tries = start_boards ops (choose_master ops bs) 0 bs in
      let fired = trigger_master ops (choose_master ops bs) tries.1 in
      let ready = record d { writer_failed = false; writer_up = d.any_write } in
      elim (Bool-cases tries.0) [
        | inr e ↦ let a = abandoned env tries.1 tries.2 ready in rw e (λ _. a.0, λ _. (a.1, a.2))
        | inl e ↦ elim (Bool-cases fired.0) [
          | inr e' ↦
              let a = abandoned env fired.1 [] ready in rw (e, e') (λ _. a.0, λ _. (a.1, a.2))
          | inl e' ↦
              rw (e, e') (λ h. elim h [ inl shut_before ↦ shut_before | inr f ↦ cc f ], λ f. cc f)
        ]
      ]

module _ {D Frame : Type 0} (ops : Digitizer D) (lib : FrameLib Frame) (floats : Floats) where
  start_run-prepared :
      (env : Env) (d : Daq D Frame)
      → d.running ≡ false
      → d.prepared ≡ true
      → start_run ops lib floats env d ≡ start_prepared ops env d
  unfolding start_run prepare_run
  start_run-prepared env d off done =
      let p = if_on d.prepared (true, d) (prepare_first ops lib floats env d) done in
      if_off d.running (true, d) (start_after ops lib floats env (prepare_run ops lib floats env d))
        off
      ∙ ap (λ (r : Bool × Daq D Frame). start_after ops lib floats env r) p

  -- After a start of a prepared run that returns false, also a start that is tried again, and may
  -- return true, leaves the shared queue closed: every block that a board sends is refused, so
  -- that nothing more gets into the file.
  pub start_run-retry :
      (env later : Env) (d : Daq D Frame) (b : BlockPtr)
      → d.running ≡ false
      → d.prepared ≡ true
      → (start_run ops lib floats env d).0 ≡ false
      → (push b (start_run ops lib floats later (start_run ops lib floats env d).1).1.write_queue).0
        ≡ false
  start_run-retry env later d b off done failed =
      let first = start_prepared-Closes ops env d in
      let s = (start_prepared ops env d).1 in
      let e = start_run-prepared env d off done in
      let f : (start_prepared ops env d).0 ≡ false =
        ap (λ (r : Bool × Daq D Frame). r.0) (sym e) ∙ failed in
      let kept = first.1 f in
      let again = start_run-prepared later s (kept.0 ∙ off) (kept.1 ∙ done) in
      rw (e, again)
        (push-closed b (start_prepared ops later s).1.write_queue
          ((start_prepared-Closes ops later s).0 (inl (first.0 (inr f))))).0
