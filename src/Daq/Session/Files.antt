-- ===== src/Daq/Session/Files.antt =====
-- The end of a run, seen in the files.
use caen_daq.Base.{
  Bool, Bool-cases, List, [], ap, false, if_on, inl, inr, not, refl, some, true, ℕ, ◌&&◌, ◌++◌, ◌+◌,
  ◌∙◌, ◌∷◌, ◌≡◌,
}
use caen_daq.Daq.Session.{Daq, Env, drain_queue, last_blocks, loop_state, teardown_with}
use caen_daq.Daq.WriterLoop.{LoopState, Round, flush_if, put_popped, writer_loop}
use caen_daq.Daq.WriterLoop.Bytes.{FewFiles, bytes_in, bytes_taken}
use caen_daq.Daq.WriterLoop.Success.{AllWork, writer_loop-succeeds}
use caen_daq.Queue.{BlockPtr}
use caen_daq.Writer.{Io, Writer}
use caen_daq.Writer.Layout.{Owns, all_bytes}

-- What the writer's thread meets after the queue was closed.
abbrev pub last_rounds : (ℕ → Io × Bool) → ℕ → List BlockPtr → List Round
last_rounds answers i [] = []
last_rounds answers i (b ∷ items) =
    record { block = some b; timed_out = false; io = (answers i).0; flush_due = (answers i).1 }
    ∷ last_rounds answers (i + 1) items

abbrev pub queued_bytes : List BlockPtr → List ℕ
queued_bytes [] = []
queued_bytes (b ∷ items) = bytes_in (some b) ++ queued_bytes items

last_rounds-bytes :
    (answers : ℕ → Io × Bool) (i : ℕ) (items : List BlockPtr)
    → bytes_taken (last_rounds answers i items) ≡ queued_bytes items
last_rounds-bytes answers i [] = refl
last_rounds-bytes answers i (b ∷ items) =
    ap (λ t. bytes_in (some b) ++ t) (last_rounds-bytes answers (i + 1) items)

drain_queue-loop :
    (answers : ℕ → Io × Bool) (i : ℕ) (items : List BlockPtr) (s : LoopState)
    → (drain_queue answers i items s).0 ≡ writer_loop (last_rounds answers i items) s
unfolding drain_queue writer_loop
drain_queue-loop answers i [] s = refl
drain_queue-loop answers i (b ∷ items) s =
    let p = put_popped (answers i).0 (some b) s in
    let rest = drain_queue-loop answers (i + 1) items (flush_if (answers i).1 p.1) in
    elim (Bool-cases p.0) [ inl e ↦ rw e rest | inr e ↦ rw e refl ]

-- The writer's thread is up and has not failed, its writer is open and owns the last part, the
-- system does its part for every block that is left, there are fewer than 99999 files at each, and
-- no block has 2^64 bytes.
pub record CanFinish {D Frame : Type 0} (env : Env) (w : Writer) (d : Daq D Frame) : Type 0 where
  pub up : d.writer_up ≡ true
  pub sound : d.writer_failed ≡ false
  pub still_open : w.closed ≡ false
  pub owns : Owns w d.disk
  pub few : FewFiles (last_rounds env.last_writes 0 d.write_queue.items) (loop_state w d.disk false)
  pub works : AllWork (last_rounds env.last_writes 0 d.write_queue.items)

module _ {D Frame : Type 0} where
  last_blocks-drain :
      (env : Env) (w : Writer) (d : Daq D Frame)
      → d.writer_up ≡ true
      → d.writer_failed ≡ false
      → last_blocks env w d
        ≡ drain_queue env.last_writes 0 d.write_queue.items (loop_state w d.disk false)
  last_blocks-drain env w d up sound =
      let both : (d.writer_up && not d.writer_failed) ≡ true = rw (up, sound) refl in
      if_on (d.writer_up && not d.writer_failed)
        (drain_queue env.last_writes 0 d.write_queue.items (loop_state w d.disk false))
        (loop_state w d.disk d.writer_failed, d.write_queue.items) both

  pub teardown-written :
      (env : Env) (w : Writer) (d : Daq D Frame)
      → CanFinish env w d
      → (all_bytes (teardown_with env (some w) d).disk
          ≡ all_bytes d.disk ++ queued_bytes d.write_queue.items)
        × ((teardown_with env (some w) d).writer_failed ≡ false)
  unfolding teardown_with
  teardown-written env w d c =
      let items = d.write_queue.items in
      let e =
        ap (λ (r : LoopState × List BlockPtr). r.0) (last_blocks-drain env w d c.up c.sound) in
      let l = drain_queue-loop env.last_writes 0 items (loop_state w d.disk false) in
      let (fine, written) =
        writer_loop-succeeds (last_rounds env.last_writes 0 items) (loop_state w d.disk false)
          c.owns c.few c.works c.still_open in
      (
        ap (λ (s : LoopState). all_bytes s.disk) (e ∙ l)
            ∙ written
            ∙ ap (λ t. all_bytes d.disk ++ t) (last_rounds-bytes env.last_writes 0 items),
        ap (λ (s : LoopState). s.failed) (e ∙ l) ∙ fine,
      )
