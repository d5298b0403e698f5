-- ===== src/Daq/WriterLoop/Success.antt =====
-- The writer's thread on a system that does its part.
use caen_daq.Base.{
  length, ◌<◌, Bool-cases, List, Option, [], ap, false, inl, inr, none, refl, some, sym, true, ℕ,
  ◌++◌, ◌||◌, ◌∙◌, ◌∷◌, ◌≡◌,
}
use caen_daq.Writer.Layout.{Owns, all_bytes}
use mathlib.Core.List.{append_assoc, append-nil}
use caen_daq.Daq.WriterLoop.{LoopState, Round, flush_if, is_end, put_popped, writer_loop}
use caen_daq.Daq.WriterLoop.Bytes.{
  FewFiles, bytes_in, bytes_taken, put_popped-Put, put_popped-cases,
}
use caen_daq.Queue.{BlockPtr}
use caen_daq.Writer.{Io}
use caen_daq.Writer.Success.{Works, write-succeeds}

-- Every system call of every round succeeds.
unfoldable pub AllWork : List Round → Type 0
AllWork [] = Unit
AllWork (r ∷ rounds) = Works r.io × AllWork rounds

put_popped-succeeds :
    (io : Io) (block : Option BlockPtr) (s : LoopState)
    → Owns s.writer s.disk
    → length s.disk < 99999
    → Works io
    → s.writer.closed ≡ false
    → ((put_popped io block s).0 ≡ true) × ((put_popped io block s).1.writer.closed ≡ false)
unfolding put_popped
put_popped-succeeds io none s o free k going = (refl, going)
put_popped-succeeds io (some none) s o free k going = (refl, going)
put_popped-succeeds io (some (some bytes)) s o free k going =
    let (done, still) = write-succeeds io bytes s.writer s.disk o free k going in
    elim (put_popped-cases io bytes s) [
      | inl (_, e) ↦ rw e (refl, still)
      | inr (bad, e) ↦ cc (done, bad)
    ]

-- If every system call succeeds and the writer is open, no failure is reported, and the bytes of
-- all the blocks that the queue gave, until it was closed and empty, stand on the disk in their
-- order, behind what was there. The open part is the last file and its size is counted; in every
-- round there are fewer than 99999 files and the block is below 2^64 bytes.
pub writer_loop-succeeds :
    (rounds : List Round) (s : LoopState)
    → Owns s.writer s.disk
    → FewFiles rounds s
    → AllWork rounds
    → s.writer.closed ≡ false
    → ((writer_loop rounds s).failed ≡ s.failed)
      × (all_bytes (writer_loop rounds s).disk ≡ all_bytes s.disk ++ bytes_taken rounds)
unfolding writer_loop FewFiles AllWork
writer_loop-succeeds [] s o free k going = (refl, sym (append-nil (all_bytes s.disk)))
writer_loop-succeeds (r ∷ rounds) s o free k going = elim (Bool-cases (is_end r)) [
  | inl over ↦ rw over (refl, sym (append-nil (all_bytes s.disk)))
  | inr on ↦
      let (done, still) = put_popped-succeeds r.io r.block s o free.0 k.0 going in
      elim (put_popped-Put r.io r.block s o free.0 free.1) [
        | inl (_, put) ↦
            let (fine, e) =
              writer_loop-succeeds rounds
                (flush_if (r.timed_out || r.flush_due) (put_popped r.io r.block s).1) put.owns
                free.2 k.1 still in
            rw (on, done)
              (
                fine ∙ put.same,
                e
                    ∙ ap (λ (t : List ℕ). t ++ bytes_taken rounds) put.grew
                    ∙ append_assoc (all_bytes s.disk) (bytes_in r.block) (bytes_taken rounds),
              )
        | inr (off, failed) ↦ cc (done, off)
      ]
]
