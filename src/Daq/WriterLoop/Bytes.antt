-- ===== src/Daq/WriterLoop/Bytes.antt =====
-- What stands on the disk after the writer's rounds.
use caen_daq.Writer.Layout.{Owns, Wrote-all_bytes, all_bytes}
use caen_daq.Writer.Parts.{write-Written, write_closed}
use caen_daq.Base.{
  ap, ◌∙◌, Bool-cases, arith, inl, inr, ◌⊎◌, List, Option, [], false, if◌then◌else◌, length, none,
  refl, some, sym, true, ℕ, ◌++◌, ◌<◌, ◌^◌, ◌||◌, ◌∷◌, ◌≡◌,
}
use caen_daq.Daq.WriterLoop.{writer_loop, LoopState, Round, flush_if, is_end, put_popped}
use caen_daq.Writer.{Disk, Writer, write, Io}
use caen_daq.Queue.{BlockPtr}
use mathlib.Core.List.{append_assoc, append-nil}

abbrev pub bytes_in : Option BlockPtr → List ℕ
bytes_in none = []
bytes_in (some none) = []
bytes_in (some (some bytes)) = bytes

-- The bytes of the blocks that the loop takes before the end of the queue.
abbrev pub bytes_taken : List Round → List ℕ
bytes_taken [] = []
bytes_taken (r ∷ rounds) = if is_end r then [] else bytes_in r.block ++ bytes_taken rounds

-- In every round there are fewer than 99999 files, and the block is below 2^64 bytes.
unfoldable pub FewFiles : List Round → LoopState → Type 0
FewFiles [] s = Unit
FewFiles (r ∷ rounds) s =
    (length s.disk < 99999)
    × (length (bytes_in r.block) < 2 ^ 64)
    × FewFiles rounds (flush_if (r.timed_out || r.flush_due) (put_popped r.io r.block s).1)

pub record Put (s s' : LoopState) (block : Option BlockPtr) : Type 0 where
  pub grew : all_bytes s'.disk ≡ all_bytes s.disk ++ bytes_in block
  pub owns : Owns s'.writer s'.disk
  pub same : s'.failed ≡ s.failed

pub put_popped-cases :
    (io : Io) (bytes : List ℕ) (s : LoopState)
    → ((write io bytes s.writer s.disk).0 ≡ true
        × (put_popped io (some (some bytes)) s ≡ (
          true,
          record s {
            writer = (write io bytes s.writer s.disk).1;
            disk = (write io bytes s.writer s.disk).2;
            dirty = true;
          },
        )))
      ⊎ ((write io bytes s.writer s.disk).0 ≡ false
          × (put_popped io (some (some bytes)) s ≡ (
            false,
            record s {
              writer = (write io bytes s.writer s.disk).1;
              disk = (write io bytes s.writer s.disk).2;
              failed = true;
            },
          )))
unfolding put_popped
put_popped-cases io bytes s = elim (Bool-cases (write io bytes s.writer s.disk).0) [
  | inl done ↦ inl (done, rw done refl)
  | inr bad ↦ inr (bad, rw bad refl)
]

-- A block without bytes is no write.
write_nothing :
    (io : Io) (w : Writer) (d : Disk) → (write io [] w d).0 ≡ true → write io [] w d ≡ (true, w, d)
unfolding write
write_nothing io w d done = elim (Bool-cases w.closed) [
  | inl over ↦ cc (write_closed io [] w d over)
  | inr going ↦ rw going refl
]

bytes-Put :
    (io : Io) (bytes : List ℕ) (s : LoopState)
    → Owns s.writer s.disk
    → length s.disk < 99999
    → length bytes < 2 ^ 64
    → (write io bytes s.writer s.disk).0 ≡ true
    → Put s
        (record s {
          writer = (write io bytes s.writer s.disk).1;
          disk = (write io bytes s.writer s.disk).2;
          dirty = true;
        })
        (some (some bytes))
bytes-Put io [] s o free small done =
    rw (write_nothing io s.writer s.disk done)
      (record { grew = sym (append-nil (all_bytes s.disk)); owns = o; same = refl })
bytes-Put io (b ∷ bytes) s o free small done =
    let written = write-Written io (b ∷ bytes) s.writer s.disk o free (omega arith) small done in
    record { grew = Wrote-all_bytes written.wrote; owns = written.owns; same = refl }

pub put_popped-Put :
    (io : Io) (block : Option BlockPtr) (s : LoopState)
    → Owns s.writer s.disk
    → length s.disk < 99999
    → length (bytes_in block) < 2 ^ 64
    → ((put_popped io block s).0 ≡ true × Put s (put_popped io block s).1 block)
      ⊎ ((put_popped io block s).0 ≡ false × ((put_popped io block s).1.failed ≡ true))
unfolding put_popped
put_popped-Put io none s o free small =
    inl (refl, record { grew = sym (append-nil (all_bytes s.disk)); owns = o; same = refl })
put_popped-Put io (some none) s o free small =
    inl (refl, record { grew = sym (append-nil (all_bytes s.disk)); owns = o; same = refl })
put_popped-Put io (some (some bytes)) s o free small = elim (put_popped-cases io bytes s) [
  | inl (done, e) ↦ rw e (inl (refl, bytes-Put io bytes s o free small done))
  | inr (bad, e) ↦ rw e (inr (refl, refl))
]

-- The writer's thread reports a failure, or the bytes of all the blocks that it took, until the
-- queue was closed and empty, stand on the disk in their order, behind what was there. The open
-- part is the last file, its size is counted, in every round there are fewer than 99999 files,
-- and no block has 2^64 bytes.
pub writer_loop-bytes :
    (rounds : List Round) (s : LoopState)
    → Owns s.writer s.disk
    → FewFiles rounds s
    → ((writer_loop rounds s).failed ≡ true)
      ⊎ (all_bytes (writer_loop rounds s).disk ≡ all_bytes s.disk ++ bytes_taken rounds)
unfolding writer_loop FewFiles
writer_loop-bytes [] s o free = inr (sym (append-nil (all_bytes s.disk)))
writer_loop-bytes (r ∷ rounds) s o free = elim (Bool-cases (is_end r)) [
  | inl over ↦ rw over (inr (sym (append-nil (all_bytes s.disk))))
  | inr going ↦ rw going (elim (put_popped-Put r.io r.block s o free.0 free.1) [
    | inl (on, put) ↦
        rw on
          (elim (writer_loop-bytes rounds
            (flush_if (r.timed_out || r.flush_due) (put_popped r.io r.block s).1) put.owns free.2) [
              | inl failed ↦ inl failed
              | inr e ↦ inr (
                  e
                  ∙ ap (λ (t : List ℕ). t ++ bytes_taken rounds) put.grew
                  ∙ append_assoc (all_bytes s.disk) (bytes_in r.block) (bytes_taken rounds))
            ])
    | inr (off, failed) ↦ rw off (inl failed)
  ])
]
