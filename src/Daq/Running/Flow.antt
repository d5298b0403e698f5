-- ===== src/Daq/Running/Flow.antt =====
-- What a board hands to the shared queue, and what its counter of bytes says.
use caen_daq.Daq.Running.{
  drain_round, Dispatched, reader_round, take_readout, after_push, begin_dispatch, resume_dispatch,
}
use caen_daq.BoardRunner.Lifecycle.{readout_bytes, Board}
use caen_daq.Base.{
  Bool, if-split, none, not, ◌==◌, ◌||◌, [], ap, arith, inl, inr, length, map, refl, some, sym, ℕ,
  ◌++◌, ◌+◌, ◌∙◌, ◌∷◌, ◌≡◌, List,
}
use caen_daq.BoardRunner.{Readout, Runner, RunnerCounts, count_read}
use caen_daq.BoardRunner.Fanout.{total}
use caen_daq.Digitizer.{Digitizer}
use mathlib.Core.List.{append_assoc, append-nil}
use caen_daq.Base.Words.{u64}
use caen_daq.Daq.Session.Files.{queued_bytes}
use caen_daq.Daq.WriterLoop.Bytes.{bytes_in}
use caen_daq.Queue.{
  BlockPtr, BlockQueue, PushEnd, discarded, push_enter, push_wake, pushed, refused, waits,
}
use caen_daq.Queue.Schedule.{push_enter-cases, push_wake-cases}

abbrev pub flat : List (List ℕ) → List ℕ
flat [] = []
flat (bytes ∷ buffers) = bytes ++ flat buffers

pub flat-append : (xs ys : List (List ℕ)) → flat (xs ++ ys) ≡ flat xs ++ flat ys
flat-append [] ys = refl
flat-append (x ∷ xs) ys =
    ap (λ t. x ++ t) (flat-append xs ys) ∙ sym (append_assoc x (flat xs) (flat ys))

pub total-append : (xs ys : List (List ℕ)) → total (xs ++ ys) ≡ total xs + total ys
total-append [] ys = omega arith
total-append (x ∷ xs) ys = omega (arith, total-append xs ys)

pub queued-append :
    (xs ys : List BlockPtr) → queued_bytes (xs ++ ys) ≡ queued_bytes xs ++ queued_bytes ys
queued-append [] ys = refl
queued-append (b ∷ xs) ys =
    ap (λ t. bytes_in (some b) ++ t) (queued-append xs ys)
    ∙ sym (append_assoc (bytes_in (some b)) (queued_bytes xs) (queued_bytes ys))

pub queued-flat : (xs : List (List ℕ)) → queued_bytes (map (λ x. some x) xs) ≡ flat xs
queued-flat [] = refl
queued-flat (x ∷ xs) = ap (λ t. x ++ t) (queued-flat xs)

-- The queue got the given buffers, and the counter of the bytes written says so.
pub record Moved {Frame : Type 0} (taken : List (List ℕ)) (r r' : Runner Frame) : Type 0 where
  pub queued : r'.write_queue.items ≡ r.write_queue.items ++ map (λ x. some x) taken
  pub written : u64 r'.counts.bytes_written ≡ u64 (r.counts.bytes_written + total taken)

enter-items :
    (b : BlockPtr) (q : BlockQueue)
    → (push_enter b q).1.items ≡ q.items ++ (elim (push_enter b q).0 [ pushed ↦ b ∷ [] | _ ↦ [] ])
enter-items b q = elim (push_enter-cases b q) [
  | inl (_, e) ↦ rw e (sym (append-nil q.items))
  | inr (inl (_, _, e)) ↦ rw e (sym (append-nil q.items))
  | inr (inr (_, _, e)) ↦ rw e refl
]

wake-items :
    (b : BlockPtr) (q : BlockQueue)
    → (push_wake b q).1.items ≡ q.items ++ (elim (push_wake b q).0 [ pushed ↦ b ∷ [] | _ ↦ [] ])
wake-items b q = elim (push_wake-cases b q) [
  | inl (_, e) ↦ rw e (sym (append-nil q.items))
  | inr (inl (_, _, e)) ↦ rw e (sym (append-nil q.items))
  | inr (inr (_, _, e)) ↦ rw e refl
]

module _ {Frame : Type 0} where
  Moved-none : (r : Runner Frame) → Moved [] r r
  Moved-none r = record { queued = sym (append-nil r.write_queue.items); written = omega arith }

  after_push-Moved :
      (end : PushEnd) (bytes : List ℕ) (q : BlockQueue) (c : RunnerCounts) (r : Runner Frame)
      → c.bytes_written ≡ r.counts.bytes_written
      → q.items ≡ r.write_queue.items ++ (elim end [ pushed ↦ some bytes ∷ [] | _ ↦ [] ])
      → Moved
          (after_push end bytes (record r { write_queue = q; counts = c })).1
          r
          (after_push end bytes (record r { write_queue = q; counts = c })).2
  unfolding after_push
  after_push-Moved pushed bytes q c r e items = record { queued = items; written = omega arith }
  after_push-Moved waits bytes q c r e items = record { queued = items; written = omega arith }
  after_push-Moved refused bytes q c r e items = record { queued = items; written = omega arith }
  after_push-Moved discarded bytes q c r e items = record { queued = items; written = omega arith }

  begin-Moved :
      (bytes : List ℕ) (r : Runner Frame)
      → Moved (begin_dispatch bytes r).1 r (begin_dispatch bytes r).2
  unfolding begin_dispatch
  begin-Moved bytes r =
      if-split (λ (o : Dispatched (Runner Frame)). Moved o.1 r o.2) r.writes
        (λ _.
          after_push-Moved (push_enter (some bytes) r.write_queue).0 bytes
            (push_enter (some bytes) r.write_queue).1 (count_read (length bytes) r.counts) r refl
            (enter-items (some bytes) r.write_queue))
        (λ _. record { queued = sym (append-nil r.write_queue.items); written = omega arith })

  pub resume-Moved :
      (bytes : List ℕ) (r : Runner Frame)
      → Moved (resume_dispatch bytes r).1 r (resume_dispatch bytes r).2
  unfolding resume_dispatch
  resume-Moved bytes r =
      after_push-Moved (push_wake (some bytes) r.write_queue).0 bytes
        (push_wake (some bytes) r.write_queue).1 r.counts r refl
        (wake-items (some bytes) r.write_queue)

  take_readout-Moved :
      (o : Readout) (r : Runner Frame) → Moved (take_readout o r).1 r (take_readout o r).2
  unfolding take_readout
  take_readout-Moved none r = record {
    queued = sym (append-nil r.write_queue.items);
    written = omega arith;
  }
  take_readout-Moved (some bytes) r =
      if-split (λ (o : Dispatched (Runner Frame)). Moved o.1 r o.2) (length bytes == 0)
        (λ _. Moved-none r) (λ _. begin-Moved bytes r)

module _ {D Frame : Type 0} where
  -- The sum of the boards' counters
  abbrev pub written_of : List (Board D Frame) → ℕ
  written_of [] = 0
  written_of (b ∷ bs) = b.runner.counts.bytes_written + written_of bs

  pub written-append :
      (xs ys : List (Board D Frame)) → written_of (xs ++ ys) ≡ written_of xs + written_of ys
  written-append [] ys = omega arith
  written-append (b ∷ xs) ys = omega (arith, written-append xs ys)

module _ {D Frame : Type 0} (ops : Digitizer D) where
  pub reader_round-Moved :
      (failed : Bool) (b : Board D Frame)
      → Moved (reader_round ops failed b).1 b.runner (reader_round ops failed b).2.runner
  unfolding reader_round
  reader_round-Moved failed b =
      if-split (λ (o : Dispatched (Board D Frame)). Moved o.1 b.runner o.2.runner)
        (not b.running || failed) (λ _. Moved-none b.runner)
        (λ _. take_readout-Moved (ops.read_board b.dev).0 b.runner)

  pub drain_round-Moved :
      (b : Board D Frame) → Moved (drain_round ops b).1 b.runner (drain_round ops b).2.runner
  unfolding drain_round
  drain_round-Moved b =
      let bytes = readout_bytes (ops.read_board b.dev).0 in
      if-split (λ (o : Dispatched (Board D Frame)). Moved o.1 b.runner o.2.runner)
        (length bytes == 0) (λ _. Moved-none b.runner) (λ _. begin-Moved bytes b.runner)
