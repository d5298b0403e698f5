-- ===== src/BoardRunner/Fanout.antt =====
-- What happened to the buffers that a reader dispatched.
use caen_daq.Queue.{
  refused, PushEnd, pushed, waits, BlockPtr, BlockQueue, push, push_enter, push_wake,
}
use caen_daq.Base.{
  ap, ◌∙◌, arith, sym, ◌<◌, ◌^◌, inl, inr, map, refl, some, List, [], false, length, true, ℕ, ◌++◌,
  ◌+◌, ◌∷◌, ◌≡◌, ◌⊎◌,
}
use caen_daq.BoardRunner.{RunnerCounts, count_push, count_read, Runner, dispatch}
use caen_daq.Queue.Schedule.{push_enter-cases, push_wake-cases}
use caen_daq.Base.Words.{u64}
use mathlib.Core.List.{append_assoc, append-nil, Sublist}
use mathlib.Core.List.Sublist

-- A whole readout, buffer after buffer.
pub dispatch_all : {Frame : Type 0} → List (List ℕ) → Runner Frame → Runner Frame
dispatch_all [] r = r
dispatch_all (bytes ∷ buffers) r = dispatch_all buffers (dispatch bytes r)

abbrev pub total : List (List ℕ) → ℕ
total [] = 0
total (bytes ∷ buffers) = length bytes + total buffers

-- A push ends as its critical sections do.
pub push_ends :
    (b : BlockPtr) (q : BlockQueue) (o : PushEnd × BlockQueue)
    → push_enter b q ≡ o
    → push b q ≡ elim o.0 [
      | waits ↦ (elim (push_wake b q).0 [ pushed ↦ true | _ ↦ false ], (push_wake b q).1)
      | pushed ↦ (true, o.1)
      | _ ↦ (false, o.1)
    ]
unfolding push
push_ends b q o e =
    ap
      (λ (o : PushEnd × BlockQueue). elim o.0 [
        | waits ↦ (elim (push_wake b q).0 [ pushed ↦ true | _ ↦ false ], (push_wake b q).1)
        | pushed ↦ (true, o.1)
        | _ ↦ (false, o.1)
      ])
      e

pub push-cases :
    (b : BlockPtr) (q : BlockQueue)
    → ((push b q).0 ≡ true × ((push b q).1.items ≡ q.items ++ b ∷ []))
      ⊎ ((push b q).0 ≡ false × ((push b q).1.items ≡ q.items))
push-cases b q = elim (push_enter-cases b q) [
  | inl (over, e) ↦ rw (push_ends b q (refused, q) e) (inr (refl, refl))
  | inr (inr (still_open, room, e)) ↦ rw (push_ends b q _ e) (inl (refl, refl))
  | inr (inl (still_open, full, e)) ↦ elim (push_wake-cases b q) [
    | inl (over, e') ↦ rw (push_ends b q (waits, q) e, e') (inr (refl, refl))
    | inr (inl (_, _, e')) ↦ rw (push_ends b q (waits, q) e, e') (inr (refl, refl))
    | inr (inr (_, room, e')) ↦ rw (push_ends b q (waits, q) e, e') (inl (refl, refl))
  ]
]

-- Some of the buffers are accepted by the write queue, in their order; the counters say how many
-- were read and dropped, and how many bytes were read and accepted.
pub record FannedOut {Frame : Type 0} (buffers : List (List ℕ)) (r r' : Runner Frame) : Type 0 where
  pub accepted : List (List ℕ)
  pub in_order : Sublist accepted buffers
  pub queued : r'.write_queue.items ≡ r.write_queue.items ++ map (λ bytes. some bytes) accepted
  pub read : r'.counts.buffers_read ≡ u64 (r.counts.buffers_read + length buffers)
  pub read_bytes : r'.counts.bytes_read ≡ u64 (r.counts.bytes_read + total buffers)
  pub written : r'.counts.bytes_written ≡ u64 (r.counts.bytes_written + total accepted)
  pub dropped :
      u64 (r'.counts.blocks_dropped + length accepted)
      ≡ u64 (r.counts.blocks_dropped + length buffers)

-- One buffer: the runner's flag stays, and the queue and the counters say what became of it.
dispatch-cases :
    {Frame : Type 0} (bytes : List ℕ) (r : Runner Frame)
    → r.writes ≡ true
    → ((dispatch bytes r).writes ≡ true)
      × (((dispatch bytes r).counts
              ≡ count_push true (length bytes) (count_read (length bytes) r.counts))
            × ((dispatch bytes r).write_queue.items ≡ r.write_queue.items ++ some bytes ∷ [])
          ⊎ ((dispatch bytes r).counts
              ≡ count_push false (length bytes) (count_read (length bytes) r.counts))
            × ((dispatch bytes r).write_queue.items ≡ r.write_queue.items))
unfolding dispatch
dispatch-cases bytes r on = elim (push-cases (some bytes) r.write_queue) [
  | inl (taken, items) ↦ rw (on, taken) (refl, inl (refl, items))
  | inr (left_out, items) ↦ rw (on, left_out) (refl, inr (refl, items))
]

-- Every buffer of a board that writes is either in the write queue, behind what was there and in
-- the order of the readout, or counted as dropped; and the counters of buffers and bytes read and
-- of bytes written are right, modulo 2^64. The counters are below 2^64, and no other thread uses
-- the queue in between.
pub dispatch_all-FannedOut :
    {Frame : Type 0} (buffers : List (List ℕ)) (r : Runner Frame)
    → r.writes ≡ true
    → r.counts.buffers_read < 2 ^ 64
    → r.counts.bytes_read < 2 ^ 64
    → r.counts.bytes_written < 2 ^ 64
    → FannedOut buffers r (dispatch_all buffers r)
unfolding dispatch_all
dispatch_all-FannedOut [] r on b1 b2 b3 = record {
  accepted = [];
  in_order = Sublist.refl [];
  queued = sym (append-nil r.write_queue.items);
  read = omega arith;
  read_bytes = omega arith;
  written = omega arith;
  dropped = refl;
}
dispatch_all-FannedOut (bytes ∷ buffers) r on b1 b2 b3 =
    let (still, how) = dispatch-cases bytes r on in
    elim how [
      | inl (counts, items) ↦
          let f =
            dispatch_all-FannedOut buffers (dispatch bytes r) still (rw counts (omega arith))
              (rw counts (omega arith)) (rw counts (omega arith)) in
          record {
            accepted = bytes ∷ f.accepted;
            in_order = Sublist.cons-cons bytes f.in_order;
            queued =
                f.queued
                ∙ ap (λ (t : List BlockPtr). t ++ map (λ x. some x) f.accepted) items
                ∙ append_assoc r.write_queue.items (some bytes ∷ []) (map (λ x. some x) f.accepted);
            read = omega (arith, f.read, ap (λ (c : RunnerCounts). c.buffers_read) counts);
            read_bytes =
                omega (arith, f.read_bytes, ap (λ (c : RunnerCounts). c.bytes_read) counts);
            written = omega (arith, f.written, ap (λ (c : RunnerCounts). c.bytes_written) counts);
            dropped = omega (arith, f.dropped, ap (λ (c : RunnerCounts). c.blocks_dropped) counts);
          }
      | inr (counts, items) ↦
          let f =
            dispatch_all-FannedOut buffers (dispatch bytes r) still (rw counts (omega arith))
              (rw counts (omega arith)) (rw counts b3) in
          record {
            accepted = f.accepted;
            in_order = Sublist.cons bytes f.in_order;
            queued = f.queued ∙ ap (λ (t : List BlockPtr). t ++ map (λ x. some x) f.accepted) items;
            read = omega (arith, f.read, ap (λ (c : RunnerCounts). c.buffers_read) counts);
            read_bytes =
                omega (arith, f.read_bytes, ap (λ (c : RunnerCounts). c.bytes_read) counts);
            written = omega (arith, f.written, ap (λ (c : RunnerCounts). c.bytes_written) counts);
            dropped = omega (arith, f.dropped, ap (λ (c : RunnerCounts). c.blocks_dropped) counts);
          }
    ]
