-- ===== src/Queue/Schedule.antt =====
-- Any number of producers and consumers on one queue: every interleaving of their critical
-- sections.
use caen_daq.Queue.{
  is_full, discarded, BlockPtr, BlockQueue, PushEnd, block_size, close, is_ready, new_queue, pop,
  push_enter, push_wake, pushed, refused, waits,
}
use caen_daq.Base.{
  Bool-cases, inl, inr, ◌∙◌, ◌⊎◌, ap, refl, List, Option, [], arith, false, length, length-append,
  none, some, true, ℕ, ◌++◌, ◌+◌, ◌<◌, ◌∷◌, ◌≡◌, ◌≤◌,
}
use caen_daq.Base.Words.{u64}
use mathlib.Core.List.{append_assoc}

-- The number of bytes in some blocks.
abbrev pub sum_sizes : List BlockPtr → ℕ
sum_sizes [] = 0
sum_sizes (b ∷ bs) = block_size b + sum_sizes bs

-- The queue, the number of calls of `push`, the blocks whose `push` waits, and what has happened:
-- the blocks whose `push` returned true, those that were dropped for want of room, those that
-- came after the closing, and those that a consumer got.
pub record Run : Type 0 where
  pub queue : BlockQueue
  pub entered : ℕ
  pub waiting : List BlockPtr
  pub accepted : List BlockPtr
  pub lost : List BlockPtr
  pub late : List BlockPtr
  pub delivered : List BlockPtr

abbrev pub start : ℕ → Run
start capacity = record {
  queue = new_queue capacity;
  entered = 0;
  waiting = [];
  accepted = [];
  lost = [];
  late = [];
  delivered = [];
}

-- A `push` that ends notes its block by how it ended.
abbrev pub note : PushEnd → BlockPtr → Run → Run
note pushed b r = record r { accepted = r.accepted ++ b ∷ [] }
note waits b r = record r { waiting = b ∷ r.waiting }
note refused b r = record r { late = b ∷ r.late }
note discarded b r = record r { lost = b ∷ r.lost }

abbrev pub deliver : Option BlockPtr → Run → Run
deliver none r = r
deliver (some b) r = record r { delivered = r.delivered ++ b ∷ [] }

abbrev pub after_enter : BlockPtr → Run → Run
after_enter b r =
    let (end, q) = push_enter b r.queue in
    note end b (record r { queue = q; entered = r.entered + 1 })

abbrev pub after_wake : BlockPtr → List BlockPtr → Run → Run
after_wake b others r =
    let (end, q) = push_wake b r.queue in note end b (record r { queue = q; waiting = others })

abbrev pub after_pop : Run → Run
after_pop r = let (b, q) = pop r.queue in deliver b (record r { queue = q })

-- What one thread may do next.
pub data Step (r : Run) : Run → Type 0 where
  enter : (b : BlockPtr) → Step r (after_enter b r)
  wake :
      (b : BlockPtr) (before after : List BlockPtr)
      → r.waiting ≡ before ++ b ∷ after
      → Step r (after_wake b (before ++ after) r)
  take_one : is_ready r.queue ≡ true → Step r (after_pop r)
  time_out : is_ready r.queue ≡ false → Step r r
  shut : Step r (record r { queue = close r.queue })

pub data Reach (s : Run) : Run → Type 0 where
  here : Reach s s
  next : {t u : Run} → Reach s t → Step t u → Reach s u

-- Blocks come out in the order in which they were accepted, none twice and none left out; there
-- is never more than the capacity in the queue; the counters count what was dropped; and every
-- block that a producer brought is in one of the lists.
pub record Accounted (r : Run) : Type 0 where
  pub in_order : r.accepted ≡ r.delivered ++ r.queue.items
  pub bounded : length r.queue.items ≤ r.queue.capacity
  pub has_room : 0 < r.queue.capacity
  pub counted : r.queue.dropped ≡ u64 (length r.lost)
  pub weighed : r.queue.dropped_bytes ≡ u64 (sum_sizes r.lost)
  pub complete : r.entered ≡ length r.accepted + length r.waiting + length r.lost + length r.late

start-Accounted : (capacity : ℕ) → Accounted (start capacity)
unfolding new_queue
start-Accounted capacity = ground arith

pub push_enter-cases :
    (b : BlockPtr) (q : BlockQueue)
    → ((q.closed ≡ true) × (push_enter b q ≡ (refused, q)))
      ⊎ (((q.closed ≡ false) × (q.capacity ≤ length q.items) × (push_enter b q ≡ (waits, q)))
          ⊎ ((q.closed ≡ false)
              × (length q.items < q.capacity)
              × (push_enter b q ≡ (pushed, record q { items = q.items ++ b ∷ [] }))))
unfolding push_enter
push_enter-cases b q = ground arith

pushed-Accounted :
    (b : BlockPtr) (others : List BlockPtr) (n : ℕ) (r : Run)
    → length r.queue.items < r.queue.capacity
    → n + length r.waiting ≡ r.entered + length others + 1
    → Accounted r
    → Accounted (record r {
      queue = record r.queue { items = r.queue.items ++ b ∷ [] };
      entered = n;
      waiting = others;
      accepted = r.accepted ++ b ∷ [];
    })
pushed-Accounted b others n r room e a = record {
  in_order =
      ap (λ (xs : List BlockPtr). xs ++ b ∷ []) a.in_order
      ∙ append_assoc r.delivered r.queue.items (b ∷ []);
  bounded = omega (arith, length-append r.queue.items (b ∷ []));
  has_room = a.has_room;
  counted = a.counted;
  weighed = a.weighed;
  complete = omega (arith, length-append r.accepted (b ∷ []), a.complete);
}

late-Accounted :
    (b : BlockPtr) (others : List BlockPtr) (n : ℕ) (r : Run)
    → n + length r.waiting ≡ r.entered + length others + 1
    → Accounted r
    → Accounted (record r { entered = n; waiting = others; late = b ∷ r.late })
late-Accounted b others n r e a = record {
  in_order = a.in_order;
  bounded = a.bounded;
  has_room = a.has_room;
  counted = a.counted;
  weighed = a.weighed;
  complete = omega (arith, a.complete);
}

enter-Accounted : (b : BlockPtr) (r : Run) → Accounted r → Accounted (after_enter b r)
enter-Accounted b r a = elim (push_enter-cases b r.queue) [
  | inl (closed, e) ↦ rw e (late-Accounted b r.waiting (r.entered + 1) r (omega arith) a)
  | inr (inl (still_open, full, e)) ↦ rw e (record {
    in_order = a.in_order;
    bounded = a.bounded;
    has_room = a.has_room;
    counted = a.counted;
    weighed = a.weighed;
    complete = omega (arith, a.complete);
  })
  | inr (inr (still_open, room, e)) ↦
      rw e (pushed-Accounted b r.waiting (r.entered + 1) r room (omega arith) a)
]

pub push_wake-cases :
    (b : BlockPtr) (q : BlockQueue)
    → ((q.closed ≡ true) × (push_wake b q ≡ (refused, q)))
      ⊎ (((q.closed ≡ false)
            × (q.capacity ≤ length q.items)
            × (push_wake b q ≡ (
              discarded,
              record q {
                dropped = u64 (q.dropped + 1);
                dropped_bytes = u64 (q.dropped_bytes + block_size b);
              },
            )))
          ⊎ ((q.closed ≡ false)
              × (length q.items < q.capacity)
              × (push_wake b q ≡ (pushed, record q { items = q.items ++ b ∷ [] }))))
unfolding push_wake
push_wake-cases b q = elim (Bool-cases q.closed) [
  | inl over ↦ inl (over, ground arith)
  | inr still_open ↦ elim (Bool-cases (is_full q)) [
    | inl full ↦ inr (inl (still_open, ground arith, rw (still_open, full)))
    | inr room ↦ inr (inr (still_open, ground arith, rw (still_open, room)))
  ]
]

wake-Accounted :
    (b : BlockPtr) (others : List BlockPtr) (r : Run)
    → length r.waiting ≡ length others + 1
    → Accounted r
    → Accounted (after_wake b others r)
wake-Accounted b others r n a = elim (push_wake-cases b r.queue) [
  | inl (closed, e) ↦ rw e (late-Accounted b others r.entered r (omega arith) a)
  | inr (inl (still_open, full, e)) ↦ rw e (record {
    in_order = a.in_order;
    bounded = a.bounded;
    has_room = a.has_room;
    counted = omega (arith, a.counted);
    weighed = omega (arith, a.weighed);
    complete = omega (arith, a.complete);
  })
  | inr (inr (still_open, room, e)) ↦
      rw e (pushed-Accounted b others r.entered r room (omega arith) a)
]

pop-Accounted :
    (items : List BlockPtr) (r : Run)
    → r.queue.items ≡ items
    → Accounted r
    → Accounted (after_pop r)
unfolding pop
pop-Accounted [] r e a = ground (arith, a.in_order)
pop-Accounted (b ∷ rest) r e a =
    ground (arith, ap length e, a.in_order, append_assoc r.delivered (b ∷ []) rest)

-- Whatever a thread does next, the account stays right.
pub Step-Accounted : {r t : Run} → Step r t → Accounted r → Accounted t
unfolding close
Step-Accounted {r} (enter b) a = enter-Accounted b r a
Step-Accounted {r} (wake b before after e) a =
    wake-Accounted b (before ++ after) r
      (omega (arith, ap length e, length-append before (b ∷ after), length-append before after)) a
Step-Accounted {r} (take_one h) a = pop-Accounted r.queue.items r refl a
Step-Accounted (time_out h) a = a
Step-Accounted shut a = record {
  in_order = a.in_order;
  bounded = a.bounded;
  has_room = a.has_room;
  counted = a.counted;
  weighed = a.weighed;
  complete = a.complete;
}

-- For every interleaving of any producers and consumers on a new queue: blocks are delivered in
-- the order in which they were accepted, none twice and none left out; the queue never holds
-- more than its capacity; the two drop counters count the dropped blocks and their bytes, modulo
-- 2 ^ 64; and every block is accepted, waiting, dropped or refused after the closing.
pub Reach-Accounted : (capacity : ℕ) (r : Run) → Reach (start capacity) r → Accounted r
Reach-Accounted capacity r here = start-Accounted capacity
Reach-Accounted capacity r (next {t = t} path s) =
    Step-Accounted s (Reach-Accounted capacity t path)
