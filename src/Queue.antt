-- ===== src/Queue.antt =====
-- include/caendaq/BlockQueue.hpp: the bounded queue between the readers and the writer. What a
-- thread does between taking the lock and giving it up or waiting is one function.
pub mod Schedule
pub mod Closing
use caen_daq.Base.{
  Bool, List, Option, [], false, if◌then◌else◌, leb, length, none, not, some, true, ℕ, ◌++◌, ◌+◌,
  ◌==◌, ◌||◌, ◌∷◌,
}
use caen_daq.Base.Words.{u64}

-- A `std::shared_ptr<const RawBlock>`: null, or the bytes of a block.
abbrev pub BlockPtr : Type 0
BlockPtr = Option (List ℕ)

abbrev pub block_size : BlockPtr → ℕ
block_size none = 0
block_size (some bytes) = length bytes

pub record BlockQueue : Type 0 where
  pub items : List BlockPtr
  pub capacity : ℕ
  pub closed : Bool
  pub dropped : ℕ  -- uint64
  pub dropped_bytes : ℕ  -- uint64

unfoldable pub new_queue : ℕ → BlockQueue
new_queue capacity = record {
  items = [];
  capacity = if capacity == 0 then 1 else capacity;
  closed = false;
  dropped = 0;
  dropped_bytes = 0;
}

-- How a critical section of `push` ends: it returns true, it returns false because the queue is
-- closed or because it is still full, or it waits for room.
pub data PushEnd : Type 0 where
  pushed refused discarded waits : PushEnd

abbrev pub is_full : BlockQueue → Bool
is_full s = leb s.capacity (length s.items)

abbrev pub push_back : BlockPtr → BlockQueue → BlockQueue
push_back b s = record s { items = s.items ++ b ∷ [] }

-- From the call of `push` to its return, or to `not_full_.wait_for`.
unfoldable pub push_enter : BlockPtr → BlockQueue → PushEnd × BlockQueue
push_enter b s =
    if s.closed then (refused, s) else (if is_full s then (waits, s) else (pushed, push_back b s))

-- From the return of `wait_for`, by its predicate or by its timeout, to that of `push`.
unfoldable pub push_wake : BlockPtr → BlockQueue → PushEnd × BlockQueue
push_wake b s =
    if s.closed
    then (refused, s)
    else (if is_full s
        then (
          discarded,
          record s {
            dropped = u64 (s.dropped + 1);
            dropped_bytes = u64 (s.dropped_bytes + block_size b);
          },
        )
        else (pushed, push_back b s))

-- A `push` during whose wait no other thread takes the lock.
unfoldable pub push : BlockPtr → BlockQueue → Bool × BlockQueue
unfolding push_enter push_wake
push b s = elim (push_enter b s).0 [
  | waits ↦ (elim (push_wake b s).0 [ pushed ↦ true | _ ↦ false ], (push_wake b s).1)
  | pushed ↦ (true, (push_enter b s).1)
  | _ ↦ (false, (push_enter b s).1)
]

-- What `pop` waits for.
abbrev pub is_ready : BlockQueue → Bool
is_ready s = s.closed || not (length s.items == 0)

-- The front is moved out and removed; nothing, if the queue is empty.
abbrev pub pop_front : List BlockPtr → BlockQueue → Option BlockPtr × BlockQueue
pop_front [] s = (none, s)
pop_front (b ∷ rest) s = (some b, record s { items = rest })

-- `pop` from the return of its wait, at which the queue is ready.
unfoldable pub pop : BlockQueue → Option BlockPtr × BlockQueue
pop s = pop_front s.items s

-- `popFor` from the return of its wait. The first component is `timedOut`.
unfoldable pub pop_for : BlockQueue → Bool × Option BlockPtr × BlockQueue
pop_for s = let (b, s') = pop_front s.items s in (not (is_ready s), b, s')

unfoldable pub close : BlockQueue → BlockQueue
close s = record s { closed = true }
