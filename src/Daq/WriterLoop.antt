-- ===== src/Daq/WriterLoop.antt =====
-- Daq::writerLoop: the one thread that takes blocks from the queue and writes them.
pub mod Bytes
pub mod Success
use caen_daq.Base.{
  Bool, List, Option, [], false, if◌then◌else◌, none, not, some, true, ◌&&◌, ◌||◌, ◌∷◌,
}
use caen_daq.Queue.{BlockPtr}
use caen_daq.Writer.{write, Disk, Io, Writer}

-- What one round of the loop meets: the answer of `popFor`, that of the system to a write, and
-- whether the last flush is a second ago.
pub record Round : Type 0 where
  pub block : Option BlockPtr
  pub timed_out : Bool
  pub io : Io
  pub flush_due : Bool

-- `dirty`: something was written since the last flush. A flush changes nothing else here.
pub record LoopState : Type 0 where
  pub writer : Writer
  pub disk : Disk
  pub failed : Bool
  pub dirty : Bool

-- The block, if there is one, is written. The first component: the loop goes on.
unfoldable pub put_popped : Io → Option BlockPtr → LoopState → Bool × LoopState
put_popped io (some (some bytes)) s =
    let (done, w, d) = write io bytes s.writer s.disk in
    if done
    then (true, record s { writer = w; disk = d; dirty = true })
    else (false, record s { writer = w; disk = d; failed = true })
put_popped io _ s = (true, s)

abbrev pub flush_if : Bool → LoopState → LoopState
flush_if due s = record s { dirty = s.dirty && not due }

-- Closed and drained
abbrev pub is_end : Round → Bool
is_end r = elim r.block [ none ↦ not r.timed_out | some b ↦ false ]

-- The loop over the rounds that it meets; it ends at a failed write, or at the end of the queue.
unfoldable pub writer_loop : List Round → LoopState → LoopState
unfolding put_popped
writer_loop [] s = s
writer_loop (r ∷ rounds) s =
    if is_end r
    then s
    else (let (goes_on, s') = put_popped r.io r.block s in
        let flushed = flush_if (r.timed_out || r.flush_due) s' in
        let rest = writer_loop rounds flushed in if goes_on then rest else s')
