-- ===== src/Daq/Running.antt =====
-- A running Daq and its stop: the boards' readers, the writer's thread and the operator,
-- interleaved. A reader and the writer each hold the queue's lock for one critical section at a
-- time. The stop goes from board to board, while the other readers and the writer go on.
pub mod Flow
pub mod Saved
pub mod Ended
use caen_daq.Base.{
  All, [], ◌≡◌, Bool, List, Option, false, if◌then◌else◌, length, none, not, some, true, ℕ, ◌++◌,
  ◌==◌, ◌||◌, ◌∷◌,
}
use caen_daq.BoardRunner.Lifecycle.{readout_bytes, stop_stage, Board}
use caen_daq.Daq.Session.{Env, teardown_writer, Daq}
use caen_daq.Daq.WriterLoop.{LoopState, put_popped, flush_if}
use caen_daq.Queue.{
  BlockQueue, is_ready, PushEnd, pop, push_enter, push_wake, pushed, waits, refused, discarded,
}
use caen_daq.BoardRunner.{
  Readout, Runner, RunnerCounts, count_error, count_push, count_read, to_stage,
}
use caen_daq.Digitizer.{Digitizer}
use caen_daq.Writer.{Io, Writer}

abbrev pub count_end : PushEnd → ℕ → RunnerCounts → RunnerCounts
count_end pushed size c = count_push true size c
count_end waits size c = c
count_end refused size c = count_push false size c
count_end discarded size c = count_push false size c

-- How a step of `dispatch` ends: the buffer for which it waits, those that the queue took.
abbrev pub Dispatched : Type 0 → Type 0
Dispatched S = Option (List ℕ) × List (List ℕ) × S

module _ {Frame : Type 0} where
  abbrev pub tap : List ℕ → Runner Frame → Runner Frame
  tap bytes r = record r { stage = to_stage (some bytes) r.stage }

  -- `dispatch` from the return of `push`, or its wait
  unfoldable pub after_push : PushEnd → List ℕ → Runner Frame → Dispatched (Runner Frame)
  after_push end bytes r =
      let done = tap bytes (record r { counts = count_end end (length bytes) r.counts }) in
      elim end [
        | waits ↦ (some bytes, [], r)
        | pushed ↦ (none, bytes ∷ [], done)
        | _ ↦ (none, [], done)
      ]

  -- `dispatch` until it returns or waits for room in the queue
  unfoldable pub begin_dispatch : List ℕ → Runner Frame → Dispatched (Runner Frame)
  begin_dispatch bytes r =
      let counted = count_read (length bytes) r.counts in
      let (end, q) = push_enter (some bytes) r.write_queue in
      if r.writes
      then after_push end bytes (record r { write_queue = q; counts = counted })
      else (none, [], tap bytes (record r { counts = counted }))

  -- The rest of a `dispatch` that waited
  unfoldable pub resume_dispatch : List ℕ → Runner Frame → Dispatched (Runner Frame)
  resume_dispatch bytes r =
      let (end, q) = push_wake (some bytes) r.write_queue in
      after_push end bytes (record r { write_queue = q })

  unfoldable pub take_readout : Readout → Runner Frame → Dispatched (Runner Frame)
  take_readout none r = (none, [], count_error r)
  take_readout (some bytes) r = if length bytes == 0 then (none, [], r) else begin_dispatch bytes r

module _ {D Frame : Type 0} (ops : Digitizer D) where
  -- A round of a board's reader, until its buffer is dealt with or waits for room
  unfoldable pub reader_round : Bool → Board D Frame → Dispatched (Board D Frame)
  reader_round failed b =
      let (readout, d) = ops.read_board b.dev in
      let (waiting, taken, r) = take_readout readout b.runner in
      if not b.running || failed
      then (none, [], b)
      else (waiting, taken, record b { dev = d; runner = r })

  abbrev pub resumed : List ℕ → Board D Frame → Dispatched (Board D Frame)
  resumed bytes b =
      let (waiting, taken, r) = resume_dispatch bytes b.runner in
      (waiting, taken, record b { runner = r })

module _ {D Frame : Type 0} (ops : Digitizer D) where
  -- A read of `drain`, once the board's reader has ended: an error counts as an empty readout.
  unfoldable pub drain_round : Board D Frame → Dispatched (Board D Frame)
  drain_round b =
      let (readout, d) = ops.read_board b.dev in
      let bytes = readout_bytes readout in
      let (waiting, taken, r) = begin_dispatch bytes b.runner in
      if length bytes == 0
      then (none, [], record b { dev = d })
      else (waiting, taken, record b { dev = d; runner = r })

  -- The head of `BoardRunner::stop`: the flag, then the device's own stop
  abbrev pub halted : Board D Frame → Board D Frame
  halted b = record b { dev = (ops.stop_board b.dev).1; running = false }

  -- Its end, when the reads are over: the decode stage, then the device
  abbrev pub released : Board D Frame → Board D Frame
  released b = record b {
    dev = ops.close_board b.dev;
    reader_up = false;
    stage_up = false;
    runner = record b.runner { stage = stop_stage ops b.stage_up b.runner.stage };
  }

-- The reader has ended, and the board is closed.
abbrev pub IsReleased : {D Frame : Type 0} → Board D Frame → Type 0
IsReleased b = (b.running ≡ false) × (b.reader_up ≡ false)

-- The end of `Daq::stop`, when `stop` of every board has returned
abbrev pub finish_stop : {D Frame : Type 0} → Env → Daq D Frame → Daq D Frame
finish_stop env d = record (teardown_writer env d) { running = false }

-- `dirty`: the writer's thread has written since its last flush. `waiting i`: the buffer for which
-- the reader of the board `i` waits in `push`. `accepted`: the buffers whose `push` returned true.
pub record Live (D Frame : Type 0) : Type 0 where
  pub daq : Daq D Frame
  pub dirty : Bool
  pub waiting : ℕ → Option (List ℕ)
  pub accepted : List (List ℕ)

abbrev pub set_waiting : ℕ → Option (List ℕ) → (ℕ → Option (List ℕ)) → ℕ → Option (List ℕ)
set_waiting i o f j = if j == i then o else f j

module _ {D Frame : Type 0} where
  -- The shared queue is lent to a board.
  abbrev pub lent : Daq D Frame → Board D Frame → Board D Frame
  lent d b = record b { runner = record b.runner { write_queue = d.write_queue } }

  -- A board gives the queue back after a step of its reader.
  abbrev pub after_reader :
      List (Board D Frame)
      → Dispatched (Board D Frame)
      → List (Board D Frame)
      → Live D Frame
      → Live D Frame
  after_reader before (o, taken, b) after l = record l {
    daq = record l.daq { boards = before ++ b ∷ after; write_queue = b.runner.write_queue };
    waiting = set_waiting (length before) o l.waiting;
    accepted = l.accepted ++ taken;
  }

  abbrev pub loop_of : Writer → Live D Frame → LoopState
  loop_of w l = record {
    writer = w;
    disk = l.daq.disk;
    failed = l.daq.writer_failed;
    dirty = l.dirty;
  }

  abbrev pub with_loop : BlockQueue → LoopState → Live D Frame → Live D Frame
  with_loop q s l = record l {
    daq = record l.daq {
      write_queue = q;
      writer = some s.writer;
      disk = s.disk;
      writer_failed = s.failed;
    };
    dirty = s.dirty;
  }

  -- A round of `writerLoop` that finds the queue ready
  unfoldable pub after_take : Io → Bool → Writer → Live D Frame → Live D Frame
  after_take io due w l =
      let (block, q) = pop l.daq.write_queue in
      let (goes_on, s) = put_popped io block (loop_of w l) in
      with_loop q (if goes_on then flush_if due s else s) l

module _ {D Frame : Type 0} (ops : Digitizer D) where
  -- What may happen next in a run: a reader reads its board, or goes on after its wait; the
  -- writer's thread takes a block, or flushes when none came; a register is written. In a stop, a
  -- board is halted when those before it are released; once its reader has ended it is read until
  -- it is released. How often it is read is left open.
  pub data RunStep (l : Live D Frame) : Live D Frame → Type 0 where
    reads :
        (before after : List (Board D Frame)) (b : Board D Frame)
        → l.daq.boards ≡ before ++ b ∷ after
        → b.reader_up ≡ true
        → l.waiting (length before) ≡ none
        → RunStep l
            (after_reader before (reader_round ops l.daq.writer_failed (lent l.daq b)) after l)
    resumes :
        (before after : List (Board D Frame)) (b : Board D Frame) (bytes : List ℕ)
        → l.daq.boards ≡ before ++ b ∷ after
        → l.waiting (length before) ≡ some bytes
        → RunStep l (after_reader before (resumed ops bytes (lent l.daq b)) after l)
    takes :
        (io : Io) (due : Bool) (w : Writer)
        → l.daq.writer_up ≡ true
        → l.daq.writer ≡ some w
        → l.daq.writer_failed ≡ false
        → is_ready l.daq.write_queue ≡ true
        → RunStep l (after_take io due w l)
    flushes : is_ready l.daq.write_queue ≡ false → RunStep l (record l { dirty = false })
    tunes :
        (before after : List (Board D Frame)) (b : Board D Frame) (address value : ℕ)
        → l.daq.boards ≡ before ++ b ∷ after
        → RunStep l (record l {
          daq = record l.daq {
            boards =
                before ++ record b { dev = (ops.write_register address value b.dev).1 } ∷ after;
          };
        })
    halts :
        (before after : List (Board D Frame)) (b : Board D Frame)
        → l.daq.boards ≡ before ++ b ∷ after
        → All IsReleased before
        → b.running ≡ true
        → RunStep l (record l { daq = record l.daq { boards = before ++ halted ops b ∷ after } })
    drains :
        (before after : List (Board D Frame)) (b : Board D Frame)
        → l.daq.boards ≡ before ++ b ∷ after
        → b.running ≡ false
        → b.reader_up ≡ true
        → l.waiting (length before) ≡ none
        → RunStep l (after_reader before (drain_round ops (lent l.daq b)) after l)
    releases :
        (before after : List (Board D Frame)) (b : Board D Frame)
        → l.daq.boards ≡ before ++ b ∷ after
        → b.running ≡ false
        → b.reader_up ≡ true
        → l.waiting (length before) ≡ none
        → RunStep l (record l { daq = record l.daq { boards = before ++ released ops b ∷ after } })

  pub data RunReach (l : Live D Frame) : Live D Frame → Type 0 where
    here : RunReach l l
    then_step : {t u : Live D Frame} → RunReach l t → RunStep t u → RunReach l u
