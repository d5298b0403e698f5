-- ===== src/Daq/Session.antt =====
-- Daq::prepare, start and stop, over the boards, the shared queue and the writer.
pub mod Aligning
pub mod Endings
pub mod Start
pub mod Retry
pub mod Files
use caen_daq.Base.{
  Bool, List, Option, [], err, false, if◌then◌else◌, length, ltb, map, none, not, ok, some, suc,
  true, zero, ℕ, ◌&&◌, ◌++◌, ◌+◌, ◌∷◌,
}
use caen_daq.ClockSync.{clock_chain_order}
use caen_daq.Daq.Master.{Member, is_master, master_index, role_of}
use caen_daq.Daq.WriterLoop.{LoopState, flush_if, put_popped}
use caen_daq.Decoder.Frames.{FrameLib}
use caen_daq.Digitizer.{Digitizer, synchronised}
use caen_daq.Header.{board_def_from}
use caen_daq.Histogram.{Floats}
use caen_daq.Queue.{BlockPtr, BlockQueue, close}
use caen_daq.Writer.{open_writer, write, Writer, Disk, Io}
use caen_daq.Base.Int.{ℤ, pos, negsuc}
use caen_daq.BoardRunner.Lifecycle.{Board, prepare, start, arm, start_reader, stop}
use caen_daq.Board.{SyncRole, Text}
use caen_daq.ClockSync.Procedure.{synchronise_clock_chain, SyncOptions, ChainBoard}
use caen_daq.Writer

-- `any_write`: a board contributes to the file. `writer_up`: the writer's thread was started.
pub record Daq (D Frame : Type 0) : Type 0 where
  pub run : ℕ
  pub max_file_bytes : ℕ
  pub write_header : Bool
  pub boards : List (Board D Frame)
  pub write_queue : BlockQueue
  pub writer : Option Writer
  pub disk : Disk
  pub writer_up : Bool
  pub writer_failed : Bool
  pub any_write : Bool
  pub prepared : Bool
  pub running : Bool

-- What the run meets outside: the answers to the opening of the file; for a board and a number of
-- reads to go, whether the time for the last reads is not over; for each of the last blocks, the
-- answers to its write and whether a flush is due.
pub record Env : Type 0 where
  pub open_io : Io
  pub in_time : ℕ → ℕ → Bool
  pub last_writes : ℕ → Io × Bool

abbrev pub as_member : {D Frame : Type 0} → Digitizer D → Board D Frame → Member
as_member ops b = record {
  synchronised = synchronised ops b.dev;
  board_reg_id = b.board_info.board_reg_id;
}

module _ {D Frame : Type 0} (ops : Digitizer D) where
  -- The runners share the orchestrator's queue: it is lent to a board for a call, and taken back.
  -- The schedule in which no reader and no writer comes in between; Running has all of them.
  unfoldable pub stop_all :
      (ℕ → ℕ → Bool) → ℕ → List (Board D Frame) → BlockQueue → List (Board D Frame) × BlockQueue
  stop_all in_time i [] q = ([], q)
  stop_all in_time i (b ∷ bs) q =
      let b' = stop ops (in_time i) (record b { runner = record b.runner { write_queue = q } }) in
      let (rest, q') = stop_all in_time (i + 1) bs b'.runner.write_queue in (b' ∷ rest, q')

  -- Each board by its own mode; at a failure the boards from there on are left. The result: all
  -- of them, the boards that were tried, the others.
  unfoldable pub start_boards :
      ℤ → ℕ → List (Board D Frame) → Bool × List (Board D Frame) × List (Board D Frame)
  start_boards chosen i [] = (true, [], [])
  start_boards chosen i (b ∷ bs) =
      let (good, b') = if synchronised ops b.dev then arm ops b else start ops b in
      let role = role_of chosen i (as_member ops b) in
      let as_started = record b' { board_info = record b'.board_info { sync_role = role } } in
      let (all, tried, left) = start_boards chosen (i + 1) bs in
      if good then (all, as_started ∷ tried, left) else (false, b' ∷ [], bs)

  unfoldable pub trigger_nth : ℕ → List (Board D Frame) → Bool × List (Board D Frame)
  trigger_nth m [] = (true, [])
  trigger_nth zero (b ∷ bs) =
      let (sent, d) = ops.send_sw_trigger b.dev in (sent, record b { dev = d } ∷ bs)
  trigger_nth (suc m) (b ∷ bs) = let (sent, bs') = trigger_nth m bs in (sent, b ∷ bs')

  -- `master >= 0 && !runners_[master]->sendSWTrigger()`
  abbrev pub trigger_master : ℤ → List (Board D Frame) → Bool × List (Board D Frame)
  trigger_master (pos m) bs = trigger_nth m bs
  trigger_master (negsuc m) bs = (true, bs)

  abbrev pub start_readers : List (Board D Frame) → List (Board D Frame)
  start_readers bs = map (start_reader ops) bs

-- What the writer's thread does after the queue is closed: it writes the blocks that are left,
-- until a write fails. The second component: the blocks that it did not take.
unfoldable pub drain_queue :
    (ℕ → Io × Bool) → ℕ → List BlockPtr → LoopState → LoopState × List BlockPtr
drain_queue answers i [] s = (s, [])
drain_queue answers i (b ∷ items) s =
    let (goes_on, s') = put_popped (answers i).0 (some b) s in
    let rest = drain_queue answers (i + 1) items (flush_if (answers i).1 s') in
    if goes_on then rest else (s', items)

abbrev pub loop_state : Writer → Disk → Bool → LoopState
loop_state w disk failed = record { writer = w; disk = disk; failed = failed; dirty = false }

abbrev pub close_file : LoopState → Option Writer
close_file s = some (Writer.close s.writer)

module _ {D Frame : Type 0} where
  -- The thread that is still there takes what is left in the queue.
  abbrev pub last_blocks : Env → Writer → Daq D Frame → LoopState × List BlockPtr
  last_blocks env w d =
      if d.writer_up && not d.writer_failed
      then drain_queue env.last_writes 0 d.write_queue.items (loop_state w d.disk false)
      else (loop_state w d.disk d.writer_failed, d.write_queue.items)

  -- The queue is closed, the writer's thread is joined, the file is closed.
  unfoldable pub teardown_with : Env → Option Writer → Daq D Frame → Daq D Frame
  teardown_with env none d = record d { write_queue = close d.write_queue; writer_up = false }
  teardown_with env (some w) d =
      let (s, left) = last_blocks env w d in
      record d {
        write_queue = record (close d.write_queue) { items = left };
        writer = close_file s;
        disk = s.disk;
        writer_failed = s.failed;
        writer_up = false;
      }

  unfoldable pub teardown_writer : Env → Daq D Frame → Daq D Frame
  unfolding teardown_with
  teardown_writer env d = teardown_with env d.writer d

  -- The single file of all boards, if any contributes.
  abbrev pub new_writer : Daq D Frame → Writer
  new_writer d = record {
    cfg = record {
      run_number = d.run;
      max_file_bytes = d.max_file_bytes;
      write_header = d.write_header;
    };
    board_defs = map (λ b. board_def_from b.board_info) d.boards;
    file = none;
    cycle = 0;
    file_bytes = 0;
    total_bytes = 0;
    total_buffers = 0;
    closed = true;
    header_written = false;
  }

  unfoldable pub open_output : Env → Daq D Frame → Bool × Daq D Frame
  open_output env d =
      let (opened, w, disk) = open_writer env.open_io (new_writer d) d.disk in
      if not d.any_write
      then (true, d)
      else (opened, record d { writer = if opened then some w else none; disk = disk })

  -- The devices of the boards, for the calls that go to them by index.
  unfoldable pub put_devs : List (Board D Frame) → List D → List (Board D Frame)
  put_devs [] ds = []
  put_devs (b ∷ bs) [] = b ∷ bs
  put_devs (b ∷ bs) (d ∷ ds) = record b { dev = d } ∷ put_devs bs ds

module _ {D : Type 0} (ops : Digitizer D) where
  unfoldable pub write_nth : ℕ → ℕ → ℕ → List D → Bool × List D
  write_nth n address value [] = (false, [])
  write_nth zero address value (d ∷ ds) =
      let (done, d') = ops.write_register address value d in (done, d' ∷ ds)
  write_nth (suc n) address value (d ∷ ds) =
      let (done, ds') = write_nth n address value ds in (done, d ∷ ds')

  -- `old`: the variable of the caller, which a failed read leaves.
  unfoldable pub read_nth : ℕ → ℕ → ℕ → List D → Bool × ℕ × List D
  read_nth n address old [] = (false, old, [])
  read_nth zero address old (d ∷ ds) =
      let (answer, d') = ops.read_register address d in
      elim answer [ none ↦ (false, old, d' ∷ ds) | some v ↦ (true, v, d' ∷ ds) ]
  read_nth (suc n) address old (d ∷ ds) =
      let (good, v, ds') = read_nth n address old ds in (good, v, d ∷ ds')

  abbrev pub chain_board : ℤ → ℕ → ChainBoard (List D)
  chain_board chosen i = record {
    name = [];
    is_first = is_master i chosen;
    write = some (write_nth i);
    read = some (read_nth i);
  }

-- The defaults; what the devices do in the pauses is part of their answers.
abbrev pub chain_options : (D : Type 0) → SyncOptions (List D)
chain_options D = record {
  settle_ms = 300;
  ready_timeout_ms = 2000;
  poll_ms = 50;
  stable_ms = 200;
  sleep = λ ms ds. ds;
}

module _ {D Frame : Type 0} (ops : Digitizer D) where
  abbrev pub choose_master : List (Board D Frame) → ℤ
  choose_master bs = master_index (map (as_member ops) bs)

  -- The alignment returns, so the last case does not come up.
  unfoldable pub align_chain :
      List (ChainBoard (List D)) → List (Board D Frame) → List (Board D Frame)
  align_chain chain bs =
      if ltb (length chain) 2
      then bs
      else elim (synchronise_clock_chain (chain_options D) chain (map (λ b. b.dev) bs)) [
        | ok r ↦ put_devs bs r.1
        | err e ↦ bs
      ]

  unfoldable pub align_clock_chain : List (Board D Frame) → List (Board D Frame)
  unfolding align_chain
  align_clock_chain bs =
      let chosen = choose_master bs in
      let order = clock_chain_order (map (λ b. b.board_info.acquisition_control) bs) chosen in
      align_chain (map (chain_board ops chosen) order) bs

  -- A start that failed: the boards that were tried are stopped, the others are left.
  unfoldable pub abandon :
      Env → List (Board D Frame) → List (Board D Frame) → Daq D Frame → Daq D Frame
  abandon env tried left d =
      let (stopped, q) = stop_all ops env.in_time 0 tried d.write_queue in
      teardown_writer env (record d { boards = stopped ++ left; write_queue = q })

  unfoldable pub stop_run : Env → Daq D Frame → Daq D Frame
  stop_run env d = if d.running then record (abandon env d.boards [] d) { running = false } else d

  -- From the prepared boards on: the writer's thread, the boards, the trigger, the readers. The
  -- statistics' thread is left out.
  unfoldable pub start_prepared : Env → Daq D Frame → Bool × Daq D Frame
  start_prepared env d =
      let bs = align_clock_chain d.boards in
      let chosen = choose_master bs in
      let (all, tried, left) = start_boards ops chosen 0 bs in
      let (sent, fired) = trigger_master ops chosen tried in
      let ready = record d { writer_failed = false; writer_up = d.any_write } in
      if not all
      then (false, abandon env tried left ready)
      else (if not sent
          then (false, abandon env fired [] ready)
          else (true, record ready { boards = start_readers ops fired; running = true }))

module _ {D Frame : Type 0} (ops : Digitizer D) (lib : FrameLib Frame) (floats : Floats) where
  unfoldable pub prepare_boards : List (Board D Frame) → Bool × List (Board D Frame)
  prepare_boards [] = (true, [])
  prepare_boards (b ∷ bs) =
      let (good, b') = prepare ops lib floats b in
      let (all, bs') = prepare_boards bs in if good then (all, b' ∷ bs') else (false, b' ∷ bs)

  unfoldable pub prepare_first : Env → Daq D Frame → Bool × Daq D Frame
  prepare_first env d =
      let (all, bs) = prepare_boards d.boards in
      let (opened, d') = open_output env (record d { boards = bs }) in
      if not all
      then (false, record d { boards = bs })
      else (if opened then (true, record d' { prepared = true }) else (false, d'))

  unfoldable pub prepare_run : Env → Daq D Frame → Bool × Daq D Frame
  unfolding prepare_first
  prepare_run env d = if d.prepared then (true, d) else prepare_first env d

  abbrev pub start_after : Env → Bool × Daq D Frame → Bool × Daq D Frame
  start_after env r = if r.0 then start_prepared ops env r.1 else (false, r.1)

  unfoldable pub start_run : Env → Daq D Frame → Bool × Daq D Frame
  start_run env d = if d.running then (true, d) else start_after env (prepare_run env d)
