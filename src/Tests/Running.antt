-- ===== src/Tests/Running.antt =====
-- A run whose reader and writer take turns, and its stop.
use caen_daq.Base.{All, ◌≡◌, [], arith, false, if◌then◌else◌, ltb, refl, some, true, ℕ, ◌-◌, ◌∷◌}
use caen_daq.Daq.Running.{
  IsReleased, after_push, begin_dispatch, take_readout, takes, reads, here, then_step, Live,
  RunReach, drains, halts, releases, drain_round, halted, released, after_reader, after_take, lent,
  reader_round,
}
use caen_daq.CaenDigitizer.{no_info}
use caen_daq.Daq.Running.Ended.{RunSaved, RunReach-finish_stop}
use caen_daq.Daq.Boards.{new_runner}
use caen_daq.Daq.Session.{Daq}
use caen_daq.Daq.Session.Files.{CanFinish}
use caen_daq.Writer.Layout.{Owns}
use caen_daq.BoardRunner.Lifecycle.{Board}
use caen_daq.Daq.WriterLoop.{put_popped}
use caen_daq.Daq.WriterLoop.Bytes.{FewFiles}
use caen_daq.Daq.WriterLoop.Success.{AllWork}
use caen_daq.Writer.{
  Writer, append_file, open_cycle, open_file, put_block, write, exists, unique_path,
}
use caen_daq.Writer.Names.{make_path, same_text}
use caen_daq.Tests.{V1730, all_works, one_part, one_part-Owns, writing}
use caen_daq.Daq.Running.Saved.{FewAlong, FewStep, go_live}
use caen_daq.Digitizer.{Digitizer}
use caen_daq.Queue.{new_queue, pop, push, push_enter}
use caen_daq.Tests.Sessions.{test_env, test_session, test_spec}

-- A device whose state is how many more buffers it has.
abbrev counting : Digitizer ℕ
counting = record {
  open_board = λ d. (true, d);
  configure = λ d. (true, d);
  start_mode = λ d. 0;
  start_board = λ d. (true, d);
  arm_board = λ d. (true, d);
  send_sw_trigger = λ d. (true, d);
  read_board = λ d. (some (if ltb 0 d then 9 ∷ [] else []), d - 1);
  write_register = λ a v d. (true, d);
  read_register = λ a d. (some 0, d);
  stop_board = λ d. (true, d);
  close_board = λ d. d;
  info = λ d. no_info;
}

abbrev acquiring : ℕ → Board ℕ V1730
acquiring n = record (new_runner test_spec n (new_queue 10)) { running = true; reader_up = true }

-- A block of two bytes waits for the writer.
abbrev begun : Daq ℕ V1730
begun = record (test_session (acquiring 2 ∷ [])) {
  running = true;
  writer_up = true;
  write_queue = (push (some (4 ∷ 5 ∷ [])) (new_queue 10)).1;
}

-- Its only board
abbrev the_board : Live ℕ V1730 → Board ℕ V1730
the_board l = elim l.daq.boards [ [] ↦ acquiring 0 | b ∷ bs ↦ b ]

abbrev one_taken : Live ℕ V1730
one_taken = after_take all_works false writing (go_live begun)

abbrev one_read : Live ℕ V1730
one_read =
    after_reader []
      (reader_round counting one_taken.daq.writer_failed (lent one_taken.daq (acquiring 2))) []
      one_taken

-- The stop reads the board once more, before it is closed.
abbrev one_halted : Live ℕ V1730
one_halted = record one_read {
  daq = record one_read.daq { boards = halted counting (the_board one_read) ∷ [] };
}

abbrev drained : Live ℕ V1730
drained =
    after_reader [] (drain_round counting (lent one_halted.daq (the_board one_halted))) []
      one_halted

abbrev all_over : Live ℕ V1730
all_over = record drained {
  daq = record drained.daq { boards = released counting (the_board drained) ∷ [] };
}

-- The writer takes the block, which starts part 1, and the reader reads a buffer.
abbrev two_steps : RunReach counting (go_live begun) one_read
unfolding push push_enter new_queue pop after_take
two_steps =
    then_step (then_step here (takes all_works false writing refl refl refl refl))
      (reads [] [] (acquiring 2) refl refl refl)

-- The stop of the board, from its flag to its release
abbrev to_the_end : RunReach counting (go_live begun) all_over
unfolding push push_enter new_queue pop after_take reader_round take_readout begin_dispatch
    after_push drain_round put_popped write open_cycle put_block
to_the_end =
    then_step
      (then_step (then_step two_steps (halts [] [] (the_board one_read) refl tt refl))
        (drains [] [] (the_board one_halted) refl refl refl refl))
      (releases [] [] (the_board drained) refl refl refl refl)

to_the_end-FewAlong : FewAlong counting to_the_end
unfolding FewAlong FewStep push push_enter new_queue pop two_steps to_the_end
to_the_end-FewAlong = (((((tt, (omega arith, omega arith)), tt), tt), tt), tt)

-- Part 1 with the block is the last file.
all_over-Owns :
    (w : Writer) × (all_over.daq.writer ≡ some w) × (w.closed ≡ false) × Owns w all_over.daq.disk
unfolding after_take pop put_popped write open_cycle put_block open_file append_file exists
    unique_path same_text push push_enter new_queue
all_over-Owns = (
  _,
  refl,
  refl,
  record {
    before = one_part;
    path = make_path 3 1;
    content = 4 ∷ 5 ∷ [];
    layout = refl;
    fresh = refl;
    is_file = refl;
    counted = refl;
  },
)

all_over-CanFinish : CanFinish test_env all_over-Owns.0 all_over.daq
unfolding after_take pop put_popped write open_cycle put_block open_file append_file exists
    unique_path same_text push push_enter new_queue all_over-Owns reader_round take_readout
    begin_dispatch after_push drain_round FewFiles AllWork
all_over-CanFinish = record {
  up = refl;
  sound = refl;
  still_open = refl;
  owns = all_over-Owns.3;
  few = (omega arith, omega arith, (omega arith, omega arith, tt));
  works = (
    record { directory = refl; opens = refl; writes = refl },
    (record { directory = refl; opens = refl; writes = refl }, tt),
  );
}

over-IsReleased : All IsReleased all_over.daq.boards
unfolding after_take pop put_popped write open_cycle put_block open_file append_file exists
    unique_path same_text push push_enter new_queue reader_round take_readout begin_dispatch
    after_push drain_round
over-IsReleased = ((refl, refl), tt)

RunReach-finish_stop_example : RunSaved test_env begun all_over
RunReach-finish_stop_example =
    RunReach-finish_stop counting test_env begun writing refl one_part-Owns to_the_end
      to_the_end-FewAlong over-IsReleased all_over-Owns.0 all_over-Owns.1 all_over-CanFinish
