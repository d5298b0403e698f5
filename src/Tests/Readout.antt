-- ===== src/Tests/Readout.antt =====
-- The threads of a run at concrete inputs: the writer, the decoder, the reader, the clock chain.
use caen_daq.Writer.Layout.{all_bytes}
use caen_daq.Base.{
  All, length, ◌<◌, List, Returns, [], arith, false, none, refl, some, true, ℕ, ◌+◌, ◌∷◌, ◌≡◌,
}
use caen_daq.Stats.{sanitize_prefix}
use caen_daq.Stats.Prefix.{IsClean, ends_with_dot, sanitize_prefix_lem, starts_with_dot}
use caen_daq.Daq.WriterLoop.Success.{AllWork, writer_loop-succeeds}
use caen_daq.Tests.{
  V1730, all_works, one_event, one_part, one_part-Owns, small_tap, v1730, v1730_laws, whole_bins,
  writing,
}
use caen_daq.Board.{BoardInfo, DppType, SyncRole, codes}
use caen_daq.BoardRunner.{Runner}
use caen_daq.BoardRunner.Fanout.{FannedOut, dispatch_all, dispatch_all-FannedOut}
use caen_daq.ClockSync.{clock_chain_order}
use caen_daq.ClockSync.Order.{
  AscendsFrom, clock_chain_order-ascends, clock_chain_order-members, times_in,
}
use caen_daq.ClockSync.Procedure.{ChainBoard, LockState, SyncOptions, synchronise_clock_chain}
use caen_daq.ClockSync.Procedure.Total.{Match, synchronise_clock_chain-Returns}
use caen_daq.Daq.Master.{Member, master_index}
use caen_daq.Daq.Master.Choice.{master_index_lem}
use caen_daq.Daq.WriterLoop.{LoopState, Round, put_popped, writer_loop}
use caen_daq.Daq.WriterLoop.Bytes.{FewFiles}
use caen_daq.DecodeStage.{Stage, decode_loop, new_stage}
use caen_daq.DecodeStage.Survival.{decode_loop-Returns}
use caen_daq.Decoder.State.Registry.{IsSound}
use caen_daq.Header.{bytes_of}
use caen_daq.Writer.{append_file, put_block, write}
use caen_daq.Writer.Names.{make_path, same_text}
use caen_daq.Writer.Success.{Works}
use caen_daq.Base.Int.{pos}

-- One block, a pause, and the end of the queue.
abbrev three_rounds : List Round
three_rounds =
    record { block = some (some (4 ∷ [])); timed_out = false; io = all_works; flush_due = false }
    ∷ record { block = none; timed_out = true; io = all_works; flush_due = false }
    ∷ record { block = none; timed_out = false; io = all_works; flush_due = false }
    ∷ []

abbrev at_start : LoopState
at_start = record { writer = writing; disk = one_part; failed = false; dirty = false }

three_rounds-FewFiles : FewFiles three_rounds at_start
unfolding FewFiles put_popped write put_block append_file same_text make_path
three_rounds-FewFiles =
    (omega arith, omega arith, (omega arith, omega arith, (omega arith, omega arith, tt)))

writer_loop-succeeds_example :
    ((writer_loop three_rounds at_start).failed ≡ false)
    × (all_bytes (writer_loop three_rounds at_start).disk ≡ 1 ∷ 2 ∷ 3 ∷ 4 ∷ [])
unfolding AllWork
writer_loop-succeeds_example =
    writer_loop-succeeds three_rounds at_start one_part-Owns three_rounds-FewFiles
      (works, (works, (works, tt))) refl
  where
    works : Works all_works
    works = record { directory = refl; opens = refl; writes = refl }

-- Board 2 is the master; boards 0 and 3 take its clock.
abbrev four_boards : List ℕ
four_boards = 64 ∷ 0 ∷ 1 ∷ 65 ∷ []

clock_chain_order_test : clock_chain_order four_boards (pos 2) ≡ 2 ∷ 0 ∷ 3 ∷ []
unfolding clock_chain_order
clock_chain_order_test = refl

clock_chain_order-members_example : times_in 3 (clock_chain_order four_boards (pos 2)) ≡ 1
clock_chain_order-members_example = clock_chain_order-members four_boards (pos 2) 3

clock_chain_order-ascends_example :
    (rest : List ℕ) × (clock_chain_order four_boards (pos 2) ≡ 2 ∷ rest) × AscendsFrom 0 rest
clock_chain_order-ascends_example = clock_chain_order-ascends four_boards (pos 2) refl

abbrev three_members : List Member
three_members =
    record { synchronised = false; board_reg_id = 0 }
    ∷ record { synchronised = true; board_reg_id = 4 }
    ∷ record { synchronised = true; board_reg_id = 0 }
    ∷ []

master_index_lem_example : master_index three_members ≡ pos 2
master_index_lem_example = master_index_lem three_members

-- The world counts the calls. The second board never answers, and the third cannot be reached.
abbrev options : SyncOptions ℕ
options = record {
  settle_ms = 300;
  ready_timeout_ms = 100;
  poll_ms = 50;
  stable_ms = 200;
  sleep = λ ms w. w;
}

abbrev three_in_chain : List (ChainBoard ℕ)
three_in_chain =
    record {
      name = codes "first";
      is_first = true;
      write = some (λ a v w. (true, w + 1));
      read = some (λ a old w. (true, 0x180, w + 1));
    }
    ∷ record {
      name = codes "second";
      is_first = false;
      write = some (λ a v w. (true, w + 1));
      read = some (λ a old w. (false, old, w + 1));
    }
    ∷ record { name = codes "third"; is_first = false; write = none; read = none }
    ∷ []

synchronise_clock_chain-Returns_example :
    Returns
      (λ (r : List LockState × ℕ). Match three_in_chain r.0)
      (synchronise_clock_chain options three_in_chain 0)
synchronise_clock_chain-Returns_example =
    synchronise_clock_chain-Returns options three_in_chain 0 (omega arith)

abbrev one_info : BoardInfo
one_info = record {
  model_name = codes "V1730";
  model = 730;
  channels = 16;
  board_reg_id = 0;
  dpp_type = DppType.psd;
  ns_per_sample = 2;
  ns_per_timetag = 8;
  acquisition_control = 0;
  sync_role = SyncRole.independent;
}

decode_loop-Returns_example :
    Returns
      (λ (s : Stage V1730). IsSound v1730 s.decoder)
      (decode_loop v1730 whole_bins
        (some one_event ∷ none ∷ some (1 ∷ 2 ∷ 3 ∷ []) ∷ [])
        (new_stage v1730 whole_bins one_info 1024 [] small_tap))
unfolding bytes_of
decode_loop-Returns_example =
    decode_loop-Returns v1730 whole_bins one_info 1024 [] small_tap
      (some one_event ∷ none ∷ some (1 ∷ 2 ∷ 3 ∷ []) ∷ []) v1730_laws (omega arith)

-- A reader with room for one block.
abbrev small_runner : Runner V1730
small_runner = record {
  writes = true;
  write_queue = record { items = []; capacity = 1; closed = false; dropped = 0; dropped_bytes = 0 };
  stage = none;
  counts = record {
    buffers_read = 0;
    bytes_read = 0;
    bytes_written = 0;
    blocks_dropped = 0;
    comm_errors = 0;
  };
}

dispatch_all-FannedOut_example :
    FannedOut
      ((1 ∷ 2 ∷ []) ∷ (3 ∷ []) ∷ [])
      small_runner
      (dispatch_all ((1 ∷ 2 ∷ []) ∷ (3 ∷ []) ∷ []) small_runner)
dispatch_all-FannedOut_example =
    dispatch_all-FannedOut ((1 ∷ 2 ∷ []) ∷ (3 ∷ []) ∷ []) small_runner refl (omega arith)
      (omega arith) (omega arith)

sanitize_prefix_test : sanitize_prefix (codes "..my exp/12c.") ≡ codes "my_exp_12c"
unfolding sanitize_prefix
sanitize_prefix_test = refl

sanitize_prefix_lem_example :
    (0 < length (sanitize_prefix (codes "..my exp/12c.")))
    × All IsClean (sanitize_prefix (codes "..my exp/12c."))
    × (starts_with_dot (sanitize_prefix (codes "..my exp/12c.")) ≡ false)
    × (ends_with_dot (sanitize_prefix (codes "..my exp/12c.")) ≡ false)
sanitize_prefix_lem_example = sanitize_prefix_lem (codes "..my exp/12c.")
