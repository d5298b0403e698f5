-- ===== src/Tests.antt =====
-- Runs at concrete inputs, and the theorems applied to them. The format tables of the V1730 with
-- DPP-PSD firmware stand for the ones that the decoder takes as a parameter.
pub mod Readout
pub mod Devices
pub mod Sessions
pub mod Sampling
pub mod Running
pub mod Monitor
pub mod Commands
use caen_daq.Queue.Closing.{closed_accepts_none}
use caen_daq.Queue.Schedule.{
  Accounted, Reach, Reach-Accounted, Run, after_enter, after_pop, after_wake, enter, shut, start,
  take_one, wake,
}
use caen_daq.Writer.Layout.{Owns}
use caen_daq.Writer.Parts.{Written, write-Written}
use caen_daq.Writer.{
  append_file, open_cycle, open_file, put_block, Disk, Io, Writer, WriterConfig, exists,
  unique_path, write,
}
use mathlib.Core.List.{Sublist}
use caen_daq.Base.{
  length, ◌++◌, ◌<◌, ◌≤◌, Bool, List, Result, Returns, [], arith, err, false, if◌then◌else◌, map,
  max, ok, refl, some, true, ℕ, ◌%◌, ◌*◌, ◌+◌, ◌-◌, ◌/◌, ◌^◌, ◌∷◌, ◌≡◌,
}
use caen_daq.Board.{Text, contains, psd, codes}
use caen_daq.Event.{no_event, DecodedEvent}
use caen_daq.Header.{BoardDef, build_xdaq_header, pack_board_def, bytes_of}
use caen_daq.Header.Fields.{unpack-pack, unpack_board_def}
use caen_daq.Header.Parse.{parse-build, parse_header}
use caen_daq.Histogram.{Floats, counts_of}
use caen_daq.Histogram.Totals.{fill_all-events}
use caen_daq.HitTap.{Hit, HitTap}
use caen_daq.HitTap.Conservation.{Op, appends, offered, run, run-Conserves, takes}
use caen_daq.Writer.Names.{make_path, same_text}
use caen_daq.Decoder.Clock.{ChannelClock, new_clock, time_in_ps, unwrap}
use caen_daq.Queue.{close, BlockPtr, new_queue, pop, push_enter, push_wake}
use caen_daq.Decoder.Couples.{bits_set}
use caen_daq.Decoder.Wave.{unpack_wave}
use caen_daq.Base.Int.{ℤ, pos}
use caen_daq.Decoder.Clock.Stream.{unwrap_all, unwrap_all_lem}
use caen_daq.Decoder.Clock.Window.{Tracks, unwrap_lem}
use caen_daq.Decoder.State.Registry.{IsSound, register_board-IsSound}
use caen_daq.Decoder.Walk.{Outcome, decode}
use caen_daq.Decoder.Walk.Bounds.{decode-Returns}
use caen_daq.Base.Words.{flag, test_bit}
use caen_daq.Decoder.Frames.{DataLayout, FrameLaws, FrameLib}
use caen_daq.Decoder.State.{Decoder, new_decoder, register_board}

-- Whether the model is known, and the format word.
abbrev pub V1730 : Type 0
V1730 = Bool × ℕ

abbrev v1730_layout : ℕ → DataLayout
v1730_layout w =
    let samples = w % 2 ^ 13 * 8 in
    let charge = test_bit w 30 in
    let ts = test_bit w 29 in
    let extras = test_bit w 28 in
    let trace = test_bit w 27 in
    record {
      evt_size = flag charge + flag ts + flag extras + (if trace then samples / 2 else 0);
      num_samples = samples;
      dual_trace = test_bit w 31;
      has_trace = trace;
      has_ts = ts;
      has_energy = false;
      has_charge = charge;
      has_extras = extras;
      has_channel_bit = true;
      extras_config = true;
      extras_mode = w / 2 ^ 24 % 8;
      fmt_ts = (0, 30);
      fmt_extras = (0, 31);
      fmt_sample = (0, 13);
      ts_bits = 31;
      res_ts = 2;
      res_energy = 15;
    }

abbrev v1730 : FrameLib V1730
v1730 = record {
  make_frame = λ firmware name. (contains (codes "1730") name, 0);
  is_supported = λ f. f.0;
  size_format = λ f. (0, 21);
  set_data_format = λ f w. (f.0, w);
  layout = λ f. v1730_layout f.1;
  extract_bits = λ w r. w / 2 ^ r.0 % 2 ^ (r.1 - r.0 + 1);
}

v1730_laws : FrameLaws v1730
v1730_laws = record {
  size_bound = λ f w h. omega arith;
  still_supported = λ f w h. h;
  evt_size_lem = λ f. ground arith;
  num_samples_bound = λ f. omega arith;
}

-- The buffer of the decoder's first test: one aggregate with one couple and one event.
abbrev one_event : List ℕ
one_event = bytes_of (0xA0000008 ∷ 0x00000001 ∷ 0 ∷ 0 ∷ 4 ∷ 0x60000000 ∷ 0x1234 ∷ 0x1DEF0ABC ∷ [])

abbrev one_board : Decoder V1730
one_board = register_board v1730 0 psd (codes "V1730") 2000 new_decoder

-- What the test reads back: channel 0, its charges, and its time in ps.
abbrev summary : Result (Outcome V1730) → List (ℕ × ℕ × ℕ × ℤ)
summary (err e) = []
summary (ok r) = map (λ (e : DecodedEvent). (e.channel, e.qshort, e.qlong, e.time_ps)) r.events

one_event_test :
    summary (decode v1730 one_event one_board) ≡ (0, 2748, 7663, pos (0x1234 * 2000)) ∷ []
unfolding decode bits_set unwrap time_in_ps unpack_wave register_board contains bytes_of
one_event_test = refl

one_board-IsSound : IsSound v1730 one_board
one_board-IsSound = register_board-IsSound v1730 0 psd (codes "V1730") 2000 new_decoder tt

decode-Returns_example : Returns (λ r. IsSound v1730 r.state) (decode v1730 one_event one_board)
unfolding bytes_of
decode-Returns_example =
    decode-Returns v1730 one_event one_board v1730_laws (omega arith) one_board-IsSound

-- A 31-bit counter that has just wrapped, and an event from before the wrap.
abbrev wrapped_clock : ChannelClock
wrapped_clock = record { epoch = 1; reference = 2 ^ 31 + 5; seen = true }

unwrap_lem_example :
    ((unwrap wrapped_clock ((2 ^ 31 - 7) % 2 ^ 31) 31).0 ≡ 2 ^ 31 - 7)
    × Tracks (2 ^ 31) (unwrap wrapped_clock ((2 ^ 31 - 7) % 2 ^ 31) 31).1
    × ((unwrap wrapped_clock ((2 ^ 31 - 7) % 2 ^ 31) 31).1.reference
        ≡ max (2 ^ 31 + 5) (2 ^ 31 - 7))
unwrap_lem_example =
    unwrap_lem wrapped_clock 31 (2 ^ 31 - 7) (omega arith)
      (record { started = refl; from = omega arith; to = omega arith })
      (record { above = omega arith; below = omega arith }) (omega arith)

unwrap_all_lem_example :
    unwrap_all new_clock 4 (map (λ s. s % 2 ^ 4) (3 ∷ 9 ∷ 14 ∷ 20 ∷ 17 ∷ 24 ∷ []))
    ≡ 3 ∷ 9 ∷ 14 ∷ 20 ∷ 17 ∷ 24 ∷ []
unwrap_all_lem_example =
    unwrap_all_lem 4 3 (9 ∷ 14 ∷ 20 ∷ 17 ∷ 24 ∷ []) (omega arith) (omega arith) (omega arith)

-- A producer and a consumer on a queue for one block.
abbrev two_bytes : BlockPtr
two_bytes = some (7 ∷ 8 ∷ [])

abbrev three_bytes : BlockPtr
three_bytes = some (1 ∷ 2 ∷ 3 ∷ [])

abbrev one_in : Run
one_in = after_enter two_bytes (start 1)

-- The second block finds the queue full, waits, and is dropped.
abbrev one_waits : Run
one_waits = after_enter three_bytes one_in

abbrev one_dropped : Run
one_dropped = after_wake three_bytes [] one_waits

abbrev all_out : Run
all_out = after_pop (record one_dropped { queue = close one_dropped.queue })

dropping : Reach (start 1) one_dropped
unfolding push_enter push_wake new_queue
dropping =
    Reach.next (Reach.next (Reach.next Reach.here (enter two_bytes)) (enter three_bytes))
      (wake three_bytes [] [] refl)

Reach-Accounted_example : Accounted one_dropped
Reach-Accounted_example = Reach-Accounted 1 one_dropped dropping

emptied : Reach (start 1) all_out
unfolding push_enter push_wake new_queue close
emptied = Reach.next (Reach.next dropping shut) (take_one refl)

-- Two boards of a run.
abbrev two_boards : List BoardDef
two_boards =
    record {
      ns_per_sample = 2;
      ns_per_timetag = 8;
      dpp_version = 1;
      channels = 16;
      board_reg_id = 0;
    }
    ∷ record {
      ns_per_sample = 10;
      ns_per_timetag = 10;
      dpp_version = 0;
      channels = 8;
      board_reg_id = 1;
    }
    ∷ []

-- The two words of the time differ.
parse-build_example :
    parse_header (build_xdaq_header two_boards 1700000000 3 4 ++ 5 ∷ 6 ∷ [])
    ≡ some (record {
      boards = two_boards;
      ts0 = 3;
      ts1 = 4;
      epoch_start_time = 1700000000;
      payload = 5 ∷ 6 ∷ [];
    })
parse-build_example = parse-build two_boards 1700000000 3 4 (5 ∷ 6 ∷ []) (omega arith)

abbrev wide_board : BoardDef
wide_board = record {
  ns_per_sample = 66;
  ns_per_timetag = 8;
  dpp_version = 1;
  channels = 16;
  board_reg_id = 255;
}

-- A run whose parts hold at most four bytes.
abbrev small_parts : WriterConfig
small_parts = record { run_number = 3; max_file_bytes = 4; write_header = false }

abbrev all_works : Io
all_works = record {
  directory_ok = true;
  open_ok = true;
  header_ok = true;
  write_ok = true;
  let_through = 0;
  now_epoch = 1700000000;
}

abbrev part_0 : Text
part_0 = make_path 3 0

abbrev writing : Writer
writing = record {
  cfg = small_parts;
  board_defs = two_boards;
  file = some part_0;
  cycle = 0;
  file_bytes = 3;
  total_bytes = 3;
  total_buffers = 1;
  closed = false;
  header_written = false;
}

abbrev one_part : Disk
one_part = (part_0, 1 ∷ 2 ∷ 3 ∷ []) ∷ []

one_part-Owns : Owns writing one_part
unfolding exists
one_part-Owns = record {
  before = [];
  path = part_0;
  content = 1 ∷ 2 ∷ 3 ∷ [];
  layout = refl;
  fresh = refl;
  is_file = refl;
  counted = refl;
}

-- The next block does not fit, and starts part 1.
write-Written_example :
    Written writing (4 ∷ 5 ∷ []) one_part (write all_works (4 ∷ 5 ∷ []) writing one_part)
unfolding write exists unique_path same_text open_cycle put_block open_file append_file
write-Written_example =
    write-Written all_works (4 ∷ 5 ∷ []) writing one_part one_part-Owns (omega arith) (omega arith)
      (omega arith) refl

-- Three events: two of the same energy in one channel, one in another.
abbrev event_of : ℕ → ℕ → DecodedEvent
event_of channel energy = record no_event { channel = channel; energy = energy }

abbrev three_events : List DecodedEvent
three_events = event_of 1 100 ∷ event_of 2 100 ∷ event_of 1 100 ∷ []

-- The bins of the two computations in `double`, replaced by whole-number ones.
abbrev whole_bins : Floats
whole_bins = record { ratio_bin = λ qshort qlong. 0; log_bin = λ dt. pos (dt / 1000) }

-- Three hits for a tap with room for two.
abbrev hit_at : ℕ → Hit
hit_at t = record { time_ps = pos t; energy = 100; channel = 1; flags = 0 }

abbrev small_tap : HitTap
small_tap = record { enabled = true; capacity = 2; hits = []; dropped = 0 }

abbrev tap_ops : List Op
tap_ops = appends (hit_at 1 ∷ hit_at 2 ∷ hit_at 3 ∷ []) ∷ takes ∷ appends (hit_at 4 ∷ []) ∷ []

run-Conserves_example :
    Sublist ((run tap_ops small_tap).0 ++ (run tap_ops small_tap).1.hits) (offered tap_ops)
    × (length (run tap_ops small_tap).0
          + length (run tap_ops small_tap).1.hits
          + (run tap_ops small_tap).1.dropped
        ≡ 4)
    × (length (run tap_ops small_tap).1.hits ≤ 2)
run-Conserves_example = run-Conserves tap_ops small_tap refl (omega arith) (omega arith)
