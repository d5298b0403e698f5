-- ===== src/Daq/Access.antt =====
-- Daq's accesses to one board while the run goes on, and the sample for the statistics.
pub mod Registers
use caen_daq.Base.{Bool, Option, false, get_elem?, map, none, some, ℕ, ◌%◌, ◌^◌, List}
use caen_daq.Board.{Text}
use caen_daq.BoardRunner.Lifecycle.{Board}
use caen_daq.Daq.Session.{Daq, put_devs, read_nth}
use caen_daq.DecodeStage.{Stage}
use caen_daq.Digitizer.{Digitizer}
use caen_daq.Histogram.{HistogramStore, channels_of, counts_of, no_counts}
use caen_daq.HitTap.{HitTap}
use caen_daq.Stats.Rates.{BoardSample, ChannelSample}
use caen_daq.Base.Int.{ℤ, pos, negsuc}

abbrev pub apply_to : {A B : Type 0} → (A → B) → Option A → Option B
apply_to f none = none
apply_to f (some a) = some (f a)

abbrev pub sample_channel : HistogramStore → ℕ × ℕ → ChannelSample
sample_channel h (board, ch) = record { board = board; ch = ch; counts = counts_of board ch h }

module _ {D Frame : Type 0} where
  -- `runners_.at(...)`; none, where it throws
  unfoldable pub board_at : ℤ → Daq D Frame → Option (Board D Frame)
  board_at (negsuc n) d = none
  board_at (pos n) d = get_elem? d.boards n

  abbrev pub value_at : {A : Type 0} → (Board D Frame → A) → ℤ → Daq D Frame → Option A
  value_at f i d = apply_to f (board_at i d)

  -- A count of the decode stage; 0 without one
  abbrev pub stage_count : (Stage Frame → ℕ) → Board D Frame → ℕ
  stage_count f b = elim b.runner.stage [ none ↦ 0 | some s ↦ f s ]

  abbrev pub board_name : ℤ → Daq D Frame → Option Text
  board_name = value_at (λ b. b.name)

  abbrev pub hits_at : ℤ → Daq D Frame → Option HitTap
  hits_at = value_at (λ b. elim b.runner.stage [ none ↦ b.hits | some s ↦ s.hits ])

  abbrev pub histograms_of : Board D Frame → HistogramStore
  histograms_of b = elim b.runner.stage [ none ↦ b.histograms | some s ↦ s.store ]

  abbrev pub histograms_at : ℤ → Daq D Frame → Option HistogramStore
  histograms_at = value_at histograms_of

  abbrev pub decode_dropped : ℤ → Daq D Frame → Option ℕ
  decode_dropped = value_at (stage_count (λ s. s.queue.dropped))

  abbrev pub incomplete_events : ℤ → Daq D Frame → Option ℕ
  incomplete_events = value_at (stage_count (λ s. s.decoder.counts.incomplete))

  abbrev pub events_decoded : ℤ → Daq D Frame → Option ℕ
  events_decoded = value_at (stage_count (λ s. s.events))

  abbrev pub failures_of : Board D Frame → ℕ
  failures_of = stage_count (λ s. s.decoder.counts.board_fail)

  abbrev pub board_failures : ℤ → Daq D Frame → Option ℕ
  board_failures = value_at failures_of

  abbrev pub buffers_read_at : ℤ → Daq D Frame → Option ℕ
  buffers_read_at = value_at (λ b. b.runner.counts.buffers_read)

  abbrev pub bytes_read_at : ℤ → Daq D Frame → Option ℕ
  bytes_read_at = value_at (λ b. b.runner.counts.bytes_read)

  abbrev pub bytes_written_at : ℤ → Daq D Frame → Option ℕ
  bytes_written_at = value_at (λ b. b.runner.counts.bytes_written)

  abbrev pub blocks_dropped_at : ℤ → Daq D Frame → Option ℕ
  blocks_dropped_at = value_at (λ b. b.runner.counts.blocks_dropped)

  abbrev pub comm_errors_at : ℤ → Daq D Frame → Option ℕ
  comm_errors_at = value_at (λ b. b.runner.counts.comm_errors)

  unfoldable pub sample_board : Board D Frame → BoardSample
  sample_board b = record {
    name = b.name;
    board_reg_id = b.board_info.board_reg_id % 2 ^ 16;
    bytes_written = b.runner.counts.bytes_written;
    board_fail = failures_of b;
    channels = map (sample_channel (histograms_of b)) (channels_of (histograms_of b));
  }

  abbrev pub sample_stats : Daq D Frame → List BoardSample
  sample_stats d = map sample_board d.boards

module _ {D Frame : Type 0} (ops : Digitizer D) where
  -- `old`: what the caller's variable holds.
  unfoldable pub read_register_at : ℤ → ℕ → ℕ → Daq D Frame → Bool × ℕ × Daq D Frame
  read_register_at (negsuc n) address old d = (false, old, d)
  read_register_at (pos n) address old d =
      let (done, v, devs) = read_nth ops n address old (map (λ b. b.dev) d.boards) in
      (done, v, record d { boards = put_devs d.boards devs })
