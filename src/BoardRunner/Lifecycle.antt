-- ===== src/BoardRunner/Lifecycle.antt =====
-- One board through a run: prepare, start or arm, the reader, stop.
pub mod Responds
use caen_daq.Base.{
  Bool, List, Option, [], false, if◌then◌else◌, is_some, length, none, not, some, suc, true, zero,
  ℕ, ◌==◌,
}
use caen_daq.Board.{BoardInfo, Text}
use caen_daq.BoardRunner.{Readout, Runner, dispatch}
use caen_daq.DecodeStage.{Stage, new_stage}
use caen_daq.Decoder.Frames.{FrameLib}
use caen_daq.Digitizer.{Digitizer}
use caen_daq.Histogram.{Floats, HistogramStore}
use caen_daq.HitTap.{HitTap}
use caen_daq.Queue.{close}

pub record RunnerConfig : Type 0 where
  pub decode : Bool
  pub decode_queue_capacity : ℕ

-- `reader_up`: the reader's thread was started and not yet joined; `stage_up` likewise that of the
-- decode stage. The spectra and the tap are those of the stage, once there is one.
pub record Board (D Frame : Type 0) : Type 0 where
  pub name : Text
  pub dev : D
  pub cfg : RunnerConfig
  pub board_info : BoardInfo
  pub histograms : HistogramStore
  pub hits : HitTap
  pub running : Bool
  pub reader_up : Bool
  pub stage_up : Bool
  pub runner : Runner Frame

-- The bytes of a readout; none on an error.
abbrev pub readout_bytes : Readout → List ℕ
readout_bytes none = []
readout_bytes (some bytes) = bytes

module _ {D Frame : Type 0} (ops : Digitizer D) (lib : FrameLib Frame) (floats : Floats) where
  -- The stage that `prepare` makes.
  abbrev pub fresh_stage : Board D Frame → BoardInfo → Option (Stage Frame)
  fresh_stage b bi =
      if b.cfg.decode
      then some (new_stage lib floats bi b.cfg.decode_queue_capacity b.histograms b.hits)
      else b.runner.stage

  unfoldable pub prepare : Board D Frame → Bool × Board D Frame
  prepare b =
      let (opened, d1) = ops.open_board b.dev in
      let (configured, d2) = ops.configure d1 in
      if not opened
      then (false, record b { dev = d1 })
      else (if not configured then (false, record b { dev = d2 }) else (
        true,
        record b {
          dev = d2;
          board_info = ops.info d2;
          runner = record b.runner { stage = fresh_stage b (ops.info d2) };
        },
      ))

module _ {D Frame : Type 0} (ops : Digitizer D) where
  unfoldable pub start : Board D Frame → Bool × Board D Frame
  start b =
      let (started, d) = ops.start_board b.dev in
      if b.running then (true, b) else (started, record b { dev = d; running = started })

  -- The board's information is read again, since arming changes a register.
  unfoldable pub arm : Board D Frame → Bool × Board D Frame
  arm b =
      let (armed, d) = ops.arm_board b.dev in
      if b.running
      then (true, b)
      else (if armed
          then (true, record b { dev = d; running = true; board_info = ops.info d })
          else (false, record b { dev = d; running = false }))

  unfoldable pub start_reader : Board D Frame → Board D Frame
  start_reader b =
      if b.reader_up then b else record b { reader_up = true; stage_up = is_some b.runner.stage }

  -- The reads after the stop, at most `n`; `in_time n`: the deadline is ahead with `n` to go.
  unfoldable pub drain_reads : ℕ → (ℕ → Bool) → D → Runner Frame → D × Runner Frame
  drain_reads zero in_time d r = (d, r)
  drain_reads (suc n) in_time d r =
      let (readout, d') = ops.read_board d in
      let rest = drain_reads n in_time d' (dispatch (readout_bytes readout) r) in
      if not (in_time (suc n))
      then (d, r)
      else (if length (readout_bytes readout) == 0 then (d', r) else rest)

  unfoldable pub drain : (ℕ → Bool) → D → Runner Frame → D × Runner Frame
  drain in_time d r = drain_reads 1000 in_time d r

  -- The stage's queue is closed; its thread empties it and ends.
  abbrev pub stop_stage : Bool → Option (Stage Frame) → Option (Stage Frame)
  stop_stage up none = none
  stop_stage up (some s) = some (if up then record s { queue = close s.queue } else s)

  unfoldable pub stop : (ℕ → Bool) → Board D Frame → Board D Frame
  stop in_time b =
      let (d, r) = drain in_time (ops.stop_board b.dev).1 b.runner in
      if not b.running then b else record b {
        dev = ops.close_board d;
        running = false;
        reader_up = false;
        stage_up = false;
        runner = record r { stage = stop_stage b.stage_up r.stage };
      }
