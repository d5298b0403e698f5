-- ===== src/BoardRunner.antt =====
-- src/BoardRunner.cpp: the reader thread of one board, which hands each buffer to the shared
-- write queue and to the board's decode stage.
pub mod Fanout
pub mod Lifecycle
use caen_daq.Base.{
  Bool, List, Option, [], false, if◌then◌else◌, length, none, not, some, suc, true, zero, ℕ, ◌+◌,
  ◌==◌, ◌||◌, ◌∷◌,
}
use caen_daq.Base.Words.{u64}
use caen_daq.DecodeStage.{Stage, submit}
use caen_daq.Queue.{BlockPtr, BlockQueue, push}

-- uint64 counters
pub record RunnerCounts : Type 0 where
  pub buffers_read : ℕ
  pub bytes_read : ℕ
  pub bytes_written : ℕ
  pub blocks_dropped : ℕ
  pub comm_errors : ℕ

-- `writes`: the board contributes to the file and has a queue. The queue is shared; what other
-- readers do with it happens between the calls.
pub record Runner (Frame : Type 0) : Type 0 where
  pub writes : Bool
  pub write_queue : BlockQueue
  pub stage : Option (Stage Frame)
  pub counts : RunnerCounts

abbrev pub count_read : ℕ → RunnerCounts → RunnerCounts
count_read size c = record c {
  buffers_read = u64 (c.buffers_read + 1);
  bytes_read = u64 (c.bytes_read + size);
}

abbrev pub count_push : Bool → ℕ → RunnerCounts → RunnerCounts
count_push true size c = record c { bytes_written = u64 (c.bytes_written + size) }
count_push false size c = record c { blocks_dropped = u64 (c.blocks_dropped + 1) }

-- What a readout gives: an error, or the bytes that the board had, perhaps none.
abbrev pub Readout : Type 0
Readout = Option (List ℕ)

module _ {Frame : Type 0} where
  abbrev pub to_stage : BlockPtr → Option (Stage Frame) → Option (Stage Frame)
  to_stage b none = none
  to_stage b (some s) = some (submit b s)

  -- One buffer to the file writer and to the decode tap.
  unfoldable pub dispatch : List ℕ → Runner Frame → Runner Frame
  dispatch bytes r =
      let b = some bytes in
      let counted = count_read (length bytes) r.counts in
      let tapped = to_stage b r.stage in
      if r.writes
      then (let (accepted, q) = push b r.write_queue in
          record r {
            write_queue = q;
            stage = tapped;
            counts = count_push accepted (length bytes) counted;
          })
      else record r { stage = tapped; counts = counted }

  abbrev pub count_error : Runner Frame → Runner Frame
  count_error r = record r {
    counts = record r.counts { comm_errors = u64 (r.counts.comm_errors + 1) };
  }

  -- The reader's loop over the rounds that it meets: `running_`, the failure flag of the shared
  -- writer, and the readout of each.
  unfoldable pub reader_loop : List (Bool × Bool × Readout) → Runner Frame → Runner Frame
  unfolding dispatch
  reader_loop [] r = r
  reader_loop ((running, writer_failed, none) ∷ rounds) r =
      let rest = reader_loop rounds (count_error r) in
      if not running || writer_failed then r else rest
  reader_loop ((running, writer_failed, some bytes) ∷ rounds) r =
      let rest = reader_loop rounds (if length bytes == 0 then r else dispatch bytes r) in
      if not running || writer_failed then r else rest
