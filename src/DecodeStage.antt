-- ===== src/DecodeStage.antt =====
-- src/DecodeStage.cpp: the decode thread of one board, between its queue and its consumers.
pub mod Survival
use caen_daq.Base.{◌>>=◌}
use caen_daq.Base.{List, Result, [], if◌then◌else◌, none, ok, some, ℕ, ◌+◌, ◌∷◌}
use caen_daq.Base.Int.{ltb_ℤ, pos}
use caen_daq.Base.Words.{u64}
use caen_daq.Board.{BoardInfo}
use caen_daq.Decoder.Frames.{FrameLib}
use caen_daq.Decoder.State.{Decoder, new_decoder, register_info}
use caen_daq.Decoder.Walk.{Outcome, decode}
use caen_daq.Event.{DecodedEvent}
use caen_daq.Histogram.{Floats, HistogramStore, fill}
use caen_daq.HitTap.{Hit, HitTap, append, from_event}
use caen_daq.Queue.{BlockPtr, BlockQueue, new_queue, push}

-- The stage: its queue, its decoder, the spectra and the hits that it fills, the events so far.
pub record Stage (Frame : Type 0) : Type 0 where
  pub queue : BlockQueue
  pub decoder : Decoder Frame
  pub store : HistogramStore
  pub hits : HitTap
  pub events : ℕ  -- uint64

unfoldable pub fill_events : Floats → List DecodedEvent → HistogramStore → HistogramStore
fill_events floats [] m = m
fill_events floats (e ∷ es) m = fill_events floats es (fill floats e m)

-- A hit without a time cannot be in coincidence.
unfoldable pub batch_of : List DecodedEvent → List Hit
batch_of [] = []
batch_of (e ∷ es) =
    let rest = batch_of es in if ltb_ℤ (pos 0) e.time_ps then from_event e ∷ rest else rest

module _ {Frame : Type 0} (lib : FrameLib Frame) (floats : Floats) where
  unfoldable pub new_stage : BoardInfo → ℕ → HistogramStore → HitTap → Stage Frame
  new_stage bi capacity store hits = record {
    queue = new_queue capacity;
    decoder = register_info lib bi new_decoder;
    store = store;
    hits = hits;
    events = 0;
  }

  -- What the stage keeps of a decoded block.
  abbrev pub keep_events : Stage Frame → Outcome Frame → Stage Frame
  keep_events s r = record s {
    decoder = r.state;
    store = fill_events floats r.events s.store;
    hits = if s.hits.enabled then append (batch_of r.events) s.hits else s.hits;
    events = u64 (s.events + r.count);
  }

  -- One round of the loop, with the block that was popped. A null pointer is passed over.
  unfoldable pub decode_block : BlockPtr → Stage Frame → Result (Stage Frame)
  unfolding fill_events batch_of
  decode_block none s = ok s
  decode_block (some bytes) s = do r ← decode lib bytes s.decoder; ok (keep_events s r)

  -- `loop`, over the blocks that `pop` gives until the queue is closed and empty.
  unfoldable pub decode_loop : List BlockPtr → Stage Frame → Result (Stage Frame)
  unfolding decode_block
  decode_loop [] s = ok s
  decode_loop (b ∷ blocks) s = do s' ← decode_block b s; decode_loop blocks s'

-- `submit`: a push that does not wait; a block that finds no room is counted and dropped.
unfoldable pub submit : {Frame : Type 0} → BlockPtr → Stage Frame → Stage Frame
submit b s = record s { queue = (push b s.queue).1 }
