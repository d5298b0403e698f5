-- ===== src/Decoder/Walk.antt =====
-- decode: the walk over the board aggregates of a buffer, with resynchronisation.
pub mod Bounds
use caen_daq.Base.{
  Option, ℕ, zero, suc, ◌+◌, ◌*◌, ◌/◌, ◌%◌, ◌^◌, Bool, not, List, [], ◌∷◌, Result, ok, err,
  out_of_fuel, ◌>>=◌, read, none, some, ltb, ◌==◌, if◌then◌else◌, length,
}
use caen_daq.Base.Words.{u32, field, test_bit}
use caen_daq.Event.{DecodedEvent}
use caen_daq.Decoder.Frames.{FrameLib}
use caen_daq.Decoder.State.{
  BoardDec, Decoder, Session, find, insert, count_corrupt, count_board_fail,
}
use caen_daq.Decoder.Couples.{decode_couples, couples_of, header_words}

-- The bytes of a buffer as little-endian words; up to three bytes at the end are no word.
unfoldable pub words_of : List ℕ → List ℕ
words_of (a ∷ b ∷ c ∷ d ∷ rest) = (a + b * 2 ^ 8 + c * 2 ^ 16 + d * 2 ^ 24) ∷ words_of rest
words_of _ = []

-- What `decode` leaves: the decoder, the number of events, and the events in order.
pub record Outcome (Frame : Type 0) : Type 0 where
  pub state : Decoder Frame
  pub count : ℕ
  pub events : List DecodedEvent

module _ {Frame : Type 0} (lib : FrameLib Frame) where
  abbrev pub open_session : BoardDec Frame → Outcome Frame → Session Frame
  open_session bd o = record {
    bd = bd;
    wave = o.state.wave;
    counts = o.state.counts;
    emitted = o.count;
    events = o.events;
  }

  abbrev pub close_session : ℕ → Outcome Frame → Session Frame → Outcome Frame
  close_session board o s = record {
    state = record { boards = insert board s.bd o.state.boards; wave = s.wave; counts = s.counts };
    count = s.emitted;
    events = s.events;
  }

  -- Nothing is decoded for a board that is not registered or whose format is not known.
  pub decode_found :
      List ℕ → ℕ → ℕ → ℕ → ℕ → Outcome Frame → Option (BoardDec Frame) → Result (Outcome Frame)
  unfolding decode_couples insert
  decode_found buf board offset agg_len id_word o none = ok o
  decode_found buf board offset agg_len id_word o (some bd) =
      if bd.supported
      then (do
        s ←
            decode_couples lib bd.is_pha buf board (u32 (offset + agg_len))
              (couples_of (id_word % 2 ^ 8)) (u32 (offset + header_words)) (open_session bd o)
        ok (close_session board o s))
      else ok o

  -- A whole aggregate at `offset`, with the word that names its board and its couples.
  pub decode_aggregate : List ℕ → ℕ → ℕ → ℕ → Outcome Frame → Result (Outcome Frame)
  unfolding decode_found find
  decode_aggregate buf offset agg_len id_word o =
      let board = field id_word 27 5 in
      decode_found buf board offset agg_len id_word o (find board o.state.boards)

  abbrev pub note_corrupt : Outcome Frame → Outcome Frame
  note_corrupt o = record o { state = record o.state { counts = count_corrupt o.state.counts } }

  abbrev pub note_fail : Bool → Outcome Frame → Outcome Frame
  note_fail failed o =
      if failed
      then record o { state = record o.state { counts = count_board_fail o.state.counts } }
      else o

  -- One round of the loop, at a word `w` that has been read; `next` is the rest of the walk.
  pub walk_step :
      List ℕ
      → ℕ
      → ℕ
      → ℕ
      → (ℕ → Outcome Frame → Result (Outcome Frame))
      → Outcome Frame
      → Result (Outcome Frame)
  unfolding decode_aggregate
  walk_step buf nwords offset w next o =
      let agg_len = w % 2 ^ 28 in
      if not (w / 2 ^ 28 == 0xA)
      then next (u32 (offset + 1)) o
      else (if ltb agg_len header_words
          then next (u32 (offset + 1)) (note_corrupt o)
          else (if ltb nwords (u32 (offset + agg_len)) then ok o else (do
            id_word ← read buf (u32 (offset + 1))
            o' ← decode_aggregate buf offset agg_len id_word (note_fail (test_bit id_word 26) o)
            next (u32 (offset + agg_len)) o')))

  -- `while (offset + kAggHeaderWords <= nwords)`, on fuel
  unfoldable pub walk : ℕ → List ℕ → ℕ → ℕ → Outcome Frame → Result (Outcome Frame)
  unfolding walk_step
  walk zero buf nwords offset o = err out_of_fuel
  walk (suc fuel) buf nwords offset o =
      let next = walk fuel buf nwords in
      if ltb nwords (u32 (offset + header_words))
      then ok o
      else (do w ← read buf offset; walk_step buf nwords offset w next o)

  -- The fuel is one round for each word, and one to stop.
  unfoldable pub decode : List ℕ → Decoder Frame → Result (Outcome Frame)
  unfolding walk words_of
  decode bytes d =
      walk (length bytes / 4 + 1) (words_of bytes) (u32 (length bytes / 4)) 0
        (record { state = d; count = 0; events = [] })
