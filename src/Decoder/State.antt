-- ===== src/Decoder/State.antt =====
-- The decoder's state: BoardDec, the counters, the registered boards.
pub mod Registry
use caen_daq.Base.{
  ℕ, ◌+◌, Bool, true, false, not, List, [], ◌∷◌, ◌++◌, Option, none, some, ◌==◌, if◌then◌else◌,
}
use caen_daq.Base.Words.{u64}
use caen_daq.Board.{Text, DppType, BoardInfo, psd}
use caen_daq.Event.{DecodedEvent}
use caen_daq.Decoder.Frames.{Firmware, FrameLib}
use caen_daq.Decoder.Clock.{ChannelClock, new_clock, time_stamp_ps}

pub record BoardDec (Frame : Type 0) : Type 0 where
  pub frame : Frame
  pub is_pha : Bool
  pub supported : Bool
  pub ps_per_tick : ℕ
  pub clock : ChannelClock

-- uint64 counters, over the life of the decoder
pub record Counters : Type 0 where
  pub corrupt : ℕ
  pub board_fail : ℕ
  pub uninitialised : ℕ
  pub uninitialised_events : ℕ
  pub incomplete : ℕ

abbrev pub no_counts : Counters
no_counts = record {
  corrupt = 0;
  board_fail = 0;
  uninitialised = 0;
  uninitialised_events = 0;
  incomplete = 0;
}

-- `++corrupt_`, and so for the others
abbrev pub count_corrupt : Counters → Counters
count_corrupt c = record c { corrupt = u64 (c.corrupt + 1) }

abbrev pub count_board_fail : Counters → Counters
count_board_fail c = record c { board_fail = u64 (c.board_fail + 1) }

abbrev pub count_incomplete : Counters → Counters
count_incomplete c = record c { incomplete = u64 (c.incomplete + 1) }

abbrev pub count_uninitialised : ℕ → Counters → Counters
count_uninitialised n c = record c {
  uninitialised = u64 (c.uninitialised + 1);
  uninitialised_events = u64 (c.uninitialised_events + n);
}

-- The decoder of a run. `boards` is the map from a board's id to its entry.
pub record Decoder (Frame : Type 0) : Type 0 where
  pub boards : List (ℕ × BoardDec Frame)
  pub wave : List ℕ
  pub counts : Counters

abbrev pub new_decoder : {Frame : Type 0} → Decoder Frame
new_decoder = record { boards = []; wave = []; counts = no_counts }

-- While one board's aggregate is read: the board's entry, what else changes, and the events
-- handed to the callback so far, with their number.
pub record Session (Frame : Type 0) : Type 0 where
  pub bd : BoardDec Frame
  pub wave : List ℕ
  pub counts : Counters
  pub emitted : ℕ
  pub events : List DecodedEvent

-- `++count; fn(e);`
abbrev pub emit : {Frame : Type 0} → Session Frame → DecodedEvent → Session Frame
emit s e = record s { emitted = s.emitted + 1; events = s.events ++ e ∷ [] }

module _ {V : Type 0} where
  unfoldable pub find : ℕ → List (ℕ × V) → Option V
  find k [] = none
  find k ((j, v) ∷ m) = if j == k then some v else find k m

  unfoldable pub insert : ℕ → V → List (ℕ × V) → List (ℕ × V)
  insert k v [] = (k, v) ∷ []
  insert k v ((j, w) ∷ m) = if j == k then (k, v) ∷ m else (j, w) ∷ insert k v m

abbrev pub is_psd : DppType → Bool
is_psd psd = true
is_psd _ = false

module _ {Frame : Type 0} (lib : FrameLib Frame) where
  abbrev pub to_caen_dpp : DppType → Firmware
  to_caen_dpp t = if is_psd t then Firmware.psd else Firmware.pha

  -- The entry that `registerBoard` builds.
  abbrev pub new_board : DppType → Text → ℕ → BoardDec Frame
  new_board dpp model_name ps_per_tick =
      let frame = lib.make_frame (to_caen_dpp dpp) model_name in
      record {
        frame = frame;
        is_pha = not (is_psd dpp);
        supported = lib.is_supported frame;
        ps_per_tick = ps_per_tick;
        clock = new_clock;
      }

  unfoldable pub register_board : ℕ → DppType → Text → ℕ → Decoder Frame → Decoder Frame
  unfolding insert
  register_board id dpp model_name ps_per_tick s = record s {
    boards = insert id (new_board dpp model_name ps_per_tick) s.boards;
  }

  unfoldable pub register_info : BoardInfo → Decoder Frame → Decoder Frame
  unfolding register_board time_stamp_ps
  register_info bi = register_board bi.board_reg_id bi.dpp_type bi.model_name (time_stamp_ps bi)
