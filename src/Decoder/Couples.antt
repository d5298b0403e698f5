-- ===== src/Decoder/Couples.antt =====
-- The channel aggregates of one board aggregate: decodePHA and decodePSD.
pub mod Bounds
use caen_daq.Base.{
  ℕ, zero, suc, ◌+◌, ◌-◌, ◌*◌, ◌/◌, Bool, true, false, not, ◌&&◌, ◌||◌, List, [], ◌∷◌, Result, ok,
  ◌>>=◌, read, ltb, ◌==◌, if◌then◌else◌, bit_and,
}
use caen_daq.Base.Words.{u32, test_bit}
use caen_daq.Decoder.Frames.{FrameLib, DataLayout}
use caen_daq.Decoder.State.{BoardDec, Session, count_corrupt, count_uninitialised}
use caen_daq.Decoder.Events.{pha_event, psd_event, sub_u32}

abbrev pub header_words : ℕ
header_words = 4

-- `for (b = i; b < i + n; ++b) if (mask.test(b)) couples[nCouples++] = b;`
unfoldable pub bits_set : ℕ → ℕ → ℕ → List ℕ
bits_set zero b mask = []
bits_set (suc n) b mask =
    if test_bit mask b then b ∷ bits_set n (b + 1) mask else bits_set n (b + 1) mask

abbrev pub couples_of : ℕ → List ℕ
couples_of mask = bits_set 8 0 mask

module _ {Frame : Type 0} (lib : FrameLib Frame) where
  -- Word 0 or the last word of one of the `n` events from number `evt` on has a bit that a
  -- working board never sets. The loop stops at the first such event.
  pub any_invalid : List ℕ → DataLayout → ℕ → ℕ → ℕ → Result Bool
  any_invalid buf l base evt zero = ok false
  any_invalid buf l base evt (suc n) =
      let rest = any_invalid buf l base (evt + 1) n in
      do
        let ev = u32 (base + evt * l.evt_size)
        first ← read buf ev
        if not (bit_and first l.res_ts == 0) then ok true else (do
          final ← read buf (sub_u32 (ev + l.evt_size) 1)
          if not (bit_and final l.res_energy == 0) then ok true else rest)

  -- `for (evt = 0; evt < nEvents; ++evt)`, the `n` events from number `evt` on
  pub event_loop :
      (ℕ → Session Frame → Result (Session Frame))
      → DataLayout
      → ℕ
      → ℕ
      → ℕ
      → Session Frame
      → Result (Session Frame)
  event_loop event l base evt zero s = ok s
  event_loop event l base evt (suc n) s = do
    s' ← event (u32 (base + evt * l.evt_size)) s
    event_loop event l base (evt + 1) n s'

  -- A DPP-PHA layout may name bits that no working board sets.
  abbrev pub is_invalid : List ℕ → DataLayout → ℕ → ℕ → Result Bool
  is_invalid buf l base n =
      if l.res_ts == 0 && l.res_energy == 0 then ok false else any_invalid buf l base 0 n

  -- The events of one channel aggregate, whose size has been checked. A DPP-PHA one that holds
  -- an event with such a bit set is left out whole.
  pub decode_events :
      Bool → List ℕ → DataLayout → ℕ → ℕ → ℕ → ℕ → Session Frame → Result (Session Frame)
  unfolding event_loop any_invalid pha_event psd_event
  decode_events true buf l board couple base n s = do
    invalid ← is_invalid buf l base n
    if invalid
        then ok (record s { counts = count_uninitialised n s.counts })
        else event_loop (pha_event lib buf l board couple) l base 0 n s
  decode_events false buf l board couple base n s =
      event_loop (psd_event lib buf l board couple) l base 0 n s

  abbrev pub set_frame : BoardDec Frame → ℕ → BoardDec Frame
  set_frame bd w = record bd { frame = lib.set_data_format bd.frame w }

  abbrev pub give_up : Session Frame → Session Frame
  give_up s = record s { counts = count_corrupt s.counts }

  -- One couple, of which the size and the format word have been read. `return` on a bad size
  -- leaves out the couples that `next` would decode.
  pub decode_couple :
      Bool
      → List ℕ
      → ℕ
      → ℕ
      → ℕ
      → ℕ
      → ℕ
      → ℕ
      → (ℕ → Session Frame → Result (Session Frame))
      → Session Frame
      → Result (Session Frame)
  unfolding decode_events
  decode_couple is_pha buf board agg_end couple pos size format_word next s =
      let formatted = record s { bd = set_frame s.bd format_word } in
      let l = lib.layout formatted.bd.frame in
      if ltb size 2 || ltb agg_end (u32 (pos + size)) || l.evt_size == 0
      then ok (give_up formatted)
      else (do
        s' ←
            decode_events is_pha buf l board couple (u32 (pos + 2)) ((size - 2) / l.evt_size)
              formatted
        next (u32 (pos + size)) s')

  -- `for (cpl = 0; cpl < nCouples; ++cpl)` over the couples that are left, from word `pos` on.
  unfoldable pub decode_couples :
      Bool → List ℕ → ℕ → ℕ → List ℕ → ℕ → Session Frame → Result (Session Frame)
  unfolding decode_couple
  decode_couples is_pha buf board agg_end [] pos s = ok s
  decode_couples is_pha buf board agg_end (couple ∷ couples) pos s =
      let next = decode_couples is_pha buf board agg_end couples in
      if ltb agg_end (u32 (pos + 2)) then ok (give_up s) else (do
        size_word ← read buf pos
        format_word ← read buf (u32 (pos + 1))
        decode_couple is_pha buf board agg_end couple pos
            (lib.extract_bits size_word (lib.size_format s.bd.frame)) format_word next s)
