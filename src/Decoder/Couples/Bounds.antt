-- ===== src/Decoder/Couples/Bounds.antt =====
-- The channel aggregates are read inside the board aggregate, and so inside the buffer.
use caen_daq.Base.{
  ◌-◌, ◌||◌, [], ltb, ◌∷◌, ◌≢◌, Bool, Bool-cases, Returns-bind, Returns-weaken, bit_and, false, inl,
  inr, not, read, read-Returns, true, ◌==◌, ◌∙◌, List, Result, Returns, arith, length, refl, suc,
  zero, ℕ, ◌*◌, ◌+◌, ◌/◌, ◌<◌, ◌^◌, ◌≡◌, ◌≤◌,
}
use caen_daq.Decoder.Couples.{
  decode_couple, set_frame, decode_couples, decode_events, is_invalid, any_invalid, event_loop,
}
use caen_daq.Decoder.Events.{pha_event, psd_event, sub_u32}
use caen_daq.Decoder.Events.Bounds.{pha_event-Returns, psd_event-Returns, Fits, SameBoard}
use caen_daq.Decoder.Frames.{FrameLaws, DataLayout, FrameLib}
use caen_daq.Base.Words.{u32}
use caen_daq.Decoder.State.{Session}
use native.Mathlib.Nat.{div-add-mod'}

mul_mono : (a b k : ℕ) → a ≤ b → a * k ≤ b * k
mul_mono a b k h = grind arith

-- What the check of a channel aggregate's size gives.
checked :
    (size pos agg_end evt_size : ℕ)
    → (ltb size 2 || ltb agg_end (u32 (pos + size)) || evt_size == 0) ≡ false
    → size < 2 ^ 31
    → pos < 2 ^ 31
    → (2 ≤ size) × (pos + size ≤ agg_end) × (evt_size ≢ 0)
checked size pos agg_end evt_size h small near = ground arith

SameBoard-trans :
    {Frame : Type 0} (s t u : Session Frame) → SameBoard s t → SameBoard t u → SameBoard s u
SameBoard-trans s t u p q = record {
  frame = q.frame ∙ p.frame;
  supported = q.supported ∙ p.supported;
}

module _ {Frame : Type 0} (lib : FrameLib Frame) (buf : List ℕ) (short : length buf < 2 ^ 31) where
  -- `n` events from number `evt` on, of a payload that starts at `base`
  module _ (l : DataLayout) (fits : Fits l) (base payload : ℕ)
      (room : base + payload ≤ length buf) where
    any_invalid-Returns :
        (n evt : ℕ)
        → (evt + n) * l.evt_size ≤ payload
        → Returns (λ _. Unit {0}) (any_invalid lib buf l base evt n)
    unfolding any_invalid
    any_invalid-Returns zero evt h = tt
    any_invalid-Returns (suc n) evt h =
        Returns-bind (λ _. Unit {0}) (λ _. Unit {0}) (read buf (u32 (base + evt * l.evt_size))) _
          (read-Returns buf _ (ground (arith, here, fits.some_word)))
          λ first _. elim (Bool-cases (not (bit_and first l.res_ts == 0))) [
            | inl e ↦ rw e tt
            | inr e ↦ rw e (
                Returns-bind (λ _. Unit {0}) (λ _. Unit {0})
                  (read buf (sub_u32 (u32 (base + evt * l.evt_size) + l.evt_size) 1)) _
                  (read-Returns buf _ (ground (arith, here, fits.some_word)))
                  λ final _. ground (arith, any_invalid-Returns n (evt + 1) (omega arith)))
          ]
      where
        here : evt * l.evt_size + l.evt_size ≤ payload
        here = omega (arith, mul_mono (evt + 1) (evt + suc n) l.evt_size)

    event_loop-Returns :
        (event : ℕ → Session Frame → Result (Session Frame))
        → ((ev : ℕ) (s : Session Frame)
            → ev + l.evt_size ≤ length buf
            → Returns (SameBoard s) (event ev s))
        → (n evt : ℕ) (s : Session Frame) → (evt + n) * l.evt_size ≤ payload
        → Returns (SameBoard s) (event_loop lib event l base evt n s)
    unfolding event_loop
    event_loop-Returns event safe zero evt s h = record { frame = refl; supported = refl }
    event_loop-Returns event safe (suc n) evt s h =
        Returns-bind (SameBoard s) (SameBoard s) (event (u32 (base + evt * l.evt_size)) s) _
          (safe _ s (omega (arith, mul_mono (evt + 1) (evt + suc n) l.evt_size)))
          λ s' same.
            Returns-weaken (SameBoard s') (SameBoard s) (event_loop lib event l base (evt + 1) n s')
              (event_loop-Returns event safe n (evt + 1) s' (omega arith))
              λ t later. SameBoard-trans s s' t same later

    decode_events-Returns :
        (is_pha : Bool) (board couple n : ℕ) (s : Session Frame)
        → n * l.evt_size ≤ payload
        → Returns (SameBoard s) (decode_events lib is_pha buf l board couple base n s)
    unfolding decode_events
    decode_events-Returns true board couple n s h =
        Returns-bind (λ _. Unit {0}) (SameBoard s) (is_invalid lib buf l base n) _
          (ground (arith, any_invalid-Returns n 0 (omega arith)))
          λ invalid _. elim (Bool-cases invalid) [
            | inl e ↦ rw e (record { frame = refl; supported = refl })
            | inr e ↦ rw e (
                event_loop-Returns (pha_event lib buf l board couple)
                  (pha_event-Returns lib buf l short fits board couple) n 0 s (omega arith))
          ]
    decode_events-Returns false board couple n s h =
        event_loop-Returns (psd_event lib buf l board couple)
          (psd_event-Returns lib buf l short fits board couple) n 0 s (omega arith)

-- The entry stays one of a known family while its aggregate is read.
pub record Kept {Frame : Type 0} (lib : FrameLib Frame) (s t : Session Frame) : Type 0 where
  pub known : lib.is_supported t.bd.frame ≡ true
  pub supported : t.bd.supported ≡ s.bd.supported

module _ {Frame : Type 0} (lib : FrameLib Frame) (laws : FrameLaws lib) (buf : List ℕ)
    (short : length buf < 2 ^ 31) where
  layout-Fits : (f : Frame) → (lib.layout f).evt_size ≢ 0 → Fits (lib.layout f)
  layout-Fits f h = record {
    counted = laws.evt_size_lem f;
    samples = laws.num_samples_bound f;
    some_word = omega arith;
  }

  -- A channel aggregate whose two header words have been read, and those after it.
  decode_couple-Returns :
      (is_pha : Bool) (board agg_end couple pos size format_word : ℕ)
      (next : ℕ → Session Frame → Result (Session Frame)) (s : Session Frame)
      → agg_end ≤ length buf
      → pos ≤ length buf
      → size < 2 ^ 31
      → lib.is_supported s.bd.frame ≡ true
      → ((p : ℕ) (t : Session Frame)
          → p ≤ length buf
          → lib.is_supported t.bd.frame ≡ true
          → Returns (Kept lib t) (next p t))
      → Returns
          (Kept lib s)
          (decode_couple lib is_pha buf board agg_end couple pos size format_word next s)
  unfolding decode_couple
  decode_couple-Returns is_pha board agg_end couple pos size format_word next s end_in pos_in small
        known later =
      elim (Bool-cases (ltb size 2 || ltb agg_end (u32 (pos + size)) || l.evt_size == 0)) [
        | inl e ↦ rw e (record { known = still; supported = refl })
        | inr e ↦ rw e (
            Returns-bind (SameBoard formatted) (Kept lib s)
              (decode_events lib is_pha buf l board couple (u32 (pos + 2)) ((size - 2) / l.evt_size)
                formatted)
              _
              (decode_events-Returns lib buf short l (layout-Fits formatted.bd.frame (ok_size e).2)
                (u32 (pos + 2)) (size - 2) (omega (arith, ok_size e)) is_pha board couple
                ((size - 2) / l.evt_size) formatted
                (omega (arith, div-add-mod' (size - 2) l.evt_size)))
              λ t same.
                Returns-weaken (Kept lib t) (Kept lib s) (next (u32 (pos + size)) t)
                  (later (u32 (pos + size)) t (omega (arith, ok_size e)) (rw same.frame still))
                  λ u kept. record {
                    known = kept.known;
                    supported = kept.supported ∙ same.supported;
                  })
      ]
    where
      formatted : Session Frame
      formatted = record s { bd = set_frame lib s.bd format_word }

      l : DataLayout
      l = lib.layout formatted.bd.frame

      still : lib.is_supported formatted.bd.frame ≡ true
      still = laws.still_supported s.bd.frame format_word known

      ok_size :
          (ltb size 2 || ltb agg_end (u32 (pos + size)) || l.evt_size == 0) ≡ false
          → (2 ≤ size) × (pos + size ≤ agg_end) × (l.evt_size ≢ 0)
      ok_size e = checked size pos agg_end l.evt_size e small (omega arith)

  -- Whatever the sizes in the buffer are, no couple is read past it.
  pub decode_couples-Returns :
      (is_pha : Bool) (board agg_end : ℕ) (couples : List ℕ) (pos : ℕ) (s : Session Frame)
      → agg_end ≤ length buf
      → pos ≤ length buf
      → lib.is_supported s.bd.frame ≡ true
      → Returns (Kept lib s) (decode_couples lib is_pha buf board agg_end couples pos s)
  unfolding decode_couples
  decode_couples-Returns is_pha board agg_end [] pos s end_in pos_in known = record {
    known = known;
    supported = refl;
  }
  decode_couples-Returns is_pha board agg_end (couple ∷ couples) pos s end_in pos_in known =
      elim (Bool-cases (ltb agg_end (u32 (pos + 2)))) [
        | inl e ↦ rw e (record { known = known; supported = refl })
        | inr e ↦ rw e (
            Returns-bind (λ _. Unit {0}) (Kept lib s) (read buf pos) _
              (read-Returns buf pos (ground arith))
              λ size_word _.
                Returns-bind (λ _. Unit {0}) (Kept lib s) (read buf (u32 (pos + 1))) _
                  (read-Returns buf _ (ground arith))
                  λ format_word _.
                    decode_couple-Returns is_pha board agg_end couple pos _ format_word _ s end_in
                      pos_in (laws.size_bound s.bd.frame size_word known) known
                      λ p t. decode_couples-Returns is_pha board agg_end couples p t end_in)
      ]
