-- ===== src/Decoder/Walk/Bounds.antt =====
-- The walk ends, and reads nothing outside the buffer.
use caen_daq.Base.{
  Returns-if, ok, Bool, Option, none, some, Result, not, ◌%◌, ◌==◌, Bool-cases, List, Returns,
  Returns-bind, [], arith, inl, inr, length, ltb, read, read-Returns, refl, suc, zero, ℕ, ◌+◌, ◌/◌,
  ◌<◌, ◌^◌, ◌∷◌, ◌≡◌, ◌≤◌,
}
use caen_daq.Decoder.Couples.{decode_couples, couples_of, header_words}
use caen_daq.Decoder.Walk.{
  close_session, decode_found, note_fail, decode, note_corrupt, walk_step, Outcome,
  decode_aggregate, open_session, walk, words_of,
}
use caen_daq.Base.Words.{test_bit, u32_small, field, u32}
use caen_daq.Decoder.State.{BoardDec, Decoder, find}
use caen_daq.Decoder.Couples.Bounds.{Kept, decode_couples-Returns}
use caen_daq.Decoder.Frames.{FrameLaws, FrameLib}
use caen_daq.Decoder.State.Registry.{IsSound, find-IsKnown, insert-IsKnown}

pub length-words_of : (bytes : List ℕ) → length (words_of bytes) ≡ length bytes / 4
unfolding words_of
length-words_of [] = refl
length-words_of (a ∷ []) = refl
length-words_of (a ∷ b ∷ []) = refl
length-words_of (a ∷ b ∷ c ∷ []) = refl
length-words_of (a ∷ b ∷ c ∷ d ∷ rest) = omega (arith, length-words_of rest)

module _ {Frame : Type 0} (lib : FrameLib Frame) (laws : FrameLaws lib) (buf : List ℕ)
    (short : length buf < 2 ^ 31) where
  decode_found-Returns :
      (board offset agg_len id_word : ℕ) (o : Outcome Frame) (found : Option (BoardDec Frame))
      → offset + agg_len ≤ length buf
      → header_words ≤ agg_len
      → IsSound lib o.state
      → find board o.state.boards ≡ found
      → Returns
          (λ p. IsSound lib p.state)
          (decode_found lib buf board offset agg_len id_word o found)
  unfolding decode_found
  decode_found-Returns board offset agg_len id_word o none room long sound e = sound
  decode_found-Returns board offset agg_len id_word o (some bd) room long sound e =
      Returns-if (λ p. IsSound lib p.state) bd.supported _ (ok o)
        (λ known.
          Returns-bind (Kept lib (open_session lib bd o)) (λ p. IsSound lib p.state)
            (decode_couples lib bd.is_pha buf board (u32 (offset + agg_len))
              (couples_of (id_word % 2 ^ 8)) (u32 (offset + header_words)) (open_session lib bd o))
            (λ s. ok (close_session lib board o s))
            (decode_couples-Returns lib laws buf short bd.is_pha board (u32 (offset + agg_len))
              (couples_of (id_word % 2 ^ 8)) (u32 (offset + header_words)) (open_session lib bd o)
              (omega arith) (omega arith) (find-IsKnown lib board o.state.boards bd sound e known))
            λ s kept. insert-IsKnown lib board o.state.boards s.bd sound (λ _. kept.known))
        (λ unknown. sound)

  decode_aggregate-Returns :
      (offset agg_len id_word : ℕ) (o : Outcome Frame)
      → offset + agg_len ≤ length buf
      → header_words ≤ agg_len
      → IsSound lib o.state
      → Returns (λ p. IsSound lib p.state) (decode_aggregate lib buf offset agg_len id_word o)
  unfolding decode_aggregate
  decode_aggregate-Returns offset agg_len id_word o room long sound =
      decode_found-Returns (field id_word 27 5) offset agg_len id_word o _ room long sound refl

  note_fail-IsSound :
      (failed : Bool) (o : Outcome Frame)
      → IsSound lib o.state
      → IsSound lib (note_fail lib failed o).state
  note_fail-IsSound failed o h = ground arith

  walk_step-Returns :
      (offset w : ℕ) (next : ℕ → Outcome Frame → Result (Outcome Frame)) (o : Outcome Frame)
      → offset + header_words ≤ length buf
      → IsSound lib o.state
      → ((p : ℕ) (o' : Outcome Frame)
          → offset < p
          → p ≤ length buf
          → IsSound lib o'.state
          → Returns (λ r. IsSound lib r.state) (next p o'))
      → Returns (λ r. IsSound lib r.state) (walk_step lib buf (length buf) offset w next o)
  unfolding walk_step
  walk_step-Returns offset w next o room sound later = elim (Bool-cases (not (w / 2 ^ 28 == 0xA))) [
    | inl e ↦ rw e (later _ o (omega arith) (omega arith) sound)
    | inr e ↦ rw e (elim (Bool-cases (ltb (w % 2 ^ 28) header_words)) [
      | inl e ↦ rw e (later _ (note_corrupt lib o) (omega arith) (omega arith) sound)
      | inr long ↦ rw long (elim (Bool-cases (ltb (length buf) (u32 (offset + w % 2 ^ 28)))) [
        | inl e ↦ rw e sound
        | inr whole ↦ rw whole (
            Returns-bind (λ _. Unit {0}) (λ r. IsSound lib r.state) (read buf (u32 (offset + 1))) _
              (read-Returns buf _ (omega arith))
              λ id_word _.
                Returns-bind (λ r. IsSound lib r.state) (λ r. IsSound lib r.state)
                  (decode_aggregate lib buf offset (w % 2 ^ 28) id_word
                    (note_fail lib (test_bit id_word 26) o))
                  _
                  (decode_aggregate-Returns offset (w % 2 ^ 28) id_word _ (ground arith)
                    (ground arith) (note_fail-IsSound (test_bit id_word 26) o sound))
                  λ o' sound'. later _ o' (ground arith) (ground arith) sound')
      ])
    ])
  ]

  -- One round for each word and one to stop are enough.
  walk-Returns :
      (fuel offset : ℕ) (o : Outcome Frame)
      → offset ≤ length buf
      → length buf < offset + fuel
      → IsSound lib o.state
      → Returns (λ r. IsSound lib r.state) (walk lib fuel buf (length buf) offset o)
  unfolding walk
  walk-Returns zero offset o h enough sound = absurd (omega arith)
  walk-Returns (suc fuel) offset o h enough sound =
      elim (Bool-cases (ltb (length buf) (u32 (offset + header_words)))) [
        | inl e ↦ rw e sound
        | inr e ↦ rw e (
            Returns-bind (λ _. Unit {0}) (λ r. IsSound lib r.state) (read buf offset) _
              (read-Returns buf offset (ground arith))
              λ w _.
                walk_step-Returns offset w (walk lib fuel buf (length buf)) o (ground arith) sound
                  λ p o' past inside. walk-Returns fuel p o' inside (omega arith))
      ]

-- For every byte string of less than 2 ^ 33 bytes, `decode` returns: it reads nothing outside
-- the buffer, the fuel suffices, and the boards it leaves are sound again.
pub decode-Returns :
    {Frame : Type 0} (lib : FrameLib Frame) (bytes : List ℕ) (d : Decoder Frame)
    → FrameLaws lib
    → length bytes < 2 ^ 33
    → IsSound lib d
    → Returns (λ r. IsSound lib r.state) (decode lib bytes d)
unfolding decode
decode-Returns lib bytes d laws small sound =
    rw
      (
        ← length-words_of bytes,
        u32_small (length (words_of bytes)) (omega (arith, length-words_of bytes)),
      )
      (walk-Returns lib laws (words_of bytes) (omega (arith, length-words_of bytes))
        (length (words_of bytes) + 1) 0 _ (omega arith) (omega arith) sound)
