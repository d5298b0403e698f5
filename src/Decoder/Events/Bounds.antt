-- ===== src/Decoder/Events/Bounds.antt =====
-- An event that lies inside the buffer is read inside the buffer.
use caen_daq.Base.{
  Returns-weaken, if◌then◌else◌, ◌&&◌, ◌>>=◌, Bool-cases, Returns-bind, inl, inr, leb, ℕ, ◌+◌, ◌^◌,
  ◌≤◌, ◌<◌, ◌≡◌, Bool, true, List, length, Returns, read-Returns, arith,
}
use caen_daq.Decoder.Events.{
  note_incomplete, psd_event, channel_of, max_channels, pha_event, read_extras, sub_u32, Extras,
  set_time, finish_event, read_if,
}
use caen_daq.Event.{DecodedEvent}
use caen_daq.Decoder.Frames.{FrameLib, DataLayout, event_words}
use caen_daq.Decoder.State.{Session}
use caen_daq.Decoder.Wave.Bounds.{unpack_wave-Returns}

-- The layout counts its words, and none of its numbers leaves its type.
pub record Fits (l : DataLayout) : Type 0 where
  pub counted : l.evt_size ≡ event_words l
  pub samples : l.num_samples < 2 ^ 16
  pub some_word : 0 < l.evt_size

-- What reading an event keeps of the board's entry.
pub record SameBoard {Frame : Type 0} (s t : Session Frame) : Type 0 where
  pub frame : t.bd.frame ≡ s.bd.frame
  pub supported : t.bd.supported ≡ s.bd.supported

module _ {Frame : Type 0} (lib : FrameLib Frame) (buf : List ℕ) (l : DataLayout)
    (short : length buf < 2 ^ 31) (fits : Fits l) where
  finish_event-Returns :
      (ev : ℕ) (x : Extras) (e : DecodedEvent) (s : Session Frame)
      → ev + l.evt_size ≤ length buf
      → Returns (SameBoard s) (finish_event lib buf l ev x e s)
  unfolding finish_event set_time
  finish_event-Returns ev x e s h = ground (
    arith,
    fits.counted,
    unpack_wave-Returns lib buf l short (ev + 1) s.wave,
    unpack_wave-Returns lib buf l short (ev + 0) s.wave,
  )

  read_if-Returns :
      (b : Bool) (i : ℕ) → (b ≡ true → i < length buf) → Returns (λ _. Unit {0}) (read_if b buf i)
  read_if-Returns b i h = ground (arith, read-Returns buf i)

  read_extras-Returns :
      (ev last_words : ℕ) (decode : ℕ → Extras)
      → (l.has_extras ≡ true → sub_u32 (sub_u32 (ev + l.evt_size) 1) last_words < length buf)
      → Returns (λ _. Unit {0}) (read_extras buf l ev last_words decode)
  read_extras-Returns ev last_words decode h =
      ground (arith, read-Returns buf (sub_u32 (sub_u32 (ev + l.evt_size) 1) last_words))

  counted-SameBoard :
      (b : Bool) (s t : Session Frame) → SameBoard (note_incomplete lib b s) t → SameBoard s t
  counted-SameBoard b s t h = ground arith

  -- The end of both bodies, after the channel has been accepted.
  rest-Returns :
      (b : Bool) (ev last_words : ℕ) (decode : ℕ → Extras) (event : Extras → DecodedEvent)
      (s : Session Frame)
      → ev + l.evt_size ≤ length buf
      → last_words ≤ 1
      → (l.has_extras ≡ true → last_words + 1 ≤ l.evt_size)
      → Returns (SameBoard s) (
          read_extras buf l ev last_words decode >>= λ x.
          finish_event lib buf l ev x (event x) (note_incomplete lib b s))
  rest-Returns b ev last_words decode event s h k m =
      Returns-bind (λ _. Unit {0}) (SameBoard s) (read_extras buf l ev last_words decode) _
        (read_extras-Returns ev last_words decode (λ e. omega (arith, m e)))
        λ x _.
          Returns-weaken (SameBoard (note_incomplete lib b s)) (SameBoard s)
            (finish_event lib buf l ev x (event x) (note_incomplete lib b s))
            (finish_event-Returns ev x (event x) (note_incomplete lib b s) h)
            (counted-SameBoard b s)

  -- Every word of a DPP-PHA event that lies in the buffer is read in the buffer.
  pub pha_event-Returns :
      (board couple ev : ℕ) (s : Session Frame)
      → ev + l.evt_size ≤ length buf
      → Returns (SameBoard s) (pha_event lib buf l board couple ev s)
  unfolding pha_event
  pha_event-Returns board couple ev s h =
      Returns-bind (λ _. Unit {0}) (SameBoard s) (read_if l.has_ts buf ev) _
        (read_if-Returns l.has_ts ev (λ _. omega (arith, fits.some_word)))
        λ time_word _.
          Returns-bind (λ _. Unit {0}) (SameBoard s)
            (read_if l.has_energy buf (sub_u32 (ev + l.evt_size) 1)) _
            (read_if-Returns l.has_energy _ (λ _. omega (arith, fits.some_word)))
            λ energy_word _. elim (Bool-cases (leb max_channels (channel_of l time_word couple))) [
              | inl e ↦ rw e (ground arith)
              | inr e ↦ rw e (
                  rest-Returns (l.has_ts && l.has_energy) ev (if l.has_energy then 1 else 0) _ _ s h
                    (ground arith) (λ extra. ground (arith, fits.counted)))
            ]

  -- Likewise of a DPP-PSD event.
  pub psd_event-Returns :
      (board couple ev : ℕ) (s : Session Frame)
      → ev + l.evt_size ≤ length buf
      → Returns (SameBoard s) (psd_event lib buf l board couple ev s)
  unfolding psd_event
  psd_event-Returns board couple ev s h =
      Returns-bind (λ _. Unit {0}) (SameBoard s) (read_if l.has_ts buf ev) _
        (read_if-Returns l.has_ts ev (λ _. omega (arith, fits.some_word)))
        λ time_word _.
          Returns-bind (λ _. Unit {0}) (SameBoard s)
            (read_if l.has_charge buf (sub_u32 (ev + l.evt_size) 1)) _
            (read_if-Returns l.has_charge _ (λ _. omega (arith, fits.some_word)))
            λ charge_word _. elim (Bool-cases (leb max_channels (channel_of l time_word couple))) [
              | inl e ↦ rw e (ground arith)
              | inr e ↦ rw e (
                  rest-Returns (l.has_ts && l.has_charge) ev (if l.has_charge then 1 else 0) _ _ s h
                    (ground arith) (λ extra. ground (arith, fits.counted)))
            ]
