-- ===== src/Decoder/Wave/Bounds.antt =====
-- The trace is read inside the buffer.
use caen_daq.Base.{
  ℕ, zero, suc, ◌+◌, ◌/◌, ◌^◌, ◌≤◌, ◌<◌, List, read, length, Returns, Returns-bind, read-Returns,
  arith,
}
use caen_daq.Base.Words.{u32, u32_small}
use caen_daq.Decoder.Frames.{FrameLib, DataLayout}
use caen_daq.Decoder.Wave.{dual_samples, single_samples, unpack_wave}

module _ {Frame : Type 0} (lib : FrameLib Frame) (buf : List ℕ) (l : DataLayout)
    (short : length buf < 2 ^ 31) where
  read-u32-Returns : (i : ℕ) → i < length buf → Returns (λ _. Unit {0}) (read buf (u32 i))
  read-u32-Returns i h = rw (u32_small i (omega arith)) (read-Returns buf i h)

  dual_samples-Returns :
      (n first : ℕ)
      → first + n ≤ length buf
      → Returns (λ _. Unit {0}) (dual_samples lib buf l first n)
  unfolding dual_samples
  dual_samples-Returns zero first h = tt
  dual_samples-Returns (suc n) first h =
      Returns-bind (λ _. Unit {0}) (λ _. Unit {0}) (read buf (u32 first)) _
        (read-u32-Returns first (omega arith))
        λ w _.
          Returns-bind (λ _. Unit {0}) (λ _. Unit {0}) (dual_samples lib buf l (first + 1) n) _
            (dual_samples-Returns n (first + 1) (omega arith)) λ _ _. tt

  single_samples-Returns :
      (n first : ℕ)
      → first + n ≤ length buf
      → Returns (λ _. Unit {0}) (single_samples lib buf l first n)
  unfolding single_samples
  single_samples-Returns zero first h = tt
  single_samples-Returns (suc n) first h =
      Returns-bind (λ _. Unit {0}) (λ _. Unit {0}) (read buf (u32 first)) _
        (read-u32-Returns first (omega arith))
        λ w _.
          Returns-bind (λ _. Unit {0}) (λ _. Unit {0}) (single_samples lib buf l (first + 1) n) _
            (single_samples-Returns n (first + 1) (omega arith)) λ _ _. tt

  pub unpack_wave-Returns :
      (first : ℕ) (wave : List ℕ)
      → first + l.num_samples / 2 ≤ length buf
      → Returns (λ _. Unit {0}) (unpack_wave lib buf l first wave)
  unfolding unpack_wave
  unpack_wave-Returns first wave h = ground (
    arith,
    dual_samples-Returns (l.num_samples / 2) first h,
    single_samples-Returns (l.num_samples / 2) first h,
  )
