-- ===== src/Decoder/Wave.antt =====
-- unpackWave: the trace of an event into the reusable buffer `wave_`.
pub mod Bounds
use caen_daq.Base.{
  ℕ, zero, suc, ◌+◌, ◌*◌, ◌/◌, ◌%◌, ◌^◌, List, [], ◌∷◌, Result, ok, ◌>>=◌, read, ◌==◌,
  if◌then◌else◌,
}
use caen_daq.Base.Words.{u32}
use caen_daq.Decoder.Frames.{FrameLib, DataLayout, BitRange}

module _ {Frame : Type 0} (lib : FrameLib Frame) where
  -- `static_cast<std::int16_t>(ExtractBits(w, lo, hi))`, as a 16-bit pattern
  abbrev pub sample : ℕ → BitRange → ℕ
  sample w range = lib.extract_bits w range % 2 ^ 16

  -- One sample in each word.
  pub dual_samples : List ℕ → DataLayout → ℕ → ℕ → Result (List ℕ)
  dual_samples buf layout first zero = ok []
  dual_samples buf layout first (suc n) = do
    w ← read buf (u32 first)
    rest ← dual_samples buf layout (first + 1) n
    ok (sample w layout.fmt_sample ∷ rest)

  -- Two samples in each word.
  pub single_samples : List ℕ → DataLayout → ℕ → ℕ → Result (List ℕ)
  single_samples buf layout first zero = ok []
  single_samples buf layout first (suc n) = do
    let (lo, hi) = layout.fmt_sample
    w ← read buf (u32 first)
    rest ← single_samples buf layout (first + 1) n
    ok (sample w (lo, hi) ∷ sample w (lo + 16, hi + 16) ∷ rest)

  -- The number of samples, and the buffer, which an event without samples leaves as it was.
  unfoldable pub unpack_wave : List ℕ → DataLayout → ℕ → List ℕ → Result (ℕ × List ℕ)
  unfolding dual_samples single_samples
  unpack_wave buf layout first wave =
      let n_words = layout.num_samples / 2 in
      if n_words == 0
      then ok (0, wave)
      else (if layout.dual_trace
          then (do samples ← dual_samples buf layout first n_words; ok (n_words, samples))
          else (do samples ← single_samples buf layout first n_words; ok (2 * n_words, samples)))
