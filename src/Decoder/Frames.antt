-- ===== src/Decoder/Frames.antt =====
-- The format tables that the decoder uses (DataFrame, DataLayout and ExtractBits, taken from
-- another project): an interface, with what the decoder relies on as laws.
use caen_daq.Base.{ℕ, ◌+◌, ◌/◌, ◌^◌, ◌<◌, ◌≡◌, Bool, true, if◌then◌else◌}
use caen_daq.Base.Words.{flag}
use caen_daq.Board.{Text}

-- (lowest bit, highest bit)
abbrev pub BitRange : Type 0
BitRange = ℕ × ℕ

pub data Firmware : Type 0 where
  pha psd : Firmware

pub record DataLayout : Type 0 where
  pub evt_size : ℕ  -- uint16, in words
  pub num_samples : ℕ  -- uint16
  pub dual_trace : Bool
  pub has_trace : Bool
  pub has_ts : Bool
  pub has_energy : Bool
  pub has_charge : Bool
  pub has_extras : Bool
  pub has_channel_bit : Bool
  pub extras_config : Bool
  pub extras_mode : ℕ
  pub fmt_ts : BitRange
  pub fmt_extras : BitRange
  pub fmt_sample : BitRange
  pub ts_bits : ℕ
  pub res_ts : ℕ
  pub res_energy : ℕ

-- A `DataFrame` and what the decoder calls on it.
pub record FrameLib (Frame : Type 0) : Type 0 where
  pub make_frame : Firmware → Text → Frame
  pub is_supported : Frame → Bool
  pub size_format : Frame → BitRange
  pub set_data_format : Frame → ℕ → Frame
  pub layout : Frame → DataLayout
  pub extract_bits : ℕ → BitRange → ℕ

-- The number of words that an event holds, from what it holds.
abbrev pub event_words : DataLayout → ℕ
event_words l =
    flag l.has_energy
    + flag l.has_charge
    + flag l.has_ts
    + flag l.has_extras
    + (if l.has_trace then l.num_samples / 2 else 0)

-- A frame of a known board family has a size field of at most 31 bits, and keeps it; the event
-- size counts the words that the layout announces.
pub record FrameLaws {Frame : Type 0} (lib : FrameLib Frame) : Type 0 where
  pub size_bound :
      (f : Frame) (w : ℕ)
      → lib.is_supported f ≡ true
      → lib.extract_bits w (lib.size_format f) < 2 ^ 31
  pub still_supported :
      (f : Frame) (w : ℕ)
      → lib.is_supported f ≡ true
      → lib.is_supported (lib.set_data_format f w) ≡ true
  pub evt_size_lem : (f : Frame) → (lib.layout f).evt_size ≡ event_words (lib.layout f)
  pub num_samples_bound : (f : Frame) → (lib.layout f).num_samples < 2 ^ 16
