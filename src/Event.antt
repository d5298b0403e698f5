-- ===== src/Event.antt =====
-- include/caendaq/DecodedEvent.hpp: an event as the decoder hands it on. The samples of a trace
-- are 16-bit patterns, and are copied, since the view is used only while it is valid.
use caen_daq.Base.{ℕ, Bool, false, List, []}
use caen_daq.Base.Int.{ℤ, pos}

pub record DecodedEvent : Type 0 where
  pub board : ℕ  -- uint16
  pub channel : ℕ  -- uint16
  pub timestamp : ℕ  -- uint64
  pub time_ps : ℤ  -- int64
  pub energy : ℕ  -- uint16
  pub qshort : ℕ  -- uint16
  pub qlong : ℕ  -- uint16
  pub pileup : Bool
  pub lost : Bool
  pub satu : Bool
  pub wave : List ℕ

-- `DecodedEvent e;`
abbrev pub no_event : DecodedEvent
no_event = record {
  board = 0;
  channel = 0;
  timestamp = 0;
  time_ps = pos 0;
  energy = 0;
  qshort = 0;
  qlong = 0;
  pileup = false;
  lost = false;
  satu = false;
  wave = [];
}
