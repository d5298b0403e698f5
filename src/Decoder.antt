-- ===== src/Decoder.antt =====
-- src/AggregateDecoder.cpp and include/caendaq/AggregateDecoder.hpp.
pub mod Frames
pub mod Clock
pub mod State
pub mod Wave
pub mod Events
pub mod Couples
pub mod Walk
