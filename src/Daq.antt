-- ===== src/Daq.antt =====
-- src/Daq.cpp: the orchestrator of all boards.
pub mod WriterLoop
pub mod Master
pub mod Session
pub mod Boards
pub mod Running
pub mod Access
pub mod Devices
pub mod Statistics
pub mod Whole
