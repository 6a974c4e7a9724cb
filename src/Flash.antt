-- ===== src/Flash.antt =====
-- Flash programming of include/wadjet/protocols/diagnostic/flash_sequence.hpp and
-- src/protocols/diagnostic/flash_sequence.cpp.
pub mod Sequence
pub mod Tracker
pub mod Invariant
pub mod Frame
pub mod Erase
pub mod Blocks
pub mod Transfer
pub mod Ends
