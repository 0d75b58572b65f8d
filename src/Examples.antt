-- ===== src/Examples.antt =====
-- Tests: a concrete machine, and runs of the transfer's functions (network.c) on it.
pub mod Machine
pub mod Transfers
pub mod Clients
pub mod Frames
pub mod Reading
pub mod Network
pub mod Streams
pub mod Whole
pub mod Polls
pub mod Prompt
