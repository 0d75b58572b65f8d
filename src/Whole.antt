-- ===== src/Whole.antt =====
-- The transfer as a whole (`poll_data_transfer`, poll.c): what each of its handlers leaves as it is, and
-- the order in which the host is sent what comes in on all connections.
pub mod Aside
pub mod Watching
pub mod Served
pub mod Sending
pub mod Serving
pub mod Delivering
pub mod Turns
pub mod Reached
pub mod Registered
pub mod Mirror
