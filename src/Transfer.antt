-- ===== src/Transfer.antt =====
-- client/worker.h against server/connection.cxx: what a worker sends for a unit is what the server stores.
pub mod Step
pub mod Send
pub mod Whole
pub mod Unit
pub mod Header
pub mod Replies
pub mod Probes
pub mod Exchange
