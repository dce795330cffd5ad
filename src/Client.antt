-- ===== src/Client.antt =====
-- client/: the worker that owns a connection, the scheduler that feeds it, and what they stand on.
pub mod Shake
pub mod Worker
pub mod Affinity
pub mod Scheduler
pub mod Reader
pub mod Ring
