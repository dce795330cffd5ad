-- ===== src/Tests.antt =====
-- Runs of the model at concrete inputs, and the theorems applied to them.
pub mod Wires
pub mod Digests
pub mod Channel
pub mod Transfers
pub mod Connections
pub mod Https
pub mod Schedules
pub mod Logs
pub mod Rings
pub mod Probes
pub mod Archives
pub mod Readers
pub mod Sinks
