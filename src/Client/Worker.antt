-- ===== src/Client/Worker.antt =====
-- client/worker.h, `Worker`: what it puts on the wire for a task, and how it settles probes. The storage reader is
-- seen through the blocks that it fills for a task, the network through `Network`.
pub mod Frames
pub mod Upload
pub mod Session
pub mod Init
pub mod Window
