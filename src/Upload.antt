-- ===== src/Upload.antt =====
-- server/connection.cxx, the consumer thread of a connection: `consumer_main`, `handle_upload`, `handle_probe` and
-- `UnitSink`. It reads the channel's stream (ByteChannel.Stream), a list of bytes that ends where the channel is
-- closed. The decompressor, XXH64, the filter and the outcome of the calls on files are parameters.
pub mod Session
pub mod Sink
pub mod Blocks
pub mod Units
