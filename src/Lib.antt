-- ===== src/Lib.antt =====
-- dicker: a client that uploads a directory tree to a server over one compressed, authenticated stream per worker.
-- This library models the program's core in antt and proves that it is correct.
--
-- The parts and the files that model them, with the paths of the repository:
--   Protocol       shared/protocol.h: the bytes of the enumerations, the limits, the flag tests.
--   Wire           shared/wire.h: little-endian integers.
--   Crypto         shared/sha256.h and shared/hmac_sha256.h: the streaming hasher, the HMAC, the comparison.
--   Handshake      server/handshake.cxx: the check of a client's first bytes.
--   ByteChannel    server/byte_channel.cxx: the queue between the loop thread and the consumer thread.
--   Codec          client/compressor.h and server/decompressor.h as interfaces, with the laws of a codec pair.
--   Client         client/worker.h: the handshake (Shake), connecting and the first reply (Worker.Init), the frames of units
--                  and probes (Worker.Frames), upload (Worker.Upload), probes and their replies (Worker.Session, Window);
--                  client/ring.h (Ring): its invariant (Invariant, Moves), the order of the values (Slots, Order) and the
--                  gates (Gates, GateMoves, GatePops, Wakeups); client/storageReader.h (Reader);
--                  client/affinity.h (Affinity) and client/scheduler.h (Scheduler): the choice of a worker (Selection),
--                  the dispatch of a unit (Dispatch), the cutting of a file (Chunks).
--   Upload         server/connection.cxx, the consumer thread: its state (Session), UnitSink::write (Sink), the block
--                  stream and the trailer (Blocks), the probes, headers and loop of handle_upload (Units).
--   Connection     server/connection.cxx, the loop thread: the state and the teardown (Connection), what it writes
--                  (Replies), how it takes the first bytes (Preamble), the event loop around it (Loop). Life, Moves,
--                  Lifetime and Stuck follow its handles and its consumer thread through that loop; Segments, Arrival and Admission
--                  follow a client's bytes; Access is about the token of an HTTP request.
--   Http           server/http.cxx, a request and a response (Message, with its Framing, LowerCase and Parse);
--                  server/router.cxx and server/middleware/auth.cxx (Router); server/controllers (Controllers).
--   Db             server/db.cxx: the tokens (Tokens), hexadecimal digits (Hex) and the log of sessions (Sessions).
--   Archive        server/archive.cxx: octal fields (Octal), headers (Fields, Names, Header), the tar file (Member, Blocks)
--                  and how it is produced (Stream, Refill).
--   FileSink       server/file_sink.cxx: the writers, and where the bytes land (Writes); the registry of files (Registry).
--   Transfer       the client against the server: upload against handle_upload (Step, Send, Whole, Unit, Header), probes
--                  against their replies (Probes, Exchange), shake against the reply to a handshake (Replies).
--   Base           lists, numbers, bits and tests that the other modules share.
--   Tests          the model run at concrete inputs, and the theorems applied to them.
--
-- How they interact: Client.Worker builds the bytes that travel. Connection.Preamble buffers the first 56 of them,
-- has Handshake read them, and pushes what follows into ByteChannel; a client that does not begin with the magic is
-- an HTTP client, whose request goes to the router. ByteChannel hands the bytes to the consumer thread in exact
-- amounts, and Upload reads units from it. Upload.Session.read_exact is the reader's view of ByteChannel.read_exact
-- that ByteChannel.Stream justifies: the next bytes of a stream, or false at its end.
--
-- State and operations: a struct is a record with the source's field names, a member function takes and returns that
-- record, a Boolean result stands first in a pair. A uintN_t that the source may overflow is cut by a remainder by 2
-- ^ N; bytes are numbers below 256. What the world sees of the consumer thread (events, writes, replies) is a list of
-- effects. What the loop thread asks of libuv, of TLS and of the application is the list of outputs of a connection;
-- a callback of libuv, a result of TLS or an act of the consumer is a step of Connection.Loop, taken where libuv's
-- contract or the thread's program allows it. The calls that other threads make at a wait of read_exact are a list of
-- events.
--
-- Loops run on fuel where they are not structural: read_exact on the count it reads (a round copies a byte at least),
-- Sha256::update on the length of its input, the padding loop on 64 rounds, the block loop and the loop of
-- handle_upload on the length of the input (a round reads a byte at least), the loop over a file's chunks on its size
-- (a round moves on by a byte at least, unless the chunk size is 0), the loops of the storage reader on the length they
-- read (a round reads a byte at least), refill_raw on the count of rounds that Archive.Refill bounds.
--
-- Threads: the ring is a step relation in which the producer, the consumer and a closing thread each make one access to
-- shared memory in a step, in any order; each access sees all before it (the release and acquire orders of the source
-- are taken at this strength), and a wait on a gate goes on while the gate has the value given.
--
-- Parameters: XXH64 (Checksum, with Streams for what the code relies on), LZ4 and zstd (Compressor and Decompressor,
-- with Agrees for a pair of which no call fails), AES-GCM (Cipher, with Opens for what the code relies on), the rows
-- of the log as JSON (Rows, with ReadsBack for rows in ASCII), what libuv and the TLS layer answer to a write
-- (Transport), the token store, the listing of the sessions and the directory test behind the HTTP endpoints, what
-- the channel of a worker answers (Chan), the answer of the filter, whether a file can be opened and written, BLAKE3
-- (Hasher), pread, what a file holds when the storage reader or the archive opens it, what uv_fs_write takes of the
-- bytes at a position, the path below the root of a session that a name stands for, the descriptors of uv_fs_open,
-- and what a connection to the server gives (Link).
--
-- Not modelled: the insides of TLS, of libuv and of sockets, SOCKS5, the check of a path below the root of a
-- session, the JSON and xxHash libraries, log lines and the address of a peer, the file of tokens, the filter rules,
-- the walk over a directory and the command line of the client, the walk behind an archive and its compression.
pub mod Base
pub mod ByteChannel
pub mod Client
pub mod Codec
pub mod Connection
pub mod Crypto
pub mod Db
pub mod FileSink
pub mod Handshake
pub mod Http
pub mod Protocol
pub mod Archive
pub mod Tests
pub mod Transfer
pub mod Upload
pub mod Wire
