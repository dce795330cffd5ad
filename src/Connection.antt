-- ===== src/Connection.antt =====
-- server/connection.h and server/connection.cxx, the loop thread of a connection: its state, what it asks of libuv, of the
-- TLS layer and of the application (Output, in order), and its teardown. The reading of the socket is in Preamble, the
-- writing in Replies, the event loop around both in Loop. The address of the peer and log lines are left out, and so is
-- the streaming of an archive behind `begin_download_response`.
pub mod Replies
pub mod Preamble
pub mod Loop
pub mod Life
pub mod Moves
pub mod Lifetime
pub mod Stuck
pub mod Segments
pub mod Arrival
pub mod Admission
pub mod Access
use dicker.Base.{
  ℕ, suc, ◌+◌, ◌-◌, List, [], ◌∷◌, ◌++◌, Bool, true, false, ◌&&◌, not, ltb, leb, ◌==◌,
  if◌then◌else◌, is_nil,
}
use dicker.Protocol.{min_protocol_version}
use dicker.ByteChannel.{ByteChannel, new_channel, close}

pub data State : Type 0 where
  handshaking streaming closing : State

-- The four libuv handles of a connection.
pub data Handle : Type 0 where
  tcp resume_async close_async outbox_async : Handle

pub data Output : Type 0 where
  -- `uv_write`, with `teardown_after` of its request
  wrote_reply : List ℕ → Bool → Output
  wrote_tls : List ℕ → Bool → Output
  -- `TlsLayer::send` and `TlsLayer::ingest`
  sent_tls : List ℕ → Bool → Output
  ingested : List ℕ → Output
  read_stopped read_started : Output
  closed_handle : Handle → Output
  connected : List ℕ → (algo : ℕ) → (integrity tls : Bool) → Output
  recorded : List ℕ → Output
  spawned_consumer : Output
  began_download : (session_id dir_path : List ℕ) → Output
  disconnected : List ℕ → (units bytes wire : ℕ) → Output

-- A flag for each handle.
pub record Handles : Type 0 where
  pub tcp_flag : Bool
  pub resume_flag : Bool
  pub close_flag : Bool
  pub outbox_flag : Bool

abbrev pub no_handles : Handles
no_handles = record {
  tcp_flag = false;
  resume_flag = false;
  close_flag = false;
  outbox_flag = false;
}

abbrev pub has : Handles → Handle → Bool
has hs tcp = hs.tcp_flag
has hs resume_async = hs.resume_flag
has hs close_async = hs.close_flag
has hs outbox_async = hs.outbox_flag

abbrev pub mark : Handles → Handle → Handles
mark hs tcp = record hs { tcp_flag = true }
mark hs resume_async = record hs { resume_flag = true }
mark hs close_async = record hs { close_flag = true }
mark hs outbox_async = record hs { outbox_flag = true }

pub record Connection : Type 0 where
  pub state : State
  pub handshake_buffer : List ℕ
  pub tls_detected : Bool
  pub tls_active : Bool
  pub proto_decided : Bool
  pub http_mode : Bool
  pub http_done : Bool
  pub channel : ByteChannel
  pub outbox : List ℕ
  pub integrity_checks : Bool
  pub protocol_version : ℕ
  pub mode : ℕ
  pub session_hex : List ℕ
  pub units_done : ℕ
  pub bytes_total : ℕ
  pub wire_bytes : ℕ
  pub paused : Bool
  pub consumer_started : Bool
  pub teardown_started : Bool
  pub handles_closing : Bool
  pub pending_handle_closes : ℕ
  -- `uv_is_closing` of each handle
  pub is_closing : Handles
  -- `delete connection`, which joins the consumer first
  pub deleted : Bool
  pub outputs : List Output

-- `Connection::Connection`
abbrev pub new_connection : (low_water : ℕ) → Connection
new_connection low_water = record {
  state = handshaking;
  handshake_buffer = [];
  tls_detected = false;
  tls_active = false;
  proto_decided = false;
  http_mode = false;
  http_done = false;
  channel = new_channel low_water;
  outbox = [];
  integrity_checks = false;
  protocol_version = min_protocol_version;
  mode = 0;
  session_hex = [];
  units_done = 0;
  bytes_total = 0;
  wire_bytes = 0;
  paused = false;
  consumer_started = false;
  teardown_started = false;
  handles_closing = false;
  pending_handle_closes = 0;
  is_closing = no_handles;
  deleted = false;
  outputs = [];
}

abbrev pub emit : Connection → Output → Connection
emit c o = record c { outputs = c.outputs ++ (o ∷ []) }

unfoldable pub close_handle : Connection → Handle → Connection
close_handle c handle =
    if not (has c.is_closing handle)
    then record c {
      pending_handle_closes = c.pending_handle_closes + 1;
      is_closing = mark c.is_closing handle;
      outputs = c.outputs ++ (closed_handle handle ∷ []);
    }
    else c

unfoldable pub finalize_close : Connection → Connection
unfolding close_handle
finalize_close c =
    if c.handles_closing
    then c
    else close_handle
        (close_handle
          (close_handle (close_handle (record c { handles_closing = true }) tcp) resume_async)
          close_async)
        outbox_async

unfoldable pub begin_teardown : Connection → Connection
unfolding finalize_close
begin_teardown c =
    let started = record c { teardown_started = true; state = closing } in
    if c.teardown_started
    then c
    else if c.consumer_started
    then record started { channel = close c.channel }
    else finalize_close started

unfoldable pub on_close_async : Connection → Connection
unfolding finalize_close
on_close_async c = finalize_close (record c { teardown_started = true; state = closing })

-- The last callback joins the consumer, reports, and deletes the connection.
unfoldable pub on_handle_closed : Connection → Connection
on_handle_closed c =
    let counted = record c { pending_handle_closes = c.pending_handle_closes - 1 } in
    let gone = record counted {
      deleted = true;
      outputs =
          if is_nil c.session_hex
          then c.outputs
          else c.outputs
            ++ (disconnected c.session_hex c.units_done c.bytes_total c.wire_bytes ∷ []);
    } in
    if counted.pending_handle_closes == 0 then gone else counted

abbrev pub is_streaming : State → Bool
is_streaming streaming = true
is_streaming _ = false

abbrev pub is_handshaking : State → Bool
is_handshaking handshaking = true
is_handshaking _ = false

unfoldable pub on_resume_async : Connection → Connection
on_resume_async c =
    if is_streaming c.state && c.paused
    then record c { paused = false; outputs = c.outputs ++ (read_started ∷ []) }
    else c

unfoldable pub apply_backpressure : (high_water : ℕ) → Connection → Connection
apply_backpressure high_water c =
    if not c.paused && leb high_water c.channel.buffered
    then record c { paused = true; outputs = c.outputs ++ (read_stopped ∷ []) }
    else c
