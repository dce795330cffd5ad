-- ===== src/Connection/Loop.antt =====
-- server/connection.cxx: the event loop around a connection. A step is a callback of libuv, a call of the TLS layer, or
-- an action of the consumer thread; each is taken only where libuv's contract or the thread's program allows it.
use dicker.Base.{ℕ, ◌≤◌, ◌≡◌, List, Bool, true, false, if◌then◌else◌}
use dicker.ByteChannel.{ByteChannel}
use dicker.Connection.{
  Connection, Handle, Handles, no_handles, has, mark, tcp, resume_async, close_async, outbox_async,
  new_connection, begin_teardown, on_close_async, on_handle_closed, on_resume_async,
}
use dicker.Connection.Replies.{on_outbox_async, on_write, post}
use dicker.Connection.Preamble.{Server, handle_raw, handle_data}

pub record System : Type 0 where
  pub conn : Connection
  -- the consumer thread has returned, its last act the send to `close_async_`
  pub finished : Bool
  -- the handles whose close callback has run
  pub called_back : Handles

-- `Connection::accept`, with the result of `uv_accept`.
unfoldable pub accept : (low_water : ℕ) → (accepted : Bool) → System
accept low_water accepted = record {
  conn = if accepted then new_connection low_water else begin_teardown (new_connection low_water);
  finished = false;
  called_back = no_handles;
}

abbrev pub on : System → Connection → System
on s conn = record s { conn = conn }

-- What the consumer thread leaves behind when it has read from the channel and counted.
abbrev pub consume : Connection → ByteChannel → ℕ → ℕ → Connection
consume c channel units bytes = record c {
  channel = channel;
  units_done = units;
  bytes_total = bytes;
}

-- A handle that was given to `uv_close` has no more callbacks but its close callback, which comes once; the writes
-- that are under way on the socket are called back before.
pub data Step (server : Server) : System → System → Type 0 where
  reads :
      (s : System) (data_bytes : List ℕ)
      → has s.conn.is_closing tcp ≡ false
      → s.conn.paused ≡ false
      → Step server s (on s (handle_raw server s.conn data_bytes))
  decrypts :
      (s : System) (data_bytes : List ℕ)
      → has s.called_back tcp ≡ false
      → s.conn.tls_active ≡ true
      → Step server s (on s (handle_data server s.conn data_bytes))
  breaks :
      (s : System) → has s.called_back tcp ≡ false → Step server s (on s (begin_teardown s.conn))
  writes_done :
      (s : System) (teardown_after failed : Bool)
      → has s.called_back tcp ≡ false
      → Step server s (on s (on_write s.conn teardown_after failed))
  resumes :
      (s : System)
      → has s.conn.is_closing resume_async ≡ false
      → Step server s (on s (on_resume_async s.conn))
  drains :
      (s : System)
      → has s.conn.is_closing outbox_async ≡ false
      → Step server s (on s (on_outbox_async server.transport s.conn))
  consumes :
      (s : System) (channel : ByteChannel) (units bytes : ℕ)
      → s.conn.consumer_started ≡ true
      → s.finished ≡ false
      → channel.closed ≡ s.conn.channel.closed
      → channel.buffered ≤ s.conn.channel.buffered
      → Step server s (on s (consume s.conn channel units bytes))
  posts :
      (s : System) (data_bytes : List ℕ)
      → s.conn.consumer_started ≡ true
      → s.finished ≡ false
      → Step server s (on s (post s.conn data_bytes))
  finishes :
      (s : System)
      → s.conn.consumer_started ≡ true
      → s.finished ≡ false
      → Step server s (record s { finished = true })
  closes :
      (s : System)
      → s.finished ≡ true
      → has s.conn.is_closing close_async ≡ false
      → Step server s (on s (on_close_async s.conn))
  calls_back :
      (s : System) (handle : Handle)
      → has s.conn.is_closing handle ≡ true
      → has s.called_back handle ≡ false
      → Step server s
          (record s { conn = on_handle_closed s.conn; called_back = mark s.called_back handle })

pub data Reach (server : Server) (s : System) : System → Type 0 where
  here : Reach server s s
  next : {t u : System} → Reach server s t → Step server t u → Reach server s u
