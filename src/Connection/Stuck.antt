-- ===== src/Connection/Stuck.antt =====
-- server/connection.cxx, `handle_handshake_data`: what follows where the reply to an accepted handshake is refused. The
-- teardown begins inside `send_handshake_reply`, and the function goes on to start the consumer.
use dicker.Base.{◌≡◌, ◌≢◌, inl, inr, sym, subst, ap, ◌∙◌, true, false, ◌&&◌, arith, if-keep}
use dicker.Protocol.{status_ok}
use dicker.Handshake.{HandshakeRequest, parse_and_verify_handshake}
use dicker.Connection.{Connection, handshaking}
use dicker.Connection.Life.{Life, life, torn_down, started, close_called, called, all_handles}
use dicker.Connection.Replies.{Transport, reply_bytes, send_handshake_reply, post}
use dicker.Connection.Preamble.{
  Server, no_request, handle_request, mode_for, has_decompressor, reply_to,
}
use dicker.Connection.Moves.{
  Together, Moves, life-begin_teardown, life-start_streaming, on_outbox_async-Tears,
  handle_data-Moves, handle_raw-Moves,
}
use dicker.Connection.Lifetime.{
  on_write-Tears, life-on_resume_async, life-on_close_async, life-on_handle_closed,
}
use dicker.Connection.Loop.{
  System, Step, Reach, consume, reads, decrypts, breaks, writes_done, resumes, drains, consumes,
  posts, finishes, closes, calls_back, here, next,
}

-- The handles are closing over a consumer that was started, and the channel that it reads is open.
pub record IsStuck (l : Life) : Type 0 where
  pub running : l.consumer_started ≡ true
  pub closing_handles : l.handles_closing ≡ true
  pub together : l.is_closing ≡ all_handles true
  pub tearing : l.teardown_started ≡ true
  pub past_handshake : l.state ≢ handshaking
  pub channel_open : l.channel_closed ≡ false

Moves-IsStuck : (t : Transport) (a b : Life) → Moves t a b → IsStuck a → IsStuck b
Moves-IsStuck t a b (inl (inl e)) s = subst IsStuck (sym e) s
Moves-IsStuck t a b (inl (inr e)) s = subst IsStuck (sym (e ∙ same)) s
  where
    same : torn_down a ≡ a
    same = rw (s.tearing)
Moves-IsStuck t a b (inr (fresh, _)) s = absurd (s.past_handshake fresh)

close_called-IsStuck : (l : Life) → IsStuck l → IsStuck (close_called l)
close_called-IsStuck l s = ground arith

called-IsStuck : (l : Life) → IsStuck l → IsStuck (called l)
called-IsStuck l s = ground arith

stuck_whole : (c : Connection) → IsStuck (life c) → Together c
stuck_whole c s = s.together ∙ ap all_handles (sym s.closing_handles)

Step-IsStuck :
    (server : Server) {s t : System}
    → Step server s t
    → IsStuck (life s.conn)
    → IsStuck (life t.conn)
Step-IsStuck server (reads s data_bytes _ _) i =
    Moves-IsStuck server.transport _ _
      (handle_raw-Moves server s.conn data_bytes (stuck_whole s.conn i)) i
Step-IsStuck server (decrypts s data_bytes _ _) i =
    Moves-IsStuck server.transport _ _
      (handle_data-Moves server s.conn data_bytes (stuck_whole s.conn i)) i
Step-IsStuck server (breaks s _) i =
    Moves-IsStuck server.transport _ _
      (inl (inr (life-begin_teardown s.conn (stuck_whole s.conn i)))) i
Step-IsStuck server (writes_done s after failed _) i =
    Moves-IsStuck server.transport _ _
      (inl (on_write-Tears s.conn after failed (stuck_whole s.conn i))) i
Step-IsStuck server (resumes s _) i =
    Moves-IsStuck server.transport _ _ (inl (inl (life-on_resume_async s.conn))) i
Step-IsStuck server (drains s _) i =
    Moves-IsStuck server.transport _ _
      (inl (on_outbox_async-Tears server.transport s.conn (stuck_whole s.conn i))) i
Step-IsStuck server (consumes s channel units bytes ran running closed fewer) i =
    Moves-IsStuck server.transport (life s.conn) (life (consume s.conn channel units bytes))
      (inl (inl (ap (λ b. record (life s.conn) { channel_closed = b }) closed))) i
Step-IsStuck server (posts s data_bytes ran running) i = unfold post in i
Step-IsStuck server (finishes s ran running) i = i
Step-IsStuck server (closes s done opened) i =
    subst IsStuck (sym (life-on_close_async s.conn (stuck_whole s.conn i)))
      (close_called-IsStuck _ i)
Step-IsStuck server (calls_back s handle opened back) i =
    subst IsStuck (sym (life-on_handle_closed s.conn)) (called-IsStuck _ i)

Reach-IsStuck :
    (server : Server) {s t : System}
    → IsStuck (life s.conn)
    → Reach server s t
    → IsStuck (life t.conn)
Reach-IsStuck server i here = i
Reach-IsStuck server i (next r step) = Step-IsStuck server step (Reach-IsStuck server i r)

-- A connection in its handshake, with a whole request in its buffer.
pub record IsWaiting (c : Connection) : Type 0 where
  pub state : c.state ≡ handshaking
  pub whole : c.is_closing ≡ all_handles false
  pub no_handles_closing : c.handles_closing ≡ false
  pub no_teardown : c.teardown_started ≡ false
  pub no_consumer : c.consumer_started ≡ false
  pub plain : c.tls_active ≡ false
  pub open_channel : c.channel.closed ≡ false

-- The connection as it is when the reply is written.
abbrev pub accepted : Server → Connection → HandshakeRequest → Connection
accepted server c request = record c {
  protocol_version = request.version;
  mode = mode_for server request.version;
}

refused_reply :
    (t : Transport) (c : Connection)
    → IsWaiting c
    → t.takes c.outputs (reply_bytes c status_ok) ≡ false
    → life (send_handshake_reply t c status_ok) ≡ torn_down (life c)
unfolding send_handshake_reply
refused_reply t c w refused =
    if-keep (λ x. life x ≡ torn_down (life c)) c.tls_active (λ tls. let plain = w.plain in cc)
      (λ _.
        if-keep (λ x. life x ≡ torn_down (life c)) (t.takes c.outputs (reply_bytes c status_ok))
          (λ taken. cc)
          (λ _. life-begin_teardown c (w.whole ∙ ap all_handles (sym w.no_handles_closing))))

started-IsStuck : (c : Connection) → IsWaiting c → IsStuck (started (torn_down (life c)))
started-IsStuck c w = ground arith

handle_request-IsStuck :
    (server : Server) (c : Connection) (request : HandshakeRequest)
    → IsWaiting c
    → parse_and_verify_handshake c.handshake_buffer server.key no_request ≡ (status_ok, request)
    → (has_decompressor request.algo && server.sink_ready request.session_id) ≡ true
    → server.transport.takes c.outputs (reply_bytes (accepted server c request) status_ok) ≡ false
    → IsStuck (life (handle_request server c))
unfolding handle_request
handle_request-IsStuck server c request w parsed ready refused =
    subst (λ p. IsStuck (life (reply_to server c p))) (sym parsed)
      (rw ready (
        subst IsStuck
          (sym (
            life-start_streaming server _ request
            ∙ ap started
                (refused_reply server.transport (accepted server c request) waiting refused)))
          (started-IsStuck (accepted server c request) waiting)))
  where
    waiting : IsWaiting (accepted server c request)
    waiting = record {
      state = w.state;
      whole = w.whole;
      no_handles_closing = w.no_handles_closing;
      no_teardown = w.no_teardown;
      no_consumer = w.no_consumer;
      plain = w.plain;
      open_channel = w.open_channel;
    }

-- Where the reply to an accepted handshake is refused on a plain connection, the consumer is started all the same, over
-- handles that are closing; and from there on no step ever closes the channel, on which the consumer waits and for
-- which the last close callback joins it.
pub refused_reply-channel_open :
    (server : Server) (s t : System) (c : Connection) (request : HandshakeRequest)
    → IsWaiting c
    → parse_and_verify_handshake c.handshake_buffer server.key no_request ≡ (status_ok, request)
    → (has_decompressor request.algo && server.sink_ready request.session_id) ≡ true
    → server.transport.takes c.outputs (reply_bytes (accepted server c request) status_ok) ≡ false
    → s.conn ≡ handle_request server c
    → Reach server s t
    → (t.conn.consumer_started ≡ true)
      × (t.conn.handles_closing ≡ true)
      × (t.conn.channel.closed ≡ false)
refused_reply-channel_open server s t c request w parsed ready refused from r =
    let first =
      subst (λ d. IsStuck (life d)) (sym from)
        (handle_request-IsStuck server c request w parsed ready refused) in
    let i = Reach-IsStuck server first r in (i.running, i.closing_handles, i.channel_open)
