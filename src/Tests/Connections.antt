-- ===== src/Tests/Connections.antt =====
-- server/connection.cxx at concrete inputs: a client that is served, an HTTP client that is refused, a reply that does not
-- go out.
use dicker.Base.{
  ℕ, ◌≡◌, refl, List, [], ◌∷◌, ◌++◌, Bool, true, false, arith, bytes, take, drop, some, append-nil,
}
use dicker.Protocol.{cmd_upload}
use dicker.ByteChannel.Invariant.{IsValid}
use dicker.Handshake.RoundTrip.{signed, meant, parse-signed}
use dicker.Client.Shake.{handshake, signed_prefix}
use dicker.Wire.{append_u16}
use dicker.Connection.{
  Connection, Handle, tcp, resume_async, close_async, outbox_async, new_connection, no_handles,
  mark, begin_teardown, finalize_close, close_handle, on_handle_closed,
}
use dicker.Connection.Life.{all_handles}
use dicker.Connection.Preamble.{Server, has_decompressor, handle_request, handle_raw, no_request}
use dicker.Connection.Loop.{System, Step, Reach, accept, reads, calls_back, here, next, on}
use dicker.Connection.Lifetime.{RepliesGoOut, SystemIsSound, Reach-IsSound, Reach-deleted}
use dicker.Connection.Stuck.{IsWaiting, refused_reply-channel_open}
use dicker.Connection.Segments.{deliver}
use dicker.Connection.Admission.{IsStreaming, deliver-handshake}
use dicker.Tests.Digests.{abc, client, client_fits}

abbrev pub server_with : Bool → Server
server_with sends = record {
  key = abc;
  high_water = 8;
  has_filter = false;
  hash_first = false;
  router = record { routes = []; builtins = [] };
  sink_ready = λ _. true;
  tls_init = true;
  transport = record {
    takes = λ _ _. sends;
    tls_sends = λ _ _. sends;
    tls_encrypts = λ _ b. some b;
  };
}

going_out : RepliesGoOut (server_with true).transport
going_out log mode = (refl, refl)

fresh_ok : IsValid (new_connection 4).channel
fresh_ok = record { blocks_ok = refl; counted = refl }

abbrev payload : List ℕ
payload = 1 ∷ 2 ∷ 3 ∷ []

-- Three bytes of the handshake in the first delivery, the rest of it with the payload in the second.
deliver-handshake_example :
    IsStreaming
      (deliver
        (server_with true)
        (new_connection 4)
        (take 3 (handshake client 2) ∷ (drop 3 (handshake client 2) ++ payload) ∷ []))
      client.session_id
      (cmd_upload ∷ payload)
unfolding has_decompressor handshake signed_prefix append_u16
deliver-handshake_example =
    deliver-handshake (server_with true) client 2 payload (new_connection 4)
      (take 3 (handshake client 2) ∷ (drop 3 (handshake client 2) ++ payload) ∷ []) client_fits
      (omega arith) (omega arith) refl refl (omega arith) going_out
      (refl, refl, refl, refl, (fresh_ok, refl, refl)) (simp append-nil)

abbrev asked : List ℕ
asked = bytes "GET / HTTP/1.1\r\n\r\n"

abbrev answered : System
answered = on (accept 4 true) (handle_raw (server_with true) (new_connection 4) asked)

read_once : Reach (server_with true) (accept 4 true) answered
unfolding accept
read_once = next here (reads (accept 4 true) asked refl refl)

Reach-IsSound_example : SystemIsSound answered
Reach-IsSound_example = Reach-IsSound (server_with true) 4 true going_out read_once

abbrev back : System → Handle → System
back s handle = record s { conn = on_handle_closed s.conn; called_back = mark s.called_back handle }

-- A connection that libuv does not accept, behind the callbacks of its handles.
abbrev gone : System
gone = back (back (back (back (accept 4 false) tcp) resume_async) close_async) outbox_async

gone_lem : Reach (server_with true) (accept 4 false) gone
unfolding accept begin_teardown finalize_close close_handle on_handle_closed
gone_lem =
    next
      (next (next (next here (calls_back _ tcp refl refl)) (calls_back _ resume_async refl refl))
        (calls_back _ close_async refl refl))
      (calls_back _ outbox_async refl refl)

gone_deleted : gone.conn.deleted ≡ true
unfolding accept begin_teardown finalize_close close_handle on_handle_closed
gone_deleted = refl

Reach-deleted_example :
    (gone.called_back ≡ all_handles true)
    × (gone.conn.consumer_started ≡ true → gone.finished ≡ true)
    × ((t : System) → ¬ Step (server_with true) gone t)
Reach-deleted_example = Reach-deleted (server_with true) 4 false going_out gone_lem gone_deleted

-- A connection that has read a whole request.
abbrev waiting : Connection
waiting = record (new_connection 4) {
  tls_detected = true;
  proto_decided = true;
  handshake_buffer = signed client 2 ++ [];
}

waiting_lem : IsWaiting waiting
waiting_lem = record {
  state = refl;
  whole = refl;
  no_handles_closing = refl;
  no_teardown = refl;
  no_consumer = refl;
  plain = refl;
  open_channel = refl;
}

abbrev stuck : System
stuck = record {
  conn = handle_request (server_with false) waiting;
  finished = false;
  called_back = no_handles;
}

refused_reply-channel_open_example :
    (stuck.conn.consumer_started ≡ true)
    × (stuck.conn.handles_closing ≡ true)
    × (stuck.conn.channel.closed ≡ false)
unfolding has_decompressor
refused_reply-channel_open_example =
    refused_reply-channel_open (server_with false) stuck stuck waiting (meant client 2) waiting_lem
      (parse-signed client 2 client_fits (omega arith) (omega arith) [] tt no_request) refl refl
      refl here
