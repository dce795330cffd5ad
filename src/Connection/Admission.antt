-- ===== src/Connection/Admission.antt =====
-- client/worker.h, `handshake`, against server/connection.cxx: a client's first bytes get it a session, and what it sends
-- next reaches the consumer.
use dicker.Base.{
  ℕ, ◌≤◌, ◌≡◌, sym, ◌∙◌, subst, List, [], ◌∷◌, ◌++◌, true, false, ◌&&◌, arith, drop-append, All,
  IsByte,
}
use dicker.Codec.{joined}
use dicker.Protocol.{cmd_upload, status_ok}
use dicker.Handshake.RoundTrip.{
  IsIdentity, meant, signed, length-signed, take-signed, signed_bytes, parse-signed, handshake_lem,
}
use dicker.Client.Shake.{Identity, handshake}
use dicker.Handshake.{parse_and_verify_handshake, session_id_to_hex}
use dicker.ByteChannel.Invariant.{contents}
use dicker.Connection.{Connection, streaming}
use dicker.Connection.Preamble.{Server, no_request, has_decompressor}
use dicker.Connection.Lifetime.{RepliesGoOut}
use dicker.Connection.Segments.{IsAccepted, IsEarly, IsLate, deliver}
use dicker.Connection.Arrival.{deliver-IsLate}

-- A session is open under the id, and the bytes stand in its open channel, of which nothing has been taken.
pub record IsStreaming (c : Connection) (session_id bytes : List ℕ) : Type 0 where
  pub phase : c.state ≡ streaming
  pub session : c.session_hex ≡ session_id_to_hex session_id
  pub calm : c.teardown_started ≡ false
  pub opened : c.channel.closed ≡ false
  pub holds : contents c.channel ≡ bytes

pub signed-IsAccepted :
    (server : Server) (client : Identity) (version : ℕ)
    → IsIdentity client
    → 1 ≤ version
    → version ≤ 2
    → client.key ≡ server.key
    → (has_decompressor client.algo && server.sink_ready client.session_id) ≡ true
    → IsAccepted server (signed client version) (meant client version)
signed-IsAccepted server client version fits low high same served = record {
  size = length-signed client version fits;
  starts = take-signed client version;
  parses = λ tail small.
      subst
        (λ k.
          parse_and_verify_handshake (signed client version ++ tail) k no_request
          ≡ (status_ok, meant client version))
        same (parse-signed client version fits low high tail small no_request);
  served = served;
}

-- A client of version 1 or 2 with the server's key sends its handshake and then a payload, to a server that has a
-- decompressor for the client's algorithm, whose sink for the session is ready, and whose replies go out. However these
-- bytes are cut into deliveries, a fresh connection ends up streaming under the client's session; and as long as the
-- consumer has taken nothing from it, the channel holds the byte of the upload command and the payload.
pub deliver-handshake :
    (server : Server) (client : Identity) (version : ℕ) (payload : List ℕ) (c : Connection)
    (pieces : List (List ℕ))
    → IsIdentity client
    → 1 ≤ version
    → version ≤ 2
    → client.key ≡ server.key
    → (has_decompressor client.algo && server.sink_ready client.session_id) ≡ true
    → All IsByte payload
    → RepliesGoOut server.transport
    → IsEarly c []
    → joined pieces ≡ handshake client version ++ payload
    → IsStreaming (deliver server c pieces) client.session_id (cmd_upload ∷ payload)
deliver-handshake server client version payload c pieces fits low high same served small out early
      e =
    let seen = signed client version ++ (cmd_upload ∷ payload) in
    let late : IsLate (deliver server c pieces) seen (meant client version) =
      deliver-IsLate server (signed client version) (cmd_upload ∷ payload) (meant client version)
        (signed-IsAccepted server client version fits low high same served)
        (signed_bytes client version (cmd_upload ∷ payload) fits low high (omega arith, small)) out
        c pieces early (e ∙ handshake_lem client version payload) in
    record {
      phase = late.0;
      session = late.1;
      calm = late.2;
      opened = late.3.1;
      holds =
          late.3.2
          ∙ drop-append 56 (signed client version) (cmd_upload ∷ payload)
              (sym (length-signed client version fits));
    }
