-- ===== src/Connection/Segments.antt =====
-- server/connection.cxx, `handle_data`: how the bytes of a client are cut into deliveries does not matter.
use dicker.Base.{
  ℕ, ◌≤◌, ◌<◌, ◌≡◌, ◌⊎◌, refl, sym, ap, ◌∙◌, subst, List, [], ◌∷◌, ◌++◌, true, false, ◌&&◌, not,
  none, some, arith, length, take, drop, drop-append_le, All, IsByte, min, bytes_eq, if-keep, leb,
  is_nil, if◌then◌else◌,
}
use dicker.Protocol.{magic, status_ok}
use dicker.Handshake.{HandshakeRequest, parse_and_verify_handshake, session_id_to_hex}
use dicker.ByteChannel.{ByteChannel, push}
use dicker.ByteChannel.Invariant.{IsValid, contents, contents-push, push-IsValid}
use dicker.Connection.{
  Connection, Output, wrote_reply, sent_tls, emit, handshaking, streaming, apply_backpressure,
  is_handshaking, is_streaming,
}
use dicker.Connection.Replies.{send_handshake_reply, reply_bytes}
use dicker.Connection.Preamble.{
  Server, no_request, sniff, handle_request, handle_data, start_streaming, reply_to,
  has_decompressor, mode_for,
}
use dicker.Connection.Lifetime.{RepliesGoOut}

-- A request of 56 bytes that the server accepts, whatever bytes follow it.
pub record IsAccepted (server : Server) (prefix : List ℕ) (request : HandshakeRequest)
    : Type 0 where
  pub size : length prefix ≡ 56
  pub starts : take 4 prefix ≡ magic
  pub parses :
      (tail : List ℕ)
      → All IsByte tail
      → parse_and_verify_handshake (prefix ++ tail) server.key no_request ≡ (status_ok, request)
  pub served : (has_decompressor request.algo && server.sink_ready request.session_id) ≡ true

-- The bytes that stand in an open channel.
abbrev pub Holds : ByteChannel → List ℕ → Type 0
Holds ch bytes = IsValid ch × (ch.closed ≡ false) × (contents ch ≡ bytes)

-- `seen` has arrived and is short of a request.
abbrev pub IsEarly : Connection → List ℕ → Type 0
IsEarly c seen =
    (c.state ≡ handshaking)
    × (c.handshake_buffer ≡ seen)
    × (c.http_mode ≡ false)
    × (c.teardown_started ≡ false)
    × Holds c.channel []

-- `seen` has arrived; all of it behind the request stands in the channel.
abbrev pub IsLate : Connection → List ℕ → HandshakeRequest → Type 0
IsLate c seen request =
    (c.state ≡ streaming)
    × (c.session_hex ≡ session_id_to_hex request.session_id)
    × (c.teardown_started ≡ false)
    × Holds c.channel (drop 56 seen)

unfoldable pub deliver : Server → Connection → List (List ℕ) → Connection
deliver server c [] = c
deliver server c (piece ∷ pieces) = deliver server (handle_data server c piece) pieces

push-closed : (ch : ByteChannel) (more : List ℕ) → (push ch more).closed ≡ ch.closed
unfolding push
push-closed ch more = ground arith

Holds-push :
    (ch : ByteChannel) (bytes more : List ℕ) → Holds ch bytes → Holds (push ch more) (bytes ++ more)
Holds-push ch bytes more (valid, opened, e) = (
  push-IsValid ch more valid,
  push-closed ch more ∙ opened,
  contents-push ch more valid
      ∙ ap (λ b. if b then contents ch else contents ch ++ more) opened
      ∙ ap (λ l. l ++ more) e,
)

backpressure-IsLate :
    (high : ℕ) (c : Connection) (seen : List ℕ) (request : HandshakeRequest)
    → IsLate c seen request
    → IsLate (apply_backpressure high c) seen request
unfolding apply_backpressure
backpressure-IsLate high c seen request l =
    if-keep (λ x. IsLate x seen request) (not c.paused && leb high c.channel.buffered) (λ _. l)
      (λ _. l)

module _ (server : Server) where
  -- Behind the handshake a delivery goes to the channel.
  pub streaming-IsLate :
      (c : Connection) (seen more : List ℕ) (request : HandshakeRequest)
      → 56 ≤ length seen
      → IsLate c seen request
      → IsLate (handle_data server c more) (seen ++ more) request
  unfolding handle_data
  streaming-IsLate c seen more request len (phase, session, calm, held) =
      if-keep (λ x. IsLate x (seen ++ more) request) (is_handshaking c.state)
        (λ e. let no = ap is_handshaking phase in cc)
        (λ _.
          if-keep (λ x. IsLate x (seen ++ more) request) (is_streaming c.state)
            (λ _. backpressure-IsLate _ _ (seen ++ more) request (
              phase,
              session,
              calm,
              subst (Holds (push c.channel more)) (sym (drop-append_le 56 seen more len))
                  (Holds-push c.channel (drop 56 seen) more held),
            ))
            (λ e. let set = ap is_streaming phase in cc))

  -- A whole request behind an accepted reply.
  start_streaming-IsLate :
      (c : Connection) (request : HandshakeRequest)
      → Holds c.channel []
      → c.teardown_started ≡ false
      → IsLate (start_streaming server c request) c.handshake_buffer request
  unfolding start_streaming
  start_streaming-IsLate c request held calm =
      let leftover = drop 56 c.handshake_buffer in
      if-keep (λ x. IsLate x c.handshake_buffer request) (is_nil leftover)
        (λ e. (refl, refl, calm, subst (Holds c.channel) (sym (is_nil_lem leftover e)) held))
        (λ _.
          backpressure-IsLate _ _ c.handshake_buffer request
            (refl, refl, calm, Holds-push c.channel [] leftover held))
    where
      is_nil_lem : (xs : List ℕ) → is_nil xs ≡ true → xs ≡ []
      is_nil_lem [] e = refl
      is_nil_lem (x ∷ xs) e = cc

  -- A reply that goes out is one more output.
  replied_emits :
      (c : Connection)
      → RepliesGoOut server.transport
      → (o : Output) × (send_handshake_reply server.transport c status_ok ≡ emit c o)
  unfolding send_handshake_reply reply_bytes
  replied_emits c out =
      let mode = if leb 2 c.protocol_version then c.mode ∷ [] else [] in
      let reply = magic ++ 0 ∷ mode in
      let sent = out c.outputs mode in
      if-keep (λ x. (o : Output) × (x ≡ emit c o)) c.tls_active
        (λ _.
          if-keep (λ x. (o : Output) × (x ≡ emit c o)) (server.transport.tls_sends c.outputs reply)
            (λ _. (sent_tls reply false, refl)) (λ e. let goes = sent.1 in cc))
        (λ _.
          if-keep (λ x. (o : Output) × (x ≡ emit c o)) (server.transport.takes c.outputs reply)
            (λ _. (wrote_reply reply false, refl)) (λ e. let goes = sent.0 in cc))

  pub handle_request-IsLate :
      (c : Connection) (request : HandshakeRequest)
      → RepliesGoOut server.transport
      → parse_and_verify_handshake c.handshake_buffer server.key no_request ≡ (status_ok, request)
      → (has_decompressor request.algo && server.sink_ready request.session_id) ≡ true
      → Holds c.channel []
      → c.teardown_started ≡ false
      → IsLate (handle_request server c) c.handshake_buffer request
  unfolding handle_request
  handle_request-IsLate c request out parsed served held calm =
      let known = record c {
        protocol_version = request.version;
        mode = mode_for server request.version;
      } in
      let (o, e) = replied_emits known out in
      subst (λ p. IsLate (reply_to server c p) c.handshake_buffer request) (sym parsed)
        (rw served (
          subst (λ d. IsLate (start_streaming server d request) c.handshake_buffer request) (sym e)
            (start_streaming-IsLate (emit known o) request held calm)))

  -- Before the request is whole, its first bytes are those of the magic.
  pub sniff_dicker :
      (c : Connection)
      → c.http_mode ≡ false
      → bytes_eq
          (take (min (length c.handshake_buffer) 4) c.handshake_buffer)
          (take (min (length c.handshake_buffer) 4) magic)
        ≡ true
      → ((sniff server c ≡ none) × (length c.handshake_buffer < 4))
        ⊎ (sniff server c ≡ some (record c { proto_decided = true; http_mode = false }))
  unfolding sniff
  sniff_dicker c quiet starts = ground arith
