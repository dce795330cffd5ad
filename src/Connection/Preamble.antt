-- ===== src/Connection/Preamble.antt =====
-- server/connection.cxx: what the loop thread does with the bytes of the socket. The first of them say whether TLS is
-- spoken, the next whether a dicker client or an HTTP client is there; behind an accepted handshake all bytes go to the
-- channel. Bytes that TLS decrypts come back through `handle_data`.
use dicker.Base.{
  ℕ, ◌+◌, ◌*◌, List, [], ◌∷◌, ◌++◌, Bool, true, false, ◌&&◌, ◌||◌, not, Option, none, some, length,
  take, drop, ltb, leb, ◌==◌, if◌then◌else◌, bytes, is_nil, bytes_eq, get_or, u64, starts_with, min,
}
use dicker.Protocol.{
  HandshakeStatus, server_error, magic, handshake_request_size, algo_code, lz4, zstd, has_flag,
  flag_integrity, mode_accept, mode_hash_first,
}
use dicker.Handshake.{HandshakeRequest, parse_and_verify_handshake, session_id_to_hex}
use dicker.ByteChannel.{push}
use dicker.Http.Message.{HttpRequest, http_header_end, parse_http_request, header}
use dicker.Http.Router.{Router, Reply, simple, taken_over, text_plain, dispatch}
use dicker.Connection.{
  Connection, streaming, is_streaming, is_handshaking, connected, recorded, spawned_consumer,
  began_download, ingested, emit, begin_teardown, apply_backpressure,
}
use dicker.Connection.Replies.{Transport, is_ok, send_handshake_reply, send_http_simple}

-- `Server`, as far as a connection reads it. `sink_ready` is whether `get_or_create_sink` gives a sink, and `tls_init`
-- the result of `TlsLayer::init`.
pub record Server : Type 0 where
  pub key : List ℕ
  pub high_water : ℕ
  pub has_filter : Bool
  pub hash_first : Bool
  pub router : Router
  pub sink_ready : List ℕ → Bool
  pub tls_init : Bool
  pub transport : Transport

-- `Server::mode_for`; the bits of the mode do not overlap.
unfoldable pub mode_for : Server → ℕ → ℕ
mode_for server version =
    if ltb version 2 || not server.has_filter
    then 0
    else if server.hash_first
    then mode_accept + mode_hash_first
    else mode_accept

-- `make_decompressor` gives a decompressor.
unfoldable pub has_decompressor : ℕ → Bool
has_decompressor algo = algo == algo_code lz4 || algo == algo_code zstd

-- `HandshakeRequest request;`
abbrev pub no_request : HandshakeRequest
no_request = record { version = 0; flags = 0; algo = 0; session_id = [] }

-- `Connection::authorized`, over `Server::verify_token`.
unfoldable pub authorized : (List ℕ → Bool) → HttpRequest → Bool
authorized verify_token request = elim (header request (bytes "authorization")) [
  | none ↦ false
  | some auth ↦
      if leb (length auth) (length (bytes "Bearer ")) || not (starts_with (bytes "Bearer ") auth)
      then false
      else verify_token (drop (length (bytes "Bearer ")) auth)
]

abbrev pub max_http_header_bytes : ℕ
max_http_header_bytes = 64 * 1024

module _ (server : Server) where
  open server use {key, high_water, router, sink_ready, tls_init, transport}

  abbrev pub bad_request : Connection → Connection
  bad_request c =
      send_http_simple transport (record c { http_done = true }) 400 (bytes "Bad Request")
        text_plain (bytes "bad request\n") []

  -- `dispatch_http`, and what the reply asks of the connection.
  unfoldable pub answer_http : Connection → Reply → Connection
  answer_http c (simple status reason type body headers) =
      send_http_simple transport c status reason type body headers
  answer_http c (taken_over none) = c
  answer_http c (taken_over (some (session_id, dir_path))) =
      emit c (began_download session_id dir_path)

  unfoldable pub handle_http_data : Connection → Connection
  handle_http_data c =
      let header_end = http_header_end c.handshake_buffer in
      let waiting =
        if ltb max_http_header_bytes (length c.handshake_buffer) then bad_request c else c in
      let answered : Connection = elim (parse_http_request (take header_end c.handshake_buffer)) [
        | none ↦ bad_request c
        | some request ↦ answer_http (record c { http_done = true }) (dispatch router request)
      ] in
      if c.http_done then c else if header_end == 0 then waiting else answered

  -- The status that is sent, from the one of the request: an accepted client also needs a decompressor and a sink.
  abbrev pub status_sent : HandshakeStatus → HandshakeRequest → HandshakeStatus
  status_sent status request =
      if is_ok status && not (has_decompressor request.algo && sink_ready request.session_id)
      then server_error
      else status

  -- Behind an accepted handshake: the consumer starts, and the rest of the buffer is its first input.
  unfoldable pub start_streaming : Connection → HandshakeRequest → Connection
  start_streaming c request =
      let integrity = has_flag request.flags flag_integrity in
      let hex = session_id_to_hex request.session_id in
      let leftover = drop handshake_request_size c.handshake_buffer in
      let started = record c {
        integrity_checks = integrity;
        session_hex = hex;
        state = streaming;
        handshake_buffer = [];
        consumer_started = true;
        outputs =
            c.outputs
            ++ (connected hex request.algo integrity c.tls_active
                ∷ recorded hex
                ∷ spawned_consumer
                ∷ []);
      } in
      if is_nil leftover
      then started
      else apply_backpressure high_water (record started { channel = push c.channel leftover })

  -- On a whole request.
  abbrev pub reply_to : Connection → HandshakeStatus × HandshakeRequest → Connection
  reply_to c (status, request) =
      let known =
        if is_ok status
        then record c { protocol_version = request.version; mode = mode_for server request.version }
        else c in
      let sent = status_sent status request in
      let replied = send_handshake_reply transport known sent in
      if is_ok sent then start_streaming replied request else replied

  unfoldable pub handle_request : Connection → Connection
  handle_request c = reply_to c (parse_and_verify_handshake c.handshake_buffer key no_request)

  -- Which protocol the first bytes speak; `none` while they do not say.
  unfoldable pub sniff : Connection → Option Connection
  sniff c =
      let n = min (length c.handshake_buffer) (length magic) in
      if c.proto_decided
      then some c
      else if not (bytes_eq (take n c.handshake_buffer) (take n magic))
      then some (record c { proto_decided = true; http_mode = true })
      else if leb (length magic) (length c.handshake_buffer)
      then some (record c { proto_decided = true; http_mode = false })
      else none

  -- Behind the decision.
  unfoldable pub on_protocol : Connection → Connection
  on_protocol c =
      if c.http_mode
      then handle_http_data c
      else if ltb (length c.handshake_buffer) handshake_request_size
      then c
      else handle_request c

  unfoldable pub handle_handshake_data : Connection → List ℕ → Connection
  handle_handshake_data c data_bytes =
      let grown = record c { handshake_buffer = c.handshake_buffer ++ data_bytes } in
      elim (sniff grown) [ none ↦ grown | some decided ↦ on_protocol decided ]

  unfoldable pub handle_data : Connection → List ℕ → Connection
  handle_data c data_bytes =
      let streamed = apply_backpressure high_water (record c {
        wire_bytes = u64 (c.wire_bytes + length data_bytes);
        channel = push c.channel data_bytes;
      }) in
      if is_handshaking c.state
      then handle_handshake_data c data_bytes
      else if is_streaming c.state
      then streamed
      else c

  -- The first byte of a TLS record of a handshake.
  abbrev pub looks_like_tls : List ℕ → Bool
  looks_like_tls data_bytes = not (is_nil data_bytes) && get_or data_bytes 0 0 == 0x16

  -- The first bytes of all say whether TLS is spoken.
  abbrev pub is_first : Connection → Bool
  is_first c = is_handshaking c.state && not c.tls_detected

  unfoldable pub detect : Connection → List ℕ → Connection
  detect c data_bytes =
      if is_first c
      then record c { tls_detected = true; tls_active = c.tls_active || looks_like_tls data_bytes }
      else c

  unfoldable pub on_detected : (first : Bool) → Connection → List ℕ → Connection
  on_detected first c data_bytes =
      if first && c.tls_active && not tls_init
      then begin_teardown c
      else if c.tls_active
      then emit c (ingested data_bytes)
      else handle_data c data_bytes

  unfoldable pub handle_raw : Connection → List ℕ → Connection
  handle_raw c data_bytes = on_detected (is_first c) (detect c data_bytes) data_bytes
