-- ===== src/Connection/Moves.antt =====
-- server/connection.cxx: every callback of the loop thread leaves the life of its connection alone, or begins the teardown,
-- or starts the consumer.
use dicker.Base.{
  ℕ, ◌≡◌, ◌⊎◌, inl, inr, refl, sym, subst, ◌∙◌, List, [], ◌∷◌, ◌++◌, Bool, true, false, ◌&&◌, ◌||◌,
  not, none, some, if◌then◌else◌, if-keep, arith, Bool-cases, Option-cases, is_nil, length, ltb,
  leb, take, drop, ap, ◌==◌,
}
use dicker.Protocol.{HandshakeStatus, status_ok, server_error, magic, handshake_request_size}
use dicker.Handshake.{HandshakeRequest}
use dicker.ByteChannel.{ByteChannel, push, close}
use dicker.Http.Message.{http_header_end, parse_http_request}
use dicker.Http.Router.{Reply, simple, taken_over, dispatch}
use dicker.Connection.{
  Connection, State, handshaking, Output, finalize_close, begin_teardown, apply_backpressure,
  is_handshaking, is_streaming,
}
use dicker.Connection.Life.{Life, life, torn_down, finalized, started, all_handles}
use dicker.Connection.Replies.{
  Transport, simple_response, tls_write, reply_bytes, send_handshake_reply, send_http_simple,
  on_outbox_async,
}
use dicker.Connection.Preamble.{
  Server, max_http_header_bytes, bad_request, answer_http, handle_http_data, start_streaming,
  reply_to, handle_request, sniff, on_protocol, handle_handshake_data, handle_data, handle_raw,
  is_first, detect, on_detected, mode_for, has_decompressor,
}

abbrev pub Whole : Life → Type 0
Whole l = l.is_closing ≡ all_handles l.handles_closing

abbrev pub Together : Connection → Type 0
Together c = Whole (life c)

-- A callback leaves the life alone, or begins the teardown, or starts the consumer.
abbrev pub Tears : Life → Life → Type 0
Tears a b = (b ≡ a) ⊎ (b ≡ torn_down a)

-- A reply to an accepted handshake does not leave the process.
abbrev pub Refuses : Transport → Type 0
Refuses t =
    (log : List Output) × (mode : List ℕ) × ((t.takes log (magic ++ 0 ∷ mode) ≡ false)
      ⊎ (t.tls_sends log (magic ++ 0 ∷ mode) ≡ false))

abbrev pub Moves : Transport → Life → Life → Type 0
Moves t a b =
    Tears a b
    ⊎ ((a.state ≡ handshaking) × ((b ≡ started a) ⊎ (Refuses t × (b ≡ started (torn_down a)))))

pub life-finalize_close :
    (c : Connection) → Together c → life (finalize_close c) ≡ finalized (life c)
unfolding finalize_close
life-finalize_close c h = ground arith

pub life-begin_teardown :
    (c : Connection) → Together c → life (begin_teardown c) ≡ torn_down (life c)
unfolding begin_teardown close
life-begin_teardown c h = ground arith

pub life-push : (ch : ByteChannel) (bytes : List ℕ) → (push ch bytes).closed ≡ ch.closed
unfolding push
life-push ch bytes = ground arith

pub life-apply_backpressure :
    (high : ℕ) (c : Connection) → life (apply_backpressure high c) ≡ life c
unfolding apply_backpressure
life-apply_backpressure high c = ground arith

keep-Tears :
    (a : Life) (b : Bool) (x y : Connection)
    → (b ≡ true → Tears a (life x))
    → (b ≡ false → Tears a (life y))
    → Tears a (life (if b then x else y))
keep-Tears a true x y p q = p refl
keep-Tears a false x y p q = q refl

module _ (t : Transport) where
  tls_write-Tears :
      (c : Connection) (bytes : List ℕ) (after : Bool)
      → Together c
      → Tears (life c) (life (tls_write t c bytes after))
  unfolding tls_write
  tls_write-Tears c bytes after h =
      keep-Tears (life c) (t.takes c.outputs bytes) _ _ (λ _. inl refl)
        (λ _. inr (life-begin_teardown c h))

  send_http_simple-Tears :
      (c : Connection) (status : ℕ) (reason type body : List ℕ) (extra : List (List ℕ × List ℕ))
      → Together c
      → Tears (life c) (life (send_http_simple t c status reason type body extra))
  unfolding send_http_simple
  send_http_simple-Tears c status reason type body extra h =
      let resp = simple_response status reason type body extra in
      keep-Tears (life c) c.tls_active _ _
        (λ _. elim (Option-cases (t.tls_encrypts c.outputs resp)) [
          | inl e ↦ rw e (inr (life-begin_teardown c h))
          | inr (wire, e) ↦ rw e (tls_write-Tears c wire true h)
        ])
        (λ _. tls_write-Tears c resp true h)

  pub on_outbox_async-Tears :
      (c : Connection) → Together c → Tears (life c) (life (on_outbox_async t c))
  unfolding on_outbox_async
  on_outbox_async-Tears c h =
      let swapped = record c { outbox = [] } in
      keep-Tears (life c) (is_nil c.outbox || c.teardown_started) _ _ (λ _. inl refl)
        (λ _.
          keep-Tears (life c) c.tls_active _ _
            (λ _.
              keep-Tears (life c) (t.tls_sends c.outputs c.outbox) _ _ (λ _. inl refl)
                (λ _. inr (life-begin_teardown swapped h)))
            (λ _. tls_write-Tears swapped c.outbox false h))

  pub send_handshake_reply-Tears :
      (c : Connection) (status : HandshakeStatus)
      → Together c
      → Tears (life c) (life (send_handshake_reply t c status))
  unfolding send_handshake_reply
  send_handshake_reply-Tears c status h =
      let reply = reply_bytes c status in
      keep-Tears (life c) c.tls_active _ _
        (λ _.
          keep-Tears (life c) (t.tls_sends c.outputs reply) _ _ (λ _. inl refl)
            (λ _. inr (life-begin_teardown c h)))
        (λ _.
          keep-Tears (life c) (t.takes c.outputs reply) _ _ (λ _. inl refl)
            (λ _. inr (life-begin_teardown c h)))

-- After a reply to an accepted handshake.
abbrev Replied : Transport → Life → Life → Type 0
Replied t a b = (b ≡ a) ⊎ (Refuses t × (b ≡ torn_down a))

send_handshake_reply_ok :
    (t : Transport) (c : Connection)
    → Together c
    → Replied t (life c) (life (send_handshake_reply t c status_ok))
unfolding send_handshake_reply reply_bytes
send_handshake_reply_ok t c h =
    let mode = if leb 2 c.protocol_version then c.mode ∷ [] else [] in
    let reply = magic ++ 0 ∷ mode in
    if-keep (λ x. Replied t (life c) (life x)) c.tls_active
      (λ _.
        if-keep (λ x. Replied t (life c) (life x)) (t.tls_sends c.outputs reply) (λ _. inl refl)
          (λ e. inr ((c.outputs, mode, inr e), life-begin_teardown c h)))
      (λ _.
        if-keep (λ x. Replied t (life c) (life x)) (t.takes c.outputs reply) (λ _. inl refl)
          (λ e. inr ((c.outputs, mode, inl e), life-begin_teardown c h)))

is_handshaking_lem : (s : State) → is_handshaking s ≡ true → s ≡ handshaking
is_handshaking_lem handshaking e = refl
is_handshaking_lem _ e = cc

module _ (server : Server) where
  open server use {transport, router, high_water, key}

  bad_request-Tears : (c : Connection) → Together c → Tears (life c) (life (bad_request server c))
  bad_request-Tears c h =
      send_http_simple-Tears transport (record c { http_done = true }) _ _ _ _ _ h

  answer_http-Tears :
      (c : Connection) (reply : Reply)
      → Together c
      → Tears (life c) (life (answer_http server c reply))
  unfolding answer_http
  answer_http-Tears c (simple status reason type body headers) h =
      send_http_simple-Tears transport c status reason type body headers h
  answer_http-Tears c (taken_over none) h = inl refl
  answer_http-Tears c (taken_over (some (id, dir))) h = inl refl

  handle_http_data-Tears :
      (c : Connection) → Together c → Tears (life c) (life (handle_http_data server c))
  unfolding handle_http_data
  handle_http_data-Tears c h =
      let header_end = http_header_end c.handshake_buffer in
      keep-Tears (life c) c.http_done _ _ (λ _. inl refl)
        (λ _.
          keep-Tears (life c) (header_end == 0) _ _
            (λ _.
              keep-Tears (life c) (ltb max_http_header_bytes (length c.handshake_buffer)) _ _
                (λ _. bad_request-Tears c h) (λ _. inl refl))
            (λ _. elim (Option-cases (parse_http_request (take header_end c.handshake_buffer))) [
              | inl e ↦ rw e (bad_request-Tears c h)
              | inr (request, e) ↦
                  rw e
                    (answer_http-Tears (record c { http_done = true }) (dispatch router request) h)
            ]))

  pub life-start_streaming :
      (c : Connection) (request : HandshakeRequest)
      → life (start_streaming server c request) ≡ started (life c)
  unfolding start_streaming
  life-start_streaming c request =
      if-keep (λ x. life x ≡ started (life c))
        (is_nil (drop handshake_request_size c.handshake_buffer)) (λ _. refl)
        (λ _.
          life-apply_backpressure high_water _
          ∙ ap (λ b. record (started (life c)) { channel_closed = b })
              (life-push c.channel (drop handshake_request_size c.handshake_buffer)))

  started_after :
      (c : Connection) (request : HandshakeRequest) (a : Life)
      → Replied transport a (life c)
      → (life (start_streaming server c request) ≡ started a)
        ⊎ (Refuses transport × (life (start_streaming server c request) ≡ started (torn_down a)))
  started_after c request a (inl e) = inl (life-start_streaming c request ∙ ap started e)
  started_after c request a (inr (refused, e)) =
      inr (refused, life-start_streaming c request ∙ ap started e)

  -- An accepted client starts the consumer; any other is told why.
  reply_to-Moves :
      (c : Connection) (status : HandshakeStatus) (request : HandshakeRequest)
      → Together c
      → c.state ≡ handshaking
      → Moves transport (life c) (life (reply_to server c (status, request)))
  reply_to-Moves c status_ok request h fresh =
      let known = record c {
        protocol_version = request.version;
        mode = mode_for server request.version;
      } in
      elim (Bool-cases (has_decompressor request.algo && server.sink_ready request.session_id)) [
        | inl ready ↦ rw ready (
            inr
              (fresh, started_after _ request (life c) (send_handshake_reply_ok transport known h)))
        | inr unready ↦ rw unready (inl (send_handshake_reply-Tears transport known server_error h))
      ]
  reply_to-Moves c status request h fresh = inl (send_handshake_reply-Tears transport c status h)

  sniff-life : (c d : Connection) → sniff server c ≡ some d → life d ≡ life c
  unfolding sniff
  sniff-life c d e = ground arith

  on_protocol-Moves :
      (c : Connection)
      → Together c
      → c.state ≡ handshaking
      → Moves transport (life c) (life (on_protocol server c))
  unfolding on_protocol handle_request
  on_protocol-Moves c h fresh =
      if-keep (λ x. Moves transport (life c) (life x)) c.http_mode
        (λ _. inl (handle_http_data-Tears c h))
        (λ _.
          if-keep (λ x. Moves transport (life c) (life x))
            (ltb (length c.handshake_buffer) handshake_request_size) (λ _. inl (inl refl))
            (λ _. reply_to-Moves c _ _ h fresh))

  handle_handshake_data-Moves :
      (c : Connection) (data_bytes : List ℕ)
      → Together c
      → c.state ≡ handshaking
      → Moves transport (life c) (life (handle_handshake_data server c data_bytes))
  unfolding handle_handshake_data
  handle_handshake_data-Moves c data_bytes h fresh =
      let grown = record c { handshake_buffer = c.handshake_buffer ++ data_bytes } in
      elim (Option-cases (sniff server grown)) [
        | inl e ↦ rw (e, handle_handshake_data) (inl (inl refl))
        | inr (d, e) ↦
            let same = sniff-life grown d e in
            rw (e, handle_handshake_data)
              (subst (λ l. Moves transport l (life (on_protocol server d))) same
                (on_protocol-Moves d (subst Whole (sym same) h) (ap (λ l. l.state) same ∙ fresh)))
      ]

  pub handle_data-Moves :
      (c : Connection) (data_bytes : List ℕ)
      → Together c
      → Moves transport (life c) (life (handle_data server c data_bytes))
  unfolding handle_data
  handle_data-Moves c data_bytes h =
      if-keep (λ x. Moves transport (life c) (life x)) (is_handshaking c.state)
        (λ e. handle_handshake_data-Moves c data_bytes h (is_handshaking_lem c.state e))
        (λ _.
          if-keep (λ x. Moves transport (life c) (life x)) (is_streaming c.state)
            (λ _. inl (
              inl (
                life-apply_backpressure high_water _
                ∙ ap (λ b. record (life c) { channel_closed = b })
                    (life-push c.channel data_bytes))))
            (λ _. inl (inl refl)))

  on_detected-Moves :
      (first : Bool) (c : Connection) (data_bytes : List ℕ)
      → Together c
      → Moves transport (life c) (life (on_detected server first c data_bytes))
  unfolding on_detected
  on_detected-Moves first c data_bytes h =
      if-keep (λ x. Moves transport (life c) (life x))
        (first && c.tls_active && not server.tls_init) (λ _. inl (inr (life-begin_teardown c h)))
        (λ _.
          if-keep (λ x. Moves transport (life c) (life x)) c.tls_active (λ _. inl (inl refl))
            (λ _. handle_data-Moves c data_bytes h))

  life-detect : (c : Connection) (data_bytes : List ℕ) → life (detect server c data_bytes) ≡ life c
  unfolding detect
  life-detect c data_bytes =
      if-keep (λ x. life x ≡ life c) (is_first server c) (λ _. refl) (λ _. refl)

  pub handle_raw-Moves :
      (c : Connection) (data_bytes : List ℕ)
      → Together c
      → Moves transport (life c) (life (handle_raw server c data_bytes))
  unfolding handle_raw
  handle_raw-Moves c data_bytes h =
      let d = detect server c data_bytes in
      let same = life-detect c data_bytes in
      subst (λ l. Moves transport l (life (on_detected server (is_first server c) d data_bytes)))
        same (on_detected-Moves (is_first server c) d data_bytes (subst Whole (sym same) h))
