-- ===== src/Connection/Replies.antt =====
-- server/connection.cxx: what the loop thread writes. Whether libuv takes a write and what the TLS layer makes of one are
-- parameters, which may depend on everything that went out before.
use dicker.Base.{
  ℕ, List, [], ◌∷◌, ◌++◌, Bool, true, false, ◌&&◌, ◌||◌, not, Option, none, some, length, leb,
  if◌then◌else◌, bytes, is_nil,
}
use dicker.Protocol.{HandshakeStatus, status_ok, status_code, magic}
use dicker.Http.Message.{http_response_headers}
use dicker.Connection.{Connection, Output, wrote_reply, wrote_tls, sent_tls, emit, begin_teardown}

-- libuv and the TLS layer: `uv_write` returns 0, `TlsLayer::send` returns true, `TlsLayer::encrypt` gives bytes.
pub record Transport : Type 0 where
  pub takes : List Output → List ℕ → Bool
  pub tls_sends : List Output → List ℕ → Bool
  pub tls_encrypts : List Output → List ℕ → Option (List ℕ)

abbrev pub is_ok : HandshakeStatus → Bool
is_ok status_ok = true
is_ok _ = false

-- The bytes of a reply: the mode follows where the client speaks version 2.
unfoldable pub reply_bytes : Connection → HandshakeStatus → List ℕ
reply_bytes c status =
    magic
    ++ (status_code status ∷ (if is_ok status && leb 2 c.protocol_version then c.mode ∷ [] else []))

abbrev pub simple_response : ℕ → List ℕ → List ℕ → List ℕ → List (List ℕ × List ℕ) → List ℕ
simple_response status reason content_type body extra =
    http_response_headers status reason content_type (some (length body))
      (extra ++ ((bytes "Connection", bytes "close") ∷ []))
    ++ body

module _ (t : Transport) where
  unfoldable pub tls_write : Connection → List ℕ → (teardown_after : Bool) → Connection
  tls_write c data_bytes teardown_after =
      if t.takes c.outputs data_bytes
      then emit c (wrote_tls data_bytes teardown_after)
      else begin_teardown c

  unfoldable pub send_handshake_reply : Connection → HandshakeStatus → Connection
  send_handshake_reply c status =
      let reply = reply_bytes c status in
      if c.tls_active
      then if t.tls_sends c.outputs reply
        then emit c (sent_tls reply (not (is_ok status)))
        else begin_teardown c
      else if t.takes c.outputs reply
      then emit c (wrote_reply reply (not (is_ok status)))
      else begin_teardown c

  -- The whole response in one write, with the teardown behind it.
  unfoldable pub send_http_simple :
      Connection → ℕ → List ℕ → List ℕ → List ℕ → List (List ℕ × List ℕ) → Connection
  send_http_simple c status reason content_type body extra =
      let resp = simple_response status reason content_type body extra in
      if c.tls_active
      then elim (t.tls_encrypts c.outputs resp) [
        | none ↦ begin_teardown c
        | some wire ↦ tls_write c wire true
      ]
      else tls_write c resp true

  -- `on_outbox_async`, behind the swap under the lock.
  unfoldable pub on_outbox_async : Connection → Connection
  on_outbox_async c =
      let pending = c.outbox in
      let swapped = record c { outbox = [] } in
      if is_nil pending || c.teardown_started
      then swapped
      else if c.tls_active
      then if t.tls_sends c.outputs pending
        then emit swapped (sent_tls pending false)
        else begin_teardown swapped
      else tls_write swapped pending false

-- `on_write_reply` and `on_write_tls`
unfoldable pub on_write : Connection → (teardown_after : Bool) → (failed : Bool) → Connection
on_write c teardown_after failed = if teardown_after || failed then begin_teardown c else c

-- `post`, which the consumer thread calls.
unfoldable pub post : Connection → List ℕ → Connection
post c data_bytes = record c { outbox = c.outbox ++ data_bytes }
