-- ===== src/Connection/Arrival.antt =====
-- server/connection.cxx, `handle_data`: a client's bytes arrive whole, however they are cut into deliveries.
use dicker.Base.{
  ℕ, ◌≤◌, ◌<◌, ◌≡◌, ◌⊎◌, inl, inr, refl, sym, ap, ◌∙◌, subst, List, [], ◌∷◌, ◌++◌, append_assoc,
  append-nil, true, false, arith, length, length-append, take, drop, take-append, take-append_le,
  take-append-drop, take-take, All, All-append_right, All-append_left, IsByte, min, bytes_eq,
  bytes_eq_iff, if-keep, ltb, ltb→lt,
}
use dicker.Codec.{joined}
use dicker.Protocol.{magic, status_ok, handshake_request_size}
use dicker.Handshake.{HandshakeRequest, parse_and_verify_handshake}
use dicker.Connection.{Connection, is_handshaking}
use dicker.Connection.Preamble.{Server, no_request, on_protocol, handle_handshake_data, handle_data}
use dicker.Connection.Lifetime.{RepliesGoOut}
use dicker.Connection.Segments.{
  IsAccepted, IsEarly, IsLate, deliver, streaming-IsLate, handle_request-IsLate, sniff_dicker,
}

-- What `seen` has led to.
abbrev pub Progress : Connection → List ℕ → HandshakeRequest → Type 0
Progress c seen request =
    ((length seen < 56) × IsEarly c seen) ⊎ ((56 ≤ length seen) × IsLate c seen request)

module _ (server : Server) (prefix payload : List ℕ) (request : HandshakeRequest)
    (accepted : IsAccepted server prefix request) (small : All IsByte (prefix ++ payload))
    (out : RepliesGoOut server.transport) where
  starts_lem :
      (k : ℕ) (buffer rest : List ℕ)
      → buffer ++ rest ≡ prefix ++ payload
      → k ≤ length buffer
      → k ≤ 4
      → bytes_eq (take k buffer) (take k magic) ≡ true
  starts_lem k buffer rest e fits four = (bytes_eq_iff (take k buffer) (take k magic)).1 (
      sym (take-append_le k buffer rest fits)
      ∙ ap (take k) e
      ∙ take-append_le k prefix payload (omega (arith, accepted.size))
      ∙ sym (take-take k 4 prefix four)
      ∙ ap (take k) accepted.starts)

  parses_lem :
      (buffer rest : List ℕ)
      → buffer ++ rest ≡ prefix ++ payload
      → 56 ≤ length buffer
      → parse_and_verify_handshake buffer server.key no_request ≡ (status_ok, request)
  parses_lem buffer rest e long =
      let front : take 56 buffer ≡ prefix =
        sym (take-append_le 56 buffer rest long)
        ∙ ap (take 56) e
        ∙ take-append 56 prefix payload (omega (arith, accepted.size)) in
      let whole : prefix ++ drop 56 buffer ≡ buffer =
        ap (λ l. l ++ drop 56 buffer) (sym front) ∙ take-append-drop 56 buffer in
      let bytes : All IsByte buffer =
        All-append_left IsByte buffer rest (subst (All IsByte) (sym e) small) in
      let tail : All IsByte (drop 56 buffer) =
        All-append_right IsByte prefix (drop 56 buffer) (subst (All IsByte) (sym whole) bytes) in
      subst (λ b. parse_and_verify_handshake b server.key no_request ≡ (status_ok, request)) whole
        (accepted.parses (drop 56 buffer) tail)

  on_protocol-Progress :
      (c : Connection) (rest : List ℕ)
      → c.handshake_buffer ++ rest ≡ prefix ++ payload
      → IsEarly c c.handshake_buffer
      → Progress (on_protocol server c) c.handshake_buffer request
  unfolding on_protocol
  on_protocol-Progress c rest e (phase, same, quiet, calm, held) =
      if-keep (λ x. Progress x c.handshake_buffer request) c.http_mode (λ http. cc)
        (λ _.
          if-keep (λ x. Progress x c.handshake_buffer request)
            (ltb (length c.handshake_buffer) handshake_request_size)
            (λ short. inl (ltb→lt _ _ short, (phase, same, quiet, calm, held)))
            (λ long.
              let enough : 56 ≤ length c.handshake_buffer = ground arith in
              inr (
                enough,
                handle_request-IsLate server c request out
                    (parses_lem c.handshake_buffer rest e enough) accepted.served held calm,
              )))

  handshake_step :
      (c : Connection) (more rest : List ℕ)
      → (c.handshake_buffer ++ more) ++ rest ≡ prefix ++ payload
      → IsEarly c c.handshake_buffer
      → Progress (handle_handshake_data server c more) (c.handshake_buffer ++ more) request
  unfolding handle_handshake_data
  handshake_step c more rest e (phase, same, quiet, calm, held) =
      let grown = record c { handshake_buffer = c.handshake_buffer ++ more } in
      let k = min (length grown.handshake_buffer) 4 in
      elim (sniff_dicker server grown quiet
        (starts_lem k grown.handshake_buffer rest e (omega arith) (omega arith))) [
          | inl (none_yet, short) ↦
              rw (none_yet, handle_handshake_data)
                (inl (omega arith, (phase, refl, quiet, calm, held)))
          | inr decided ↦
              rw (decided, handle_handshake_data)
                (on_protocol-Progress (record grown { proto_decided = true; http_mode = false })
                  rest e (phase, refl, refl, calm, held))
        ]

  early_step :
      (c : Connection) (seen more rest : List ℕ)
      → (seen ++ more) ++ rest ≡ prefix ++ payload
      → IsEarly c seen
      → Progress (handle_data server c more) (seen ++ more) request
  unfolding handle_data
  early_step c seen more rest e (phase, same, quiet, calm, held) =
      if-keep (λ x. Progress x (seen ++ more) request) (is_handshaking c.state)
        (λ _.
          subst (λ s. Progress (handle_handshake_data server c more) (s ++ more) request) same
            (handshake_step c more rest (ap (λ s. (s ++ more) ++ rest) same ∙ e)
              (phase, refl, quiet, calm, held)))
        (λ no_more. let set = ap is_handshaking phase in cc)

  deliver-Progress :
      (c : Connection) (seen : List ℕ) (pieces : List (List ℕ))
      → seen ++ joined pieces ≡ prefix ++ payload
      → Progress c seen request
      → Progress (deliver server c pieces) (prefix ++ payload) request
  unfolding deliver
  deliver-Progress c seen [] e p = subst (λ s. Progress c s request) (sym (append-nil seen) ∙ e) p
  deliver-Progress c seen (piece ∷ pieces) e (inl (short, early)) =
      deliver-Progress (handle_data server c piece) (seen ++ piece) pieces
        (append_assoc seen piece (joined pieces) ∙ e)
        (early_step c seen piece (joined pieces) (append_assoc seen piece (joined pieces) ∙ e)
          early)
  deliver-Progress c seen (piece ∷ pieces) e (inr (long, late)) =
      deliver-Progress (handle_data server c piece) (seen ++ piece) pieces
        (append_assoc seen piece (joined pieces) ∙ e)
        (inr (
          omega (arith, length-append seen piece),
          streaming-IsLate server c seen piece request long late,
        ))

  -- However the bytes of an accepted request and what follows it are cut into deliveries, a connection that has seen
  -- nothing ends up streaming under the session that the request names, with exactly what follows the request in
  -- its open channel, if the reply to it goes out.
  pub deliver-IsLate :
      (c : Connection) (pieces : List (List ℕ))
      → IsEarly c []
      → joined pieces ≡ prefix ++ payload
      → IsLate (deliver server c pieces) (prefix ++ payload) request
  deliver-IsLate c pieces early e =
      elim (deliver-Progress c [] pieces e (inl (omega arith, early))) [
        | inl (short, _) ↦ absurd (omega (arith, length-append prefix payload, accepted.size))
        | inr (_, late) ↦ late
      ]
