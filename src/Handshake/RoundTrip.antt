-- ===== src/Handshake/RoundTrip.antt =====
-- client/worker.h, `handshake`, against server/handshake.cxx.
use dicker.Base.{
  ℕ, ◌+◌, ◌≤◌, ◌<◌, ◌≡◌, refl, ap, ◌∙◌, ◌⊎◌, List, [], ◌∷◌, ◌++◌, length, take, drop, All, IsByte,
  arith, take-append, drop-append, append_assoc, length-append,
}
use dicker.Protocol.{magic, status_ok, cmd_upload}
use dicker.Wire.{write_u16_le, append_u16}
use dicker.Wire.RoundTrip.{read-write_u16_le}
use dicker.Crypto.Hmac.{hmac_sha256, hmac_sha256_shape}
use dicker.Handshake.{HandshakeRequest, request_of, parse_and_verify_handshake}
use dicker.Handshake.Accepts.{IsAuthentic, parse_ok_iff}
use dicker.Client.Shake.{Identity, handshake, signed_prefix}

-- The fields of a client that fit the wire.
pub record IsIdentity (conn : Identity) : Type 0 where
  pub id_length : length conn.session_id ≡ 16
  pub id_bytes : All IsByte conn.session_id
  pub flag_byte : conn.flags < 256
  pub algo_known : (conn.algo ≡ 1) ⊎ (conn.algo ≡ 2)

-- The request that a client means.
abbrev pub meant : Identity → ℕ → HandshakeRequest
meant conn version = record {
  version = version;
  flags = conn.flags;
  algo = conn.algo;
  session_id = conn.session_id;
}

-- The 56 bytes of a request: what is signed, and its HMAC.
unfoldable pub signed : Identity → ℕ → List ℕ
signed conn version =
    signed_prefix conn version ++ hmac_sha256 conn.key (signed_prefix conn version)

All-append : (xs ys : List ℕ) → All IsByte xs → All IsByte ys → All IsByte (xs ++ ys)
All-append [] ys hx hy = hy
All-append (x ∷ xs) ys hx hy = (hx.0, All-append xs ys hx.1 hy)

module _ (conn : Identity) (version : ℕ) (fits : IsIdentity conn) (low : 1 ≤ version)
    (high : version ≤ 2) (rest : List ℕ) (rest_bytes : All IsByte rest) where
  prefix : List ℕ
  prefix = signed_prefix conn version

  buffer : List ℕ
  buffer = signed conn version ++ rest

  length-prefix : length prefix ≡ 24
  unfolding prefix signed_prefix append_u16 write_u16_le
  length-prefix = omega arith

  prefix_bytes : All IsByte prefix
  unfolding prefix signed_prefix append_u16 write_u16_le
  prefix_bytes = (
    omega arith,
    (
      omega arith,
      (
        omega arith,
        (omega arith, (omega arith, (omega arith, (omega arith, (omega arith, fits.id_bytes))))),
      ),
    ),
  )

  buffer_lem : buffer ≡ prefix ++ (hmac_sha256 conn.key prefix ++ rest)
  unfolding buffer signed prefix
  buffer_lem = simp append_assoc

  take-buffer : take 24 buffer ≡ prefix
  take-buffer = rw buffer_lem (take-append 24 prefix _ (omega (arith, length-prefix)))

  drop-buffer : drop 24 buffer ≡ hmac_sha256 conn.key prefix ++ rest
  drop-buffer = rw buffer_lem (drop-append 24 prefix _ (omega (arith, length-prefix)))

  length-buffer : length buffer ≡ 56 + length rest
  length-buffer = omega (
    arith,
    ap (λ (t : List ℕ). length t) buffer_lem,
    length-prefix,
    length-append prefix (hmac_sha256 conn.key prefix ++ rest),
    length-append (hmac_sha256 conn.key prefix) rest,
    (hmac_sha256_shape conn.key prefix).0,
  )

  buffer_bytes : All IsByte buffer
  buffer_bytes = rw buffer_lem (
      All-append prefix _ prefix_bytes (
        All-append (hmac_sha256 conn.key prefix) _ (hmac_sha256_shape conn.key prefix).1
          rest_bytes))

  version_lem : (request_of buffer).version ≡ version
  unfolding buffer signed signed_prefix append_u16
  version_lem = simp append_assoc (read-write_u16_le version _ (omega arith))

  fields :
      ((request_of buffer).flags ≡ conn.flags)
      × ((request_of buffer).algo ≡ conn.algo)
      × ((request_of buffer).session_id ≡ conn.session_id)
  unfolding buffer signed signed_prefix append_u16 write_u16_le
  fields = (refl, refl, simp append_assoc (take-append 16 conn.session_id _ (omega arith)))

  signed_lem : take 32 (drop 24 buffer) ≡ hmac_sha256 conn.key (take 24 buffer)
  signed_lem =
      rw (drop-buffer, take-buffer)
        (take-append 32 _ _ (omega (arith, (hmac_sha256_shape conn.key prefix).0)))

  starts_lem : take 4 buffer ≡ magic
  unfolding buffer signed signed_prefix append_u16 write_u16_le
  starts_lem = refl

  pub parse-signed :
      (out : HandshakeRequest)
      → parse_and_verify_handshake (signed conn version ++ rest) conn.key out
        ≡ (status_ok, meant conn version)
  unfolding buffer
  parse-signed out =
      (parse_ok_iff conn.key buffer out (omega (arith, length-buffer)) buffer_bytes).1 authentic
      ∙ ap (λ r. (status_ok, r)) request_lem
    where
      authentic : IsAuthentic conn.key buffer
      authentic = record {
        starts = starts_lem;
        signed = signed_lem;
        low = omega (arith, version_lem);
        high = omega (arith, version_lem);
        supported = rw fields.1 fits.algo_known;
      }

      request_lem : request_of buffer ≡ meant conn version
      request_lem = λ i. record {
        version = version_lem i;
        flags = fields.0 i;
        algo = fields.1 i;
        session_id = fields.2 i;
      }

pub length-signed :
    (conn : Identity) (version : ℕ) → IsIdentity conn → length (signed conn version) ≡ 56
unfolding signed signed_prefix append_u16 write_u16_le
length-signed conn version fits = omega (
  arith,
  fits.id_length,
  length-append conn.session_id (hmac_sha256 conn.key (signed_prefix conn version)),
  (hmac_sha256_shape conn.key (signed_prefix conn version)).0,
)

pub take-signed : (conn : Identity) (version : ℕ) → take 4 (signed conn version) ≡ magic
unfolding signed signed_prefix append_u16 write_u16_le
take-signed conn version = refl

pub signed_bytes :
    (conn : Identity) (version : ℕ) (rest : List ℕ)
    → IsIdentity conn
    → 1 ≤ version
    → version ≤ 2
    → All IsByte rest
    → All IsByte (signed conn version ++ rest)
unfolding signed buffer
signed_bytes conn version rest fits low high small =
    buffer_bytes conn version fits low high rest small

pub handshake_lem :
    (conn : Identity) (version : ℕ) (rest : List ℕ)
    → handshake conn version ++ rest ≡ signed conn version ++ (cmd_upload ∷ rest)
unfolding handshake signed
handshake_lem conn version rest = append_assoc _ (cmd_upload ∷ []) rest

-- The server accepts the handshake that the client builds for its version 1 or 2, if both hold the same key, and hands
-- out the client's own fields; what follows the handshake does not matter.
pub parse-handshake :
    (conn : Identity) (version : ℕ) (fits : IsIdentity conn)
    → 1 ≤ version
    → version ≤ 2
    → (rest : List ℕ) → All IsByte rest
    → (out : HandshakeRequest)
    → parse_and_verify_handshake (handshake conn version ++ rest) conn.key out
      ≡ (status_ok, meant conn version)
parse-handshake conn version fits low high rest small out =
    ap (λ b. parse_and_verify_handshake b conn.key out) (handshake_lem conn version rest)
    ∙ parse-signed conn version fits low high (cmd_upload ∷ rest) (omega arith, small) out
