-- ===== src/Handshake.antt =====
-- server/handshake.cxx and server/handshake.h: the check of a client's first 56 bytes.
pub mod Accepts
pub mod RoundTrip
use dicker.Base.{
  ℕ, ◌+◌, ◌-◌, List, [], ◌∷◌, Bool, ◌||◌, take, drop, get_or, ltb, ◌==◌, not, if◌then◌else◌,
  bytes_eq, bit_and, ◌>>>◌,
}
use dicker.Protocol.{
  magic, protocol_version, min_protocol_version, HandshakeStatus, status_ok, bad_magic, bad_version,
  auth_failed, bad_algo, algo_code, lz4, zstd, session_id_size, hmac_size,
  handshake_signed_prefix_size,
}
use dicker.Wire.{read_u16_le}
use dicker.Crypto.Hmac.{hmac_sha256}
use dicker.Crypto.Compare.{constant_time_equal}

-- `algo` is the byte of the enumeration, which the cast does not check.
pub record HandshakeRequest : Type 0 where
  pub version : ℕ
  pub flags : ℕ
  pub algo : ℕ
  pub session_id : List ℕ

unfoldable pub magic_matches : List ℕ → Bool
magic_matches buffer = bytes_eq (take 4 buffer) magic

unfoldable pub algo_supported : ℕ → Bool
algo_supported algo = algo == algo_code lz4 || algo == algo_code zstd

-- The fields that are copied out, in the order of the buffer.
abbrev pub request_of : List ℕ → HandshakeRequest
request_of buffer = record {
  version = read_u16_le (drop 4 buffer);
  flags = get_or buffer (4 + 2) 0;
  algo = get_or buffer (4 + 2 + 1) 0;
  session_id = take session_id_size (drop (4 + 2 + 2) buffer);
}

-- The status, and `out` after the call.
unfoldable pub parse_and_verify_handshake :
    List ℕ → List ℕ → HandshakeRequest → HandshakeStatus × HandshakeRequest
unfolding magic_matches algo_supported
parse_and_verify_handshake buffer key out =
    let expected_hmac = hmac_sha256 key (take handshake_signed_prefix_size buffer) in
    let provided_hmac = drop handshake_signed_prefix_size buffer in
    let version = read_u16_le (drop 4 buffer) in
    if not (magic_matches buffer)
    then (bad_magic, out)
    else if not (constant_time_equal expected_hmac provided_hmac hmac_size)
    then (auth_failed, out)
    else if ltb version min_protocol_version || ltb protocol_version version
    then (bad_version, out)
    else if not (algo_supported (request_of buffer).algo)
    then (bad_algo, request_of buffer)
    else (status_ok, request_of buffer)

-- `digits[nibble]`
abbrev pub hex_digit : ℕ → ℕ
hex_digit n = if ltb n 10 then b'0' + n else b'a' + n - 10

unfoldable pub session_id_to_hex : List ℕ → List ℕ
session_id_to_hex [] = []
session_id_to_hex (byte ∷ rest) =
    hex_digit (byte >>> 4) ∷ hex_digit (bit_and byte 0x0f) ∷ session_id_to_hex rest
