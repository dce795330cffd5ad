-- ===== src/Handshake/Accepts.antt =====
-- server/handshake.cxx: what is accepted, and that the client's handshake is.
use dicker.Base.{
  ℕ, zero, suc, ◌≤◌, ◌≡◌, sym, ◌∙◌, ◌⊎◌, ◌↔◌, List, [], ◌∷◌, true, length, take, drop, All, IsByte,
  arith, take-append, append-nil, length-drop, bytes_eq_iff,
}
use dicker.Protocol.{magic, status_ok, handshake_request_size}
use dicker.Crypto.Hmac.{hmac_sha256, hmac_sha256_shape}
use dicker.Crypto.Compare.{constant_time_equal, constant_time_equal_iff}
use dicker.Handshake.{HandshakeRequest, request_of, parse_and_verify_handshake}

-- What a buffer must hold to be accepted under `key`.
pub record IsAuthentic (key buffer : List ℕ) : Type 0 where
  pub starts : take 4 buffer ≡ magic
  pub signed : take 32 (drop 24 buffer) ≡ hmac_sha256 key (take 24 buffer)
  pub low : 1 ≤ (request_of buffer).version
  pub high : (request_of buffer).version ≤ 2
  pub supported : ((request_of buffer).algo ≡ 1) ⊎ ((request_of buffer).algo ≡ 2)

take_all : (n : ℕ) (xs : List ℕ) → length xs ≡ n → take n xs ≡ xs
take_all n xs e = rw append-nil at (take-append n xs [] (omega arith))

All-drop : (n : ℕ) (xs : List ℕ) → All IsByte xs → All IsByte (drop n xs)
All-drop zero xs h = h
All-drop (suc n) [] h = h
All-drop (suc n) (x ∷ xs) h = All-drop n xs h.1

-- The comparison of the two codes, as an equation.
signed_iff :
    (key buffer : List ℕ)
    → handshake_request_size ≤ length buffer
    → All IsByte buffer
    → (constant_time_equal (hmac_sha256 key (take 24 buffer)) (drop 24 buffer) 32 ≡ true)
      ↔ (take 32 (drop 24 buffer) ≡ hmac_sha256 key (take 24 buffer))
signed_iff key buffer len bytes =
    let (n, code_bytes) = hmac_sha256_shape key (take 24 buffer) in
    let whole = take_all 32 (hmac_sha256 key (take 24 buffer)) n in
    let same =
      constant_time_equal_iff (hmac_sha256 key (take 24 buffer)) (drop 24 buffer) 32 (omega arith)
        (omega (arith, length-drop 24 buffer)) code_bytes (All-drop 24 buffer bytes) in
    (λ h. sym (same.0 h) ∙ whole, λ e. same.1 (whole ∙ sym e))

-- A buffer of at least 56 bytes passes exactly when it begins with the magic, carries the HMAC of its
-- first 24 bytes under the server's key, and names a version from 1 to 2 and a compression 1 or 2; the
-- request that is handed out is then the one in the buffer.
pub parse_ok_iff :
    (key buffer : List ℕ) (out : HandshakeRequest)
    → handshake_request_size ≤ length buffer
    → All IsByte buffer
    → (parse_and_verify_handshake buffer key out ≡ (status_ok, request_of buffer))
      ↔ IsAuthentic key buffer
unfolding parse_and_verify_handshake
parse_ok_iff key buffer out len bytes = (
  λ h. record {
    starts = ground (arith, bytes_eq_iff (take 4 buffer) magic);
    signed = ground (arith, (signed_iff key buffer len bytes).0);
    low = ground arith;
    high = ground arith;
    supported = ground arith;
  },
  λ a. ground (
    arith,
    (bytes_eq_iff (take 4 buffer) magic).1 a.starts,
    (signed_iff key buffer len bytes).1 a.signed,
  ),
)
