-- ===== src/Crypto/Hmac.antt =====
-- shared/hmac_sha256.h, `hmac_sha256`, and the description of it in RFC 2104.
use dicker.Base.{
  ℕ, zero, suc, ◌-◌, ◌≤◌, ◌<◌, ◌≡◌, refl, sym, ap, ap₂, ◌∙◌, List, [], ◌∷◌, true, false, ◌++◌,
  length, take, drop, length-drop, take-append-drop, replicate, map, bit_xor, ltb, if◌then◌else◌,
  arith, All, IsByte,
}
use dicker.Crypto.Sha256.{block_size, reset, update, finish, sha256}
use dicker.Crypto.Sha256.Padding.{sha256_shape}
use dicker.Crypto.Sha256.Stream.{update-append, HasRoom}

-- `block_key`: zeros, with the key or its digest copied to the front.
abbrev pub block_key : List ℕ → List ℕ
block_key key =
    let start = if ltb block_size (length key) then sha256 key else key in
    start ++ replicate (block_size - length start) 0

abbrev pub inner_pad : List ℕ → List ℕ
inner_pad key = map (λ b. bit_xor b 0x36) (block_key key)

abbrev pub outer_pad : List ℕ → List ℕ
outer_pad key = map (λ b. bit_xor b 0x5c) (block_key key)

unfoldable pub hmac_sha256 : List ℕ → List ℕ → List ℕ
hmac_sha256 key message =
    let inner = update (update reset (inner_pad key)) message in
    let outer = update (update reset (outer_pad key)) (finish inner) in finish outer

reset_room : HasRoom reset
unfolding reset
reset_room = omega arith

hash_twice : (xs ys : List ℕ) → finish (update (update reset xs) ys) ≡ sha256 (xs ++ ys)
unfolding sha256
hash_twice xs ys = ap finish (update-append reset xs ys reset_room)

-- The two hashers of `hmac_sha256` hash the two pads, each with what follows it.
hmac_sha256-sha256 :
    (key message : List ℕ)
    → hmac_sha256 key message ≡ sha256 (outer_pad key ++ sha256 (inner_pad key ++ message))
unfolding hmac_sha256
hmac_sha256-sha256 key message =
    hash_twice (outer_pad key) (finish (update (update reset (inner_pad key)) message))
    ∙ ap (λ d. sha256 (outer_pad key ++ d)) (hash_twice (inner_pad key) message)

-- What RFC 2104 makes of a key: the key itself, or its digest where it is longer than a block, filled with zeros up to 64
-- bytes.
abbrev pub IsZero : List ℕ → Type 0
IsZero bytes = All (λ b. b ≡ 0) bytes

pub record Fills (front block : List ℕ) : Type 0 where
  pub size : length block ≡ 64
  pub starts : take (length front) block ≡ front
  pub zeros : IsZero (drop (length front) block)

pub data IsBlockOf (key block : List ℕ) : Type 0 where
  short : length key ≤ 64 → Fills key block → IsBlockOf key block
  long : 64 < length key → Fills (sha256 key) block → IsBlockOf key block

-- Each byte against one.
abbrev pub masked : ℕ → List ℕ → List ℕ
masked mask [] = []
masked mask (b ∷ bytes) = bit_xor b mask ∷ masked mask bytes

masked_lem : (mask : ℕ) (bytes : List ℕ) → map (λ b. bit_xor b mask) bytes ≡ masked mask bytes
masked_lem mask [] = refl
masked_lem mask (b ∷ bytes) = ap (λ l. bit_xor b mask ∷ l) (masked_lem mask bytes)

zeros_lem : (n : ℕ) (bytes : List ℕ) → length bytes ≡ n → IsZero bytes → bytes ≡ replicate n 0
zeros_lem zero [] e h = refl
zeros_lem zero (b ∷ bytes) e h = absurd (omega arith)
zeros_lem (suc n) [] e h = absurd (omega arith)
zeros_lem (suc n) (b ∷ bytes) e h = ap₂ ◌∷◌ h.0 (zeros_lem n bytes (omega arith) h.1)

filled_lem :
    (front block : List ℕ) → Fills front block → front ++ replicate (64 - length front) 0 ≡ block
filled_lem front block h =
    ap (λ l. front ++ l)
      (sym (
        zeros_lem (64 - length front) (drop (length front) block)
          (length-drop (length front) block ∙ ap (λ n. n - length front) h.size) h.zeros))
    ∙ ap (λ l. l ++ drop (length front) block) (sym h.starts)
    ∙ take-append-drop (length front) block

block_key_lem : (key block : List ℕ) → IsBlockOf key block → block_key key ≡ block
block_key_lem key block (IsBlockOf.short fits fills) =
    let kept : ltb block_size (length key) ≡ false = ground arith in
    rw kept (filled_lem key block fills)
block_key_lem key block (IsBlockOf.long over fills) =
    let hashed : ltb block_size (length key) ≡ true = ground arith in
    rw hashed (filled_lem (sha256 key) block fills)

-- The HMAC of RFC 2104: for every message, and every key with the block of 64 bytes that the standard makes of it,
-- which is the key or, where it is longer than 64 bytes, its digest, and zeros behind it, hmac_sha256 is
-- H(block ^ 0x5c.., H(block ^ 0x36.., message)).
pub hmac_sha256_lem :
    (key block message : List ℕ)
    → IsBlockOf key block
    → hmac_sha256 key message ≡ sha256 (masked 0x5c block ++ sha256 (masked 0x36 block ++ message))
hmac_sha256_lem key block message h =
    let masks : (mask : ℕ) → map (λ b. bit_xor b mask) (block_key key) ≡ masked mask block =
      λ mask. masked_lem mask (block_key key) ∙ ap (masked mask) (block_key_lem key block h) in
    hmac_sha256-sha256 key message
    ∙ ap₂ (λ outer inner. sha256 (outer ++ sha256 (inner ++ message))) (masks 0x5c) (masks 0x36)

pub hmac_sha256_shape :
    (key message : List ℕ)
    → (length (hmac_sha256 key message) ≡ 32) × All IsByte (hmac_sha256 key message)
hmac_sha256_shape key message = rw (hmac_sha256-sha256 key message) (sha256_shape _)
