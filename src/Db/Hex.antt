-- ===== src/Db/Hex.antt =====
-- server/db.cxx, `hex_encode` and `hex_decode`.
use dicker.Base.{
  ℕ, ◌≡◌, refl, ap, List, [], ◌∷◌, Bool, true, false, Option, some, none, All, IsByte, holds_up_to,
  holds_up_to_lem, bytes_eq, bytes_eq_iff, ◌>>>◌, bit_and,
}
use dicker.Handshake.{hex_digit, session_id_to_hex}
use dicker.Db.{nibble, joined_nibbles, hex_decode, hex_encode}

abbrev pair_of : ℕ → Option (List ℕ)
pair_of b =
    joined_nibbles (nibble (hex_digit (b >>> 4))) (nibble (hex_digit (bit_and b 0x0f))) (some [])

abbrev is_one : Option (List ℕ) → List ℕ → Bool
is_one none expected = false
is_one (some found) expected = bytes_eq found expected

table : holds_up_to (λ b. is_one (pair_of b) (b ∷ [])) 256 ≡ true
unfolding holds_up_to nibble bytes_eq
table = refl

is_one_lem :
    (o : Option (List ℕ)) (expected : List ℕ) → is_one o expected ≡ true → o ≡ some expected
is_one_lem none expected h = cc
is_one_lem (some found) expected h = ap some ((bytes_eq_iff found expected).0 h)

behind :
    (hi lo : Option ℕ) (b : ℕ) (rest : List ℕ)
    → joined_nibbles hi lo (some []) ≡ some (b ∷ [])
    → joined_nibbles hi lo (some rest) ≡ some (b ∷ rest)
behind none lo b rest e = cc
behind (some hi) none b rest e = cc
behind (some hi) (some lo) b rest e = cc

-- Every string of bytes that is written as hexadecimal digits is read back.
pub hex_decode-hex_encode :
    (bytes : List ℕ) → All IsByte bytes → hex_decode (hex_encode bytes) ≡ some bytes
unfolding hex_decode session_id_to_hex
hex_decode-hex_encode [] h = refl
hex_decode-hex_encode (b ∷ bytes) h = rw (hex_decode-hex_encode bytes h.1) (
    behind _ _ b bytes (
      is_one_lem (pair_of b) (b ∷ [])
        (holds_up_to_lem (λ b. is_one (pair_of b) (b ∷ [])) table b h.0)))
