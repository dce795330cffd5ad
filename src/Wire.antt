-- ===== src/Wire.antt =====
-- shared/wire.h: little-endian integers over bytes. A buffer is a list of bytes; `uintN_t` values are
-- numbers below 2 ^ N, and every cast to `uint8_t` is a remainder by 2 ^ 8.
pub mod RoundTrip
use dicker.Base.{ℕ, ◌+◌, List, [], ◌∷◌, ◌++◌, get_or, u8, bit_or, ◌<<<◌, ◌>>>◌}

-- `p[i]`; the callers pass buffers that are long enough.
abbrev pub at : List ℕ → ℕ → ℕ
at p i = get_or p i 0

unfoldable pub read_u16_le : List ℕ → ℕ
read_u16_le p = bit_or (at p 0) (at p 1 <<< 8)

unfoldable pub read_u32_le : List ℕ → ℕ
read_u32_le p = bit_or (bit_or (bit_or (at p 0) (at p 1 <<< 8)) (at p 2 <<< 16)) (at p 3 <<< 24)

unfoldable pub read_u64_le : List ℕ → ℕ
read_u64_le p =
    bit_or
      (bit_or
        (bit_or
          (bit_or (bit_or (bit_or (bit_or (at p 0) (at p 1 <<< 8)) (at p 2 <<< 16)) (at p 3 <<< 24))
            (at p 4 <<< 32))
          (at p 5 <<< 40))
        (at p 6 <<< 48))
      (at p 7 <<< 56)

-- The bytes that are stored at `p`.
unfoldable pub write_u16_le : ℕ → List ℕ
write_u16_le v = u8 v ∷ u8 (v >>> 8) ∷ []

unfoldable pub write_u32_le : ℕ → List ℕ
write_u32_le v = u8 v ∷ u8 (v >>> 8) ∷ u8 (v >>> 16) ∷ u8 (v >>> 24) ∷ []

unfoldable pub write_u64_le : ℕ → List ℕ
write_u64_le v =
    u8 v
    ∷ u8 (v >>> 8)
    ∷ u8 (v >>> 16)
    ∷ u8 (v >>> 24)
    ∷ u8 (v >>> 32)
    ∷ u8 (v >>> 40)
    ∷ u8 (v >>> 48)
    ∷ u8 (v >>> 56)
    ∷ []

unfoldable pub append_u16 : List ℕ → ℕ → List ℕ
append_u16 out value = out ++ write_u16_le value

unfoldable pub append_u64 : List ℕ → ℕ → List ℕ
append_u64 out value = out ++ write_u64_le value
