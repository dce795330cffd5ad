-- ===== src/Wire/RoundTrip.antt =====
-- shared/wire.h: what is written is read back, and what is read is written back.
use dicker.Base.{
  ℕ, ◌+◌, ◌*◌, ◌/◌, ◌%◌, ◌^◌, ◌<◌, ◌≡◌, refl, List, [], ◌∷◌, ◌++◌, arith, bit_or_disjoint, length,
  All, IsByte, ◌∙◌,
}
use dicker.Wire.{read_u16_le, read_u32_le, read_u64_le, write_u16_le, write_u32_le, write_u64_le}

read_u16_sum : (a b : ℕ) (t : List ℕ) → a < 256 → read_u16_le (a ∷ b ∷ t) ≡ a + b * 2 ^ 8
unfolding read_u16_le
read_u16_sum a b t h = bit_or_disjoint 8 a b h

read_u32_sum :
    (a b c d : ℕ) (t : List ℕ)
    → a < 256
    → b < 256
    → c < 256
    → read_u32_le (a ∷ b ∷ c ∷ d ∷ t) ≡ a + b * 2 ^ 8 + c * 2 ^ 16 + d * 2 ^ 24
unfolding read_u32_le
read_u32_sum a b c d t ha hb hc = rw (
  bit_or_disjoint 8 a b ha,
  bit_or_disjoint 16 (a + b * 2 ^ 8) c (omega arith),
  bit_or_disjoint 24 (a + b * 2 ^ 8 + c * 2 ^ 16) d (omega arith),
)

read_u64_sum :
    (a b c d e f g h : ℕ) (t : List ℕ)
    → All IsByte (a ∷ b ∷ c ∷ d ∷ e ∷ f ∷ g ∷ h ∷ [])
    → read_u64_le (a ∷ b ∷ c ∷ d ∷ e ∷ f ∷ g ∷ h ∷ t)
      ≡ a + b * 2 ^ 8 + c * 2 ^ 16 + d * 2 ^ 24 + e * 2 ^ 32 + f * 2 ^ 40 + g * 2 ^ 48 + h * 2 ^ 56
unfolding read_u64_le
read_u64_sum a b c d e f g h t bytes =
    let lo : ℕ = a + b * 2 ^ 8 + c * 2 ^ 16 + d * 2 ^ 24 in
    rw (
      bit_or_disjoint 8 a b (omega arith),
      bit_or_disjoint 16 (a + b * 2 ^ 8) c (omega arith),
      bit_or_disjoint 24 (a + b * 2 ^ 8 + c * 2 ^ 16) d (omega arith),
      bit_or_disjoint 32 lo e (omega arith),
      bit_or_disjoint 40 (lo + e * 2 ^ 32) f (omega arith),
      bit_or_disjoint 48 (lo + e * 2 ^ 32 + f * 2 ^ 40) g (omega arith),
      bit_or_disjoint 56 (lo + e * 2 ^ 32 + f * 2 ^ 40 + g * 2 ^ 48) h (omega arith),
    )

-- Every uint16_t that is written is read back, whatever follows it.
pub read-write_u16_le : (v : ℕ) (t : List ℕ) → v < 2 ^ 16 → read_u16_le (write_u16_le v ++ t) ≡ v
unfolding write_u16_le
read-write_u16_le v t h =
    omega (arith, read_u16_sum (v % 2 ^ 8) (v / 2 ^ 8 % 2 ^ 8) t (omega arith))

-- Every uint32_t that is written is read back, whatever follows it.
pub read-write_u32_le : (v : ℕ) (t : List ℕ) → v < 2 ^ 32 → read_u32_le (write_u32_le v ++ t) ≡ v
unfolding write_u32_le
read-write_u32_le v t h =
    read_u32_sum _ _ _ _ t (omega arith) (omega arith) (omega arith) ∙ omega arith

-- Every uint64_t that is written is read back, whatever follows it.
pub read-write_u64_le : (v : ℕ) (t : List ℕ) → v < 2 ^ 64 → read_u64_le (write_u64_le v ++ t) ≡ v
unfolding write_u64_le
read-write_u64_le v t h = read_u64_sum _ _ _ _ _ _ _ _ t (omega arith) ∙ omega arith

pub length-write_u64_le : (v : ℕ) → length (write_u64_le v) ≡ 8
unfolding write_u64_le
length-write_u64_le v = refl

pub length-write_u32_le : (v : ℕ) → length (write_u32_le v) ≡ 4
unfolding write_u32_le
length-write_u32_le v = refl

pub length-write_u16_le : (v : ℕ) → length (write_u16_le v) ≡ 2
unfolding write_u16_le
length-write_u16_le v = refl

-- Eight bytes that are read as a uint64_t and written again are the same bytes.
pub write-read_u64_le :
    (a b c d e f g h : ℕ)
    → All IsByte (a ∷ b ∷ c ∷ d ∷ e ∷ f ∷ g ∷ h ∷ [])
    → write_u64_le (read_u64_le (a ∷ b ∷ c ∷ d ∷ e ∷ f ∷ g ∷ h ∷ []))
      ≡ a ∷ b ∷ c ∷ d ∷ e ∷ f ∷ g ∷ h ∷ []
unfolding write_u64_le
write-read_u64_le a b c d e f g h bytes = rw (read_u64_sum a b c d e f g h [] bytes) (ground arith)
