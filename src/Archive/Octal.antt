-- ===== src/Archive/Octal.antt =====
-- server/archive.cxx, `set_octal`, against a reader of octal fields.
use dicker.Base.{
  ℕ, zero, suc, ◌+◌, ◌-◌, ◌*◌, ◌/◌, ◌%◌, ◌^◌, ◌<◌, ◌≡◌, refl, sym, ap, ◌∙◌, List, [], ◌∷◌, ◌++◌,
  arith, leb, ◌&&◌, if◌then◌else◌, bit_and, bit_and_mask, if-keep, append_assoc, length,
  length-append,
}
use native.Mathlib.Nat.{
  mod-add-div, mod-lt, mul-add-mod_self_left, mod-eq_of_lt, mul_assoc, mul_comm, pow-suc,
}
use dicker.Archive.{octal, set_octal}

-- The number that a field of octal digits stands for; it ends at the first byte that is none.
abbrev pub octal_value : ℕ → List ℕ → ℕ
octal_value acc [] = acc
octal_value acc (b ∷ bs) =
    if leb 0x30 b && leb b 0x37 then octal_value (acc * 8 + (b - 0x30)) bs else acc

eight_mod : (a p : ℕ) → 0 < p → a % (p * 8) ≡ a / 8 % p * 8 + a % 8
eight_mod a p h =
    let q = a / 8 / p in
    let r = a / 8 % p in
    let split : a ≡ (p * 8) * q + (r * 8 + a % 8) =
      omega (arith, mod-add-div (a / 8) p, mul_assoc p 8 q, mul_comm 8 q, mul_assoc p q 8) in
    let small : r * 8 + a % 8 < p * 8 = omega (arith, mod-lt (a / 8) h) in
    ap (λ n. n % (p * 8)) split
    ∙ mul-add-mod_self_left (p * 8) q (r * 8 + a % 8)
    ∙ mod-eq_of_lt small

eight_pos : (k : ℕ) → 0 < 8 ^ k
eight_pos zero = omega arith
eight_pos (suc k) = omega (arith, pow-suc 8 k, eight_pos k)

digit_read :
    (acc v : ℕ) (tail : List ℕ)
    → octal_value acc ((0x30 + bit_and v 7) ∷ tail) ≡ octal_value (acc * 8 + v % 8) tail
digit_read acc v tail = digit_known (bit_and v 7) (bit_and_mask 3 v)
  where
    digit_known :
        (d : ℕ)
        → d ≡ v % 8
        → octal_value acc ((0x30 + d) ∷ tail) ≡ octal_value (acc * 8 + v % 8) tail
    digit_known d e =
        if-keep (λ n. n ≡ octal_value (acc * 8 + v % 8) tail)
          (leb 0x30 (0x30 + d) && leb (0x30 + d) 0x37)
          (λ _. ap (λ n. octal_value n tail) (omega arith)) (λ f. absurd (ground arith))

pub octal_value-octal :
    (k acc v : ℕ) (tail : List ℕ)
    → octal_value acc (octal k v ++ tail) ≡ octal_value (acc * 8 ^ k + v % 8 ^ k) tail
unfolding octal
octal_value-octal zero acc v tail = ap (λ n. octal_value n tail) (omega arith)
octal_value-octal (suc k) acc v tail =
    ap (octal_value acc) (append_assoc (octal k (v / 8)) _ tail)
    ∙ octal_value-octal k acc (v / 8) ((0x30 + bit_and v 7) ∷ tail)
    ∙ digit_read _ v tail
    ∙ ap (λ n. octal_value n tail)
        (omega (
          arith,
          ap (λ p. v % p) (pow-suc 8 k),
          eight_mod v (8 ^ k) (eight_pos k),
          ap (λ p. acc * p) (pow-suc 8 k),
          sym (mul_assoc acc (8 ^ k) 8),
        ))

pub length-octal : (k v : ℕ) → length (octal k v) ≡ k
unfolding octal
length-octal zero v = refl
length-octal (suc k) v =
    omega
      (arith, length-append (octal k (v / 8)) ((0x30 + bit_and v 7) ∷ []), length-octal k (v / 8))

pub length-set_octal : (n v : ℕ) → 0 < n → length (set_octal n v) ≡ n
unfolding set_octal
length-set_octal n v some_bytes =
    omega (arith, length-append (octal (n - 1) v) (0 ∷ []), length-octal (n - 1) v)

-- A field of n bytes, whatever stands behind it, is read back as the number modulo 8 ^ (n - 1): a size below 8 GiB for
-- the twelve bytes of the size, and for a larger one what is left above a multiple of 8 GiB.
pub octal_value-set_octal :
    (n v : ℕ) (tail : List ℕ) → octal_value 0 (set_octal n v ++ tail) ≡ v % 8 ^ (n - 1)
unfolding set_octal
octal_value-set_octal n v tail =
    ap (octal_value 0) (append_assoc (octal (n - 1) v) (0 ∷ []) tail)
    ∙ octal_value-octal (n - 1) 0 v (0 ∷ tail)
    ∙ omega arith
