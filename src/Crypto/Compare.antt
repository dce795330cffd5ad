-- ===== src/Crypto/Compare.antt =====
-- shared/hmac_sha256.h, `constant_time_equal`.
use dicker.Base.{
  ℕ, zero, suc, ◌≤◌, ◌≡◌, refl, sym, ap, ap₂, ◌∙◌, ◌↔◌, List, [], ◌∷◌, Bool, true, length, take,
  get_or, All, IsByte, u8, bit_or, bit_xor, ◌==◌, ==_iff, bit_or_eq_zero, bit_xor_eq_zero,
  bit_xor_self, bit_xor-lt, arith,
}

-- The loop from index `i` on, with `n` rounds left.
unfoldable pub differences : ℕ → ℕ → List ℕ → List ℕ → ℕ → ℕ
differences zero i a b difference = difference
differences (suc n) i a b difference =
    differences n (suc i) a b (bit_or difference (u8 (bit_xor (get_or a i 0) (get_or b i 0))))

unfoldable pub constant_time_equal : List ℕ → List ℕ → ℕ → Bool
unfolding differences
constant_time_equal a b len = differences len 0 a b 0 == 0

differences-tail :
    (n i x y : ℕ) (a b : List ℕ) (d : ℕ)
    → differences n (suc i) (x ∷ a) (y ∷ b) d ≡ differences n i a b d
unfolding differences
differences-tail zero i x y a b d = refl
differences-tail (suc n) i x y a b d = differences-tail n (suc i) x y a b _

small_xor : (x y : ℕ) → IsByte x → IsByte y → u8 (bit_xor x y) ≡ bit_xor x y
small_xor x y hx hy = omega (arith, bit_xor-lt 8 x y hx hy)

-- No difference was recorded, and none was met.
differences_eq_zero :
    (n : ℕ) (a b : List ℕ) (d : ℕ)
    → n ≤ length a
    → n ≤ length b
    → All IsByte a
    → All IsByte b
    → differences n 0 a b d ≡ 0
    → (d ≡ 0) × (take n a ≡ take n b)
unfolding differences
differences_eq_zero zero a b d ha hb ia ib e = (e, refl)
differences_eq_zero (suc n) [] b d ha hb ia ib e = absurd (omega arith)
differences_eq_zero (suc n) (x ∷ a) [] d ha hb ia ib e = absurd (omega arith)
differences_eq_zero (suc n) (x ∷ a) (y ∷ b) d ha hb ia ib e =
    let (now, later) =
      differences_eq_zero n a b (bit_or d (u8 (bit_xor x y))) (omega arith) (omega arith) ia.1 ib.1
        (sym (differences-tail n 0 x y a b _) ∙ e) in
    let (old, new) = bit_or_eq_zero d (u8 (bit_xor x y)) now in
    (old, ap₂ ◌∷◌ (bit_xor_eq_zero x y (sym (small_xor x y ia.0 ib.0) ∙ new)) later)

differences_of_eq :
    (n : ℕ) (a b : List ℕ)
    → n ≤ length a
    → n ≤ length b
    → take n a ≡ take n b
    → differences n 0 a b 0 ≡ 0
unfolding differences
differences_of_eq zero a b ha hb e = refl
differences_of_eq (suc n) [] b ha hb e = absurd (omega arith)
differences_of_eq (suc n) (x ∷ a) [] ha hb e = absurd (omega arith)
differences_of_eq (suc n) (x ∷ a) (y ∷ b) ha hb e =
    differences-tail n 0 x y a b _
    ∙ ap (differences n 0 a b) (rw (← head) (rw bit_xor_self refl))
    ∙ differences_of_eq n a b (omega arith) (omega arith) tails
  where
    head : x ≡ y
    head = cc

    tails : take n a ≡ take n b
    tails = cc

-- The comparison of two buffers of bytes answers true exactly when their first `len` bytes agree.
pub constant_time_equal_iff :
    (a b : List ℕ) (len : ℕ)
    → len ≤ length a
    → len ≤ length b
    → All IsByte a
    → All IsByte b
    → (constant_time_equal a b len ≡ true) ↔ (take len a ≡ take len b)
unfolding constant_time_equal
constant_time_equal_iff a b len ha hb ia ib = (
  λ h. (differences_eq_zero len a b 0 ha hb ia ib ((==_iff _ 0).0 h)).1,
  λ e. (==_iff _ 0).1 (differences_of_eq len a b ha hb e),
)
