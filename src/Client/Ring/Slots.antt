-- ===== src/Client/Ring/Slots.antt =====
-- client/ring.h, `& Mask`: the slots of a ring of 2 ^ bits places.
use dicker.Base.{
  ℕ, zero, suc, ◌+◌, ◌-◌, ◌*◌, ◌/◌, ◌%◌, ◌^◌, ◌<◌, ◌≤◌, ◌≡◌, ◌≢◌, refl, sym, ap, ◌∙◌, arith, u64,
  bit_and_mask, pow_pos, ◌⊎◌, inl, inr, if-keep, ◌==◌,
}
use native.Mathlib.Nat.{pow-suc, mod-add-div, mul-le-mul_left, mul-add-mod_self_left, mul_assoc}
use dicker.Client.Ring.{slot, put}

-- Two places less than `cap` apart differ modulo `cap`.
mod-apart : (cap i j : ℕ) → 0 < cap → i < j → j < i + cap → i % cap ≢ j % cap
mod-apart cap i j some_cap less close e = absurd (elim (ordered (i / cap) (j / cap)) [
  | inl le ↦ omega (arith, mod-add-div i cap, mod-add-div j cap, mul-le-mul_left cap le)
  | inr gt ↦
      omega (arith, mod-add-div i cap, mod-add-div j cap, mul-le-mul_left cap gt, mul-suc_lem)
])
  where
    ordered : (m n : ℕ) → (n ≤ m) ⊎ (m + 1 ≤ n)
    ordered m n = ground arith

    mul-suc_lem : cap * (i / cap + 1) ≡ cap * (i / cap) + cap
    mul-suc_lem = grind arith

pow-add : (m n : ℕ) → 2 ^ m * 2 ^ n ≡ 2 ^ (m + n)
pow-add zero n = omega (arith, ap (λ m. 2 ^ m) {x = 0 + n} {y = n} (omega arith))
pow-add (suc m) n = omega (
  arith,
  pow-add m n,
  pow-suc 2 m,
  pow-suc 2 (m + n),
  ap (λ k. 2 ^ k) {x = suc m + n} {y = suc (m + n)} (omega arith),
  ap (λ k. k * 2 ^ n) (pow-suc 2 m),
  double_mul,
)
  where
    double_mul : 2 ^ m * 2 * 2 ^ n ≡ 2 * (2 ^ m * 2 ^ n)
    double_mul = grind arith

module _ (bits : ℕ) (fits : bits ≤ 32) where
  slot_mod : (n : ℕ) → slot (2 ^ bits) n ≡ n % 2 ^ bits
  unfolding slot
  slot_mod n = bit_and_mask bits n

  -- A counter that is cut to 64 bits names the same slot.
  pub slot-u64 : (n : ℕ) → slot (2 ^ bits) (u64 n) ≡ slot (2 ^ bits) n
  slot-u64 n =
      slot_mod (u64 n)
      ∙ sym (mul-add-mod_self_left (2 ^ bits) (2 ^ (64 - bits) * (n / 2 ^ 64)) (u64 n))
      ∙ ap (λ m. m % 2 ^ bits) whole
      ∙ sym (slot_mod n)
    where
      powers : 2 ^ bits * 2 ^ (64 - bits) ≡ 2 ^ 64
      powers = pow-add bits (64 - bits) ∙ ap (λ m. 2 ^ m) {y = 64} (omega arith)

      whole : 2 ^ bits * (2 ^ (64 - bits) * (n / 2 ^ 64)) + u64 n ≡ n
      whole = omega (
        arith,
        sym (mul_assoc (2 ^ bits) (2 ^ (64 - bits)) (n / 2 ^ 64)),
        ap (λ m. m * (n / 2 ^ 64)) powers,
      )

  -- Two places of one round of the ring have slots of their own.
  pub slot-apart : (i j : ℕ) → i < j → j < i + 2 ^ bits → slot (2 ^ bits) i ≢ slot (2 ^ bits) j
  slot-apart i j less close e =
      mod-apart (2 ^ bits) i j (pow_pos bits) less close (sym (slot_mod i) ∙ e ∙ slot_mod j)

module _ {A : Type 0} (buf : ℕ → A) (v : A) where
  pub put-same : (i j : ℕ) → j ≡ i → put buf i v j ≡ v
  put-same i j e = if-keep (λ a. a ≡ v) (j == i) (λ _. refl) (λ f. absurd (ground arith))

  pub put-other : (i j : ℕ) → j ≢ i → put buf i v j ≡ buf j
  put-other i j apart =
      if-keep (λ a. a ≡ buf j) (j == i) (λ f. absurd (apart (ground arith))) (λ _. refl)
