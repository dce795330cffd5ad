-- ===== src/Db/Tokens.antt =====
-- server/db.cxx, `TokenStore::verify`: which tokens are accepted.
use dicker.Base.{
  ℕ, zero, suc, ◌≡◌, ◌⊎◌, ◌↔◌, inl, inr, refl, sym, ◌∙◌, ap, List, [], ◌∷◌, true, arith, length,
  take, All, IsByte, Bool-cases, ◌==◌, ◌&&◌,
}
use dicker.Crypto.Compare.{constant_time_equal, constant_time_equal_iff}
use dicker.Db.{verify}

abbrev pub Among : List ℕ → List (List ℕ) → Type 0
Among token [] = ⊥
Among token (candidate ∷ tokens) = (candidate ≡ token) ⊎ Among token tokens

pub take_all : (n : ℕ) (xs : List ℕ) → n ≡ length xs → take n xs ≡ xs
take_all zero [] h = refl
take_all zero (x ∷ xs) h = absurd (omega arith)
take_all (suc n) [] h = absurd (omega arith)
take_all (suc n) (x ∷ xs) h = ap (λ l. x ∷ l) (take_all n xs (omega arith))

matches_iff :
    (candidate token : List ℕ)
    → All IsByte candidate
    → All IsByte token
    → ((length candidate == length token && constant_time_equal candidate token (length token))
        ≡ true)
      ↔ (candidate ≡ token)
matches_iff candidate token ca ta = (
  λ h.
      let same : length candidate ≡ length token = ground arith in
      let equal : constant_time_equal candidate token (length token) ≡ true = ground arith in
      sym (take_all (length token) candidate (sym same))
      ∙ (constant_time_equal_iff candidate token (length token) (omega arith) (omega arith) ca ta).0
          equal
      ∙ take_all (length token) token refl,
  λ e.
      let same : length candidate ≡ length token = ap (λ (l : List ℕ). length l) e in
      let equal : constant_time_equal candidate token (length token) ≡ true =
        (constant_time_equal_iff candidate token (length token) (omega arith) (omega arith) ca ta).1
          (ap (take (length token)) e) in
      ground arith,
)

-- A token of bytes is accepted exactly when it is one of the stored ones, in full.
pub verify_iff :
    (tokens : List (List ℕ)) (token : List ℕ)
    → All (λ candidate. All IsByte candidate) tokens
    → All IsByte token
    → (verify tokens token ≡ true) ↔ Among token tokens
unfolding verify
verify_iff [] token stored bytes = (λ h. cc, λ h. absurd h)
verify_iff (candidate ∷ tokens) token stored bytes =
    let here = matches_iff candidate token stored.0 bytes in
    let later = verify_iff tokens token stored.1 bytes in
    elim (Bool-cases
      (length candidate == length token && constant_time_equal candidate token (length token))) [
        | inl e ↦ (λ _. inl (here.0 e), λ _. rw e)
        | inr e ↦ (
          λ h. inr (later.0 (rw e at h)),
          λ a. elim a [ inl same ↦ let e₂ = here.1 same in cc | inr among ↦ rw e (later.1 among) ],
        )
      ]
