-- ===== src/Http/Message/Framing.antt =====
-- server/http.cxx, `http_header_end`: the first blank line, and only it.
use dicker.Base.{
  ℕ, zero, suc, ◌+◌, ◌<◌, ◌≡◌, ◌⊎◌, refl, List, [], ◌∷◌, Bool, true, false, arith, drop,
  starts_with, Bool-cases, inl, inr,
}
use dicker.Http.Message.{http_header_end, header_end_from, blank_line}

abbrev pub blank_at : List ℕ → ℕ → Bool
blank_at text i = starts_with blank_line (drop i text)

-- `n` is 0 and there is no blank line, or `n` is what follows the first one, counted from `k`.
abbrev pub Ends : ℕ → List ℕ → ℕ → Type 0
Ends k text n =
    ((n ≡ 0) × ((i : ℕ) → blank_at text i ≡ false))
    ⊎ ((j : ℕ) × (n ≡ k + j + 4)
        × (blank_at text j ≡ true)
        × ((i : ℕ) → i < j → blank_at text i ≡ false))

nowhere-nil : (i : ℕ) → blank_at [] i ≡ false
nowhere-nil zero = refl
nowhere-nil (suc i) = refl

-- One more byte in front, at which no blank line begins.
Ends-cons :
    (k c n : ℕ) (text : List ℕ)
    → blank_at (c ∷ text) 0 ≡ false
    → Ends (k + 1) text n
    → Ends k (c ∷ text) n
Ends-cons k c n text no_blank (inl (e, absent)) = inl (e, λ i. earlier i)
  where
    earlier : (i : ℕ) → blank_at (c ∷ text) i ≡ false
    earlier zero = no_blank
    earlier (suc i) = absent i
Ends-cons k c n text no_blank (inr (j, e, found, first)) =
    inr (suc j, omega arith, found, λ i lt. earlier i lt)
  where
    earlier : (i : ℕ) → i < suc j → blank_at (c ∷ text) i ≡ false
    earlier zero lt = no_blank
    earlier (suc i) lt = first i (omega arith)

header_end_from-Ends : (k : ℕ) (text : List ℕ) → Ends k text (header_end_from k text)
unfolding header_end_from
header_end_from-Ends k [] = inl (refl, nowhere-nil)
header_end_from-Ends k (c ∷ text) = elim (Bool-cases (blank_at (c ∷ text) 0)) [
  | inl here ↦ rw here (inr (0, omega arith, here, λ i lt. absurd (omega arith)))
  | inr no_blank ↦ rw no_blank (
      Ends-cons k c (header_end_from (k + 1) text) text no_blank
        (header_end_from-Ends (k + 1) text))
]

-- On every text, http_header_end is 0 and there is no blank line, or it is the position behind the first blank line.
pub http_header_end-Ends : (text : List ℕ) → Ends 0 text (http_header_end text)
unfolding http_header_end
http_header_end-Ends text = header_end_from-Ends 0 text
