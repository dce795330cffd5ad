-- ===== src/Http/Message/LowerCase.antt =====
-- server/http.cxx, `lower`, against the letters of ASCII.
use dicker.Base.{
  ℕ, ◌+◌, ◌-◌, ◌<◌, ◌≡◌, refl, List, [], ◌∷◌, ◌&&◌, leb, if-keep, ltb, Bool-cases, inl, inr, arith,
}
use dicker.Http.Message.{lower, lower_byte}

-- The n-th capital letter and the n-th small one; or another byte, and itself.
pub data LowersByte (c d : ℕ) : Type 0 where
  letter : (n : ℕ) → n < 26 → c ≡ 65 + n → d ≡ 97 + n → LowersByte c d
  below : c < 65 → d ≡ c → LowersByte c d
  above : 90 < c → d ≡ c → LowersByte c d

abbrev pub Lowers : List ℕ → List ℕ → Type 0
Lowers [] [] = Unit {0}
Lowers (c ∷ cs) (d ∷ ds) = LowersByte c d × Lowers cs ds
Lowers _ _ = ⊥

-- Headers as they are sent, and as they are read: in their order, the names in lower case, the values as they are.
abbrev pub AreRead : List (List ℕ × List ℕ) → List (List ℕ × List ℕ) → Type 0
AreRead [] [] = Unit {0}
AreRead ((name, value) ∷ headers) ((lower_name, same) ∷ read) =
    Lowers name lower_name × ((same ≡ value) × AreRead headers read)
AreRead _ _ = ⊥

lower_byte_lem : (c : ℕ) → LowersByte c (lower_byte c)
unfolding lower_byte
lower_byte_lem c =
    if-keep (LowersByte c) (leb 65 c && leb c 90)
      (λ h. LowersByte.letter (c - 65) (ground arith) (ground arith) (ground arith))
      (λ h. elim (Bool-cases (ltb c 65)) [
        | inl low ↦ LowersByte.below (ground arith) refl
        | inr more ↦ LowersByte.above (ground arith) refl
      ])

lower-Lowers : (name : List ℕ) → Lowers name (lower name)
unfolding lower
lower-Lowers [] = tt
lower-Lowers (c ∷ cs) = (lower_byte_lem c, lower-Lowers cs)

abbrev pub lowered : List (List ℕ × List ℕ) → List (List ℕ × List ℕ)
lowered [] = []
lowered ((name, value) ∷ headers) = (lower name, value) ∷ lowered headers

pub lowered-AreRead : (headers : List (List ℕ × List ℕ)) → AreRead headers (lowered headers)
lowered-AreRead [] = tt
lowered-AreRead ((name, value) ∷ headers) = (lower-Lowers name, (refl, lowered-AreRead headers))
