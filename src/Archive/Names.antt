-- ===== src/Archive/Names.antt =====
-- server/archive.cxx, the name in a header: how it is split, and how a reader of tar headers joins it.
use dicker.Base.{
  ℕ, zero, suc, ◌+◌, ◌-◌, ◌<◌, ◌≤◌, ◌≡◌, refl, sym, ap, ap₂, ◌∙◌, List, [], ◌∷◌, ◌++◌, arith, leb,
  ◌&&◌, ◌==◌, if-keep, All-append_left, All-append_right, append_assoc, length, length-append, take,
  drop, replicate, length-take, length-drop, take-append, drop-append, All, IsByte, Option, none,
  some, subst, inl, inr, ◌⊎◌,
}
use dicker.Archive.{cut_name, field, split_name, find_split}

-- A field of text ends at its first zero.
abbrev pub text_of : List ℕ → List ℕ
text_of [] = []
text_of (zero ∷ bs) = []
text_of (suc b ∷ bs) = suc b ∷ text_of bs

abbrev pub joined_name : (prefix name : List ℕ) → List ℕ
joined_name [] name = name
joined_name (b ∷ prefix) name = (b ∷ prefix) ++ 0x2f ∷ name

-- A cut of a name at a `/` that both fields hold.
abbrev Cuts : List ℕ → Option ℕ → Type 0
Cuts name none = Unit
Cuts name (some k) =
    (take k name ++ 0x2f ∷ drop (k + 1) name ≡ name) × (length name - (k + 1) ≤ 100) × (k ≤ 155)

cut_at_slash :
    (whole front rest : List ℕ) (b p : ℕ)
    → front ++ b ∷ rest ≡ whole
    → p ≡ length front
    → b ≡ 0x2f
    → take p whole ++ 0x2f ∷ drop (p + 1) whole ≡ whole
cut_at_slash whole front rest b p e at slash =
    subst (λ w. take p w ++ 0x2f ∷ drop (p + 1) w ≡ w) e
      (ap₂ (λ l r. l ++ 0x2f ∷ r) (take-append p front (b ∷ rest) at)
          (ap (drop (p + 1)) (sym (append_assoc front (b ∷ []) rest))
            ∙ drop-append (p + 1) (front ++ b ∷ []) rest
                (omega (arith, length-append front (b ∷ []))))
        ∙ ap (λ c. front ++ c ∷ rest) (sym slash))

find_split-Cuts :
    (whole front rest : List ℕ) (p : ℕ) (split : Option ℕ)
    → front ++ rest ≡ whole
    → p ≡ length front
    → Cuts whole split
    → Cuts whole (find_split (length whole) p split rest)
unfolding find_split
find_split-Cuts whole front [] p split e at ok = ok
find_split-Cuts whole front (b ∷ rest) p split e at ok =
    find_split-Cuts whole (front ++ b ∷ []) rest (p + 1) _ (append_assoc front (b ∷ []) rest ∙ e)
      (omega (arith, length-append front (b ∷ [])))
      (if-keep (Cuts whole) (b == 0x2f && (leb (length whole - (p + 1)) 100 && leb p 155))
        (λ fits.
          (cut_at_slash whole front rest b p e at (ground arith), ground arith, ground arith))
        (λ _. ok))

text_of-zeros : (n : ℕ) → text_of (replicate n 0) ≡ []
text_of-zeros zero = refl
text_of-zeros (suc n) = refl

text_of-padded :
    (n : ℕ) (src : List ℕ)
    → All (λ b. 0 < b) src
    → length src ≤ n
    → text_of (take n src ++ replicate (n - length src) 0) ≡ src
text_of-padded zero [] ok fits = refl
text_of-padded (suc n) [] ok fits = text_of-zeros (suc n - 0)
text_of-padded zero (b ∷ src) ok fits = absurd (omega arith)
text_of-padded (suc n) (zero ∷ src) ok fits = absurd (omega (arith, ok.0))
text_of-padded (suc n) (suc b ∷ src) ok fits =
    ap (λ l. suc b ∷ l)
      (ap (λ m. text_of (take n src ++ replicate m 0)) {x = suc n - suc (length src)} (omega arith)
        ∙ text_of-padded n src ok.1 (omega arith))

pub text_of-field :
    (n : ℕ) (src : List ℕ) → All (λ b. 0 < b) src → length src ≤ n → text_of (field n src) ≡ src
unfolding field
text_of-field n src ok fits = text_of-padded n src ok fits

-- A name that the two fields can hold.
abbrev pub IsStorable : List ℕ → Type 0
IsStorable name =
    (length name ≤ 100) ⊎ ((k : ℕ) × (find_split (length name) 0 none name ≡ some (suc k)))

abbrev pub IsText : List ℕ → Type 0
IsText name = All (λ b. (0 < b) × IsByte b) name

pub record Split (name field_name prefix : List ℕ) : Type 0 where
  pub joins : joined_name prefix field_name ≡ name
  pub name_fits : length field_name ≤ 100
  pub prefix_fits : length prefix ≤ 155

joined_long :
    (prefix name : List ℕ) → 0 < length prefix → joined_name prefix name ≡ prefix ++ 0x2f ∷ name
joined_long [] name some_bytes = absurd (omega arith)
joined_long (b ∷ prefix) name some_bytes = refl

cut_name-Split :
    (name : List ℕ) (k : ℕ)
    → 100 < length name
    → Cuts name (some (suc k))
    → Split name (drop (suc k + 1) name) (take (suc k) name)
cut_name-Split name k long cuts = record {
  joins = joined_long (take (suc k) name) _ (omega (arith, length-take (suc k) name)) ∙ cuts.0;
  name_fits = omega (arith, length-drop (suc k + 1) name, cuts);
  prefix_fits = omega (arith, length-take (suc k) name, cuts);
}

pub split_name-Split :
    (name : List ℕ) → IsStorable name → Split name (split_name name).0 (split_name name).1
unfolding split_name
split_name-Split name storable =
    if-keep (λ (r : List ℕ × List ℕ). Split name r.0 r.1) (leb (length name) 100)
      (λ short. record { joins = refl; name_fits = ground arith; prefix_fits = omega arith })
      (λ long. elim storable [
        | inl short ↦ absurd (ground arith)
        | inr (k, found) ↦
            subst (λ o. Split name (cut_name name o).0 (cut_name name o).1) (sym found)
              (cut_name-Split name k (ground arith)
                (subst (Cuts name) found (find_split-Cuts name [] name 0 none refl refl tt)))
      ])

pub IsText-parts : (name : List ℕ) → IsText name → All (λ b. 0 < b) name × All IsByte name
IsText-parts [] ok = (tt, tt)
IsText-parts (b ∷ name) ok =
    let (some_bits, small) = IsText-parts name ok.1 in ((ok.0.0, some_bits), (ok.0.1, small))

pub parts-IsText :
    (prefix name : List ℕ) → IsText (joined_name prefix name) → IsText prefix × IsText name
parts-IsText [] name ok = (tt, ok)
parts-IsText (b ∷ prefix) name ok = (
  All-append_left _ (b ∷ prefix) (0x2f ∷ name) ok,
  (All-append_right _ (b ∷ prefix) (0x2f ∷ name) ok).1,
)
