-- ===== src/Base/Text.antt =====
-- Text of the source as byte strings, and the searches that std::string offers. A position in a text is the text from
-- there on.
use Prim.Native.Nat.{ℕ}
use Prim.Native.Char.{code}
use Prim.Native.String.{String}
use mathlib.Core.Path.{◌≡◌, refl}
use mathlib.Core.Logic.{◌≢◌}
use mathlib.Core.Bool.{Bool, true, false, ◌&&◌}
use mathlib.Core.Option
use mathlib.Core.Option.{Option, none, some}
use mathlib.Core.List.{List, [], ◌∷◌, ◌++◌}
use native.Mathlib.Omega.{arith}
use dicker.Base.Tests.{◌==◌, if◌then◌else◌, ==_iff}
use dicker.Base.Lists.{All}

-- The bytes of a text that is ASCII.
abbrev pub bytes : String → List ℕ
bytes String.[] = []
bytes (String.◌∷◌ c s) = code c ∷ bytes s

abbrev pub starts_with : List ℕ → List ℕ → Bool
starts_with [] text = true
starts_with (_ ∷ _) [] = false
starts_with (p ∷ ps) (c ∷ cs) = c == p && starts_with ps cs

abbrev pub is_nil {ℓ} : {A : Type ℓ} → List A → Bool
is_nil [] = true
is_nil (_ ∷ _) = false

-- What stands before the first `c` and behind it.
unfoldable pub cut_at : ℕ → List ℕ → Option (List ℕ × List ℕ)
cut_at c [] = none
cut_at c (x ∷ xs) = if x == c then some ([], xs) else Option.map (λ p. (x ∷ p.0, p.1)) (cut_at c xs)

-- What stands before the last `c` and behind it.
unfoldable pub cut_at_last : ℕ → List ℕ → Option (List ℕ × List ℕ)
cut_at_last c [] = none
cut_at_last c (x ∷ xs) = elim (cut_at_last c xs) [
  | some p ↦ some (x ∷ p.0, p.1)
  | none ↦ if x == c then some ([], xs) else none
]

abbrev pub Lacks : ℕ → List ℕ → Type 0
Lacks c = All (λ x. x ≢ c)

pub cut_at-append : (c : ℕ) (xs ys : List ℕ) → Lacks c xs → cut_at c (xs ++ c ∷ ys) ≡ some (xs, ys)
unfolding cut_at
cut_at-append c [] ys h = ground (arith, ==_iff c c)
cut_at-append c (x ∷ xs) ys h = ground (arith, ==_iff x c, cut_at-append c xs ys h.1)

pub cut_at-Lacks : (c : ℕ) (xs : List ℕ) → Lacks c xs → cut_at c xs ≡ none
unfolding cut_at
cut_at-Lacks c [] h = refl
cut_at-Lacks c (x ∷ xs) h = ground (arith, ==_iff x c, cut_at-Lacks c xs h.1)

pub cut_at_last-Lacks : (c : ℕ) (xs : List ℕ) → Lacks c xs → cut_at_last c xs ≡ none
unfolding cut_at_last
cut_at_last-Lacks c [] h = refl
cut_at_last-Lacks c (x ∷ xs) h = ground (arith, ==_iff x c, cut_at_last-Lacks c xs h.1)

pub cut_at_last-append :
    (c : ℕ) (xs ys : List ℕ) → Lacks c ys → cut_at_last c (xs ++ c ∷ ys) ≡ some (xs, ys)
unfolding cut_at_last
cut_at_last-append c [] ys h = ground (arith, ==_iff c c, cut_at_last-Lacks c ys h)
cut_at_last-append c (x ∷ xs) ys h = ground (arith, cut_at_last-append c xs ys h)
