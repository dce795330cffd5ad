-- ===== src/Archive/Member.antt =====
-- server/archive.cxx: the tar file that the entries make, by the layout of the format.
use dicker.Base.{
  ℕ, zero, suc, ◌-◌, ◌%◌, ◌≤◌, ◌<◌, ◌≡◌, refl, sym, ap, ◌∙◌, List, [], ◌∷◌, ◌++◌, false, Option,
  none, some, ltb, length, take, drop, replicate, arith,
}
use dicker.Archive.{Entry, emit_header}

-- `n` bytes of the content, zeros where it is shorter.
abbrev pub padded : ℕ → List ℕ → List ℕ
padded zero content = []
padded (suc n) [] = 0 ∷ padded n []
padded (suc n) (b ∷ content) = b ∷ padded n content

padded-nil : (n : ℕ) → padded n [] ≡ replicate n 0
padded-nil zero = refl
padded-nil (suc n) = ap (λ l. 0 ∷ l) (padded-nil n)

pub length-padded : (n : ℕ) (content : List ℕ) → length (padded n content) ≡ n
length-padded zero content = refl
length-padded (suc n) [] = ap suc (length-padded n [])
length-padded (suc n) (b ∷ content) = ap suc (length-padded n content)

padded-take :
    (n want : ℕ) (content : List ℕ)
    → want ≤ n
    → length (take want content) ≡ want
    → take want content ++ padded (n - want) (drop want content) ≡ padded n content
padded-take n zero content le full = ap (λ m. padded m content) (omega arith)
padded-take zero (suc want) content le full = absurd (omega arith)
padded-take (suc n) (suc want) [] le full = absurd (omega arith)
padded-take (suc n) (suc want) (b ∷ content) le full =
    ap (λ l. b ∷ l)
      (ap (λ m. take want content ++ padded m (drop want content)) {x = suc n - suc want}
          (omega arith)
        ∙ padded-take n want content (omega arith) (omega arith))

pub padded-short :
    (n want : ℕ) (content : List ℕ)
    → want ≤ n
    → length (take want content) < want
    → take want content ++ replicate (n - length (take want content)) 0 ≡ padded n content
padded-short n zero content le short = absurd (omega arith)
padded-short zero (suc want) content le short = absurd (omega arith)
padded-short (suc n) (suc want) [] le short =
    ap (λ m. replicate m 0) {x = suc n - 0} {y = suc n} (omega arith) ∙ sym (padded-nil (suc n))
padded-short (suc n) (suc want) (b ∷ content) le short =
    ap (λ l. b ∷ l)
      (ap (λ m. take want content ++ replicate m 0) {x = suc n - suc (length (take want content))}
          (omega arith)
        ∙ padded-short n want content (omega arith) (omega arith))

pub all_read :
    (n want : ℕ) (content : List ℕ)
    → want ≤ n
    → length (take want content) ≡ want
    → take want content ++ padded (n - length (take want content)) (drop want content)
      ≡ padded n content
all_read n want content le full =
    ap (λ m. take want content ++ padded m (drop want content)) (omega (arith, full))
    ∙ padded-take n want content le full

pub none_left : (n : ℕ) → ltb 0 n ≡ false → n ≡ 0
none_left n e = ground arith

pub nothing_left :
    (n m : ℕ) (content tail : List ℕ)
    → n ≡ 0
    → m ≡ 0
    → tail ≡ padded n content ++ (replicate m 0 ++ tail)
nothing_left n m content tail e f = rw (e, f)

abbrev pub padding : ℕ → ℕ
padding size = (512 - size % 512) % 512

module _ (files : Entry → Option (List ℕ)) where
  abbrev pub member_of : Entry → Option (List ℕ) → List ℕ → List ℕ
  member_of e none rest = rest
  member_of e (some content) rest =
      emit_header e.name e.size ++ (padded e.size content ++ (replicate (padding e.size) 0 ++ rest))

  -- The tar file of the entries: the members whose files can be opened, and two blocks of zeros.
  abbrev pub tar_of : List Entry → List ℕ
  tar_of [] = replicate 1024 0
  tar_of (e ∷ es) = member_of e (files e) (tar_of es)
