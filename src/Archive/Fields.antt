-- ===== src/Archive/Fields.antt =====
-- server/archive.cxx, `emit_header`: the lengths of its fields, and that they are bytes.
use dicker.Base.{
  ℕ, zero, suc, ◌+◌, ◌-◌, ◌*◌, ◌/◌, ◌≤◌, ◌≡◌, List, [], ◌∷◌, ◌++◌, arith, bit_and_mask, length,
  length-append, take, replicate, length-replicate, length-take, All, IsByte, bytes,
}
use dicker.Archive.{field, set_octal, octal, front_fields, back_fields, sum_of}
use dicker.Archive.Octal.{length-set_octal}

pub length-field : (n : ℕ) (src : List ℕ) → length (field n src) ≡ n
unfolding field
length-field n src = omega (
  arith,
  length-append (take n src) (replicate (n - length src) 0),
  length-take n src,
  length-replicate {A = ℕ} (n - length src) 0,
)

pub length-front_fields : (name : List ℕ) (size : ℕ) → length (front_fields name size) ≡ 148
unfolding front_fields
length-front_fields name size = omega (
  arith,
  length-append (field 100 name) (set_octal 8 420 ++ behind₁),
  length-append (set_octal 8 420) behind₁,
  length-append (set_octal 8 0) behind₂,
  length-append (set_octal 8 0) behind₃,
  length-append (set_octal 12 size) (set_octal 12 0),
  length-field 100 name,
  length-set_octal 8 420 (omega arith),
  length-set_octal 8 0 (omega arith),
  length-set_octal 12 size (omega arith),
  length-set_octal 12 0 (omega arith),
)
  where
    behind₃ : List ℕ
    behind₃ = set_octal 12 size ++ set_octal 12 0

    behind₂ : List ℕ
    behind₂ = set_octal 8 0 ++ behind₃

    behind₁ : List ℕ
    behind₁ = set_octal 8 0 ++ behind₂

pub length-back_fields : (prefix : List ℕ) → length (back_fields prefix) ≡ 356
unfolding back_fields
length-back_fields prefix = omega (
  arith,
  length-append (field 100 []) (field 6 (bytes "ustar") ++ (bytes "00" ++ behind₁)),
  length-append (field 6 (bytes "ustar")) (bytes "00" ++ behind₁),
  length-append (field 80 []) behind₂,
  length-append (field 155 prefix) (field 12 []),
  length-field 100 [],
  length-field 6 (bytes "ustar"),
  length-field 80 [],
  length-field 155 prefix,
  length-field 12 [],
)
  where
    behind₂ : List ℕ
    behind₂ = field 155 prefix ++ field 12 []

    behind₁ : List ℕ
    behind₁ = field 80 [] ++ behind₂

pub sum_of-append : (a b : List ℕ) → sum_of (a ++ b) ≡ sum_of a + sum_of b
sum_of-append [] b = omega arith
sum_of-append (x ∷ a) b = omega (arith, sum_of-append a b)

pub sum_of-le : (bs : List ℕ) → All IsByte bs → sum_of bs ≤ 255 * length bs
sum_of-le [] ok = omega arith
sum_of-le (b ∷ bs) ok = omega (arith, ok.0, sum_of-le bs ok.1)

pub append-IsByte : (xs ys : List ℕ) → All IsByte xs → All IsByte ys → All IsByte (xs ++ ys)
append-IsByte [] ys h k = k
append-IsByte (x ∷ xs) ys h k = (h.0, append-IsByte xs ys h.1 k)

pub replicate-IsByte : (n : ℕ) → All IsByte (replicate n 0)
replicate-IsByte zero = tt
replicate-IsByte (suc n) = (omega arith, replicate-IsByte n)

pub take-IsByte : (n : ℕ) (xs : List ℕ) → All IsByte xs → All IsByte (take n xs)
take-IsByte zero xs h = tt
take-IsByte (suc n) [] h = tt
take-IsByte (suc n) (x ∷ xs) h = (h.0, take-IsByte n xs h.1)

field-IsByte : (n : ℕ) (src : List ℕ) → All IsByte src → All IsByte (field n src)
unfolding field
field-IsByte n src ok =
    append-IsByte (take n src) _ (take-IsByte n src ok) (replicate-IsByte (n - length src))

octal-IsByte : (k v : ℕ) → All IsByte (octal k v)
unfolding octal
octal-IsByte zero v = tt
octal-IsByte (suc k) v =
    append-IsByte (octal k (v / 8)) _ (octal-IsByte k (v / 8)) (omega (arith, bit_and_mask 3 v), tt)

set_octal-IsByte : (n v : ℕ) → All IsByte (set_octal n v)
unfolding set_octal
set_octal-IsByte n v = append-IsByte (octal (n - 1) v) _ (octal-IsByte (n - 1) v) (omega arith, tt)

pub front_fields-IsByte :
    (name : List ℕ) (size : ℕ) → All IsByte name → All IsByte (front_fields name size)
unfolding front_fields
front_fields-IsByte name size ok = append-IsByte (field 100 name) _ (field-IsByte 100 name ok) (
    append-IsByte (set_octal 8 420) _ (set_octal-IsByte 8 420) (
      append-IsByte (set_octal 8 0) _ (set_octal-IsByte 8 0) (
        append-IsByte (set_octal 8 0) _ (set_octal-IsByte 8 0) (
          append-IsByte (set_octal 12 size) _ (set_octal-IsByte 12 size) (set_octal-IsByte 12 0)))))

pub back_fields-IsByte : (prefix : List ℕ) → All IsByte prefix → All IsByte (back_fields prefix)
unfolding back_fields
back_fields-IsByte prefix ok = (
  omega arith,
  append-IsByte (field 100 []) _ (field-IsByte 100 [] tt) (
      append-IsByte (field 6 (bytes "ustar")) _ (field-IsByte 6 (bytes "ustar") ustar) (
        omega arith,
        (
          omega arith,
          append-IsByte (field 80 []) _ (field-IsByte 80 [] tt) (
              append-IsByte (field 155 prefix) _ (field-IsByte 155 prefix ok)
                (field-IsByte 12 [] tt)),
        ),
      )),
)
  where
    ustar : All IsByte (bytes "ustar")
    ustar = (omega arith, (omega arith, (omega arith, (omega arith, (omega arith, tt)))))
