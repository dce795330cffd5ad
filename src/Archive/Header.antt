-- ===== src/Archive/Header.antt =====
-- server/archive.cxx, `emit_header`, against a reader of tar headers.
use dicker.Base.{
  ℕ, ◌%◌, ◌^◌, ◌≡◌, List, [], ◌∷◌, ◌++◌, arith, length, length-append, take, drop, replicate, All,
  IsByte,
}
use dicker.Archive.{octal, front_fields, back_fields, sum_of}
use dicker.Archive.Octal.{octal_value, length-octal}
use dicker.Archive.Fields.{length-front_fields, length-back_fields}
use dicker.Archive.Names.{text_of, joined_name}

abbrev pub name_of : List ℕ → List ℕ
name_of h = joined_name (text_of (take 155 (drop 345 h))) (text_of (take 100 h))

abbrev pub checksum_of : List ℕ → ℕ
checksum_of h = sum_of (take 148 h ++ (replicate 8 0x20 ++ drop 156 h))

-- What a reader of the format asks of a header, and what it reads there.
pub record Reads (h name : List ℕ) (size : ℕ) : Type 0 where
  pub block : length h ≡ 512
  pub checksum : octal_value 0 (drop 148 h) ≡ checksum_of h
  pub size_read : octal_value 0 (drop 124 h) ≡ size % 8 ^ 11
  pub name_read : name_of h ≡ name

-- The header in the portions that the reader takes.
module _ (field_name prefix : List ℕ) (size sum : ℕ) where
  abbrev front : List ℕ
  front = front_fields field_name size

  abbrev back : List ℕ
  back = back_fields prefix

  abbrev checked : List ℕ
  checked = octal 6 sum ++ 0 ∷ 0x20 ∷ []

  abbrev header : List ℕ
  header = front ++ (checked ++ back)

  length-checked : length checked ≡ 8
  length-checked = omega (arith, length-append (octal 6 sum) (0 ∷ 0x20 ∷ []), length-octal 6 sum)

  pub header_block : length header ≡ 512
  header_block = omega (
    arith,
    length-append front (checked ++ back),
    length-append checked back,
    length-checked,
    length-front_fields field_name size,
    length-back_fields prefix,
  )

-- The sum that goes in the header is the sum of its bytes.
module _ (field_name prefix : List ℕ) (size : ℕ) (name_ok : All IsByte field_name)
    (prefix_ok : All IsByte prefix) where
  abbrev blanked : List ℕ
  blanked = front_fields field_name size ++ (replicate 8 0x20 ++ back_fields prefix)
