-- ===== src/Archive/Blocks.antt =====
-- server/archive.cxx: the tar file of the entries is made of whole blocks.
use dicker.Base.{
  ℕ, ◌%◌, ◌≡◌, refl, List, [], ◌∷◌, ◌++◌, Option, none, some, length, length-append,
  length-replicate, replicate, arith,
}
use dicker.Archive.{Entry, emit_header, split_name}
use dicker.Archive.Member.{padded, length-padded, padding, member_of, tar_of}
use dicker.Archive.Header.{header_block}

length-emit_header : (name : List ℕ) (size : ℕ) → length (emit_header name size) ≡ 512
unfolding emit_header
length-emit_header name size = header_block (split_name name).0 (split_name name).1 size _

module _ (files : Entry → Option (List ℕ)) where
  length-member_of :
      (e : Entry) (opened : Option (List ℕ)) (rest : List ℕ)
      → length rest % 512 ≡ 0
      → length (member_of files e opened rest) % 512 ≡ 0
  length-member_of e none rest ok = ok
  length-member_of e (some content) rest ok = omega (
    arith,
    length-append (emit_header e.name e.size)
        (padded e.size content ++ (replicate (padding e.size) 0 ++ rest)),
    length-append (padded e.size content) (replicate (padding e.size) 0 ++ rest),
    length-append (replicate (padding e.size) 0) rest,
    length-emit_header e.name e.size,
    length-padded e.size content,
    length-replicate {A = ℕ} (padding e.size) 0,
  )

  -- The tar file of any entries, whatever their files hold, is a number of whole blocks of 512 bytes.
  pub length-tar_of : (es : List Entry) → length (tar_of files es) % 512 ≡ 0
  length-tar_of [] = refl
  length-tar_of (e ∷ es) = length-member_of e (files e) (tar_of files es) (length-tar_of es)
