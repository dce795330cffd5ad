-- ===== src/Tests/Readers.antt =====
-- client/storageReader.h at a concrete input: a file of five bytes, of which a read gives two at most.
use dicker.Base.{
  ℕ, ◌≡◌, sym, arith, List, [], ◌∷◌, min, take, drop, length-take, length-drop, All, true,
}
use dicker.Codec.{joined}
use dicker.Client.Reader.{process}
use dicker.Client.Reader.Blocks.{Preads, IsBlock, take-length-take, process_lem}

abbrev content : List ℕ
content = 1 ∷ 2 ∷ 3 ∷ 4 ∷ 5 ∷ []

abbrev two_at_most : (len off : ℕ) → List ℕ
two_at_most len off = take (min len 2) (drop off content)

preads : Preads two_at_most content
preads = record {
  in_front = λ len off. sym (take-length-take (min len 2) (drop off content));
  at_most = λ len off. omega (arith, length-take (min len 2) (drop off content));
  goes_on = λ len off asked left.
      omega (arith, length-take (min len 2) (drop off content), length-drop off content);
}

process_lem_example :
    (joined (process two_at_most true 9 1 9) ≡ 2 ∷ 3 ∷ 4 ∷ 5 ∷ [])
    × All (IsBlock content two_at_most preads) (process two_at_most true 9 1 9)
process_lem_example = process_lem content two_at_most preads 9 1 9 (omega arith)
