-- ===== src/Client/Reader/Blocks.antt =====
-- client/storageReader.h: the blocks of a unit are its bytes.
use dicker.Base.{
  ℕ, zero, suc, ◌+◌, ◌-◌, ◌≤◌, ◌<◌, ◌≡◌, refl, sym, ap, ap₂, ◌∙◌, min, List, [], ◌∷◌, ◌++◌, true,
  false, ◌==◌, length, take, drop, arith, if-keep, length-take, length-drop, All, take-nil,
}
use dicker.Codec.{read_block, joined}
use dicker.Client.Reader.{read_at, read_blocks, process}

-- What `pread` promises of a file that holds `content` and is not changed: some of the bytes at the offset, as many as
-- are asked for at most, and none only where none are asked for or left.
pub record Preads (pread : (len off : ℕ) → List ℕ) (content : List ℕ) : Type 0 where
  pub in_front : (len off : ℕ) → pread len off ≡ take (length (pread len off)) (drop off content)
  pub at_most : (len off : ℕ) → length (pread len off) ≤ len
  pub goes_on : (len off : ℕ) → 0 < len → off < length content → 0 < length (pread len off)

take-split : (n m : ℕ) (xs : List ℕ) → n ≤ m → take n xs ++ take (m - n) (drop n xs) ≡ take m xs
take-split zero m xs le = ap (λ k. take k xs) (omega arith)
take-split (suc n) zero xs le = absurd (omega arith)
take-split (suc n) (suc m) [] le = take-nil (suc m - suc n)
take-split (suc n) (suc m) (x ∷ xs) le =
    ap (λ l. x ∷ l)
      (ap (λ k. take n xs ++ take k (drop n xs)) {x = suc m - suc n} (omega arith)
        ∙ take-split n m xs (omega arith))

drop-nil : (n : ℕ) → drop {A = ℕ} n [] ≡ []
drop-nil zero = refl
drop-nil (suc n) = refl

drop-drop : (n m : ℕ) (xs : List ℕ) → drop m (drop n xs) ≡ drop (n + m) xs
drop-drop zero m xs = ap (λ k. drop k xs) (omega arith)
drop-drop (suc n) m [] = drop-nil m ∙ sym (drop-nil (suc n + m))
drop-drop (suc n) m (x ∷ xs) =
    drop-drop n m xs ∙ ap (λ k. drop k (x ∷ xs)) {x = suc (n + m)} {y = suc n + m} (omega arith)

nil_of_length : (xs : List ℕ) → length xs ≡ 0 → [] ≡ xs
nil_of_length [] e = refl
nil_of_length (x ∷ xs) e = absurd (omega arith)

pub take-length-take : (n : ℕ) (xs : List ℕ) → take (length (take n xs)) xs ≡ take n xs
take-length-take zero xs = refl
take-length-take (suc n) [] = refl
take-length-take (suc n) (x ∷ xs) = ap (λ l. x ∷ l) (take-length-take n xs)

module _ (content : List ℕ) where
  -- Nothing is left at the end, and a range in two parts is the range.
  at_end : (len off : ℕ) → length content ≤ off → [] ≡ take len (drop off content)
  at_end len off le =
      nil_of_length _ (omega (arith, length-take len (drop off content), length-drop off content))

  in_parts :
      (n len off : ℕ)
      → n ≤ len
      → take n (drop off content) ++ take (len - n) (drop (off + n) content)
        ≡ take len (drop off content)
  in_parts n len off le =
      ap (λ l. take n (drop off content) ++ take (len - n) l) (sym (drop-drop off n content))
      ∙ take-split n len (drop off content) le

  module _ (pread : (len off : ℕ) → List ℕ) (preads : Preads pread content) where
    open preads use {in_front, at_most, goes_on}

    read_at_lem :
        (fuel len off : ℕ) → len ≤ fuel → read_at pread fuel len off ≡ take len (drop off content)
    unfolding read_at
    read_at_lem zero len off enough = ap (λ k. take k (drop off content)) {x = 0} (omega arith)
    read_at_lem (suc fuel) len off enough =
        let got = pread len off in
        if-keep (λ r. r ≡ take len (drop off content)) (len == 0)
          (λ none. ap (λ k. take k (drop off content)) {x = 0} (ground arith))
          (λ some_asked.
            if-keep (λ r. r ≡ take len (drop off content)) (length got == 0)
              (λ ended. at_end len off (end_reached len off (ground arith) (ground arith)))
              (λ more.
                ap₂ (λ l r. l ++ r) (in_front len off)
                  (read_at_lem fuel (len - length got) (off + length got)
                    (shorter len fuel (length got) enough more))
                ∙ in_parts (length got) len off (at_most len off)))
      where
        end_reached : (l o : ℕ) → 0 < l → length (pread l o) ≡ 0 → length content ≤ o
        end_reached l o some_asked ended = grind (arith, goes_on l o)

        shorter : (l f g : ℕ) → l ≤ suc f → (g == 0) ≡ false → l - g ≤ f
        shorter l f g le e = ground arith

    -- A block is as long as READ_BLOCK at most, and not empty.
    abbrev pub IsBlock : List ℕ → Type 0
    IsBlock block = (0 < length block) × (length block ≤ read_block)

    read_blocks_lem :
        (fuel open_for off remaining : ℕ)
        → remaining ≤ fuel
        → remaining ≤ open_for
        → (joined (read_blocks pread fuel open_for off remaining)
            ≡ take remaining (drop off content))
          × All IsBlock (read_blocks pread fuel open_for off remaining)
    unfolding read_blocks
    read_blocks_lem zero open_for off remaining enough stays_open =
        (ap (λ k. take k (drop off content)) {x = 0} (omega arith), tt)
    read_blocks_lem (suc fuel) zero off remaining enough stays_open =
        (ap (λ k. take k (drop off content)) {x = 0} (omega arith), tt)
    read_blocks_lem (suc fuel) (suc open_for) off remaining enough stays_open =
        let want : ℕ = min remaining read_block in
        let got : List ℕ = read_at pread want want off in
        let whole : got ≡ take want (drop off content) = read_at_lem want want off (omega arith) in
        let size : length got ≡ min want (length content - off) =
          ap length whole
          ∙ length-take want (drop off content)
          ∙ ap (min want) (length-drop off content) in
        if-keep IsRead (remaining == 0)
          (λ none. (ap (λ k. take k (drop off content)) {x = 0} (ground arith), tt))
          (λ some_left.
            if-keep IsRead (length got == 0)
              (λ ended. (
                at_end remaining off (
                    nothing_there remaining (length got) (length content) off size some_left ended),
                tt,
              ))
              (λ more.
                let rest =
                  read_blocks_lem fuel open_for (off + length got) (remaining - length got)
                    (shorter remaining fuel (length got) enough more)
                    (shorter remaining open_for (length got) stays_open more) in
                (
                  ap₂ (λ l r. l ++ r)
                        (whole
                          ∙ sym (take-length-take want (drop off content))
                          ∙ ap (λ l. take (length l) (drop off content)) (sym whole))
                        rest.0
                      ∙ in_parts (length got) remaining off (omega (arith, size)),
                  ((ground arith, omega (arith, size)), rest.1),
                )))
      where
        IsRead : List (List ℕ) → Type 0
        IsRead blocks = (joined blocks ≡ take remaining (drop off content)) × All IsBlock blocks

        shorter : (l f g : ℕ) → l ≤ suc f → (g == 0) ≡ false → l - g ≤ f
        shorter l f g le e = ground arith

        nothing_there :
            (left g n o : ℕ)
            → g ≡ min (min left read_block) (n - o)
            → (left == 0) ≡ false
            → (g == 0) ≡ true
            → n ≤ o
        nothing_there left g n o e some_left ended = ground arith

    -- Of a file that opens and does not change, by reads that give some of the bytes asked for while any are left, and with
    -- rings that stay open for as many buffers as the unit has bytes: the blocks that the storage thread passes on are
    -- together the unit's bytes, as far as the file has them, and each has between one byte and READ_BLOCK of them.
    pub process_lem :
        (open_for offset len : ℕ)
        → len ≤ open_for
        → (joined (process pread true open_for offset len) ≡ take len (drop offset content))
          × All IsBlock (process pread true open_for offset len)
    unfolding process
    process_lem open_for offset len stays_open =
        read_blocks_lem len open_for offset len (omega arith) stays_open
