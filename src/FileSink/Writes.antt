-- ===== src/FileSink/Writes.antt =====
-- server/file_sink.cxx, `write_fd_all`: where the bytes land.
use dicker.Base.{
  ℕ, zero, suc, ◌+◌, ◌-◌, ◌^◌, ◌≤◌, ◌<◌, ◌≡◌, refl, sym, ap, ◌∙◌, List, [], ◌∷◌, ◌++◌, Bool, true,
  false, Option, some, if-keep, u64, ◌==◌, leb, length, take, drop, length-append, length-take,
  length-drop, append_assoc, arith, subst,
}
use dicker.FileSink.{max_single_write, write_offset, Write, write_loop, write_fd_all}

abbrev pub written_bytes : List Write → List ℕ
written_bytes [] = []
written_bytes ((at, bytes) ∷ writes) = bytes ++ written_bytes writes

-- The writes lie end to end from the position.
abbrev pub LieFrom : ℕ → List Write → Type 0
LieFrom n [] = Unit
LieFrom n ((at, bytes) ∷ writes) = (at ≡ some n) × LieFrom (n + length bytes) writes

positioned :
    (offset written : ℕ)
    → offset + written < 2 ^ 63
    → write_offset offset written ≡ some (offset + written)
unfolding write_offset
positioned offset written small =
    let same : u64 (offset + written) ≡ offset + written = omega arith in
    let low : leb (2 ^ 63) offset ≡ false = ground arith in
    let inside : leb (2 ^ 63) (offset + written) ≡ false = ground arith in
    rw (low, same, inside) refl

is_zero : (n : ℕ) → (n == 0) ≡ true → n ≡ 0
is_zero n e = ground arith

shorter : (r l f : ℕ) {d : ℕ} → d ≡ l - r → l ≤ suc f → (r == 0) ≡ false → d ≤ f
shorter r l f e le more = ground arith

-- The bytes of a part that are taken, and the bytes behind them.
both_parts : (n m : ℕ) (xs : List ℕ) → n ≤ length (take m xs) → take n (take m xs) ++ drop n xs ≡ xs
both_parts zero m xs le = refl
both_parts (suc n) zero xs le = absurd (omega arith)
both_parts (suc n) (suc m) [] le = refl
both_parts (suc n) (suc m) (x ∷ xs) le = ap (λ l. x ∷ l) (both_parts n m xs (omega arith))

module _ (takes : Option ℕ → List ℕ → ℕ) where
  -- What a run leaves of the bytes: nothing after a success; after a failure, the part of which a write took nothing.
  pub record Written (at : ℕ) (bytes : List ℕ) (r : Bool × List Write) : Type 0 where
    pub left : List ℕ
    pub together : written_bytes r.1 ++ left ≡ bytes
    pub end_to_end : LieFrom at r.1
    pub all_out : r.0 ≡ true → left ≡ []
    pub refused :
        r.0 ≡ false
        → takes (some (at + length (written_bytes r.1))) (take max_single_write left) ≡ 0

  module _ (at_most : (at : Option ℕ) (bytes : List ℕ) → takes at bytes ≤ length bytes) where
    write_loop_lem :
        (fuel offset written : ℕ) (bytes : List ℕ)
        → length bytes ≤ fuel
        → offset + written + length bytes ≤ 2 ^ 63
        → Written (offset + written) bytes (write_loop takes fuel offset written bytes)
    unfolding write_loop
    write_loop_lem fuel offset written [] enough small = record {
      left = [];
      together = refl;
      end_to_end = tt;
      all_out = λ _. refl;
      refused = λ e. absurd (ground arith);
    }
    write_loop_lem zero offset written (b ∷ rest) enough small = absurd (omega arith)
    write_loop_lem (suc fuel) offset written (b ∷ rest) enough small =
        let bytes : List ℕ = b ∷ rest in
        let part : List ℕ = take max_single_write bytes in
        let at : Option ℕ = write_offset offset written in
        let result : ℕ = takes at part in
        let here : at ≡ some (offset + written) = positioned offset written (omega arith) in
        let fits : result ≤ length part = at_most at part in
        let inner = write_loop_lem fuel offset (written + result) (drop result bytes) in
        if-keep (Written (offset + written) bytes) (result == 0)
          (λ nothing. record {
            left = bytes;
            together = refl;
            end_to_end = tt;
            all_out = λ e. absurd (ground arith);
            refused = λ _.
                ap (λ n. takes (some n) part) {x = offset + written + 0} {y = offset + written}
                  (omega arith)
                ∙ ap (λ o. takes o part) (sym here)
                ∙ is_zero result nothing;
          })
          (λ some_taken.
            let after =
              inner
                (shorter result (length bytes) fuel (length-drop result bytes) enough some_taken)
                (omega (arith, length-drop result bytes, length-take max_single_write bytes)) in
            let size : length (take result part) ≡ result = length-take result part ∙ omega arith in
            let writes : List Write =
              (write_loop takes fuel offset (written + result) (drop result bytes)).1 in
            record {
              left = after.left;
              together =
                  append_assoc (take result part) (written_bytes writes) after.left
                  ∙ ap (λ l. take result part ++ l) after.together
                  ∙ both_parts result max_single_write bytes fits;
              end_to_end = (
                here,
                subst (λ n. LieFrom n writes) {x = offset + (written + result)}
                    {y = offset + written + length (take result part)} (omega (arith, size))
                    after.end_to_end,
              );
              all_out = after.all_out;
              refused = λ e.
                  ap (λ n. takes (some n) (take max_single_write after.left))
                    (omega (arith, size, length-append (take result part) (written_bytes writes)))
                  ∙ after.refused e;
            })

  -- Where the offset and the count of the bytes are together at most 2 ^ 63, and whatever part of its bytes each write takes: the writes lie end
  -- to end from the offset and are together the bytes from the first on; all of them, where write_fd_all returns true,
  -- and where it returns false up to a place at which a write took nothing.
  pub write_fd_all_lem :
      ((at : Option ℕ) (bytes : List ℕ) → takes at bytes ≤ length bytes)
      → (offset : ℕ) (bytes : List ℕ) → offset + length bytes ≤ 2 ^ 63
      → Written offset bytes (write_fd_all takes offset bytes)
  unfolding write_fd_all
  write_fd_all_lem at_most offset bytes small =
      subst (λ n. Written n bytes (write_loop takes (length bytes) offset 0 bytes)) {x = offset + 0}
        (omega arith)
        (write_loop_lem at_most (length bytes) offset 0 bytes (omega arith) (omega arith))
