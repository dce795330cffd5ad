-- ===== src/Crypto/Sha256/Stream.antt =====
-- shared/sha256.h, `update`: hashing in pieces is hashing the whole, whatever the pieces.
use dicker.Base.{
  ℕ, zero, suc, ◌+◌, ◌-◌, ◌*◌, ◌≤◌, ◌<◌, ◌≡◌, refl, sym, ap, ◌∙◌, ◌≡⟨◌⟩◌, ◌∎, List, [], ◌∷◌, ◌++◌,
  length, take, drop, length-append, length-take, length-drop, take-append-drop, append_assoc, ◌==◌,
  if◌then◌else◌, ltb, arith, u64,
}
use dicker.Crypto.Sha256.{Sha256, block_size, update_loop, update}
use dicker.Crypto.Sha256.Compress.{process_block}

-- A block is compressed as soon as it is full.
unfoldable pub settle : Sha256 → List ℕ → Sha256
settle s filled =
    if length filled == block_size
    then record s { state = process_block s.state filled; buffer = [] }
    else record s { buffer = filled }

-- The reference: one byte at a time.
unfoldable pub absorb : Sha256 → ℕ → Sha256
absorb s b = settle s (s.buffer ++ (b ∷ []))

unfoldable pub absorb_all : Sha256 → List ℕ → Sha256
absorb_all s [] = s
absorb_all s (b ∷ bs) = absorb_all (absorb s b) bs

-- There is always room for a byte.
abbrev pub HasRoom : Sha256 → Type 0
HasRoom s = length s.buffer < block_size

pub settle-HasRoom : (s : Sha256) (xs : List ℕ) → length xs ≤ block_size → HasRoom (settle s xs)
unfolding settle
settle-HasRoom s xs h = ground arith

pub absorb-HasRoom : (s : Sha256) (b : ℕ) → HasRoom s → HasRoom (absorb s b)
unfolding absorb
absorb-HasRoom s b h = settle-HasRoom s _ (omega (arith, length-append s.buffer (b ∷ [])))

pub absorb_all-HasRoom : (s : Sha256) (xs : List ℕ) → HasRoom s → HasRoom (absorb_all s xs)
unfolding absorb_all
absorb_all-HasRoom s [] h = h
absorb_all-HasRoom s (x ∷ xs) h = absorb_all-HasRoom (absorb s x) xs (absorb-HasRoom s x h)

pub absorb_all-append :
    (s : Sha256) (xs ys : List ℕ) → absorb_all s (xs ++ ys) ≡ absorb_all (absorb_all s xs) ys
unfolding absorb_all
absorb_all-append s [] ys = refl
absorb_all-append s (x ∷ xs) ys = absorb_all-append (absorb s x) xs ys

absorb_short :
    (s : Sha256) (b : ℕ)
    → length s.buffer + 1 < block_size
    → absorb s b ≡ record s { buffer = s.buffer ++ (b ∷ []) }
unfolding absorb settle
absorb_short s b h = ground (arith, length-append s.buffer (b ∷ []))

pub settle-buffer :
    (s : Sha256) (buffer xs : List ℕ) → settle (record s { buffer = buffer }) xs ≡ settle s xs
unfolding settle
settle-buffer s buffer xs = refl

-- Bytes that fit into the block are settled at once.
pub absorb_fill :
    (s : Sha256) (x : ℕ) (xs : List ℕ)
    → length s.buffer + length (x ∷ xs) ≤ block_size
    → absorb_all s (x ∷ xs) ≡ settle s (s.buffer ++ (x ∷ xs))
unfolding absorb_all
absorb_fill s x [] h = unfold absorb in refl
absorb_fill s x (y ∷ ys) h =
    absorb_all (absorb s x) (y ∷ ys)
    ≡⟨ ap (λ t. absorb_all t (y ∷ ys)) (absorb_short s x (omega arith)) ⟩
      absorb_all (record s { buffer = s.buffer ++ (x ∷ []) }) (y ∷ ys)
    ≡⟨ absorb_fill (record s { buffer = s.buffer ++ (x ∷ []) }) y ys
        (omega (arith, length-append s.buffer (x ∷ []))) ⟩
      settle (record s { buffer = s.buffer ++ (x ∷ []) }) ((s.buffer ++ (x ∷ [])) ++ (y ∷ ys))
    ≡⟨ settle-buffer s _ _ ⟩ settle s ((s.buffer ++ (x ∷ [])) ++ (y ∷ ys))
    ≡⟨ ap (settle s) (append_assoc s.buffer (x ∷ []) (y ∷ ys)) ⟩
      settle s (s.buffer ++ (x ∷ y ∷ ys)) ∎

abbrev next : Sha256 → List ℕ → ℕ → Sha256
next s bytes amount = settle s (s.buffer ++ take amount bytes)

-- One round of the loop, for what it takes: absorbing these bytes.
round_absorbs :
    (s : Sha256) (b : ℕ) (bs : List ℕ) (amount : ℕ)
    → 1 ≤ amount
    → length s.buffer + amount ≤ block_size
    → amount ≤ length (b ∷ bs)
    → next s (b ∷ bs) amount ≡ absorb_all s (take amount (b ∷ bs))
round_absorbs s b bs zero pos room len = absurd (omega arith)
round_absorbs s b bs (suc k) pos room len =
    sym (absorb_fill s b (take k bs) (omega (arith, length-take k bs)))

-- One round, when the rounds after it absorb the bytes that are left.
round_lem :
    (fuel : ℕ) (s : Sha256) (b : ℕ) (bs : List ℕ) (k : ℕ)
    → ((t : Sha256) (rest : List ℕ)
        → length rest ≤ fuel
        → HasRoom t
        → update_loop fuel t rest ≡ absorb_all t rest)
    → 1 ≤ k
    → length s.buffer + k ≤ block_size
    → k ≤ length (b ∷ bs)
    → length bs ≤ fuel
    → update_loop fuel (next s (b ∷ bs) k) (drop k (b ∷ bs)) ≡ absorb_all s (b ∷ bs)
round_lem fuel s b bs k rec pos fits len h =
    rec (next s (b ∷ bs) k) (drop k (b ∷ bs)) (omega (arith, length-drop k (b ∷ bs))) (
      settle-HasRoom s _
        (omega (arith, length-append s.buffer (take k (b ∷ bs)), length-take k (b ∷ bs))))
    ∙ ap (λ t. absorb_all t (drop k (b ∷ bs))) (round_absorbs s b bs k pos fits len)
    ∙ sym (absorb_all-append s (take k (b ∷ bs)) (drop k (b ∷ bs)))
    ∙ ap (absorb_all s) (take-append-drop k (b ∷ bs))

-- The loop absorbs its bytes one after the other.
pub update_loop-absorb :
    (fuel : ℕ) (s : Sha256) (bytes : List ℕ)
    → length bytes ≤ fuel
    → HasRoom s
    → update_loop fuel s bytes ≡ absorb_all s bytes
unfolding update_loop settle
update_loop-absorb zero s [] h room = unfold absorb_all in refl
update_loop-absorb zero s (b ∷ bs) h room = absurd (omega arith)
update_loop-absorb (suc fuel) s [] h room = unfold absorb_all in refl
update_loop-absorb (suc fuel) s (b ∷ bs) h room =
    let space = block_size - length s.buffer in
    let amount = if ltb (length (b ∷ bs)) space then length (b ∷ bs) else space in
    round_lem fuel s b bs amount (update_loop-absorb fuel) (ground arith) (ground arith)
      (ground arith) (omega arith)

abbrev with_count : Sha256 → ℕ → Sha256
with_count s n = record s { bit_count = n }

absorb_all-with_count :
    (s : Sha256) (n : ℕ) (xs : List ℕ)
    → absorb_all (with_count s n) xs ≡ with_count (absorb_all s xs) n
unfolding absorb_all absorb settle
absorb_all-with_count s n [] = refl
absorb_all-with_count s n (x ∷ xs) =
    ap (λ t. absorb_all t xs) (ground arith) ∙ absorb_all-with_count (absorb s x) n xs

-- `update` counts the bits and absorbs the bytes.
pub update-absorb :
    (s : Sha256) (bytes : List ℕ)
    → HasRoom s
    → update s bytes
      ≡ with_count (absorb_all s bytes) (u64 (s.bit_count + u64 (u64 (length bytes) * 8)))
unfolding update
update-absorb s bytes room =
    update_loop-absorb (length bytes) (with_count s _) bytes (omega arith) room
    ∙ absorb_all-with_count s _ bytes

pub update-HasRoom : (s : Sha256) (xs : List ℕ) → HasRoom s → HasRoom (update s xs)
update-HasRoom s xs h = rw (update-absorb s xs h) (absorb_all-HasRoom s xs h)

-- Hashing two pieces one after the other leaves the hasher as hashing them at once does: state, bit
-- count and buffer, at any room in the buffer and any lengths.
pub update-append :
    (s : Sha256) (xs ys : List ℕ) → HasRoom s → update (update s xs) ys ≡ update s (xs ++ ys)
update-append s xs ys h =
    rw
      (
        update-absorb (update s xs) ys (update-HasRoom s xs h),
        update-absorb s xs h,
        update-absorb s (xs ++ ys) h,
        absorb_all-with_count (absorb_all s xs) (u64 (s.bit_count + u64 (u64 (length xs) * 8))) ys,
        absorb_all-append s xs ys,
      )
      (ap (with_count (absorb_all (absorb_all s xs) ys)) (omega (arith, length-append xs ys)))
