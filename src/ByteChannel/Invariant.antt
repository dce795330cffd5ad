-- ===== src/ByteChannel/Invariant.antt =====
-- server/byte_channel.cxx: what holds of a channel between calls.
use dicker.Base.{
  ℕ, ◌+◌, ◌-◌, ◌≤◌, ◌<◌, ◌≡◌, refl, sym, ap, ◌∙◌, List, [], ◌∷◌, ◌++◌, length, take, drop,
  length-append, length-take, length-drop, arith, append-nil, append_assoc, ◌==◌, if◌then◌else◌,
  if-keep, ==_iff, All, take-append-drop, drop-add, drop-append, drop-append_le,
}
use dicker.ByteChannel.{ByteChannel, push, close, take_front, amount_of}

abbrev pub total : List (List ℕ) → List ℕ
total [] = []
total (b ∷ bs) = b ++ total bs

-- No block is empty, and the part of the first one that was read is short of its end.
abbrev pub BlocksOk : List (List ℕ) → ℕ → Type 0
BlocksOk [] offset = offset ≡ 0
BlocksOk (b ∷ bs) offset = (offset < length b) × All (λ block. 1 ≤ length {A = ℕ} block) bs

-- The bytes that were pushed and not yet read.
abbrev pub contents : ByteChannel → List ℕ
contents ch = drop ch.front_offset (total ch.blocks)

pub record IsValid (ch : ByteChannel) : Type 0 where
  pub blocks_ok : BlocksOk ch.blocks ch.front_offset
  pub counted : ch.buffered ≡ length (contents ch)

pub total-append : (xs ys : List (List ℕ)) → total (xs ++ ys) ≡ total xs ++ total ys
total-append [] ys = refl
total-append (x ∷ xs) ys =
    ap (λ t. x ++ t) (total-append xs ys) ∙ sym (append_assoc x (total xs) (total ys))

All-snoc :
    (bs : List (List ℕ)) (b : List ℕ)
    → All (λ x. 1 ≤ length {A = ℕ} x) bs
    → 1 ≤ length b
    → All (λ x. 1 ≤ length {A = ℕ} x) (bs ++ (b ∷ []))
All-snoc [] b h k = (k, tt)
All-snoc (x ∷ bs) b h k = (h.0, All-snoc bs b h.1 k)

BlocksOk-push :
    (bs : List (List ℕ)) (off : ℕ) (b : List ℕ)
    → BlocksOk bs off
    → 1 ≤ length b
    → BlocksOk (bs ++ (b ∷ [])) off
BlocksOk-push [] off b h k = (omega arith, tt)
BlocksOk-push (x ∷ bs) off b h k = (h.0, All-snoc bs b h.1 k)

total-push :
    (bs : List (List ℕ)) (off : ℕ) (b : List ℕ)
    → BlocksOk bs off
    → drop off (total (bs ++ (b ∷ []))) ≡ drop off (total bs) ++ b
total-push [] off b h = rw h (append-nil b)
total-push (x ∷ bs) off b h =
    ap (drop off) (total-append (x ∷ bs) (b ∷ []))
    ∙ drop-append_le off (x ++ total bs) (b ++ []) (omega (arith, length-append x (total bs)))
    ∙ ap (λ t. drop off (x ++ total bs) ++ t) (append-nil b)

-- A push appends its bytes, unless the channel is closed.
pub contents-push :
    (ch : ByteChannel) (bytes : List ℕ)
    → IsValid ch
    → contents (push ch bytes) ≡ (if ch.closed then contents ch else contents ch ++ bytes)
unfolding push
contents-push ch [] v = ground (arith, append-nil (contents ch))
contents-push ch (b ∷ bytes) v =
    ground (arith, total-push ch.blocks ch.front_offset (b ∷ bytes) v.blocks_ok)

-- A push keeps the invariant.
pub push-IsValid : (ch : ByteChannel) (bytes : List ℕ) → IsValid ch → IsValid (push ch bytes)
unfolding push
push-IsValid ch [] v = v
push-IsValid ch (b ∷ bytes) v =
    if-keep IsValid (length (b ∷ bytes) == 0) (λ _. v)
      (λ _.
        if-keep IsValid ch.closed (λ _. v)
          (λ _. record {
            blocks_ok =
                BlocksOk-push ch.blocks ch.front_offset (b ∷ bytes) v.blocks_ok (omega arith);
            counted = omega (
              arith,
              ap (λ (t : List ℕ). length t)
                  (total-push ch.blocks ch.front_offset (b ∷ bytes) v.blocks_ok),
              length-append (contents ch) (b ∷ bytes),
              v.counted,
            );
          }))

pub close-IsValid : (ch : ByteChannel) → IsValid ch → IsValid (close ch)
unfolding close
close-IsValid ch v = record { blocks_ok = v.blocks_ok; counted = v.counted }

BlocksOk-start : (bs : List (List ℕ)) → All (λ x. 1 ≤ length {A = ℕ} x) bs → BlocksOk bs 0
BlocksOk-start [] h = refl
BlocksOk-start (b ∷ bs) h = h

drop_all : (n : ℕ) (xs : List ℕ) → n ≡ length xs → drop n xs ≡ []
drop_all n xs h = rw append-nil at (drop-append n xs [] h)

-- What one round copies, and what is left of the front block.
module _ (ch : ByteChannel) (front : List ℕ) (rest : List (List ℕ)) (needed : ℕ) (v : IsValid ch)
    (e : ch.blocks ≡ front ∷ rest) where
  off : ℕ
  off = ch.front_offset

  amount : ℕ
  amount = amount_of needed (length front - ch.front_offset)

  front_ok : (off < length front) × All (λ block. 1 ≤ length {A = ℕ} block) rest
  unfolding off
  front_ok = rw e at v.blocks_ok

  amount_lem : (amount ≤ needed) × (off + amount ≤ length front) × (1 ≤ needed → 1 ≤ amount)
  unfolding amount off
  amount_lem = (ground arith, ground (arith, front_ok), λ h. ground (arith, front_ok))

  copied : List ℕ
  copied = take amount (drop off front)

  length-copied : length copied ≡ amount
  unfolding copied
  length-copied =
      omega (arith, length-take amount (drop off front), length-drop off front, amount_lem)

  rest_of : drop off front ≡ copied ++ drop (off + amount) front
  unfolding copied
  rest_of =
      sym (take-append-drop amount (drop off front))
      ∙ ap (λ t. copied ++ t) (sym (drop-add off amount (off + amount) front refl))

  contents_lem : contents ch ≡ copied ++ (drop (off + amount) front ++ total rest)
  unfolding off
  contents_lem =
      ap (λ bs. drop ch.front_offset (total bs)) e
      ∙ drop-append_le off front (total rest) (omega (arith, front_ok))
      ∙ ap (λ t. t ++ total rest) rest_of
      ∙ append_assoc copied (drop (off + amount) front) (total rest)

  abbrev Left : ByteChannel → Type 0
  Left t = (drop (off + amount) front ++ total rest ≡ contents t) × IsValid t

  count_lem :
      (t : List ℕ) → drop (off + amount) front ++ total rest ≡ t → ch.buffered - amount ≡ length t
  count_lem t same = omega (
    arith,
    v.counted,
    length-copied,
    length-append copied (drop (off + amount) front ++ total rest),
    ap (λ (x : List ℕ). length x) contents_lem,
    ap (λ (x : List ℕ). length x) same,
  )

  whole_block :
      off + amount ≡ length front
      → Left (record ch { blocks = rest; front_offset = 0; buffered = ch.buffered - amount })
  whole_block full = (
    same,
    record { blocks_ok = BlocksOk-start rest front_ok.1; counted = count_lem (total rest) same },
  )
    where
      same : drop (off + amount) front ++ total rest ≡ total rest
      same = ap (λ t. t ++ total rest) (drop_all (off + amount) front full)

  part_of_block :
      off + amount < length front
      → Left (record ch { front_offset = off + amount; buffered = ch.buffered - amount })
  part_of_block more =
      (same, record { blocks_ok = rw e (more, front_ok.1); counted = count_lem _ same })
    where
      same : drop (off + amount) front ++ total rest ≡ drop (off + amount) (total ch.blocks)
      same =
          sym (drop-append_le (off + amount) front (total rest) (omega arith))
          ∙ ap (λ bs. drop (off + amount) (total bs)) (sym e)

  -- The round hands out a prefix of the contents and leaves the others.
  pub take_front_lem :
      (contents ch
        ≡ (take_front ch front rest needed).0 ++ contents (take_front ch front rest needed).1)
      × IsValid (take_front ch front rest needed).1
      × (length (take_front ch front rest needed).0 ≤ needed)
      × (1 ≤ needed → 1 ≤ length (take_front ch front rest needed).0)
  unfolding take_front copied off amount
  take_front_lem =
      let left : Left (take_front ch front rest needed).1 =
        if-keep Left (off + amount == length front) (λ h. whole_block ((==_iff _ _).0 h))
          (λ h. part_of_block (ground (arith, amount_lem))) in
      (
        contents_lem ∙ ap (λ t. copied ++ t) left.0,
        left.1,
        omega (arith, length-copied, amount_lem),
        λ h. omega (arith, length-copied, amount_lem.2 h),
      )
