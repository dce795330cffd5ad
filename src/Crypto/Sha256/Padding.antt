-- ===== src/Crypto/Sha256/Padding.antt =====
-- shared/sha256.h, `finish` and `sha256`: the message is padded to whole blocks, which are compressed in
-- order.
use dicker.Base.{
  ℕ, zero, suc, ◌+◌, ◌-◌, ◌*◌, ◌/◌, ◌%◌, ◌≤◌, ◌≡◌, refl, sym, ap, ◌∙◌, List, [], ◌∷◌, ◌++◌, length,
  take, drop, replicate, length-append, length-take, length-drop, length-replicate,
  take-append-drop, arith, u64, All, IsByte,
}
use dicker.Crypto.Sha256.{
  Sha256, block_size, update, pad_zeros, length_block, finish, sha256, reset, initial_state,
  state_bytes,
}
use dicker.Crypto.Sha256.Compress.{process_block, length-process_block}
use dicker.Crypto.Sha256.Stream.{
  absorb, absorb_all, settle, HasRoom, absorb-HasRoom, absorb_all-HasRoom, absorb_all-append,
  absorb_fill, update-absorb, update-HasRoom,
}

-- The reference: `n` blocks, in order.
unfoldable pub digest_blocks : ℕ → List ℕ → List ℕ → List ℕ
digest_blocks zero state bytes = state
digest_blocks (suc n) state bytes =
    digest_blocks n (process_block state (take 64 bytes)) (drop 64 bytes)

-- The zero bytes between the byte 0x80 and the length, for `n` bytes before it.
abbrev pub gap : ℕ → ℕ
gap n = (119 - n % 64) % 64

abbrev pub padding : ℕ → List ℕ
padding n = 0x80 ∷ replicate (gap n) 0 ++ length_block (u64 (u64 n * 8))

-- A hasher at a block's end.
abbrev at_block : List ℕ → ℕ → Sha256
at_block state n = record { state = state; bit_count = n; buffer = [] }

absorb_all-block :
    (state : List ℕ) (n : ℕ) (block : List ℕ)
    → length block ≡ block_size
    → absorb_all (at_block state n) block ≡ at_block (process_block state block) n
absorb_all-block state n [] h = absurd (omega arith)
absorb_all-block state n (x ∷ xs) h =
    absorb_fill (at_block state n) x xs (omega arith) ∙ unfold settle in ground arith

-- Whole blocks are compressed in order.
absorb_all-digest_blocks :
    (n : ℕ) (state : List ℕ) (count : ℕ) (bytes : List ℕ)
    → length bytes ≡ 64 * n
    → absorb_all (at_block state count) bytes ≡ at_block (digest_blocks n state bytes) count
unfolding digest_blocks
absorb_all-digest_blocks zero state count [] h = unfold absorb_all in refl
absorb_all-digest_blocks zero state count (b ∷ bs) h = absurd (omega arith)
absorb_all-digest_blocks (suc n) state count bytes h =
    ap (absorb_all (at_block state count)) (sym (take-append-drop 64 bytes))
    ∙ absorb_all-append (at_block state count) (take 64 bytes) (drop 64 bytes)
    ∙ ap (λ t. absorb_all t (drop 64 bytes))
        (absorb_all-block state count (take 64 bytes) (omega (arith, length-take 64 bytes)))
    ∙ absorb_all-digest_blocks n _ count (drop 64 bytes) (omega (arith, length-drop 64 bytes))

-- The bit count is read before the padding: what follows does not depend on it.
abbrev forget : Sha256 → Sha256
forget s = record s { bit_count = 0 }

absorb_all-forget : (s : Sha256) (xs : List ℕ) → absorb_all (forget s) xs ≡ forget (absorb_all s xs)
unfolding absorb_all absorb settle
absorb_all-forget s [] = refl
absorb_all-forget s (x ∷ xs) =
    ap (λ t. absorb_all t xs) (ground arith) ∙ absorb_all-forget (absorb s x) xs

update-forget :
    (s : Sha256) (xs : List ℕ) → HasRoom s → forget (update s xs) ≡ absorb_all (forget s) xs
update-forget s xs room = rw (update-absorb s xs room) (sym (absorb_all-forget s xs))

-- Where the next byte leaves the buffer.
length-absorb :
    (s : Sha256) (b : ℕ) → HasRoom s → length (absorb s b).buffer ≡ (length s.buffer + 1) % 64
unfolding absorb settle
length-absorb s b h = ground (arith, length-append s.buffer (b ∷ []))

length-absorb_all :
    (xs : List ℕ) (s : Sha256)
    → HasRoom s
    → length (absorb_all s xs).buffer ≡ (length s.buffer + length xs) % 64
unfolding absorb_all
length-absorb_all [] s h = omega arith
length-absorb_all (x ∷ xs) s h =
    omega (arith, length-absorb_all xs (absorb s x) (absorb-HasRoom s x h), length-absorb s x h)

-- The zero bytes that a buffer of `n` bytes still lacks.
abbrev lacking : ℕ → ℕ
lacking n = (120 - n) % 64

-- The loop that pads ends by its test, after as many zero bytes as are lacking.
pad_zeros_lem :
    (fuel k : ℕ) (s : Sha256)
    → HasRoom s
    → k ≡ lacking (length s.buffer)
    → k ≤ fuel
    → forget (pad_zeros fuel s) ≡ absorb_all (forget s) (replicate k 0)
unfolding pad_zeros absorb_all
pad_zeros_lem zero zero s room e h = refl
pad_zeros_lem zero (suc k) s room e h = absurd (omega arith)
pad_zeros_lem (suc fuel) zero s room e h = ground arith
pad_zeros_lem (suc fuel) (suc k) s room e h =
    skip
    ∙ pad_zeros_lem fuel k (update s (0 ∷ [])) (update-HasRoom s _ room) left (omega arith)
    ∙ ap (λ t. absorb_all t (replicate k 0)) one
  where
    one : forget (update s (0 ∷ [])) ≡ absorb (forget s) 0
    one = update-forget s (0 ∷ []) room

    skip : forget (pad_zeros (suc fuel) s) ≡ forget (pad_zeros fuel (update s (0 ∷ [])))
    skip = ground arith

    left : k ≡ lacking (length (update s (0 ∷ [])).buffer)
    left = omega (arith, ap (λ (t : Sha256). length t.buffer) one, length-absorb (forget s) 0 room)

length-padding : (n : ℕ) → length (padding n) ≡ gap n + 9
length-padding n = omega (
  arith,
  length-append (replicate (gap n) 0) (length_block (u64 (u64 n * 8))),
  length-replicate {A = ℕ} (gap n) 0,
)

abbrev start : Sha256
start = at_block initial_state 0

-- What `finish` absorbs after a message: its padding.
finish_lem :
    (msg : List ℕ) → sha256 msg ≡ state_bytes (absorb_all start (msg ++ padding (length msg))).state
unfolding sha256 finish reset
finish_lem msg = ap (λ (t : Sha256). state_bytes t.state) whole
  where
    s : Sha256
    s = update start msg

    one : Sha256
    one = update s (0x80 ∷ [])

    padded : Sha256
    padded = pad_zeros block_size one

    zeros : List ℕ
    zeros = replicate (gap (length msg)) 0

    s_room : HasRoom s
    s_room = update-HasRoom start msg (omega arith)

    one_room : HasRoom one
    one_room = update-HasRoom s _ s_room

    s_lem : forget s ≡ absorb_all start msg
    s_lem = update-forget start msg (omega arith)

    one_lem : forget one ≡ absorb_all (absorb_all start msg) (0x80 ∷ [])
    one_lem = update-forget s _ s_room ∙ ap (λ t. absorb_all t (0x80 ∷ [])) s_lem

    one_length : length one.buffer ≡ (length msg + 1) % 64
    one_length = omega (
      arith,
      ap (λ (t : Sha256). length t.buffer) one_lem,
      length-absorb_all msg start (omega arith),
      length-absorb_all (0x80 ∷ []) (absorb_all start msg)
          (absorb_all-HasRoom start msg (omega arith)),
    )

    padded_lem : forget padded ≡ absorb_all (forget one) zeros
    padded_lem =
        pad_zeros_lem block_size (gap (length msg)) one one_room (omega (arith, one_length))
          (omega arith)

    padded_room : HasRoom padded
    padded_room = omega (
      arith,
      ap (λ (t : Sha256). length t.buffer) padded_lem,
      absorb_all-HasRoom (forget one) zeros one_room,
    )

    count_lem : s.bit_count ≡ u64 (u64 (length msg) * 8)
    count_lem =
        omega (arith, ap (λ (t : Sha256). t.bit_count) (update-absorb start msg (omega arith)))

    whole :
        forget (update padded (length_block s.bit_count))
        ≡ absorb_all start (msg ++ padding (length msg))
    whole =
        update-forget padded _ padded_room
        ∙ rw (padded_lem, one_lem, count_lem)
            (sym (
              absorb_all-append start msg (padding (length msg))
              ∙ absorb_all-append (absorb_all start msg) (0x80 ∷ []) _
              ∙ absorb_all-append _ zeros (length_block (u64 (u64 (length msg) * 8)))))

pub sha256-digest_blocks :
    (msg : List ℕ)
    → sha256 msg
      ≡ state_bytes
          (digest_blocks ((length msg + 72) / 64) initial_state (msg ++ padding (length msg)))
sha256-digest_blocks msg =
    finish_lem msg
    ∙ ap (λ (t : Sha256). state_bytes t.state)
        (absorb_all-digest_blocks ((length msg + 72) / 64) initial_state 0 _
          (omega (arith, length-append msg (padding (length msg)), length-padding (length msg))))

length-digest_blocks :
    (n : ℕ) (state bytes : List ℕ) → length state ≡ 8 → length (digest_blocks n state bytes) ≡ 8
unfolding digest_blocks
length-digest_blocks zero state bytes h = h
length-digest_blocks (suc n) state bytes h =
    length-digest_blocks n _ (drop 64 bytes) (length-process_block state (take 64 bytes))

state_bytes_shape :
    (ws : List ℕ) → (length (state_bytes ws) ≡ 4 * length ws) × All IsByte (state_bytes ws)
state_bytes_shape [] = (refl, tt)
state_bytes_shape (w ∷ ws) =
    let (n, bytes) = state_bytes_shape ws in
    (omega arith, (omega arith, (omega arith, (omega arith, (omega arith, bytes)))))

-- A digest is 32 bytes.
pub sha256_shape : (msg : List ℕ) → (length (sha256 msg) ≡ 32) × All IsByte (sha256 msg)
sha256_shape msg =
    let state =
      digest_blocks ((length msg + 72) / 64) initial_state (msg ++ padding (length msg)) in
    let (n, bytes) = state_bytes_shape state in
    rw (sha256-digest_blocks msg) (
      omega (
        arith,
        length-digest_blocks ((length msg + 72) / 64) initial_state (msg ++ padding (length msg))
            refl,
      ),
      bytes,
    )
