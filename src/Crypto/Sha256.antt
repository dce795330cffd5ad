-- ===== src/Crypto/Sha256.antt =====
-- shared/sha256.h. `state_` is the list of the eight words; `buffer_` is the part of the array in
-- use, so `buffer_len_` is its length.
pub mod Compress
pub mod Stream
pub mod Padding
use dicker.Base.{
  ℕ, zero, suc, ◌+◌, ◌-◌, ◌*◌, ◌%◌, ◌^◌, List, [], ◌∷◌, ◌++◌, Bool, length, take, drop, ltb, ◌==◌,
  if◌then◌else◌, u8, u64, ◌>>>◌, map,
}
use dicker.Crypto.Sha256.Compress.{process_block}

abbrev pub block_size : ℕ
block_size = 64

pub record Sha256 : Type 0 where
  pub state : List ℕ
  pub bit_count : ℕ
  pub buffer : List ℕ

abbrev pub initial_state : List ℕ
initial_state =
    0x6a09e667 ∷ 0xbb67ae85 ∷ 0x3c6ef372 ∷ 0xa54ff53a ∷ 0x510e527f ∷ 0x9b05688c ∷ 0x1f83d9ab
    ∷ 0x5be0cd19 ∷ []

-- `reset`, which the constructor calls.
unfoldable pub reset : Sha256
reset = record { state = initial_state; bit_count = 0; buffer = [] }

-- The loop of `update` over the bytes that are left; a round takes at least one, so their number is
-- fuel enough.
unfoldable pub update_loop : ℕ → Sha256 → List ℕ → Sha256
update_loop zero s bytes = s
update_loop (suc fuel) s [] = s
update_loop (suc fuel) s (b ∷ bs) =
    let space = block_size - length s.buffer in
    let amount = if ltb (length (b ∷ bs)) space then length (b ∷ bs) else space in
    let filled = s.buffer ++ take amount (b ∷ bs) in
    let next =
      if length filled == block_size
      then record s { state = process_block s.state filled; buffer = [] }
      else record s { buffer = filled } in
    update_loop fuel next (drop amount (b ∷ bs))

unfoldable pub update : Sha256 → List ℕ → Sha256
unfolding update_loop
update s bytes =
    update_loop (length bytes)
      (record s { bit_count = u64 (s.bit_count + u64 (u64 (length bytes) * 8)) }) bytes

-- `while (buffer_len_ != kSha256BlockSize - 8)`: one zero byte a round, and at most 64 rounds.
unfoldable pub pad_zeros : ℕ → Sha256 → Sha256
pad_zeros zero s = s
pad_zeros (suc fuel) s =
    let rest = pad_zeros fuel (update s (0 ∷ [])) in
    if length s.buffer == block_size - 8 then s else rest

-- The bit count, highest byte first.
abbrev pub length_block : ℕ → List ℕ
length_block n =
    u8 (n >>> 56)
    ∷ u8 (n >>> 48)
    ∷ u8 (n >>> 40)
    ∷ u8 (n >>> 32)
    ∷ u8 (n >>> 24)
    ∷ u8 (n >>> 16)
    ∷ u8 (n >>> 8)
    ∷ u8 (n >>> 0)
    ∷ []

abbrev pub word_bytes : ℕ → List ℕ
word_bytes w = u8 (w >>> 24) ∷ u8 (w >>> 16) ∷ u8 (w >>> 8) ∷ u8 w ∷ []

abbrev pub state_bytes : List ℕ → List ℕ
state_bytes [] = []
state_bytes (w ∷ ws) = word_bytes w ++ state_bytes ws

unfoldable pub finish : Sha256 → List ℕ
unfolding pad_zeros
finish s =
    let total_bits = s.bit_count in
    let padded = pad_zeros block_size (update s (0x80 ∷ [])) in
    let done = update padded (length_block total_bits) in state_bytes done.state

unfoldable pub sha256 : List ℕ → List ℕ
sha256 bytes = finish (update reset bytes)
