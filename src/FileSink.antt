-- ===== src/FileSink.antt =====
-- server/file_sink.cxx, the writers. What uv_fs_write takes of the bytes at a position is a parameter; a position is
-- `none` for -1, the current one of the descriptor.
pub mod Writes
pub mod Registry
use dicker.Base.{
  ℕ, zero, suc, ◌+◌, ◌^◌, List, [], ◌∷◌, Bool, true, false, Option, none, some, if◌then◌else◌, ◌==◌,
  leb, length, take, drop, u64,
}

-- `kMaxSingleWrite`
unfoldable pub max_single_write : ℕ
max_single_write = 2 ^ 30

-- The position of the next write. The offset is an int64_t, kept here by its 64 bits, so it is below 0 from 2 ^ 63 on;
-- the sum is one too, and where it overflows, which C++ leaves undefined, it is taken to wrap around and is negative.
unfoldable pub write_offset : (offset written : ℕ) → Option ℕ
write_offset offset written =
    let at = u64 (offset + written) in
    if leb (2 ^ 63) offset then none else if leb (2 ^ 63) at then none else some at

-- A call of uv_fs_write that took bytes: where, and which.
abbrev pub Write : Type 0
Write = Option ℕ × List ℕ

module _ (takes : Option ℕ → List ℕ → ℕ) where
  -- The loop of `write_fd_all`, on fuel, over what is still to be written.
  unfoldable pub write_loop : (fuel offset written : ℕ) → List ℕ → Bool × List Write
  write_loop fuel offset written [] = (true, [])
  write_loop zero offset written (b ∷ rest) = (false, [])
  write_loop (suc fuel) offset written (b ∷ rest) =
      let part = take max_single_write (b ∷ rest) in
      let at = write_offset offset written in
      let result = takes at part in
      let (ok, writes) = write_loop fuel offset (written + result) (drop result (b ∷ rest)) in
      if result == 0 then (false, []) else (ok, (at, take result part) ∷ writes)

  unfoldable pub write_fd_all : (offset : ℕ) → List ℕ → Bool × List Write
  unfolding write_loop
  write_fd_all offset bytes = write_loop (length bytes) offset 0 bytes

  -- `SequentialWriter::write`: the result, the writes, and the offset behind them.
  unfoldable pub write_sequential : (offset : ℕ) → List ℕ → Bool × List Write × ℕ
  unfolding write_fd_all
  write_sequential offset bytes =
      let (ok, writes) = write_fd_all offset bytes in
      (ok, writes, if ok then u64 (offset + length bytes) else offset)
