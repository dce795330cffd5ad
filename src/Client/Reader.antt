-- ===== src/Client/Reader.antt =====
-- client/storageReader.h: how the storage thread reads a unit, block by block. `pread` is the call of the system, as the
-- bytes that it gives for a length and an offset (none at the end of the file and where it fails). The rings are seen
-- through their order (Ring.Order): what is pushed on `ready` is what the worker takes.
pub mod Blocks
use dicker.Base.{
  ℕ, zero, suc, ◌+◌, ◌-◌, min, List, [], ◌∷◌, ◌++◌, Bool, true, false, if◌then◌else◌, not, ◌==◌,
  length, u32,
}
use dicker.Codec.{read_block}

module _ (pread : (len off : ℕ) → List ℕ) where
  -- `readAt`, on fuel.
  unfoldable pub read_at : (fuel len off : ℕ) → List ℕ
  read_at zero len off = []
  read_at (suc fuel) len off =
      let got = pread len off in
      let rest = read_at fuel (len - length got) (off + length got) in
      if len == 0 then [] else if length got == 0 then [] else got ++ rest

  -- The loop of `process`: `open_for` is how many buffers the rings give before they are closed. What comes out are the
  -- blocks that the worker gets before the end of the unit.
  unfoldable pub read_blocks : (fuel open_for off remaining : ℕ) → List (List ℕ)
  unfolding read_at
  read_blocks zero open_for off remaining = []
  read_blocks (suc fuel) zero off remaining = []
  read_blocks (suc fuel) (suc open_for) off remaining =
      let want = min remaining read_block in
      let got = read_at want want off in
      let rest = read_blocks fuel open_for (off + length got) (remaining - length got) in
      if remaining == 0 then [] else if length got == 0 then [] else got ∷ rest

  unfoldable pub process : (opened : Bool) → (open_for offset length : ℕ) → List (List ℕ)
  unfolding read_blocks
  process opened open_for offset length =
      if opened then read_blocks length open_for offset length else []
