-- ===== src/Client/Worker/Frames.antt =====
-- client/worker.h: the frames of a unit and of a probe.
use dicker.Base.{ℕ, List, [], ◌∷◌, ◌++◌, length, if◌then◌else◌, Bool, true, false, u16, u32}
use dicker.Protocol.{UnitType, chunk, probe, accepted, unit_code, block_code, data_block}
use dicker.Wire.{append_u16, append_u64, write_u32_le}

-- client/task.h, `Task`, with `pathname` up to its NUL.
pub record Task : Type 0 where
  pub type : UnitType
  pub path : List ℕ
  pub offset : ℕ
  pub length_of_unit : ℕ
  pub file_size : ℕ
  pub mtime : ℕ

abbrev pub is_chunk_type : UnitType → Bool
is_chunk_type chunk = true
is_chunk_type _ = false

unfoldable pub unit_header : Task → List ℕ
unit_header t =
    let header = append_u16 (unit_code t.type ∷ []) (u16 (length t.path)) ++ t.path in
    if is_chunk_type t.type then append_u64 header t.offset else header

unfoldable pub accepted_header : ℕ → List ℕ
accepted_header key = append_u64 (unit_code accepted ∷ []) key

-- The frame of a probe; `hash` is empty unless the server wants one.
unfoldable pub probe_frame : ℕ → Task → List ℕ → List ℕ
probe_frame key t hash =
    let kind = append_u64 (unit_code probe ∷ []) key ++ (unit_code t.type ∷ []) in
    let path = append_u16 kind (u16 (length t.path)) ++ t.path in
    append_u64 (append_u64 (append_u64 (append_u64 path t.offset) t.length_of_unit) t.file_size)
      t.mtime
    ++ hash

unfoldable pub block_header : List ℕ → List ℕ
block_header bytes = block_code data_block ∷ write_u32_le (u32 (length bytes))
