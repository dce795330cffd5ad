-- ===== src/Upload/Blocks.antt =====
-- server/connection.cxx, `handle_upload`: the block stream of one unit and its checksum.
use dicker.Base.{
  ℕ, zero, suc, ◌+◌, Bool, true, false, ◌&&◌, ◌||◌, List, Option, none, some, if◌then◌else◌, u64,
  ltb, ◌==◌,
}
use dicker.Protocol.{BlockType, end_of_unit, data_block, block_of, max_block_size}
use dicker.Wire.{at, read_u32_le, read_u64_le}
use dicker.Upload.Session.{
  Settings, Reason, connection_lost, protocol_error, decode_error, checksum_mismatch, read_exact,
  on_read,
}
use dicker.Upload.Sink.{UnitSink, write_pieces}

-- The variables of the unit when the block loop is left.
pub record BlockEnd (D X : Type 0) : Type 0 where
  pub input : List ℕ
  pub decoder : D
  pub sink : UnitSink X
  pub unit_wire : ℕ
  pub unit_ok : Bool
  pub unit_done : Bool
  pub failure : Reason

-- What the byte of a block's type asks for.
abbrev pub on_block_type {ℓ} : {B : Type ℓ} → Option BlockType → (unknown at_end block : B) → B
on_block_type none unknown at_end block = unknown
on_block_type (some end_of_unit) unknown at_end block = at_end
on_block_type (some data_block) unknown at_end block = block

module _ (w : Settings) where
  open w use {decompressor, checksum, integrity_checks}

  abbrev End : Type 0
  End = BlockEnd decompressor.State checksum.State

  abbrev failed : List ℕ → decompressor.State → UnitSink checksum.State → ℕ → Reason → End
  failed input decoder sink unit_wire failure = record {
    input = input;
    decoder = decoder;
    sink = sink;
    unit_wire = unit_wire;
    unit_ok = false;
    unit_done = false;
    failure = failure;
  }

  -- `while (true)` over the blocks. A round reads a byte at least, so with the length of the input for
  -- fuel the input is empty when the fuel ends, and the next read fails.
  unfoldable pub block_loop : ℕ → List ℕ → decompressor.State → UnitSink checksum.State → ℕ → End
  unfolding write_pieces
  block_loop zero input decoder sink unit_wire = failed input decoder sink unit_wire connection_lost
  block_loop (suc fuel) input decoder sink unit_wire =
      let lost = failed input decoder sink unit_wire connection_lost in
      let wrong = failed input decoder sink unit_wire protocol_error in
      on_read (read_exact 1 input) lost λ type_byte input₁.
        on_block_type (block_of (at type_byte 0)) wrong
          (record {
            input = input₁;
            decoder = decoder;
            sink = sink;
            unit_wire = unit_wire;
            unit_ok = true;
            unit_done = true;
            failure = connection_lost;
          })
          (on_read (read_exact 4 input₁) lost λ len_bytes input₂.
            let block_len = read_u32_le len_bytes in
            let body = on_read (read_exact block_len input₂) lost λ block input₃.
              let r = decompressor.decompress decoder block in
              let (ok, written) = write_pieces w sink r.pieces in
              let wire = u64 (unit_wire + block_len) in
              let rest = block_loop fuel input₃ r.state written wire in
              if ok && r.decodes then rest else failed input₃ r.state written wire decode_error in
            if block_len == 0 || ltb max_block_size block_len then wrong else body)

  -- The trailer, read only if the block stream ended well.
  unfoldable pub check_trailer : End → End
  check_trailer e =
      let bad = λ (input : List ℕ) (failure : Reason). record e {
        input = input;
        unit_ok = false;
        failure = failure;
      } in
      let checked = on_read (read_exact 8 e.input) (bad e.input e.failure) λ checksum_bytes rest.
        if read_u64_le checksum_bytes == checksum.digest e.sink.checksum_state
        then record e { input = rest }
        else bad rest checksum_mismatch in
      if e.unit_ok && e.unit_done && integrity_checks then checked else e
