-- ===== src/Upload/Sink.antt =====
-- server/connection.cxx, `UnitSink::write`, with the two writers of server/file_sink.cxx behind it, and the loop that
-- a decompressor makes over the pieces of a block.
use dicker.Base.{ℕ, ◌+◌, Bool, true, false, List, [], ◌∷◌, ◌++◌, length, if◌then◌else◌, u64}
use dicker.Upload.Session.{Settings, Effect, wrote, write_failed}

pub record UnitSink (X : Type 0) : Type 0 where
  pub is_chunk : Bool
  pub path : List ℕ
  pub base_offset : ℕ
  -- `sequential->offset`, which only a file's writer has
  pub position : ℕ
  pub running : ℕ
  pub checksum_state : X
  pub effects : List Effect

module _ (w : Settings) where
  open w use {checksum, integrity_checks, can_write}

  -- Where the next bytes go.
  abbrev pub target : UnitSink checksum.State → ℕ
  target sink = if sink.is_chunk then u64 (sink.base_offset + sink.running) else sink.position

  unfoldable pub write : UnitSink checksum.State → List ℕ → Bool × UnitSink checksum.State
  write sink bytes =
      let at = target sink in
      let ok = can_write sink.path at bytes in
      (
        ok,
        record sink {
          position = if ok then sink.position + length bytes else sink.position;
          running = u64 (sink.running + length bytes);
          checksum_state =
              if integrity_checks
              then checksum.update sink.checksum_state bytes
              else sink.checksum_state;
          effects =
              sink.effects
              ++ ((if ok then wrote sink.path at bytes else write_failed sink.path at bytes) ∷ []);
        },
      )

  -- A decompressor stops at the first write that fails.
  unfoldable pub write_pieces :
      UnitSink checksum.State → List (List ℕ) → Bool × UnitSink checksum.State
  unfolding write
  write_pieces sink [] = (true, sink)
  write_pieces sink (p ∷ ps) =
      let (ok, written) = write sink p in
      let rest = write_pieces written ps in if ok then rest else (false, written)
