-- ===== src/Transfer/Step.antt =====
-- The server's side of a transfer: how the block loop takes a block, the end of a unit and the trailer.
use dicker.Base.{
  ℕ, suc, ◌+◌, ◌≤◌, ◌<◌, ◌≡◌, refl, sym, true, false, List, [], ◌∷◌, ◌++◌, some, length,
  length-append, take-append, drop-append, append-nil, if◌then◌else◌, ◌==◌, u64, u32, arith,
  le→ltb_false, ==_refl, Bool-cases, inl, inr, ◌^◌,
}
use dicker.Protocol.{max_block_size, end_of_unit, block_code, block_of}
use dicker.Wire.{read_u32_le, read_u64_le, write_u32_le, write_u64_le}
use dicker.Wire.RoundTrip.{
  read-write_u32_le, read-write_u64_le, length-write_u32_le, length-write_u64_le,
}
use dicker.Upload.Session.{Settings, connection_lost, read_exact}
use dicker.Upload.Sink.{UnitSink, write_pieces}
use dicker.Upload.Blocks.{BlockEnd, block_loop, check_trailer}
use dicker.Client.Worker.Frames.{block_header}

-- A read of as many bytes as stand in front.
pub read_exact-append :
    (n : ℕ) (xs rest : List ℕ) → n ≡ length xs → read_exact n (xs ++ rest) ≡ some (xs, rest)
unfolding read_exact
read_exact-append n xs rest e = rw (
  le→ltb_false (length (xs ++ rest)) n (omega (arith, length-append xs rest)),
  take-append n xs rest e,
  drop-append n xs rest e,
)

module _ (w : Settings) where
  open w use {decompressor, checksum, integrity_checks, can_write}

  -- Every write succeeds.
  abbrev pub Writable : Type 0
  Writable = (path : List ℕ) (at : ℕ) (bytes : List ℕ) → can_write path at bytes ≡ true

  pub write_pieces_ok :
      Writable
      → (ps : List (List ℕ)) (sink : UnitSink checksum.State) → (write_pieces w sink ps).0 ≡ true
  unfolding write_pieces
  write_pieces_ok ok [] sink = refl
  write_pieces_ok ok (p ∷ ps) sink = rw ok (write_pieces_ok ok ps _)

  -- A block that decodes is taken off the input, and its pieces are written.
  pub block_step :
      (fuel : ℕ) (p rest : List ℕ) (decoder : decompressor.State) (sink : UnitSink checksum.State)
      (wire : ℕ)
      → Writable
      → 1 ≤ length p
      → length p ≤ max_block_size
      → (decompressor.decompress decoder p).decodes ≡ true
      → block_loop w (suc fuel) (block_header p ++ (p ++ rest)) decoder sink wire
        ≡ block_loop w fuel rest
            (decompressor.decompress decoder p).state
            (write_pieces w sink (decompressor.decompress decoder p).pieces).1
            (u64 (wire + length p))
  unfolding block_loop block_header block_of
  block_step fuel p rest decoder sink wire ok pos fits decodes =
      let len : u32 (length p) ≡ length p = omega arith in
      let some_bytes : (length p == 0) ≡ false = ground arith in
      rw (
        len,
        read_exact-append 1 (1 ∷ []) (write_u32_le (length p) ++ (p ++ rest)) refl,
        read_exact-append 4 (write_u32_le (length p)) (p ++ rest)
            (sym (length-write_u32_le (length p))),
        read_u32,
        read_exact-append (length p) p rest refl,
        write_pieces_ok ok (decompressor.decompress decoder p).pieces sink,
        decodes,
        le→ltb_false max_block_size (length p) fits,
        some_bytes,
      )
    where
      read_u32 : read_u32_le (write_u32_le (length p)) ≡ length p
      read_u32 = rw append-nil at (read-write_u32_le (length p) [] (omega arith))

  -- The state in which the block stream of a unit ends well.
  abbrev pub done :
      List ℕ
      → decompressor.State
      → UnitSink checksum.State
      → ℕ
      → BlockEnd decompressor.State checksum.State
  done input decoder sink wire = record {
    input = input;
    decoder = decoder;
    sink = sink;
    unit_wire = wire;
    unit_ok = true;
    unit_done = true;
    failure = connection_lost;
  }

  pub end_step :
      (fuel : ℕ) (rest : List ℕ) (decoder : decompressor.State) (sink : UnitSink checksum.State)
      (wire : ℕ)
      → block_loop w (suc fuel) (block_code end_of_unit ∷ rest) decoder sink wire
        ≡ done rest decoder sink wire
  unfolding block_loop block_of
  end_step fuel rest decoder sink wire = rw (read_exact-append 1 (0 ∷ []) rest refl)

  -- A trailer that holds the digest is taken; without checksums there is none.
  pub trailer_step :
      (rest : List ℕ) (decoder : decompressor.State) (sink : UnitSink checksum.State) (wire : ℕ)
      → checksum.digest sink.checksum_state < 2 ^ 64
      → check_trailer w (
          done
            (if integrity_checks
              then write_u64_le (checksum.digest sink.checksum_state) ++ rest
              else rest)
            decoder
            sink
            wire)
        ≡ done rest decoder sink wire
  unfolding check_trailer
  trailer_step rest decoder sink wire small = elim (Bool-cases integrity_checks) [
    | inl checked ↦ rw (
      checked,
      read_exact-append 8 (write_u64_le (checksum.digest sink.checksum_state)) rest
          (sym (length-write_u64_le _)),
      read_u64,
      ==_refl (checksum.digest sink.checksum_state),
    )
    | inr plain ↦ rw plain
  ]
    where
      read_u64 :
          read_u64_le (write_u64_le (checksum.digest sink.checksum_state))
          ≡ checksum.digest sink.checksum_state
      read_u64 = rw append-nil at (read-write_u64_le _ [] small)
