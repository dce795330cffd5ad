-- ===== src/Transfer/Header.antt =====
-- client/worker.h, the headers of units and the probes, against what server/connection.cxx reads of them.
use dicker.Base.{
  ℕ, ◌≤◌, ◌<◌, ◌≡◌, refl, sym, true, false, List, [], ◌∷◌, ◌++◌, some, length, drop, append_assoc,
  append-nil, if◌then◌else◌, ◌==◌, u16, arith, le→ltb_false, ==_refl, Bool-cases, inl, inr, ◌^◌,
}
use dicker.Wire.{read_u16_le, read_u64_le, write_u16_le, write_u64_le, append_u16, append_u64}
use dicker.Wire.RoundTrip.{
  read-write_u16_le, read-write_u64_le, length-write_u16_le, length-write_u64_le,
}
use dicker.Upload.Session.{Settings, Session, AcceptedUnit, Probe, assign, find, erase}
use dicker.Upload.Units.{headed, plain_head, accepted_head, answer, is_chunk}
use dicker.Client.Worker.Frames.{Task, unit_header, accepted_header, is_chunk_type}
use dicker.Transfer.Step.{read_exact-append}

-- A path that the protocol carries.
abbrev pub IsSendable : Task → Type 0
IsSendable t = (1 ≤ length t.path) × (length t.path ≤ 4096) × (t.offset < 2 ^ 64)

pub read_u16 : (v : ℕ) → v < 2 ^ 16 → read_u16_le (write_u16_le v) ≡ v
read_u16 v small = rw append-nil at (read-write_u16_le v [] small)

pub read_u64 : (v : ℕ) → v < 2 ^ 64 → read_u64_le (write_u64_le v) ≡ v
read_u64 v small = rw append-nil at (read-write_u64_le v [] small)

module _ (w : Settings) where
  open w use {decompressor}

  -- The server reads back the header that the client wrote for a unit: the path, and for a chunk its offset.
  pub plain_head-unit_header :
      (s : Session decompressor.State) (t : Task) (rest : List ℕ)
      → IsSendable t
      → plain_head w (record s { input = drop 1 (unit_header t) ++ rest }) t.type
        ≡ some (headed w s t.type t.path (if is_chunk t.type then t.offset else 0) rest)
  unfolding plain_head unit_header append_u16 append_u64
  plain_head-unit_header s t rest (pos, fits, small) =
      let n = length t.path in
      let short : u16 n ≡ n = omega arith in
      let some_path : (n == 0) ≡ false = ground arith in
      let path_read = λ (tail : List ℕ). read_exact-append n t.path tail refl in
      let len_read = λ (tail : List ℕ).
        read_exact-append 2 (write_u16_le n) tail (sym (length-write_u16_le n)) in
      elim (Bool-cases (is_chunk_type t.type)) [
        | inl is ↦ rw (
          is,
          short,
          append_assoc (write_u16_le n ++ t.path) (write_u64_le t.offset) rest,
          append_assoc (write_u16_le n) t.path (write_u64_le t.offset ++ rest),
          len_read (t.path ++ (write_u64_le t.offset ++ rest)),
          read_u16 n (omega arith),
          some_path,
          le→ltb_false 4096 n fits,
          path_read (write_u64_le t.offset ++ rest),
          read_exact-append 8 (write_u64_le t.offset) rest (sym (length-write_u64_le t.offset)),
          read_u64 t.offset small,
        )
        | inr is ↦ rw (
          is,
          short,
          append_assoc (write_u16_le n) t.path rest,
          len_read (t.path ++ rest),
          read_u16 n (omega arith),
          some_path,
          le→ltb_false 4096 n fits,
          path_read rest,
        )
      ]

  find-assign :
      (key : ℕ) (u : AcceptedUnit) (m : List (ℕ × AcceptedUnit))
      → find key (assign key u m) ≡ some u
  unfolding find assign
  find-assign key u [] = rw (==_refl key)
  find-assign key u ((k, v) ∷ m) = elim (Bool-cases (k == key)) [
    | inl same ↦ rw (same, ==_refl key)
    | inr other ↦ rw (other, other) (find-assign key u m)
  ]

  -- Where the filter takes a probe, the unit that the client then sends under the same key has the
  -- type, the path and the offset of the probe.
  pub accepted_head-answer :
      (s : Session decompressor.State) (key : ℕ) (p : Probe) (rest : List ℕ)
      → key < 2 ^ 64
      → w.filter p ≡ true
      → accepted_head w (record (answer w s key p) { input = drop 1 (accepted_header key) ++ rest })
        ≡ some (record {
          type = p.type;
          path = p.path;
          base_offset = p.offset;
          session = record (answer w s key p) {
            input = rest;
            accepted = erase key (answer w s key p).accepted;
          };
        })
  unfolding accepted_head answer accepted_header append_u64
  accepted_head-answer s key p rest small takes = rw (
    takes,
    read_exact-append 8 (write_u64_le key) rest (sym (length-write_u64_le key)),
    read_u64 key small,
    find-assign key (record { type = p.type; path = p.path; offset = p.offset }) s.accepted,
  )
