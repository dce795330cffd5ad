-- ===== src/Transfer/Probes.antt =====
-- client/worker.h, probes and `resolve`, against the probes and replies of server/connection.cxx.
use dicker.Base.{
  ℕ, ◌≤◌, ◌<◌, ◌≡◌, refl, sym, ◌∙◌, false, List, ◌∷◌, ◌++◌, some, length, drop, append_assoc,
  if◌then◌else◌, ◌==◌, arith, inl, inr, ◌^◌, le→ltb_false, u16, get_or, ◌⊎◌,
}
use dicker.Protocol.{file, chunk, unit_code, unit_of, has_mode, mode_hash_first, probe_hash_size}
use dicker.Wire.{read_u16_le, read_u64_le, write_u16_le, write_u64_le, append_u16, append_u64}
use dicker.Wire.RoundTrip.{read-write_u64_le}
use dicker.Upload.Session.{Settings, Session, Probe}
use dicker.Upload.Units.{handle_probe, answer, probe_kind}
use dicker.Client.Worker.Frames.{Task, probe_frame}
use dicker.Transfer.Step.{read_exact-append}
use dicker.Transfer.Header.{IsSendable, read_u16, read_u64}

-- A task whose numbers fit the frame, of a type that a probe may name.
abbrev pub IsProbeable : Task → Type 0
IsProbeable t =
    IsSendable t
    × ((t.type ≡ file) ⊎ (t.type ≡ chunk))
    × (t.length_of_unit < 2 ^ 64)
    × (t.file_size < 2 ^ 64)
    × (t.mtime < 2 ^ 64)

abbrev pub probe_of : Task → List ℕ → Probe
probe_of t hash = record {
  path = t.path;
  type = t.type;
  offset = t.offset;
  length_of_unit = t.length_of_unit;
  file_size = t.file_size;
  mtime = t.mtime;
  hash = hash;
}

-- The fields of a frame in the portions that the server reads.
probe_head : ℕ → Task → List ℕ
probe_head key t = write_u64_le key ++ (unit_code t.type ∷ write_u16_le (u16 (length t.path)))

probe_sizes : Task → List ℕ
probe_sizes t =
    write_u64_le t.offset
    ++ (write_u64_le t.length_of_unit ++ (write_u64_le t.file_size ++ write_u64_le t.mtime))

probe_frame_lem :
    (key : ℕ) (t : Task) (hash rest : List ℕ)
    → drop 1 (probe_frame key t hash) ++ rest
      ≡ probe_head key t ++ (t.path ++ (probe_sizes t ++ (hash ++ rest)))
unfolding probe_frame append_u16 append_u64 probe_head probe_sizes
probe_frame_lem key t hash rest = simp append_assoc

length-probe_head : (key : ℕ) (t : Task) → 11 ≡ length (probe_head key t)
unfolding probe_head write_u64_le write_u16_le
length-probe_head key t = refl

length-probe_sizes : (t : Task) → 32 ≡ length (probe_sizes t)
unfolding probe_sizes write_u64_le
length-probe_sizes t = refl

head_type : (key : ℕ) (t : Task) → get_or (probe_head key t) 8 0 ≡ unit_code t.type
unfolding probe_head write_u64_le
head_type key t = refl

kind_known :
    (key : ℕ) (t : Task)
    → (t.type ≡ file) ⊎ (t.type ≡ chunk)
    → probe_kind (unit_of (get_or (probe_head key t) 8 0)) ≡ some t.type
unfolding unit_of
kind_known key t (inl is) = rw (head_type key t, is)
kind_known key t (inr is) = rw (head_type key t, is)

path_length_known :
    (key : ℕ) (t : Task)
    → length t.path ≤ 4096
    → read_u16_le (drop 9 (probe_head key t)) ≡ length t.path
unfolding probe_head write_u64_le
path_length_known key t fits = read_u16 (u16 (length t.path)) (omega arith) ∙ omega arith

head_key : (key : ℕ) (t : Task) → key < 2 ^ 64 → read_u64_le (probe_head key t) ≡ key
unfolding probe_head
head_key key t small = read-write_u64_le key _ small

record Sizes (t : Task) : Type 0 where
  first : read_u64_le (probe_sizes t) ≡ t.offset
  second : read_u64_le (drop 8 (probe_sizes t)) ≡ t.length_of_unit
  third : read_u64_le (drop 16 (probe_sizes t)) ≡ t.file_size
  fourth : read_u64_le (drop 24 (probe_sizes t)) ≡ t.mtime

fields_known : (t : Task) → IsProbeable t → Sizes t
unfolding probe_sizes write_u64_le
fields_known t ok = record {
  first = read-write_u64_le t.offset _ (omega (arith, ok.0));
  second = read-write_u64_le t.length_of_unit _ (ok.2);
  third = read-write_u64_le t.file_size _ (ok.3);
  fourth = read_u64 t.mtime (ok.4);
}

module _ (w : Settings) where
  open w use {decompressor}

  -- The length of the hash that the server waits for.
  abbrev pub hash_length : ℕ
  hash_length = if has_mode w.mode mode_hash_first then probe_hash_size else 0

  -- The server reads back every field of a probe that the worker wrote, and answers it.
  pub handle_probe-probe_frame :
      (s : Session decompressor.State) (key : ℕ) (t : Task) (hash rest : List ℕ)
      → IsProbeable t
      → key < 2 ^ 64
      → length hash ≡ hash_length
      → handle_probe w (record s { input = drop 1 (probe_frame key t hash) ++ rest })
        ≡ some (answer w (record s { input = rest }) key (probe_of t hash))
  unfolding handle_probe probe_frame append_u16 append_u64
  handle_probe-probe_frame s key t hash rest ok small hashed =
      let fits : length t.path ≤ 4096 = (ok.0).1 in
      let some_path : (length t.path == 0) ≡ false = ground (arith, ok.0) in
      let sizes : Sizes t = fields_known t ok in
      rw (
        probe_frame_lem key t hash rest,
        read_exact-append 11 (probe_head key t) (t.path ++ (probe_sizes t ++ (hash ++ rest)))
            (length-probe_head key t),
        kind_known key t ok.1,
        path_length_known key t fits,
        some_path,
        le→ltb_false 4096 (length t.path) fits,
        read_exact-append (length t.path) t.path (probe_sizes t ++ (hash ++ rest)) refl,
        read_exact-append 32 (probe_sizes t) (hash ++ rest) (length-probe_sizes t),
        read_exact-append hash_length hash rest (sym hashed),
        head_key key t small,
        sizes.first,
        sizes.second,
        sizes.third,
        sizes.fourth,
      )
