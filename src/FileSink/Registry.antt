-- ===== src/FileSink/Registry.antt =====
-- server/file_sink.cxx, FileSink: the files of a session. The path below the root that a name stands for, whether the
-- directories above a file can be made, and the descriptor that uv_fs_open gives are parameters; the last two see the
-- calls so far. A descriptor that is negative is `none`.
use dicker.Base.{
  ℕ, ◌≡◌, refl, List, [], ◌∷◌, ◌++◌, Bool, true, false, not, Option, none, some, if◌then◌else◌,
  bytes_eq, bytes_eq_refl, arith, ◌∙◌, ap, subst, if-keep,
}
use mathlib.Core.Option

-- What FileSink asks of libuv: to open a file (cut to nothing, or as it is), to flush and to close a descriptor.
pub data FileCall : Type 0 where
  opens : (path : List ℕ) (truncate : Bool) → FileCall
  syncs : (fd : ℕ) → FileCall
  closes : (fd : ℕ) → FileCall

pub record FileSink : Type 0 where
  pub chunk_files : List (List ℕ × ℕ)
  pub calls : List FileCall

unfoldable pub find_file : List (List ℕ × ℕ) → List ℕ → Option ℕ
find_file [] key = none
find_file ((name, fd) ∷ files) key = if bytes_eq name key then some fd else find_file files key

pub record SequentialWriter : Type 0 where
  pub fd : ℕ
  pub offset : ℕ

-- The loop of `close_all`.
unfoldable pub close_loop : List (List ℕ × ℕ) → List FileCall
close_loop [] = []
close_loop ((name, fd) ∷ files) = FileCall.syncs fd ∷ FileCall.closes fd ∷ close_loop files

unfoldable pub close_all : FileSink → FileSink
close_all s = record { chunk_files = []; calls = s.calls ++ close_loop s.chunk_files }

module _ (resolve : List ℕ → Option (List ℕ)) (parents : List FileCall → List ℕ → Bool)
    (descriptor : List FileCall → List ℕ → Bool → Option ℕ) where
  abbrev opened : FileSink → List ℕ → Bool → FileSink
  opened s path truncate = record s { calls = s.calls ++ FileCall.opens path truncate ∷ [] }

  -- The new entry of the registry, where there is one.
  unfoldable pub register : FileSink → List ℕ → Option ℕ → Option ℕ × FileSink
  register s path none = (none, s)
  register s path (some fd) = (some fd, record s { chunk_files = (path, fd) ∷ s.chunk_files })

  unfoldable pub acquire_new : FileSink → List ℕ → Option ℕ × FileSink
  acquire_new s path =
      if not (parents s.calls path)
      then (none, s)
      else register (opened s path false) path (descriptor s.calls path false)

  unfoldable pub known_or_new : FileSink → List ℕ → Option ℕ → Option ℕ × FileSink
  known_or_new s path (some fd) = (some fd, s)
  known_or_new s path none = acquire_new s path

  unfoldable pub acquire_chunk_file : FileSink → List ℕ → Option ℕ × FileSink
  acquire_chunk_file s path = known_or_new s path (find_file s.chunk_files path)

  unfoldable pub open_offset : FileSink → List ℕ → Option ℕ × FileSink
  open_offset s relative_path = elim (resolve relative_path) [
    | none ↦ (none, s)
    | some full ↦ acquire_chunk_file s full
  ]

  unfoldable pub open_sequential : FileSink → List ℕ → Option SequentialWriter × FileSink
  open_sequential s relative_path = elim (resolve relative_path) [
    | none ↦ (none, s)
    | some full ↦ if not (parents s.calls full) then (none, s) else (
      Option.map (λ fd. record { fd = fd; offset = 0 }) (descriptor s.calls full true),
      opened s full true,
    )
  ]

  find_new :
      (path : List ℕ) (fd : ℕ) (files : List (List ℕ × ℕ))
      → find_file ((path, fd) ∷ files) path ≡ some fd
  unfolding find_file
  find_new path fd files = ground (arith, bytes_eq_refl path)

  registered :
      (s : FileSink) (path : List ℕ) (o : Option ℕ) (fd : ℕ)
      → (register s path o).0 ≡ some fd
      → find_file ((register s path o).1).chunk_files path ≡ some fd
  unfolding register
  registered s path none fd e = absurd (ground arith)
  registered s path (some new) fd e = find_new path new s.chunk_files ∙ e

  -- The registry then has the descriptor that was given out.
  acquired :
      (s : FileSink) (path : List ℕ) (o : Option ℕ) (fd : ℕ)
      → find_file s.chunk_files path ≡ o
      → (known_or_new s path o).0 ≡ some fd
      → find_file ((known_or_new s path o).1).chunk_files path ≡ some fd
  unfolding known_or_new acquire_new
  acquired s path (some old) fd found e = found ∙ e
  acquired s path none fd found e =
      if-keep
        (λ (r : Option ℕ × FileSink). r.0 ≡ some fd → find_file (r.1).chunk_files path ≡ some fd)
        (not (parents s.calls path)) (λ _ none_is. absurd (ground arith))
        (λ _. registered (opened s path false) path (descriptor s.calls path false) fd) e

  -- A file that acquire_chunk_file gave out is given out again, with the same descriptor, and is not opened a second time:
  -- nothing changes.
  acquire_again :
      (s t : FileSink) (path : List ℕ) (fd : ℕ)
      → acquire_chunk_file s path ≡ (some fd, t)
      → acquire_chunk_file t path ≡ (some fd, t)
  unfolding acquire_chunk_file known_or_new
  acquire_again s t path fd e = ap (known_or_new t path) (
      subst (λ (r : Option ℕ × FileSink). find_file (r.1).chunk_files path ≡ some fd) e
        (acquired s path (find_file s.chunk_files path) fd refl (ap (λ r. r.0) e)))
