-- ===== src/Tests/Sinks.antt =====
-- Runs of server/file_sink.cxx: the writers and the registry of files; and the theorem about
-- the writers applied to one.
use dicker.Base.{
  ◌+◌, ℕ, bytes_eq, ◌^◌, ◌≤◌, ◌≡◌, refl, if◌then◌else◌, if-keep, ◌==◌, List, [], Bool, ◌∷◌, true,
  false, Option, none, some, length, arith,
}
use dicker.FileSink.{write_offset, max_single_write, write_fd_all, write_sequential}
use dicker.FileSink.Writes.{Written, write_fd_all_lem}
use dicker.FileSink.Registry.{
  FileSink, FileCall, find_file, close_loop, close_all, register, acquire_new, known_or_new,
  acquire_chunk_file, open_offset, open_sequential,
}

-- Two bytes at a time, and none from position 14 on.
abbrev two_of : List ℕ → ℕ
two_of [] = 0
two_of (b ∷ []) = 1
two_of (b ∷ c ∷ rest) = 2

abbrev by_twos : Option ℕ → List ℕ → ℕ
by_twos none bytes = two_of bytes
by_twos (some at) bytes = if at == 14 then 0 else two_of bytes

two_of_bound : (bytes : List ℕ) → two_of bytes ≤ length bytes
two_of_bound [] = omega arith
two_of_bound (b ∷ []) = omega arith
two_of_bound (b ∷ c ∷ rest) = omega arith

by_twos_bound : (at : Option ℕ) (bytes : List ℕ) → by_twos at bytes ≤ length bytes
by_twos_bound none bytes = two_of_bound bytes
by_twos_bound (some at) bytes =
    if-keep (λ n. n ≤ length bytes) (at == 14) (λ _. omega arith) (λ _. two_of_bound bytes)

written_in_parts :
    write_fd_all by_twos 10 (1 ∷ 2 ∷ 3 ∷ [])
    ≡ (true, (some 10, 1 ∷ 2 ∷ []) ∷ (some 12, 3 ∷ []) ∷ [])
unfolding write_fd_all write_offset max_single_write
written_in_parts = refl

stopped_at_14 : write_fd_all by_twos 12 (1 ∷ 2 ∷ 3 ∷ []) ≡ (false, (some 12, 1 ∷ 2 ∷ []) ∷ [])
unfolding write_fd_all write_offset max_single_write
stopped_at_14 = refl

-- An offset from 2 ^ 63 on is negative, and the bytes go to the current position.
misplaced : write_fd_all by_twos (2 ^ 63) (1 ∷ []) ≡ (true, (none, 1 ∷ []) ∷ [])
unfolding write_fd_all write_offset max_single_write
misplaced = refl

moved_on : (write_sequential by_twos 10 (1 ∷ 2 ∷ 3 ∷ [])).2 ≡ 13
unfolding write_sequential write_offset max_single_write
moved_on = refl

write_fd_all_lem_example :
    Written by_twos 12 (1 ∷ 2 ∷ 3 ∷ []) (write_fd_all by_twos 12 (1 ∷ 2 ∷ 3 ∷ []))
write_fd_all_lem_example = write_fd_all_lem by_twos by_twos_bound 12 (1 ∷ 2 ∷ 3 ∷ []) (omega arith)

-- A session in which a path stands for itself, every directory can be made, and descriptors count up from 3.
abbrev itself : List ℕ → Option (List ℕ)
itself [] = none
itself (c ∷ cs) = some (c ∷ cs)

abbrev made : List FileCall → List ℕ → Bool
made _ _ = true

abbrev counted : List FileCall → List ℕ → Bool → Option ℕ
counted calls _ _ = some (3 + length calls)

abbrev fresh : FileSink
fresh = record { chunk_files = []; calls = [] }

abbrev one_open : FileSink
one_open = record { chunk_files = (97 ∷ [], 3) ∷ []; calls = FileCall.opens (97 ∷ []) false ∷ [] }

first_open : open_offset itself made counted fresh (97 ∷ []) ≡ (some 3, one_open)
unfolding open_offset acquire_chunk_file known_or_new acquire_new register find_file
first_open = refl

refused_name : open_offset itself made counted fresh [] ≡ (none, fresh)
unfolding open_offset
refused_name = refl

whole_file :
    (open_sequential itself made counted one_open (98 ∷ [])).0
    ≡ some (record { fd = 4; offset = 0 })
unfolding open_sequential
whole_file = refl

closed_at_the_end : close_all one_open ≡ record {
  chunk_files = [];
  calls = FileCall.opens (97 ∷ []) false ∷ FileCall.syncs 3 ∷ FileCall.closes 3 ∷ [];
}
unfolding close_all close_loop
closed_at_the_end = refl

given_again : acquire_chunk_file itself made counted one_open (97 ∷ []) ≡ (some 3, one_open)
unfolding acquire_chunk_file known_or_new find_file bytes_eq
given_again = refl
