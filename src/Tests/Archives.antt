-- ===== src/Tests/Archives.antt =====
-- server/archive.cxx at concrete inputs: one file of five bytes that shrank to three, and one that cannot be opened.
use dicker.Base.{
  ℕ, ◌*◌, ◌%◌, ◌^◌, ◌≤◌, ◌≡◌, refl, arith, List, [], ◌∷◌, ◌++◌, true, false, Option, some, none,
  length, bytes, ◌⊎◌, if◌then◌else◌, ◌==◌,
}
use dicker.Archive.{Entry, ArchiveStreamer, set_octal, refill_loop, raw_target}
use dicker.Archive.Octal.{octal_value, octal_value-set_octal}
use dicker.Archive.Member.{tar_of}
use dicker.Archive.Stream.{to_come, Waits}
use dicker.Archive.Refill.{rounds, refill_loop_lem}

abbrev shrunk : Entry
shrunk = record { path = bytes "/s/a"; name = bytes "up/a"; size = 5 }

abbrev gone : Entry
gone = record { path = bytes "/s/b"; name = bytes "up/b"; size = 9 }

abbrev files : Entry → Option (List ℕ)
files e = if e.size == 5 then some (1 ∷ 2 ∷ 3 ∷ []) else none

-- Nine GiB in twelve bytes.
octal_value-set_octal_example :
    octal_value 0 (set_octal 12 (9 * 2 ^ 30) ++ (7 ∷ [])) ≡ 9 * 2 ^ 30 % 8 ^ 11
octal_value-set_octal_example = octal_value-set_octal 12 (9 * 2 ^ 30) (7 ∷ [])

one_gib_left : 9 * 2 ^ 30 % 8 ^ 11 ≡ 2 ^ 30
one_gib_left = refl

abbrev begun : ArchiveStreamer
begun = record {
  entries = shrunk ∷ gone ∷ [];
  header_pending = true;
  cur = [];
  cur_remaining = 0;
  pad_remaining = 0;
  trailer_emitted = false;
  input_done = false;
  raw = [];
}

waits : Waits files begun
waits = (refl, λ e. absurd (ground arith))

few_rounds : rounds files begun ≤ 2000
few_rounds = omega arith

refill_loop_lem_example :
    (let t : ArchiveStreamer = refill_loop files 2000 begun in
      (t.raw ++ to_come files t ≡ tar_of files (shrunk ∷ gone ∷ []))
      × ((raw_target ≤ length t.raw) ⊎ (t.raw ≡ tar_of files (shrunk ∷ gone ∷ [])))
      × Waits files t)
refill_loop_lem_example = refill_loop_lem files 2000 begun waits few_rounds
