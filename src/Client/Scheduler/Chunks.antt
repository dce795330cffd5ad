-- ===== src/Client/Scheduler/Chunks.antt =====
-- client/scheduler.h, `enqueue`: a file becomes one unit, or chunks that cover it once and in order.
use dicker.Base.{
  ℕ, zero, suc, ◌+◌, ◌^◌, ◌%◌, ◌<◌, ◌≤◌, ◌≡◌, ◌≢◌, ◌⊎◌, List, [], ◌∷◌, ◌++◌, Bool, true, false, not,
  arith, if-keep, u64, Option, some, ltb,
}
use dicker.Client.Worker.Frames.{Task}
use dicker.Client.Scheduler.{
  Chan, Scheduler, Entry, dispatch, chunk_task, chunk_loop, file_task, mtime_of,
}

module _ (count : ℕ) (some_workers : 0 < count) (fleet : List (ℕ × Task) → ℕ → Chan)
    (big_file_threshold chunk_size : ℕ) where
  -- The units are chunks of the file that lie end to end, each with a worker, none empty and none above the limit.
  abbrev pub Tiles : (path : List ℕ) → (size mtime from to : ℕ) → List (ℕ × Task) → Type 0
  Tiles path size mtime from to [] = from ≡ to
  Tiles path size mtime from to ((i, task) ∷ units) =
      (i < count)
      × (task ≡ chunk_task chunk_size path size mtime from)
      × (0 < task.length_of_unit)
      × (task.length_of_unit ≤ chunk_size)
      × Tiles path size mtime (from + task.length_of_unit) to units

  -- The call returns, and these units are queued behind the others.
  abbrev pub Sends : Scheduler → Option (Bool × Scheduler) → Bool → List (ℕ × Task) → Type 0
  Sends s result went units =
      (t : Scheduler) × (result ≡ some (went, t)) × (t.queued ≡ s.queued ++ units)

  abbrev Chunked : List ℕ → ℕ → ℕ → ℕ → Scheduler → Option (Bool × Scheduler) → Type 0
  Chunked path size mtime from s result =
      (units : List (ℕ × Task)) × (Sends s result true units × Tiles path size mtime from size units
        ⊎ (to : ℕ) × (to < size) × Sends s result false units × Tiles path size mtime from to units)

  -- The units of a file: chunks that cover it, or it as a whole.
  abbrev pub Covers : (big : Bool) → Entry → ℕ → List (ℕ × Task) → Type 0
  Covers true entry size units = Tiles entry.path size (mtime_of entry) 0 size units
  Covers false entry size units =
      (i : ℕ) × (i < count) × (units ≡ (i, file_task entry.path size (mtime_of entry)) ∷ [])

  -- The units of a part of it: chunks from its start on, or none.
  abbrev pub Starts : (big : Bool) → Entry → ℕ → List (ℕ × Task) → Type 0
  Starts true entry size units =
      (to : ℕ) × (to < size) × Tiles entry.path size (mtime_of entry) 0 to units
  Starts false entry size units = units ≡ []

  abbrev Outcome : (big : Bool) → Entry → ℕ → Scheduler → Option (Bool × Scheduler) → Type 0
  Outcome big entry size s result =
      (units : List (ℕ × Task)) × (Sends s result true units × Covers big entry size units
        ⊎ Sends s result false units × Starts big entry size units)

-- With a chunk size of 0, and from an offset below the size of the file, which is at most 2 ^ 64, no amount of fuel lets
-- the loop over the file's chunks end well.
pub chunk_loop-zero :
    (count : ℕ) (fleet : List (ℕ × Task) → ℕ → Chan) (threshold : ℕ) (path : List ℕ)
    (size mtime fuel offset n : ℕ) (s t : Scheduler)
    → offset < size
    → size ≤ 2 ^ 64
    → chunk_loop count fleet threshold 0 path size mtime fuel offset n s ≢ some (true, t)
unfolding chunk_loop
chunk_loop-zero count fleet threshold path size mtime zero offset n s t inside fits = λ e. cc
chunk_loop-zero count fleet threshold path size mtime (suc fuel) offset n s t inside fits =
    let sent = dispatch count fleet s (n % count) (chunk_task 0 path size mtime offset) in
    let again : u64 (offset + 0) ≡ offset = omega arith in
    if-keep (λ x. x ≢ some (true, t)) (not (ltb offset size)) (λ over. absurd (ground arith))
      (λ _.
        if-keep (λ x. x ≢ some (true, t)) sent.0
          (λ _.
            chunk_loop-zero count fleet threshold path size mtime fuel (u64 (offset + 0))
              (u64 (n + 1)) sent.1 t (omega arith) fits)
          (λ _ e. cc))
