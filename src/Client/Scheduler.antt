-- ===== src/Client/Scheduler.antt =====
-- client/scheduler.h: which worker gets a unit, how a file is cut into chunks, and what happens when no worker takes one.
-- A worker's channel (`WorkerChan`, a library's) is known by what it answers: Chan.
pub mod Selection
pub mod Dispatch
pub mod Chunks
use dicker.Base.{
  ℕ, zero, suc, ◌+◌, ◌-◌, ◌^◌, ◌%◌, List, [], ◌∷◌, ◌++◌, Bool, true, false, not, ◌&&◌, ◌||◌, ◌==◌,
  if◌then◌else◌, ltb, leb, min, u64, Option, none, some, take, cut_at,
}
use dicker.Protocol.{UnitType, file, chunk}
use dicker.Client.Affinity.{wall_cost, distance, for_path}
use dicker.Client.Worker.Frames.{Task}

pub data WorkerState : Type 0 where
  pending ready failed : WorkerState

-- What a worker's channel answers to `awaitInit`, `isStopped`, `enqueue` and `occupancy`, and its worker's `warm`.
pub record Chan : Type 0 where
  pub inits : Bool
  pub stopped : Bool
  pub takes : Bool
  pub occupancy : ℕ
  pub warm : ℕ

-- `static_cast<size_t>(-1)`
abbrev pub no_worker : ℕ
no_worker = 2 ^ 64 - 1

abbrev pub busy_threshold : ℕ
busy_threshold = 32

-- The local variables of `selectWorker`.
pub record Choice : Type 0 where
  pub chosen : ℕ
  pub chosen_distance : ℕ
  pub min_idx : ℕ
  pub min_cap : ℕ

abbrev pub no_choice : Choice
no_choice = record {
  chosen = no_worker;
  chosen_distance = wall_cost + 1;
  min_idx = no_worker;
  min_cap = 128;
}

-- One round of the loop.
unfoldable pub consider : (incoming : ℕ) → ℕ → Chan → Choice → Choice
consider incoming i worker choice =
    let lower =
      if ltb worker.occupancy choice.min_cap
      then record choice { min_idx = i; min_cap = worker.occupancy }
      else choice in
    let near = distance incoming worker.warm in
    let nearer =
      if ltb near choice.chosen_distance
      then record lower { chosen = i; chosen_distance = near }
      else lower in
    if worker.stopped then choice else if leb busy_threshold worker.occupancy then lower else nearer

-- The loop over the first workers.
unfoldable pub considered : (incoming : ℕ) → (workers : ℕ → Chan) → (count : ℕ) → Choice
considered incoming workers zero = no_choice
considered incoming workers (suc i) =
    consider incoming i (workers i) (considered incoming workers i)

unfoldable pub select_worker : (incoming : ℕ) → (workers : ℕ → Chan) → (count : ℕ) → ℕ
unfolding considered
select_worker incoming workers count =
    let choice = considered incoming workers count in
    if not (choice.chosen == no_worker) then choice.chosen else choice.min_idx

-- `awaitInit` settles a state that is pending.
abbrev pub settled : Chan → WorkerState → WorkerState
settled worker pending = if worker.inits then ready else failed
settled worker state = state

abbrev pub is_failed : WorkerState → Bool
is_failed failed = true
is_failed _ = false

-- The scheduler's own state: of each worker, and what the workers have taken, in order.
pub record Scheduler : Type 0 where
  pub states : ℕ → WorkerState
  pub queued : List (ℕ × Task)

abbrev pub set_state : Scheduler → ℕ → WorkerState → Scheduler
set_state s i state = record s { states = λ j. if j == i then state else s.states j }

-- A file that the walk found: `file_size` and `last_write_time` may fail.
pub record Entry : Type 0 where
  pub path : List ℕ
  pub extension : List ℕ
  pub size : Option ℕ
  pub written : Option ℕ

-- `WorkerTask::WorkerTask` copies the path to its NUL, and at most 255 bytes of it.
unfoldable pub pathname : List ℕ → List ℕ
pathname path = take 255 (elim (cut_at 0 path) [ none ↦ path | some (before, _) ↦ before ])

abbrev pub chunk_task : (chunk_size : ℕ) → (path : List ℕ) → (size mtime offset : ℕ) → Task
chunk_task chunk_size path size mtime offset = record {
  type = chunk;
  path = pathname path;
  offset = offset;
  length_of_unit = min chunk_size (size - offset);
  file_size = size;
  mtime = mtime;
}

abbrev pub file_task : (path : List ℕ) → (size mtime : ℕ) → Task
file_task path size mtime = record {
  type = file;
  path = pathname path;
  offset = 0;
  length_of_unit = size;
  file_size = size;
  mtime = mtime;
}

abbrev pub mtime_of : Entry → ℕ
mtime_of entry = elim entry.written [ none ↦ 0 | some time ↦ time ]

module _ (count : ℕ) where
  -- One round of `dispatch`.
  unfoldable pub offer : (workers : ℕ → Chan) → Scheduler → ℕ → Task → Bool × Scheduler
  offer workers s i task =
      let worker = workers i in
      let known = set_state s i (settled worker (s.states i)) in
      let queueing = record known { queued = s.queued ++ ((i, task) ∷ []) } in
      if is_failed (settled worker (s.states i)) || worker.stopped
      then (false, known)
      else if worker.takes
      then (true, queueing)
      else (false, known)

  -- The rounds that are left, from the `k`-th.
  unfoldable pub sweep :
      (workers : ℕ → Chan) (start : ℕ) → Task → (left : ℕ) → (k : ℕ) → Scheduler → Bool × Scheduler
  unfolding offer
  sweep workers start task zero k s = (false, s)
  sweep workers start task (suc left) k s =
      let offered = offer workers s (u64 (start + k) % count) task in
      let rest = sweep workers start task left (k + 1) offered.1 in
      if offered.0 then offered else rest

  module _ (fleet : List (ℕ × Task) → ℕ → Chan) where
    -- What the channels answer during a dispatch may depend on all units that were queued before it.
    unfoldable pub dispatch : Scheduler → (start : ℕ) → Task → Bool × Scheduler
    unfolding sweep
    dispatch s start task = sweep (fleet s.queued) start task count 0 s

    module _ (big_file_threshold chunk_size : ℕ) where
      -- The loop over a file's chunks; `none` when the fuel is used up.
      unfoldable pub chunk_loop :
          (path : List ℕ) → (size mtime fuel offset n : ℕ) → Scheduler → Option (Bool × Scheduler)
      unfolding dispatch
      chunk_loop path size mtime zero offset n s = none
      chunk_loop path size mtime (suc fuel) offset n s =
          let sent = dispatch s (n % count) (chunk_task chunk_size path size mtime offset) in
          let rest =
            chunk_loop path size mtime fuel (u64 (offset + chunk_size)) (u64 (n + 1)) sent.1 in
          if not (ltb offset size)
          then some (true, s)
          else if sent.0
          then rest
          else some (false, sent.1)

      -- On a file of known size.
      unfoldable pub enqueue_sized : Entry → (size : ℕ) → Scheduler → Option (Bool × Scheduler)
      unfolding dispatch chunk_loop
      enqueue_sized entry size s =
          let i = select_worker (for_path entry.extension) (fleet s.queued) count in
          if leb big_file_threshold size
          then chunk_loop entry.path size (mtime_of entry) (size + 1) 0 0 s
          else some (dispatch s i (file_task entry.path size (mtime_of entry)))

      unfoldable pub enqueue : Entry → Scheduler → Option (Bool × Scheduler)
      unfolding enqueue_sized
      enqueue entry s = elim entry.size [
        | none ↦ some (true, s)
        | some size ↦ enqueue_sized entry size s
      ]
