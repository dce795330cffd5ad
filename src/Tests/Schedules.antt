-- ===== src/Tests/Schedules.antt =====
-- client/affinity.h and client/scheduler.h at concrete inputs: three workers, the last with nothing queued.
use dicker.Base.{
  ℕ, zero, suc, ◌<◌, ◌≡◌, ◌≢◌, ◌⊎◌, refl, List, [], Bool, true, false, arith, bytes, some, none,
  length,
}
use dicker.Client.Affinity.{code, affinity_of}
use dicker.Client.Worker.Frames.{Task}
use dicker.Client.Scheduler.{
  Chan, Scheduler, Entry, pending, select_worker, dispatch, file_task, no_worker, chunk_loop,
  select_worker, sweep, offer,
}
use dicker.Client.Scheduler.Selection.{Free, HasRoom, IsNearest, IsLeast, select_worker_lem}
use dicker.Client.Scheduler.Dispatch.{dispatch-no_worker}
use dicker.Client.Scheduler.Chunks.{chunk_loop-zero}

abbrev chan : ℕ → Bool → Chan
chan occupancy stopped = record {
  inits = true;
  stopped = stopped;
  takes = true;
  occupancy = occupancy;
  warm = affinity_of code;
}

abbrev fleet : List (ℕ × Task) → ℕ → Chan
fleet queued zero = chan 40 true
fleet queued (suc zero) = chan 40 true
fleet queued _ = chan (length queued) false

abbrev idle : Scheduler
idle = record { states = λ _. pending; queued = [] }

abbrev task : Task
task = file_task (bytes "a") 1 0

abbrev entry : Entry
entry = record { path = bytes "a.c"; extension = bytes ".c"; size = some 10; written = none }

select_worker_lem_example :
    IsNearest (affinity_of code) (fleet []) 3 (select_worker (affinity_of code) (fleet []) 3)
    ⊎ (((j : ℕ) → j < 3 → ¬ Free (affinity_of code) (fleet []) j)
        × (IsLeast (affinity_of code) (fleet []) 3 (select_worker (affinity_of code) (fleet []) 3)
            ⊎ ((select_worker (affinity_of code) (fleet []) 3 ≡ no_worker)
                × ((j : ℕ) → j < 3 → ¬ HasRoom (affinity_of code) (fleet []) j))))
select_worker_lem_example = select_worker_lem (affinity_of code) (fleet []) 3 (omega arith)

dispatched : (dispatch 3 fleet idle 1 task).0 ≡ true
unfolding dispatch sweep offer
dispatched = refl

dispatch-no_worker_example : (dispatch 3 fleet idle no_worker task).0 ≡ false
dispatch-no_worker_example = dispatch-no_worker fleet idle task refl refl

chunk_loop-zero_example : chunk_loop 3 fleet 8 0 (bytes "a.c") 10 0 5 0 0 idle ≢ some (true, idle)
chunk_loop-zero_example =
    chunk_loop-zero 3 fleet 8 (bytes "a.c") 10 0 5 0 0 idle idle (omega arith) (omega arith)
