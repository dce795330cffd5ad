-- ===== src/Client/Scheduler/Dispatch.antt =====
-- client/scheduler.h, `dispatch`: a unit goes to the first worker that can take it, and to none only if none can.
use dicker.Base.{
  ℕ, zero, suc, ◌+◌, ◌%◌, ◌<◌, ◌≤◌, ◌≡◌, ◌⊎◌, inl, inr, refl, subst, ap, ◌∙◌, List, [], ◌∷◌, ◌++◌,
  Bool, true, false, not, ◌&&◌, ◌||◌, arith, if-keep, ==_iff, ◌==◌, Bool-cases, u64,
}
use native.Mathlib.Nat.{mod-lt}
use dicker.Client.Worker.Frames.{Task}
use dicker.Client.Scheduler.{
  WorkerState, pending, ready, failed, Chan, Scheduler, settled, is_failed, set_state, offer, sweep,
  dispatch, no_worker,
}

-- A worker that is or gets ready, runs and takes a unit.
abbrev pub can_take : Chan → WorkerState → Bool
can_take worker state = not (is_failed (settled worker state)) && not worker.stopped && worker.takes

settled_twice :
    (worker : Chan) (state : WorkerState)
    → settled worker (settled worker state) ≡ settled worker state
settled_twice worker pending = ground arith
settled_twice worker ready = refl
settled_twice worker failed = refl

-- Where the `k`-th round looks.
abbrev turn : ℕ → ℕ → ℕ → ℕ
turn count start k = u64 (start + k) % count

module _ (count : ℕ) (workers : ℕ → Chan) (first : Scheduler) where
  -- The states have not moved, but for what `awaitInit` settled, and nothing has been queued.
  abbrev Waits : Scheduler → Type 0
  Waits s =
      ((i : ℕ) → settled (workers i) (s.states i) ≡ settled (workers i) (first.states i))
      × (s.queued ≡ first.queued)

  abbrev pub Queues : Task → ℕ → Scheduler → Type 0
  Queues task i s =
      (can_take (workers i) (first.states i) ≡ true) × (s.queued ≡ first.queued ++ ((i, task) ∷ []))

  Waits-set_state :
      (s : Scheduler) (i : ℕ) → Waits s → Waits (set_state s i (settled (workers i) (s.states i)))
  Waits-set_state s i (same, none_queued) = (
    λ j.
        if-keep (λ x. settled (workers j) x ≡ settled (workers j) (first.states j)) (j == i)
          (λ e.
            subst
              (λ k.
                settled (workers j) (settled (workers k) (s.states k))
                ≡ settled (workers j) (first.states j))
              ((==_iff j i).0 e) (settled_twice (workers j) (s.states j) ∙ same j))
          (λ _. same j),
    none_queued,
  )

  abbrev Offered : Task → ℕ → Bool × Scheduler → Type 0
  Offered task i result =
      (result.0 ≡ true → Queues task i result.1)
      × (result.0 ≡ false → (can_take (workers i) (first.states i) ≡ false) × Waits result.1)

  offer-Offered :
      (s : Scheduler) (i : ℕ) (task : Task)
      → Waits s
      → Offered task i (offer count workers s i task)
  unfolding offer
  offer-Offered s i task w =
      let e = w.0 i in
      if-keep (λ x. Offered task i x)
        (is_failed (settled (workers i) (s.states i)) || (workers i).stopped)
        (λ out. (λ h. cc, λ _. (ground (arith, ap is_failed e), Waits-set_state s i w)))
        (λ up.
          if-keep (λ x. Offered task i x) (workers i).takes
            (λ takes.
              (λ _. (ground (arith, ap is_failed e), ap (λ q. q ++ ((i, task) ∷ [])) w.1), λ h. cc))
            (λ full. (λ h. cc, λ _. (ground (arith, ap is_failed e), Waits-set_state s i w))))

  abbrev Swept : ℕ → Task → ℕ → ℕ → Bool × Scheduler → Type 0
  Swept start task left k result =
      (result.0 ≡ true
        → (i : ℕ) × (k ≤ i) × (i < k + left) × Queues task (turn count start i) result.1)
      × (result.0 ≡ false
          → (result.1.queued ≡ first.queued)
            × ((j : ℕ)
                → k ≤ j
                → j < k + left
                → can_take (workers (turn count start j)) (first.states (turn count start j))
                  ≡ false))

  sweep-Swept :
      (start : ℕ) (task : Task) (left k : ℕ) (s : Scheduler)
      → Waits s
      → Swept start task left k (sweep count workers start task left k s)
  unfolding sweep
  sweep-Swept start task zero k s w = (λ h. cc, λ _. (w.1, λ j low high. absurd (omega arith)))
  sweep-Swept start task (suc left) k s w =
      let offered = offer count workers s (turn count start k) task in
      let o = offer-Offered s (turn count start k) task w in
      if-keep (λ x. Swept start task (suc left) k x) offered.0
        (λ took. (λ _. (k, omega arith, omega arith, o.0 took), λ h. cc))
        (λ refused.
          let out = o.1 refused in
          let r = sweep-Swept start task left (k + 1) offered.1 out.1 in
          (
            λ h. let (i, low, high, q) = r.0 h in (i, omega arith, omega arith, q),
            λ h. (
              (r.1 h).0,
              λ j low high. elim (first_or_later j low) [
                | inl e ↦
                    subst
                      (λ m.
                        can_take (workers (turn count start m)) (first.states (turn count start m))
                        ≡ false)
                      e out.0
                | inr later ↦ (r.1 h).1 j later (omega arith)
              ],
            ),
          ))
    where
      first_or_later : (j : ℕ) → k ≤ j → (k ≡ j) ⊎ (k + 1 ≤ j)
      first_or_later j low = ground arith

module _ (count : ℕ) (fleet : List (ℕ × Task) → ℕ → Chan) where
  pub dispatch-Queues :
      (s : Scheduler) (start : ℕ) (task : Task)
      → 0 < count
      → ((dispatch count fleet s start task).0 ≡ true
          → (i : ℕ) × (i < count)
            × Queues count (fleet s.queued) s task i (dispatch count fleet s start task).1)
        × ((dispatch count fleet s start task).0 ≡ false
            → (dispatch count fleet s start task).1.queued ≡ s.queued)
  unfolding dispatch
  dispatch-Queues s start task some_workers =
      let swept = sweep-Swept count (fleet s.queued) s start task count 0 s (λ i. refl, refl) in
      (
        λ h.
            let (k, _, _, q) = swept.0 h in
            (turn count start k, mod-lt (u64 (start + k)) some_workers, q),
        λ h. (swept.1 h).0,
      )

-- From size_t(-1), the answer of select_worker where every queue is full, a dispatch among three workers never asks
-- the last: it fails if the other two cannot take the unit.
pub dispatch-no_worker :
    (fleet : List (ℕ × Task) → ℕ → Chan) (s : Scheduler) (task : Task)
    → can_take (fleet s.queued 0) (s.states 0) ≡ false
    → can_take (fleet s.queued 1) (s.states 1) ≡ false
    → (dispatch 3 fleet s no_worker task).0 ≡ false
unfolding dispatch
dispatch-no_worker fleet s task out₀ out₁ =
    let swept = sweep-Swept 3 (fleet s.queued) s no_worker task 3 0 s (λ i. refl, refl) in
    elim (Bool-cases (sweep 3 (fleet s.queued) no_worker task 3 0 s).0) [
      | inr failed_all ↦ failed_all
      | inl took ↦ let (k, low, high, takes) = swept.0 took in absurd (asked k high takes.0)
    ]
  where
    asked :
        (k : ℕ)
        → k < 3
        → can_take (fleet s.queued (turn 3 no_worker k)) (s.states (turn 3 no_worker k)) ≡ true
        → ⊥
    asked zero high takes = cc
    asked (suc zero) high takes = cc
    asked (suc (suc zero)) high takes = cc
    asked (suc (suc (suc k))) high takes = omega arith
