-- ===== src/Client/Scheduler/Selection.antt =====
-- client/scheduler.h, `selectWorker`: the worker that is nearest to the content, among those with room.
use dicker.Base.{
  ℕ, zero, suc, ◌+◌, ◌<◌, ◌≤◌, ◌≡◌, ◌⊎◌, inl, inr, refl, subst, sym, ◌∙◌, false, arith, ltb, leb,
  if-keep, ltb→lt, not, ◌==◌, if◌then◌else◌, Bool-cases,
}
use dicker.Client.Affinity.{wall_cost, distance, distance-le}
use dicker.Client.Scheduler.{
  Chan, Choice, no_worker, busy_threshold, consider, considered, select_worker,
}

-- The first of those with `P` whose key is the smallest, sought from the front with a key that is above all others.
module _ (P : ℕ → Type 0) (key : ℕ → ℕ) (top : ℕ) (low : (i : ℕ) → P i → key i < top) where
  pub record IsFirst (count i : ℕ) : Type 0 where
    pub within : i < count
    pub holds : P i
    pub smallest : (j : ℕ) → j < count → P j → (key i ≤ key j) × (j < i → key i < key j)

  -- What has been found among the first `count`.
  abbrev pub Found : ℕ → ℕ → ℕ → Type 0
  Found count best smallest_key =
      ((best ≡ no_worker) × (smallest_key ≡ top) × ((j : ℕ) → j < count → ¬ P j))
      ⊎ (IsFirst count best × (smallest_key ≡ key best))

  last_or_before : (j n : ℕ) → j < suc n → (j ≡ n) ⊎ (j < n)
  last_or_before j n h = ground arith

  pub Found-zero : Found 0 no_worker top
  Found-zero = inl (refl, refl, λ j lt _. absurd (omega arith))

  pub Found-skip :
      (n best smallest_key : ℕ)
      → ¬ P n
      → Found n best smallest_key
      → Found (suc n) best smallest_key
  Found-skip n best smallest_key out (inl (e, far, absent)) = inl (
    e,
    far,
    λ j lt p. elim (last_or_before j n lt) [
      | inl same ↦ out (subst P same p)
      | inr before ↦ absent j before p
    ],
  )
  Found-skip n best smallest_key out (inr (is, e)) = inr (
    record {
      within = omega (arith, is.within);
      holds = is.holds;
      smallest = λ j lt p. elim (last_or_before j n lt) [
        | inl same ↦ absurd (out (subst P same p))
        | inr before ↦ is.smallest j before p
      ];
    },
    e,
  )

  pub Found-keep :
      (n best smallest_key : ℕ)
      → P n
      → smallest_key ≤ key n
      → Found n best smallest_key
      → Found (suc n) best smallest_key
  Found-keep n best smallest_key p further (inl (e, far, absent)) = absurd (omega (arith, low n p))
  Found-keep n best smallest_key p further (inr (is, e)) = inr (
    record {
      within = omega (arith, is.within);
      holds = is.holds;
      smallest = λ j lt other. elim (last_or_before j n lt) [
        | inl same ↦
            subst (λ k. (key best ≤ key k) × (k < best → key best < key k)) (sym same)
              (omega arith, λ before. absurd (omega (arith, is.within)))
        | inr before ↦ is.smallest j before other
      ];
    },
    e,
  )

  pub Found-take :
      (n best smallest_key : ℕ)
      → P n
      → key n < smallest_key
      → Found n best smallest_key
      → Found (suc n) n (key n)
  Found-take n best smallest_key p nearer old = inr (
    record {
      within = omega arith;
      holds = p;
      smallest = λ j lt other. elim (last_or_before j n lt) [
        | inl same ↦
            subst (λ k. (key n ≤ key k) × (k < n → key n < key k)) (sym same)
              (omega arith, λ before. absurd (omega arith))
        | inr before ↦ elim old [
          | inl (_, _, absent) ↦ absurd (absent j before other)
          | inr (is, e) ↦ (
            omega (arith, (is.smallest j before other).0),
            λ _. omega (arith, (is.smallest j before other).0),
          )
        ]
      ];
    },
    refl,
  )

module _ (incoming : ℕ) (workers : ℕ → Chan) where
  -- A worker that runs, with room below the threshold.
  abbrev pub Free : ℕ → Type 0
  Free i = ((workers i).stopped ≡ false) × ((workers i).occupancy < 32)

  -- A worker that runs, with room in its queue.
  abbrev pub HasRoom : ℕ → Type 0
  HasRoom i = ((workers i).stopped ≡ false) × ((workers i).occupancy < 128)

  abbrev pub away : ℕ → ℕ
  away i = distance incoming (workers i).warm

  abbrev occupied : ℕ → ℕ
  occupied i = (workers i).occupancy

  pub not_far : (i : ℕ) → Free i → away i < wall_cost + 1
  not_far i free = omega (arith, distance-le incoming (workers i).warm)

  pub not_full : (i : ℕ) → HasRoom i → occupied i < 128
  not_full i room = room.1

  abbrev pub IsNearest : ℕ → ℕ → Type 0
  IsNearest count i = IsFirst Free away (wall_cost + 1) not_far count i

  abbrev pub IsLeast : ℕ → ℕ → Type 0
  IsLeast count i = IsFirst HasRoom occupied 128 not_full count i

  abbrev Near : ℕ → ℕ → ℕ → Type 0
  Near = Found Free away (wall_cost + 1) not_far

  abbrev Low : ℕ → ℕ → ℕ → Type 0
  Low = Found HasRoom occupied 128 not_full

  abbrev Both : ℕ → Choice → Type 0
  Both n s = Near n s.chosen s.chosen_distance × Low n s.min_idx s.min_cap

  -- What weighing a worker that runs for the least leaves.
  abbrev Lowered : ℕ → Choice → Choice → Type 0
  Lowered n s x =
      Near n x.chosen x.chosen_distance
      × (x.chosen_distance ≡ s.chosen_distance)
      × Low (suc n) x.min_idx x.min_cap

  min_cap-le : (n : ℕ) (s : Choice) → Low n s.min_idx s.min_cap → s.min_cap ≤ 128
  min_cap-le n s (inl (_, e, _)) = omega arith
  min_cap-le n s (inr (is, e)) = omega (arith, is.holds.1)

  lower_lem :
      (n : ℕ) (s : Choice)
      → (workers n).stopped ≡ false
      → Both n s
      → Lowered n s (
          if ltb (workers n).occupancy s.min_cap
          then record s { min_idx = n; min_cap = (workers n).occupancy }
          else s)
  lower_lem n s runs (near, low) =
      if-keep (λ x. Lowered n s x) (ltb (workers n).occupancy s.min_cap)
        (λ less.
          let under : occupied n < s.min_cap = ltb→lt _ _ less in
          let room : HasRoom n = (runs, omega (arith, min_cap-le n s low)) in
          (near, refl, Found-take HasRoom occupied 128 not_full n _ _ room under low))
        (λ more.
          let above : s.min_cap ≤ occupied n = ground arith in
          elim (Bool-cases (ltb (occupied n) 128)) [
            | inl room ↦ (
              near,
              refl,
              Found-keep HasRoom occupied 128 not_full n _ _ (runs, ltb→lt _ _ room) above low,
            )
            | inr full ↦ (
              near,
              refl,
              Found-skip HasRoom occupied 128 not_full n _ _ (λ room. ground (arith, room.1)) low,
            )
          ])

  -- A worker that runs is weighed for the least, one that is not busy for the nearest as well.
  consider-Both : (n : ℕ) (s : Choice) → Both n s → Both (suc n) (consider incoming n (workers n) s)
  unfolding consider
  consider-Both n s (near, low) =
      let w = workers n in
      let lower =
        if ltb w.occupancy s.min_cap then record s { min_idx = n; min_cap = w.occupancy } else s in
      if-keep (λ x. Both (suc n) x) w.stopped
        (λ stopped. (
          Found-skip Free away (wall_cost + 1) not_far n _ _ (λ free. let runs = free.0 in cc) near,
          Found-skip HasRoom occupied 128 not_full n _ _ (λ room. let runs = room.0 in cc) low,
        ))
        (λ runs.
          let kept : Lowered n s lower = lower_lem n s runs (near, low) in
          if-keep (λ x. Both (suc n) x) (leb busy_threshold w.occupancy)
            (λ busy. (
              Found-skip Free away (wall_cost + 1) not_far n _ _ (λ free. ground (arith, free.1))
                  kept.0,
              kept.2,
            ))
            (λ spare.
              let free : Free n = (runs, ground arith) in
              if-keep (λ x. Both (suc n) x) (ltb (away n) s.chosen_distance)
                (λ nearer. (
                  Found-take Free away (wall_cost + 1) not_far n _ _ free (ltb→lt _ _ nearer) near,
                  kept.2,
                ))
                (λ further.
                  let beyond : s.chosen_distance ≤ away n = ground arith in
                  (
                    Found-keep Free away (wall_cost + 1) not_far n _ _ free
                        (subst (λ d. d ≤ away n) (sym kept.1) beyond) kept.0,
                    kept.2,
                  ))))

  considered-Both : (count : ℕ) → Both count (considered incoming workers count)
  unfolding considered
  considered-Both zero =
      (Found-zero Free away (wall_cost + 1) not_far, Found-zero HasRoom occupied 128 not_full)
  considered-Both (suc i) = consider-Both i _ (considered-Both i)

  -- Of fewer workers than 2 ^ 64 - 1, select_worker takes the first of the nearest that run with fewer than 32 units
  -- queued; where there is none, the first of the least occupied that run with fewer than 128; and where there is none
  -- either, it answers size_t(-1).
  pub select_worker_lem :
      (count : ℕ)
      → count < no_worker
      → IsNearest count (select_worker incoming workers count)
        ⊎ (((j : ℕ) → j < count → ¬ Free j)
            × (IsLeast count (select_worker incoming workers count)
                ⊎ ((select_worker incoming workers count ≡ no_worker)
                    × ((j : ℕ) → j < count → ¬ HasRoom j))))
  unfolding select_worker
  select_worker_lem count fits =
      let s = considered incoming workers count in
      let (near, low) = considered-Both count in
      elim near [
        | inr (is, _) ↦
            inl (subst (λ r. IsNearest count r) (sym (chosen_lem s (omega (arith, is.within)))) is)
        | inl (e, _, absent) ↦ inr (
          absent,
          elim low [
            | inr (is, _) ↦ inl (subst (λ r. IsLeast count r) (sym (min_lem s e)) is)
            | inl (f, _, none_left) ↦ inr (min_lem s e ∙ f, none_left)
          ],
        )
      ]
    where
      chosen_lem :
          (s : Choice)
          → s.chosen < no_worker
          → (if not (s.chosen == no_worker) then s.chosen else s.min_idx) ≡ s.chosen
      chosen_lem s small = ground arith

      min_lem :
          (s : Choice)
          → s.chosen ≡ no_worker
          → (if not (s.chosen == no_worker) then s.chosen else s.min_idx) ≡ s.min_idx
      min_lem s e = ground arith
