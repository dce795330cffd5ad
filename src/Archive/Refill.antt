-- ===== src/Archive/Refill.antt =====
-- server/archive.cxx, `refill_raw`: it ends, and what it has staged then.
use dicker.Base.{
  ℕ, zero, suc, ◌+◌, ◌-◌, ◌≤◌, ◌<◌, ◌≡◌, refl, sym, ap, ◌∙◌, min, List, [], ◌∷◌, ◌++◌, Bool, true,
  false, Option, none, some, if◌then◌else◌, not, ltb, ◌&&◌, length, take, append-nil, arith,
  if-keep, Bool-cases, inl, inr, ◌⊎◌, subst,
}
use dicker.Archive.{
  Entry, ArchiveStreamer, begin_member, read_data, refill_round, refill_loop, raw_target, buf_size,
}
use dicker.Archive.Stream.{to_come, rest_of, Waits, refill_loop_kept}

less_short : (n m k : ℕ) → ltb 0 n ≡ true → 0 + m + 1 + k < n + m + 1 + k
less_short n m k more = ground arith

less_full :
    (n m k got : ℕ)
    → ltb 0 n ≡ true
    → ltb got (min n buf_size) ≡ false
    → n - got + m + 1 + k < n + m + 1 + k
less_full n m k got more full = ground arith

less_padded : (n m k : ℕ) → ltb 0 m ≡ true → n + 0 + 1 + k < n + m + 1 + k
less_padded n m k more = ground arith

input_left : (n : ℕ) (done : Bool) → (ltb n raw_target && not done) ≡ true → done ≡ false
input_left n done e = ground arith

stopped :
    (n : ℕ) (done : Bool)
    → (ltb n raw_target && not done) ≡ false
    → (done ≡ true) ⊎ (raw_target ≤ n)
stopped n done e = ground arith

module _ (files : Entry → Option (List ℕ)) where
  -- How many rounds there are at most.
  abbrev rounds_of : List Entry → ℕ
  rounds_of [] = 1
  rounds_of (e ∷ es) = e.size + 514 + rounds_of es

  abbrev rounds_left : List Entry → ArchiveStreamer → ℕ
  rounds_left [] s = 1
  rounds_left (e ∷ es) s =
      if s.header_pending
      then rounds_of (e ∷ es)
      else s.cur_remaining + s.pad_remaining + 1 + rounds_of es

  abbrev pub rounds : ArchiveStreamer → ℕ
  rounds s = if s.input_done then 0 else rounds_left s.entries s

  rounds_start :
      (es : List Entry) (s : ArchiveStreamer)
      → s.input_done ≡ false
      → rounds (record s { entries = es; header_pending = true }) ≡ rounds_of es
  rounds_start [] s open_input = rw open_input
  rounds_start (e ∷ es) s open_input = rw open_input

  begin_less :
      (e : Entry) (es : List Entry) (s : ArchiveStreamer)
      → s.input_done ≡ false
      → (o : Option (List ℕ))
      → rounds (begin_member files (record s { entries = e ∷ es }) e es o) < rounds_of (e ∷ es)
  begin_less e es s open_input none =
      omega (arith, rounds_start es (record s { cur = [] }) open_input)
  begin_less e es s open_input (some content) = rw open_input (omega arith)

  round_less :
      (es : List Entry) (b : Bool) (s : ArchiveStreamer)
      → (let t : ArchiveStreamer = record s {
        entries = es;
        header_pending = b;
        input_done = false;
      } in
          rounds (refill_round files es t) < rounds t)
  unfolding refill_round read_data
  round_less [] b s = omega arith
  round_less (e ∷ es) true s =
      begin_less e es (record s { input_done = false; header_pending = true }) refl (files e)
  round_less (e ∷ es) false s =
      let t : ArchiveStreamer = record s {
        entries = e ∷ es;
        header_pending = false;
        input_done = false;
      } in
      let want : ℕ = min s.cur_remaining buf_size in
      if-keep (λ u. rounds u < rounds t) (ltb 0 s.cur_remaining)
        (λ more.
          if-keep (λ u. rounds u < rounds t) (ltb (length (take want s.cur)) want)
            (λ _. less_short s.cur_remaining s.pad_remaining (rounds_of es) more)
            (λ full.
              less_full s.cur_remaining s.pad_remaining (rounds_of es) (length (take want s.cur))
                more full))
        (λ _.
          if-keep (λ u. rounds u < rounds t) (ltb 0 s.pad_remaining)
            (λ more. less_padded s.cur_remaining s.pad_remaining (rounds_of es) more)
            (λ _. omega (arith, rounds_start es (record t { cur = [] }) refl)))

  round-rounds :
      (s : ArchiveStreamer)
      → s.input_done ≡ false
      → rounds (refill_round files s.entries s) < rounds s
  round-rounds s open_input =
      subst
        (λ b.
          (let t : ArchiveStreamer = record s { input_done = b } in
            rounds (refill_round files t.entries t) < rounds t))
        (sym open_input) (round_less s.entries s.header_pending s)

  refill_loop_done :
      (fuel : ℕ) (s : ArchiveStreamer)
      → rounds s ≤ fuel
      → ((refill_loop files fuel s).input_done ≡ true)
        ⊎ (raw_target ≤ length (refill_loop files fuel s).raw)
  unfolding refill_loop
  refill_loop_done zero s enough = elim (Bool-cases s.input_done) [
    | inl done ↦ inl done
    | inr open_input ↦ absurd (omega (arith, round-rounds s open_input))
  ]
  refill_loop_done (suc fuel) s enough =
      if-keep (λ (t : ArchiveStreamer). (t.input_done ≡ true) ⊎ (raw_target ≤ length t.raw))
        (ltb (length s.raw) raw_target && not s.input_done)
        (λ goes_on.
          refill_loop_done fuel (refill_round files s.entries s)
            (omega (arith, round-rounds s (input_left (length s.raw) s.input_done goes_on))))
        (λ stops. stopped (length s.raw) s.input_done stops)

  all_staged :
      (s : ArchiveStreamer)
      → s.entries ≡ []
      → s.trailer_emitted ≡ true
      → s.raw ≡ s.raw ++ to_come files s
  all_staged s none_left trailer =
      sym (append-nil s.raw)
      ∙ ap (λ l. s.raw ++ l)
          (sym (subst (λ es. rest_of files es s ≡ []) (sym none_left) (rw trailer)))

  -- From a state where the trailer is out just when the input has ended, with no entries left then: what refill_raw has
  -- staged and what is to come of the tar file of the entries are together what they were before it. It stops, after at
  -- most `rounds` rounds; then 256 KiB are staged, or all that was to come is. The state is such a state again.
  pub refill_loop_lem :
      (fuel : ℕ) (s : ArchiveStreamer)
      → Waits files s
      → rounds s ≤ fuel
      → (let t : ArchiveStreamer = refill_loop files fuel s in
          (t.raw ++ to_come files t ≡ s.raw ++ to_come files s)
          × ((raw_target ≤ length t.raw) ⊎ (t.raw ≡ s.raw ++ to_come files s))
          × Waits files t)
  refill_loop_lem fuel s ok enough =
      let kept = refill_loop_kept files fuel s ok in
      (
        kept.0,
        elim (refill_loop_done fuel s enough) [
          | inl done ↦
              inr (
                all_staged (refill_loop files fuel s) ((kept.1).1 done) ((kept.1).0 ∙ done)
                ∙ kept.0)
          | inr full ↦ inl full
        ],
        kept.1,
      )
