-- ===== src/ByteChannel/Stream.antt =====
-- server/byte_channel.cxx, `read_exact`, against a plain stream of bytes: what is in the channel, followed by
-- what is pushed before the channel is closed.
use mathlib.Core.Path.{subst}
use dicker.Base.{
  ℕ, zero, suc, ◌-◌, ◌≤◌, ◌<◌, ◌≡◌, refl, sym, ap, ◌∙◌, List, [], ◌∷◌, ◌++◌, Bool, true, false,
  ◌&&◌, not, leb, length, take, drop, length-append, arith, append-nil, append_assoc, ◌==◌,
  if◌then◌else◌, if-keep, take-add, drop-add, take-append, drop-append,
}
use dicker.ByteChannel.{
  ByteChannel, Event, pushed, closing, happen, push, close, await, is_empty, take_front, signal,
  on_front, Outcome, got, ended, starved, read_loop, read_exact,
}
use dicker.ByteChannel.Invariant.{
  IsValid, BlocksOk, total, contents, contents-push, push-IsValid, close-IsValid, take_front_lem,
}

-- What the events still bring, and whether they close the channel.
abbrev pub future : Bool → List Event → List ℕ
future true env = []
future false [] = []
future false (pushed bytes ∷ env) = bytes ++ future false env
future false (closing ∷ env) = []

abbrev pub closes : Bool → List Event → Bool
closes true env = true
closes false [] = false
closes false (pushed bytes ∷ env) = closes false env
closes false (closing ∷ env) = true

abbrev pub stream : ByteChannel → List Event → List ℕ
stream ch env = contents ch ++ future ch.closed env

closed-push : (ch : ByteChannel) (bytes : List ℕ) → (push ch bytes).closed ≡ ch.closed
unfolding push
closed-push ch bytes = ground arith

-- An event moves its bytes from the future into the channel.
happen_lem :
    (ch : ByteChannel) (e : Event) (env : List Event)
    → IsValid ch
    → ch.closed ≡ false
    → (stream (happen ch e) env ≡ stream ch (e ∷ env))
      × IsValid (happen ch e)
      × (closes (happen ch e).closed env ≡ closes ch.closed (e ∷ env))
happen_lem ch (pushed bytes) env v opened = (
  rw (closed-push ch bytes, opened)
      (ap (λ t. t ++ future false env) (rw opened at (contents-push ch bytes v))
        ∙ append_assoc (contents ch) bytes (future false env)),
  push-IsValid ch bytes v,
  rw (closed-push ch bytes, opened),
)
happen_lem ch closing env v opened =
    (unfold close in rw opened, close-IsValid ch v, unfold close in rw opened)

-- What a wait establishes: nothing is lost, and it ends with bytes at hand, or the channel closed, or
-- no event left.
abbrev Awaited : ByteChannel → List Event → ByteChannel × List Event → Type 0
Awaited ch env r =
    IsValid r.0
    × (stream r.0 r.1 ≡ stream ch env)
    × (closes r.0.closed r.1 ≡ closes ch.closed env)
    × (r.0.blocks ≡ [] → r.0.closed ≡ false → r.1 ≡ [])

await_lem : (ch : ByteChannel) (env : List Event) → IsValid ch → Awaited ch env (await ch env)
unfolding await
await_lem ch [] v = (v, refl, refl, λ _ _. refl)
await_lem ch (e ∷ env) v =
    if-keep (Awaited ch (e ∷ env)) (is_empty ch.blocks && not ch.closed)
      (λ h.
        let (same, valid, ends) = happen_lem ch e env v (ground arith) in
        let (v', s', c', stop) = await_lem (happen ch e) env valid in
        (v', s' ∙ same, c' ∙ ends, stop))
      (λ h. (
        v,
        refl,
        refl,
        λ none_left opened. let bad : true ≡ false = rw (none_left, opened) at h in cc,
      ))

-- `signal` only counts.
signal_lem :
    (ch : ByteChannel) (signaled : Bool) (env : List Event)
    → IsValid ch
    → (stream (signal ch signaled).0 env ≡ stream ch env)
      × IsValid (signal ch signaled).0
      × ((signal ch signaled).0.closed ≡ ch.closed)
unfolding signal
signal_lem ch signaled env v =
    if-keep
      (λ (t : ByteChannel × Bool).
        (stream t.0 env ≡ stream ch env) × IsValid t.0 × (t.0.closed ≡ ch.closed))
      (not signaled && leb ch.buffered ch.low_water_mark)
      (λ _. (refl, record { blocks_ok = v.blocks_ok; counted = v.counted }, refl))
      (λ _. (refl, v, refl))

closed-take_front :
    (ch : ByteChannel) (front : List ℕ) (rest : List (List ℕ)) (needed : ℕ)
    → (take_front ch front rest needed).1.closed ≡ ch.closed
unfolding take_front
closed-take_front ch front rest needed = ground arith

-- What a read of `n` bytes behind `out` promises of a stream `s` that ends or not.
abbrev pub Reads : List ℕ → ℕ → List ℕ → Bool → Outcome → Type 0
Reads out n s ends (got bytes ch env) =
    (n ≤ length s)
    × (bytes ≡ out ++ take n s)
    × (stream ch env ≡ drop n s)
    × IsValid ch
    × (closes ch.closed env ≡ ends)
Reads out n s ends (ended ch env) = (length s < n) × (ends ≡ true) × IsValid ch
Reads out n s ends (starved ch) = (length s < n) × (ends ≡ false) × IsValid ch

-- A round that copied `bytes` leaves the promise for the others.
Reads-step :
    (out bytes s s' : List ℕ) (n : ℕ) (ends : Bool) (r : Outcome)
    → length bytes ≤ n
    → s ≡ bytes ++ s'
    → Reads (out ++ bytes) (n - length bytes) s' ends r
    → Reads out n s ends r
Reads-step out bytes s s' n ends (got all ch env) le e (fits, same, left, v, c) = (
  omega (arith, length-append bytes s', ap (λ (t : List ℕ). length t) e),
  same ∙ append_assoc out bytes (take (n - length bytes) s') ∙ ap (λ t. out ++ t) (sym taken),
  left ∙ sym dropped,
  v,
  c,
)
  where
    taken : take n s ≡ bytes ++ take (n - length bytes) s'
    taken = rw e (
        take-add (length bytes) (n - length bytes) n (bytes ++ s') (omega arith)
        ∙ rw (take-append (length bytes) bytes s' refl, drop-append (length bytes) bytes s' refl))

    dropped : drop n s ≡ drop (n - length bytes) s'
    dropped = rw e (
        drop-add (length bytes) (n - length bytes) n (bytes ++ s') (omega arith)
        ∙ rw (drop-append (length bytes) bytes s' refl))
Reads-step out bytes s s' n ends (ended ch env) le e (short, c, v) =
    (omega (arith, length-append bytes s', ap (λ (t : List ℕ). length t) e), c, v)
Reads-step out bytes s s' n ends (starved ch) le e (short, c, v) =
    (omega (arith, length-append bytes s', ap (λ (t : List ℕ). length t) e), c, v)

on_front-keep :
    (P : Outcome → Type 0) (blocks : List (List ℕ)) {copy : List ℕ → List (List ℕ) → Outcome}
    {stop : Outcome}
    → (blocks ≡ [] → P stop)
    → ((front : List ℕ) (rest : List (List ℕ)) → blocks ≡ front ∷ rest → P (copy front rest))
    → P (on_front blocks copy stop)
on_front-keep P [] p q = p refl
on_front-keep P (front ∷ rest) p q = q front rest refl

contents_empty :
    (blocks : List (List ℕ)) (off : ℕ)
    → BlocksOk blocks off
    → blocks ≡ []
    → drop off (total blocks) ≡ []
contents_empty [] off h e = rw h
contents_empty (b ∷ blocks) off h e = cc

future_shut : (c : Bool) (env : List Event) → c ≡ true → (future c env ≡ []) × (closes c env ≡ true)
future_shut c env e = rw e (refl, refl)

future_quiet :
    (c : Bool) (env : List Event)
    → c ≡ false
    → env ≡ []
    → (future c env ≡ []) × (closes c env ≡ false)
future_quiet c env e q = rw (e, q) (refl, refl)

-- Where the channel is empty and nothing follows, the stream is at its end.
module _ (n : ℕ) (ch : ByteChannel) (env : List Event) (pos : 1 ≤ n) (v : IsValid ch)
    (none_left : ch.blocks ≡ []) where
  stream_short : future ch.closed env ≡ [] → length (stream ch env) < n
  stream_short e = omega (
    arith,
    length-append (contents ch) (future ch.closed env),
    ap (λ (t : List ℕ). length t) (contents_empty ch.blocks ch.front_offset v.blocks_ok none_left),
    ap (λ (t : List ℕ). length t) e,
  )

  stop_lem :
      (out : List ℕ)
      → (ch.closed ≡ false → env ≡ [])
      → Reads out n
          (stream ch env)
          (closes ch.closed env)
          (if ch.closed then ended ch env else starved ch)
  stop_lem out quiet =
      if-keep (Reads out n (stream ch env) (closes ch.closed env)) ch.closed
        (λ h. let (e, c) = future_shut ch.closed env h in (stream_short e, c, v))
        (λ h. let (e, c) = future_quiet ch.closed env h (quiet h) in (stream_short e, c, v))

-- One round that copies, when the rounds after it keep their promise.
round_lem :
    (fuel n : ℕ) (out : List ℕ) (signaled : Bool) (ch : ByteChannel) (env : List Event)
    → (front : List ℕ) (rest : List (List ℕ)) → n ≤ suc fuel
    → 1 ≤ n
    → IsValid ch
    → ch.blocks ≡ front ∷ rest
    → ((needed : ℕ) (out : List ℕ) (signaled : Bool) (ch : ByteChannel) (env : List Event)
        → needed ≤ fuel
        → IsValid ch
        → Reads out needed
            (stream ch env)
            (closes ch.closed env)
            (read_loop fuel needed out signaled ch env))
    → let (bytes, taken) = take_front ch front rest n in
      let (told, signaled') = signal taken signaled in
      Reads out n
        (stream ch env)
        (closes ch.closed env)
        (read_loop fuel (n - length bytes) (out ++ bytes) signaled' told env)
round_lem fuel n out signaled ch env front rest fit pos v e rec =
    let r = take_front ch front rest n in
    let (same, valid, le, some_copied) = take_front_lem ch front rest n v e in
    let (same', valid', shut) = signal_lem r.1 signaled env valid in
    let told = signal r.1 signaled in
    let split : stream ch env ≡ r.0 ++ stream told.0 env =
      ap (λ t. t ++ future ch.closed env) same
      ∙ append_assoc r.0 (contents r.1) (future ch.closed env)
      ∙ ap (λ c. r.0 ++ (contents r.1 ++ future c env)) (sym (closed-take_front ch front rest n))
      ∙ ap (λ t. r.0 ++ t) (sym same') in
    let later =
      rec (n - length r.0) (out ++ r.0) told.1 told.0 env (omega (arith, some_copied pos)) valid' in
    Reads-step out r.0 (stream ch env) (stream told.0 env) n (closes ch.closed env) _ le split (
      subst
        (λ (c : Bool).
          Reads (out ++ r.0) (n - length r.0) (stream told.0 env) (closes c env)
            (read_loop fuel (n - length r.0) (out ++ r.0) told.1 told.0 env))
        (shut ∙ closed-take_front ch front rest n) later)

-- The loop keeps its promise, for any fuel of at least the bytes still to copy.
read_loop_lem :
    (fuel needed : ℕ) (out : List ℕ) (signaled : Bool) (ch : ByteChannel) (env : List Event)
    → needed ≤ fuel
    → IsValid ch
    → Reads out needed
        (stream ch env)
        (closes ch.closed env)
        (read_loop fuel needed out signaled ch env)
unfolding read_loop
read_loop_lem zero zero out signaled ch env h v = (omega arith, sym (append-nil out), refl, v, refl)
read_loop_lem zero (suc n) out signaled ch env h v = absurd (omega arith)
read_loop_lem (suc fuel) zero out signaled ch env h v =
    (omega arith, sym (append-nil out), refl, v, refl)
read_loop_lem (suc fuel) (suc n) out signaled ch env h v =
    let (valid, same, ends, quiet) = await_lem ch env v in
    let awake = (await ch env).0 in
    let later = (await ch env).1 in
    rw (← same, ← ends)
      (if-keep (Reads out (suc n) (stream awake later) (closes awake.closed later)) (suc n == 0)
        (λ h. absurd (ground arith))
        (λ _.
          on_front-keep (Reads out (suc n) (stream awake later) (closes awake.closed later))
            awake.blocks (λ e. stop_lem (suc n) awake later (omega arith) valid e out (quiet e))
            (λ front rest e.
              round_lem fuel (suc n) out signaled awake later front rest h (omega arith) valid e
                (read_loop_lem fuel))))

-- A read of `count` bytes hands out the next `count` bytes of the stream and leaves the others, whatever
-- the sizes of the blocks and the moments of the pushes; it answers false only when the stream was closed
-- short of them, and waits for ever only when it is short and never closed.
pub read_exact_lem :
    (ch : ByteChannel) (env : List Event) (count : ℕ)
    → IsValid ch
    → Reads [] count (stream ch env) (closes ch.closed env) (read_exact ch env count)
unfolding read_exact
read_exact_lem ch env count v = read_loop_lem count count [] false ch env (omega arith) v
