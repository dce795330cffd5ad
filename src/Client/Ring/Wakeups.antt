-- ===== src/Client/Ring/Wakeups.antt =====
-- client/ring.h, the gates: no thread sleeps past its wake-up.
use dicker.Base.{
  ℕ, ◌+◌, ◌-◌, ◌^◌, ◌<◌, ◌≤◌, ◌≡◌, refl, sym, ap, ◌∙◌, arith, u64, u32, length, length-append, List,
  ◌++◌, false, ◌⊎◌, inl, inr, pow_pos, append-nil, subst,
}
use dicker.Client.Ring.{
  Producer, Consumer, System, pushing, popping, new_ring, push_step, pop_step, Step, Reach,
}
use dicker.Client.Ring.Invariant.{ProducerOk}
use dicker.Client.Ring.Gates.{
  Watch, waking_consumer, waking_producer, Open, signals_push, signals_pop, ConsumerSees,
  ProducerSees, Empty, Full, Gates,
}
use dicker.Client.Ring.Order.{Reach-Inv, SystemInv}
use dicker.Client.Ring.Moves.{cap-le}
use dicker.Client.Ring.GateMoves.{push-Gates, push-stays, pop-stays, adds, takes}
use dicker.Client.Ring.GatePops.{pop-Gates, close-Gates}

module _ {A : Type 0} where
  length-adds : (xs : List A) (p : Producer A) → adds p (length xs) ≡ length (xs ++ pushing p)
  length-adds xs p = ground (arith, length-append xs (pushing p), append-nil xs)

  length-takes : (xs : List A) (c : Consumer A) → takes c (length xs) ≡ length (xs ++ popping c)
  length-takes xs c = ground (arith, length-append xs (popping c), append-nil xs)

  module _ (bits : ℕ) (fits : bits ≤ 32) where
    abbrev SystemGates : System A → Type 0
    SystemGates s =
        Gates (2 ^ bits) s.ring s.producer s.consumer s.closer (length s.pushed) (length s.popped)
          s.closes

    -- The numbers of values.
    abbrev Counts : System A → Type 0
    Counts s = (length s.popped ≤ length s.pushed) × (length s.pushed ≤ length s.popped + 2 ^ bits)

    Inv-sum :
        (s : System A) (inv : SystemInv bits fits s)
        → length s.pushed ≡ length s.popped + length inv.content
    Inv-sum s inv = omega (arith, ap length inv.split, length-append s.popped inv.content)

    Inv-Counts : (s : System A) → SystemInv bits fits s → Counts s
    Inv-Counts s inv = omega (arith, Inv-sum s inv, inv.room)

    Step-Gates :
        {s t : System A}
        → Step (2 ^ bits) s t
        → SystemInv bits fits s
        → SystemGates s
        → SystemGates t
    Step-Gates (Step.calls_push s v b e) inv g =
        push-stays (2 ^ bits) g (Producer.entering v s.ring.tail) (ap signals_push e) refl tt
    Step-Gates (Step.calls_pop s o e) inv g =
        pop-stays (2 ^ bits) g (Consumer.testing s.ring.head) (ap signals_pop e) refl tt
    Step-Gates (Step.pushes s) inv g =
        subst
          (λ t.
            Gates (2 ^ bits) (push_step (2 ^ bits) s.ring s.producer).0
              (push_step (2 ^ bits) s.ring s.producer).1 s.consumer s.closer t (length s.popped)
              s.closes)
          (length-adds s.pushed s.producer)
          (push-Gates (2 ^ bits) (cap-le bits fits) s.producer (Inv-Counts s inv).1
            (Inv-Counts s inv).0
            (subst (λ t. ProducerOk (2 ^ bits) s.ring.buf (length s.popped) t s.producer)
              (sym (Inv-sum s inv)) inv.producer_at)
            inv.head_at g)
    Step-Gates (Step.pops s) inv g =
        subst
          (λ h.
            Gates (2 ^ bits) (pop_step (2 ^ bits) s.ring s.consumer).0 s.producer
              (pop_step (2 ^ bits) s.ring s.consumer).1 s.closer (length s.pushed) h s.closes)
          (length-takes s.popped s.consumer)
          (pop-Gates (2 ^ bits) (cap-le bits fits) s.consumer inv.content inv.room (Inv-sum s inv)
            inv.consumer_at (inv.tail_at ∙ ap u64 (sym (Inv-sum s inv))) g)
    Step-Gates (Step.closes_on s) inv g = close-Gates (2 ^ bits) s.closer g

    Reach-Gates : {buf : ℕ → A} {s : System A} → Reach (2 ^ bits) (new_ring buf) s → SystemGates s
    Reach-Gates Reach.here = record {
      filled = 0;
      filled_at = refl;
      filled_sum = refl;
      freed = 0;
      freed_at = refl;
      freed_sum = refl;
      consumer_sees = tt;
      producer_sees = tt;
    }
    Reach-Gates (Reach.next r st) = Step-Gates st (Reach-Inv bits fits r) (Reach-Gates r)

-- A gate that shows the value a thread has seen has not moved since.
Watch-fresh :
    {now g low : ℕ} {Since : Type 0} (gate : ℕ)
    → gate ≡ u32 now
    → now < low + 2 ^ 32 - 2
    → Watch now g low Since
    → gate ≡ g
    → Since
Watch-fresh gate at small w e = w.since (omega (arith, w.value, w.before, w.recent))

-- In every reachable state of a ring of 2 ^ bits places, bits at most 32, with fewer than 2 ^ 32 - 2 places and calls of
-- `close` together: while the consumer waits and the gate still has the value it waits on, there is nothing for it to
-- pop, or the producer is about to signal; and the ring is open, or `close` is about to wake the consumer.
pub consumer_asleep :
    {A : Type 0} {bits : ℕ} {buf : ℕ → A} {s : System A} {hd g : ℕ}
    → bits ≤ 32
    → 2 ^ bits + s.closes < 2 ^ 32 - 2
    → Reach (2 ^ bits) (new_ring buf) s
    → s.consumer ≡ Consumer.waiting hd g
    → s.ring.not_empty_gate ≡ g
    → ((length s.popped ≡ length s.pushed) ⊎ (0 < signals_push s.producer))
      × ((s.ring.closed ≡ false) ⊎ (0 < waking_consumer s.closer))
consumer_asleep {A} {bits} {s} {hd} {g} fits small r e f =
    (let known = Watch-fresh s.ring.not_empty_gate gates.filled_at few sees f in
      (elim (known.0) [ inl le ↦ inl (omega (arith, counts)) | inr lt ↦ inr lt ], known.1))
  where
    gates : SystemGates bits fits s
    gates = Reach-Gates bits fits r

    counts : Counts bits fits s
    counts = Inv-Counts bits fits s (Reach-Inv bits fits r)

    few : gates.filled < length s.popped + 2 ^ 32 - 2
    few = omega (arith, gates.filled_sum, counts)

    sees : Watch gates.filled g (length s.popped) (
        Empty (length s.pushed) (length s.popped) s.producer
        × Open s.ring.closed (waking_consumer s.closer))
    sees =
        subst
          (ConsumerSees gates.filled (length s.popped)
            (Empty (length s.pushed) (length s.popped) s.producer)
            (Open s.ring.closed (waking_consumer s.closer)))
          e gates.consumer_sees

-- In every reachable state of a ring of 2 ^ bits places, bits at most 32, with fewer than 2 ^ 32 - 2 places and calls of
-- `close` together: while the producer waits and the gate still has the value it waits on, the ring is full, or the
-- consumer is about to signal; and the ring is open, or `close` is about to wake the producer.
pub producer_asleep :
    {A : Type 0} {bits : ℕ} {buf : ℕ → A} {s : System A} {v : A} {tl g : ℕ}
    → bits ≤ 32
    → 2 ^ bits + s.closes < 2 ^ 32 - 2
    → Reach (2 ^ bits) (new_ring buf) s
    → s.producer ≡ Producer.waiting v tl g
    → s.ring.not_full_gate ≡ g
    → ((length s.pushed ≡ length s.popped + 2 ^ bits) ⊎ (0 < signals_pop s.consumer))
      × ((s.ring.closed ≡ false) ⊎ (0 < waking_producer s.closer))
producer_asleep {A} {bits} {s} {v} {tl} {g} fits small r e f =
    (let known = Watch-fresh s.ring.not_full_gate gates.freed_at few sees f in
      (elim (known.0) [ inl le ↦ inl (omega (arith, counts)) | inr lt ↦ inr lt ], known.1))
  where
    gates : SystemGates bits fits s
    gates = Reach-Gates bits fits r

    counts : Counts bits fits s
    counts = Inv-Counts bits fits s (Reach-Inv bits fits r)

    few : gates.freed < length s.pushed - 2 ^ bits + 2 ^ 32 - 2
    few = omega (arith, gates.freed_sum, counts)

    sees : Watch gates.freed g (length s.pushed - 2 ^ bits) (
        Full (2 ^ bits) (length s.pushed) (length s.popped) s.consumer
        × Open s.ring.closed (waking_producer s.closer))
    sees =
        subst
          (ProducerSees gates.freed (length s.pushed - 2 ^ bits)
            (Full (2 ^ bits) (length s.pushed) (length s.popped) s.consumer)
            (Open s.ring.closed (waking_producer s.closer)))
          e gates.producer_sees

-- In every reachable state of a ring of 2 ^ bits places, bits at most 32, with fewer than 2 ^ 32 - 2 places and calls of
-- `close` together: the producer and the consumer never both wait on gates that still have the values they wait on.
pub never_both_asleep :
    {A : Type 0} {bits : ℕ} {buf : ℕ → A} {s : System A} {v : A} {hd tl g w : ℕ}
    → bits ≤ 32
    → 2 ^ bits + s.closes < 2 ^ 32 - 2
    → Reach (2 ^ bits) (new_ring buf) s
    → s.consumer ≡ Consumer.waiting hd g
    → s.producer ≡ Producer.waiting v tl w
    → ¬ ((s.ring.not_empty_gate ≡ g) × (s.ring.not_full_gate ≡ w))
never_both_asleep {bits} {s} fits small r e e' both =
    elim ((consumer_asleep fits small r e both.0).0) [
      | inl nothing ↦ elim ((producer_asleep fits small r e' both.1).0) [
        | inl full ↦ omega (arith, pow_pos bits)
        | inr lt ↦ omega (arith, ap signals_pop e)
      ]
      | inr lt ↦ omega (arith, ap signals_push e')
    ]
