-- ===== src/Client/Ring/Order.antt =====
-- client/ring.h: the order of the values and the room in the ring, in every interleaving.
use dicker.Base.{
  ℕ, ◌^◌, ◌≤◌, ◌≡◌, refl, sym, ◌∙◌, arith, u64, length, List, [], ◌∷◌, ◌++◌, Bool-cases, ◌==◌, inl,
  inr, append-nil, ap₂, subst, none,
}
use dicker.Client.Ring.{
  Ring, Producer, Consumer, System, new_ring, pop_step, close_step, Step, Reach, Closer,
}
use dicker.Client.Ring.Moves.{push-Inv, pop-Inv, cap-le}
use dicker.Client.Ring.Invariant.{Inv, none_left, gates-free, ConsumerOk}

module _ {A : Type 0} {cap : ℕ} {r : Ring A} {p : Producer A} {c : Consumer A}
    {pushed popped : List A} where
  close-Inv :
      (cl : Closer) → Inv cap r p c pushed popped → Inv cap (close_step r cl).0 p c pushed popped
  unfolding close_step
  close-Inv Closer.outside inv = gates-free _ _ _ _ inv
  close-Inv Closer.waking_consumer inv = gates-free _ _ _ _ inv
  close-Inv Closer.waking_producer inv = gates-free _ _ _ _ inv

module _ {A : Type 0} (bits : ℕ) (fits : bits ≤ 32) where
  abbrev pub SystemInv : System A → Type 0
  SystemInv s = Inv (2 ^ bits) s.ring s.producer s.consumer s.pushed s.popped

  Step-Inv : {s t : System A} → Step (2 ^ bits) s t → SystemInv s → SystemInv t
  Step-Inv (Step.calls_push s v b e) inv = record {
    content = inv.content;
    split = inv.split;
    room = inv.room;
    tail_at = inv.tail_at;
    head_at = inv.head_at;
    held = inv.held;
    producer_at = inv.tail_at;
    consumer_at = inv.consumer_at;
  }
  Step-Inv (Step.calls_pop s o e) inv = record {
    content = inv.content;
    split = inv.split;
    room = inv.room;
    tail_at = inv.tail_at;
    head_at = inv.head_at;
    held = inv.held;
    producer_at = inv.producer_at;
    consumer_at = inv.head_at;
  }
  Step-Inv (Step.pushes s) inv = push-Inv bits fits s.producer inv
  Step-Inv (Step.pops s) inv = pop-Inv bits fits s.ring s.producer s.pushed s.popped s.consumer inv
  Step-Inv (Step.closes_on s) inv = close-Inv s.closer inv

  pub Reach-Inv : {buf : ℕ → A} {s : System A} → Reach (2 ^ bits) (new_ring buf) s → SystemInv s
  Reach-Inv Reach.here = record {
    content = [];
    split = refl;
    room = omega arith;
    tail_at = refl;
    head_at = refl;
    held = tt;
    producer_at = tt;
    consumer_at = tt;
  }
  Reach-Inv (Reach.next r st) = Step-Inv st (Reach-Inv r)

-- In every reachable state of a ring of 2 ^ bits places, bits at most 32, the values popped so far are the first of
-- those pushed, in the order of the pushes, and at most 2 ^ bits are pushed and not popped: none is lost, doubled,
-- reordered or overwritten, however the threads interleave and however far the counters wrap.
pub first_in_first_out :
    {A : Type 0} {bits : ℕ} {buf : ℕ → A} {s : System A}
    → bits ≤ 32
    → Reach (2 ^ bits) (new_ring buf) s
    → (left : List A) × (s.pushed ≡ s.popped ++ left) × (length left ≤ 2 ^ bits)
first_in_first_out {bits} fits r =
    (let inv = Reach-Inv bits fits r in (inv.content, inv.split, inv.room))

-- In every reachable state of a ring of 2 ^ bits places, bits at most 32, where the last load of `tail` makes `pop`
-- return false, every value pushed so far has been popped.
pub pop-false :
    {A : Type 0} {bits : ℕ} {buf : ℕ → A} {s : System A} {hd : ℕ}
    → bits ≤ 32
    → Reach (2 ^ bits) (new_ring buf) s
    → s.consumer ≡ Consumer.testing_last hd
    → (pop_step (2 ^ bits) s.ring (Consumer.testing_last hd)).1 ≡ Consumer.outside none
    → s.popped ≡ s.pushed
unfolding pop_step
pop-false {A} {bits} {s} {hd} fits r e f =
    all_popped inv.content inv.split (elim (Bool-cases (hd == s.ring.tail)) [
      | inl empty ↦
          none_left (2 ^ bits) (cap-le bits fits) _ _ inv.room
            (ap₂ ◌==◌ (sym at) (sym inv.tail_at) ∙ empty)
      | inr left ↦ absurd (ground arith)
    ])
  where
    inv : Inv (2 ^ bits) s.ring s.producer s.consumer s.pushed s.popped
    inv = Reach-Inv bits fits r

    at : hd ≡ u64 (length s.popped)
    at = subst (ConsumerOk (2 ^ bits) (length s.popped) inv.content) e inv.consumer_at

    all_popped :
        {pushed popped : List A} (left : List A)
        → pushed ≡ popped ++ left
        → length left ≡ 0
        → popped ≡ pushed
    all_popped {popped} [] split none_there = sym (split ∙ append-nil popped)
    all_popped (x ∷ xs) split none_there = absurd (omega arith)
