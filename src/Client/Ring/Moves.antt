-- ===== src/Client/Ring/Moves.antt =====
-- client/ring.h: each access of `push` and of `pop` keeps what holds of the ring.
use dicker.Base.{
  ℕ, suc, ◌+◌, ◌^◌, ◌<◌, ◌≤◌, ◌≡◌, sym, ap, ◌∙◌, arith, u64, length, length-append, append_assoc,
  List, [], ◌∷◌, ◌++◌, ltb, ◌==◌, true, false, append-nil, ap₂, subst, if-keep, none, some,
}
use native.Mathlib.Nat.{pow-le-pow_right}
use dicker.Client.Ring.{
  Ring, Producer, Consumer, pushing, popping, slot, put, minus, push_step, pop_step,
}
use dicker.Client.Ring.Slots.{put-same, put-other, slot-u64, slot-apart}
use dicker.Client.Ring.Invariant.{
  Inv, gates-free, Holds, ProducerOk, StartsWith, testing_room, tail_apart, push-quiet, pop-quiet,
  Holds-append, ConsumerOk-append, ProducerOk-suc, Holds-first,
}

pub cap-le : (bits : ℕ) → bits ≤ 32 → 2 ^ bits ≤ 2 ^ 32
cap-le bits fits = pow-le-pow_right (omega arith) fits

pub some_left :
    (bits : ℕ)
    → bits ≤ 32
    → (h n hd tail : ℕ) → n ≤ 2 ^ bits
    → tail ≡ u64 (h + n)
    → hd ≡ u64 h
    → (hd == tail) ≡ false
    → 0 < n
some_left bits fits h n hd tail room tail_at at e =
    tail_apart (2 ^ bits) (cap-le bits fits) h n room (ap₂ ◌==◌ (sym at) (sym tail_at) ∙ e)

module _ {A : Type 0} (bits : ℕ) (fits : bits ≤ 32) where
  Holds-put :
      (buf : ℕ → A) (v : A) (t n : ℕ) (xs : List A)
      → n + length xs ≤ t
      → t < n + 2 ^ bits
      → Holds (2 ^ bits) buf n xs
      → Holds (2 ^ bits) (put buf (slot (2 ^ bits) (u64 t)) v) n xs
  Holds-put buf v t n [] le lt h = tt
  Holds-put buf v t n (x ∷ xs) le lt h = (
    put-other buf v _ _
          (λ e. slot-apart bits fits n t (omega arith) (omega arith) (e ∙ slot-u64 bits fits t))
        ∙ h.0,
    Holds-put buf v t (n + 1) xs (omega arith) (omega arith) h.1,
  )

  module _ {r : Ring A} {c : Consumer A} {pushed popped : List A} where
    pub push-Inv :
        (p : Producer A)
        → Inv (2 ^ bits) r p c pushed popped
        → Inv
            (2 ^ bits)
            (push_step (2 ^ bits) r p).0
            (push_step (2 ^ bits) r p).1
            c
            (pushed ++ pushing p)
            popped
    unfolding push_step
    push-Inv (Producer.outside b) inv = push-quiet _ inv (Producer.outside b) tt
    push-Inv (Producer.entering v tl) inv =
        if-keep (λ q. Inv (2 ^ bits) r q c (pushed ++ []) popped) r.closed
          (λ e. push-quiet _ inv (Producer.outside false) tt)
          (λ e. push-quiet _ inv (Producer.testing v tl) inv.producer_at)
    push-Inv (Producer.testing v tl) inv =
        if-keep (λ q. Inv (2 ^ bits) r q c (pushed ++ []) popped) (ltb (minus tl r.head) (2 ^ bits))
          (λ e. push-quiet _ inv (Producer.storing v tl) (
            inv.producer_at,
            testing_room (2 ^ bits) (cap-le bits fits) _ _ inv.room (
                ap₂ (λ a b. ltb (minus a b) (2 ^ bits)) (sym inv.producer_at) (sym inv.head_at)
                ∙ e),
          ))
          (λ e. push-quiet _ inv (Producer.loading_gate v tl) inv.producer_at)
    push-Inv (Producer.loading_gate v tl) inv =
        push-quiet _ inv (Producer.testing_again v tl _) inv.producer_at
    push-Inv (Producer.testing_again v tl g) inv =
        if-keep (λ q. Inv (2 ^ bits) r q c (pushed ++ []) popped) (ltb (minus tl r.head) (2 ^ bits))
          (λ e. push-quiet _ inv (Producer.entering v tl) inv.producer_at)
          (λ e. push-quiet _ inv (Producer.asking_closed v tl g) inv.producer_at)
    push-Inv (Producer.asking_closed v tl g) inv =
        if-keep (λ q. Inv (2 ^ bits) r q c (pushed ++ []) popped) r.closed
          (λ e. push-quiet _ inv (Producer.entering v tl) inv.producer_at)
          (λ e. push-quiet _ inv (Producer.waiting v tl g) inv.producer_at)
    push-Inv (Producer.waiting v tl g) inv =
        if-keep (λ q. Inv (2 ^ bits) r q c (pushed ++ []) popped) (r.not_full_gate == g)
          (λ e. push-quiet _ inv (Producer.waiting v tl g) inv.producer_at)
          (λ e. push-quiet _ inv (Producer.entering v tl) inv.producer_at)
    push-Inv (Producer.storing v tl) inv = record {
      content = inv.content;
      split = append-nil pushed ∙ inv.split;
      room = inv.room;
      tail_at = inv.tail_at;
      head_at = inv.head_at;
      held =
          subst
            (λ m. Holds (2 ^ bits) (put r.buf (slot (2 ^ bits) m) v) (length popped) inv.content)
            (sym inv.producer_at.0)
            (Holds-put r.buf v _ (length popped) inv.content (omega arith) inv.producer_at.1
              inv.held);
      producer_at = (
        inv.producer_at.0,
        inv.producer_at.1,
        put-same r.buf v (slot (2 ^ bits) tl) _
            (sym (slot-u64 bits fits _) ∙ ap (slot (2 ^ bits)) (sym inv.producer_at.0)),
      );
      consumer_at = inv.consumer_at;
    }
    push-Inv (Producer.publishing v tl) inv = record {
      content = inv.content ++ v ∷ [];
      split = ap (λ l. l ++ v ∷ []) inv.split ∙ append_assoc popped inv.content (v ∷ []);
      room = omega (arith, inv.producer_at, length-append inv.content (v ∷ []));
      tail_at = omega (arith, inv.producer_at, length-append inv.content (v ∷ []));
      head_at = inv.head_at;
      held = Holds-append (2 ^ bits) r.buf v (length popped) inv.content inv.held inv.producer_at.2;
      producer_at = tt;
      consumer_at = ConsumerOk-append (2 ^ bits) (length popped) inv.content v c inv.consumer_at;
    }
    push-Inv Producer.signalling inv =
        push-quiet _ (gates-free _ _ _ _ inv) (Producer.outside true) tt

  module _ (r : Ring A) (p : Producer A) (pushed popped : List A) where
    -- The value at `hd` leaves the ring.
    leaving :
        (hd : ℕ) (v : A) (content : List A)
        → pushed ≡ popped ++ content
        → length content ≤ 2 ^ bits
        → r.tail ≡ u64 (length popped + length content)
        → Holds (2 ^ bits) r.buf (length popped) content
        → ProducerOk (2 ^ bits) r.buf (length popped) (length popped + length content) p
        → hd ≡ u64 (length popped)
        → StartsWith (2 ^ bits) v content
        → Inv
            (2 ^ bits)
            (record r { head = u64 (hd + 1) })
            p
            (Consumer.signalling v)
            pushed
            (popped ++ v ∷ [])
    leaving hd v [] split room tail_at held ok at first = elim first [ ]
    leaving hd v (x ∷ xs) split room tail_at held ok at first = record {
      content = xs;
      split = split ∙ ap (λ y. popped ++ y ∷ xs) first ∙ sym (append_assoc popped (v ∷ []) xs);
      room = omega arith;
      tail_at = omega (arith, one_more);
      head_at = omega (arith, one_more);
      held = subst (λ n. Holds (2 ^ bits) r.buf n xs) (sym one_more) held.1;
      producer_at =
          subst (λ n. ProducerOk (2 ^ bits) r.buf n (n + length xs) p) (sym one_more)
            (ProducerOk-suc (2 ^ bits) r.buf (length popped) (length popped + 1 + length xs) p (
              subst (λ n. ProducerOk (2 ^ bits) r.buf (length popped) n p)
                {x = length popped + suc (length xs)} (omega arith) ok));
      consumer_at = tt;
    }
      where
        one_more : length (popped ++ v ∷ []) ≡ length popped + 1
        one_more = length-append popped (v ∷ [])

    pub pop-Inv :
        (c : Consumer A)
        → Inv (2 ^ bits) r p c pushed popped
        → Inv
            (2 ^ bits)
            (pop_step (2 ^ bits) r c).0
            p
            (pop_step (2 ^ bits) r c).1
            pushed
            (popped ++ popping c)
    unfolding pop_step
    pop-Inv (Consumer.outside o) inv = pop-quiet _ inv (Consumer.outside o) tt
    pop-Inv (Consumer.testing hd) inv =
        if-keep (λ q. Inv (2 ^ bits) r p q pushed (popped ++ [])) (hd == r.tail)
          (λ e. pop-quiet _ inv (Consumer.asking_closed hd) inv.consumer_at)
          (λ e. pop-quiet _ inv (Consumer.loading hd) (
            inv.consumer_at,
            some_left bits fits _ _ hd r.tail inv.room inv.tail_at inv.consumer_at e,
          ))
    pop-Inv (Consumer.asking_closed hd) inv =
        if-keep (λ q. Inv (2 ^ bits) r p q pushed (popped ++ [])) r.closed
          (λ e. pop-quiet _ inv (Consumer.testing_last hd) inv.consumer_at)
          (λ e. pop-quiet _ inv (Consumer.loading_gate hd) inv.consumer_at)
    pop-Inv (Consumer.testing_last hd) inv =
        if-keep (λ q. Inv (2 ^ bits) r p q pushed (popped ++ [])) (hd == r.tail)
          (λ e. pop-quiet _ inv (Consumer.outside none) tt)
          (λ e. pop-quiet _ inv (Consumer.loading hd) (
            inv.consumer_at,
            some_left bits fits _ _ hd r.tail inv.room inv.tail_at inv.consumer_at e,
          ))
    pop-Inv (Consumer.loading_gate hd) inv =
        pop-quiet _ inv (Consumer.testing_again hd _) inv.consumer_at
    pop-Inv (Consumer.testing_again hd g) inv =
        if-keep (λ q. Inv (2 ^ bits) r p q pushed (popped ++ [])) (hd == r.tail)
          (λ e. pop-quiet _ inv (Consumer.asking_again hd g) inv.consumer_at)
          (λ e. pop-quiet _ inv (Consumer.testing hd) inv.consumer_at)
    pop-Inv (Consumer.asking_again hd g) inv =
        if-keep (λ q. Inv (2 ^ bits) r p q pushed (popped ++ [])) r.closed
          (λ e. pop-quiet _ inv (Consumer.testing hd) inv.consumer_at)
          (λ e. pop-quiet _ inv (Consumer.waiting hd g) inv.consumer_at)
    pop-Inv (Consumer.waiting hd g) inv =
        if-keep (λ q. Inv (2 ^ bits) r p q pushed (popped ++ [])) (r.not_empty_gate == g)
          (λ e. pop-quiet _ inv (Consumer.waiting hd g) inv.consumer_at)
          (λ e. pop-quiet _ inv (Consumer.testing hd) inv.consumer_at)
    pop-Inv (Consumer.loading hd) inv =
        pop-quiet _ inv (Consumer.publishing hd (r.buf (slot (2 ^ bits) hd))) (
          inv.consumer_at.0,
          subst (λ n. StartsWith (2 ^ bits) (r.buf n) inv.content)
              (sym (slot-u64 bits fits (length popped))
                ∙ ap (slot (2 ^ bits)) (sym inv.consumer_at.0))
              (Holds-first (2 ^ bits) r.buf (length popped) inv.content inv.consumer_at.1 inv.held),
        )
    pop-Inv (Consumer.publishing hd v) inv =
        leaving hd v inv.content inv.split inv.room inv.tail_at inv.held inv.producer_at
          inv.consumer_at.0 inv.consumer_at.1
    pop-Inv (Consumer.signalling v) inv =
        pop-quiet _ (gates-free _ _ _ _ inv) (Consumer.outside (some v)) tt
