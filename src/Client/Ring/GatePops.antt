-- ===== src/Client/Ring/GatePops.antt =====
-- client/ring.h, the gates: each access of `pop` and of `close` keeps what the threads know of them.
use dicker.Base.{
  ℕ, ◌+◌, ◌-◌, ◌^◌, ◌≤◌, ◌≡◌, refl, sym, ap, ◌∙◌, arith, u64, u32, length, List, ◌==◌, true, inl,
  inr, ap₂, if-keep, none,
}
use dicker.Client.Ring.{Ring, Producer, Consumer, slot, pop_step, close_step, Closer, beginning}
use dicker.Client.Ring.Invariant.{ConsumerOk, none_left}
use dicker.Client.Ring.Gates.{
  Watch-map, waking_producer, Open, ConsumerSees-map, ProducerSees-map, Empty, Full, Gates,
}
use dicker.Client.Ring.GateMoves.{u32-suc, pop-stays, watch_filled, takes}

module _ {A : Type 0} (cap : ℕ) (small : cap ≤ 2 ^ 32) {r : Ring A} {cl : Closer} {t h k : ℕ} where
  pub pop-Gates :
      {p : Producer A} (c : Consumer A) (content : List A)
      → length content ≤ cap
      → t ≡ h + length content
      → ConsumerOk cap h content c
      → r.tail ≡ u64 t
      → Gates cap r p c cl t h k
      → Gates cap (pop_step cap r c).0 p (pop_step cap r c).1 cl t (takes c h) k
  unfolding pop_step
  pop-Gates (Consumer.outside b) content room sum ok at g = g
  pop-Gates {p} (Consumer.testing hd) content room sum ok at g =
      if-keep (λ q. Gates cap r p q cl t h k) (hd == r.tail)
        (λ _. pop-stays cap g (Consumer.asking_closed hd) refl refl tt)
        (λ _. pop-stays cap g (Consumer.loading hd) refl refl tt)
  pop-Gates {p} (Consumer.asking_closed hd) content room sum ok at g =
      if-keep (λ q. Gates cap r p q cl t h k) r.closed
        (λ _. pop-stays cap g (Consumer.testing_last hd) refl refl tt)
        (λ _. pop-stays cap g (Consumer.loading_gate hd) refl refl tt)
  pop-Gates {p} (Consumer.testing_last hd) content room sum ok at g =
      if-keep (λ q. Gates cap r p q cl t h k) (hd == r.tail)
        (λ _. pop-stays cap g (Consumer.outside none) refl refl tt)
        (λ _. pop-stays cap g (Consumer.loading hd) refl refl tt)
  pop-Gates (Consumer.loading_gate hd) content room sum ok at g =
      pop-stays cap g (Consumer.testing_again hd r.not_empty_gate) refl refl
        (watch_filled cap g (omega arith))
  pop-Gates {p} (Consumer.testing_again hd w) content room sum ok at g =
      if-keep (λ q. Gates cap r p q cl t h k) (hd == r.tail)
        (λ e.
          pop-stays cap g (Consumer.asking_again hd w) refl refl
            (Watch-map (omega arith) (λ _ _. inl (empty e)) g.consumer_sees))
        (λ _. pop-stays cap g (Consumer.testing hd) refl refl tt)
    where
      empty : (hd == r.tail) ≡ true → t ≤ h
      empty e = omega (
        arith,
        none_left cap small h (length content) room
            (ap₂ ◌==◌ (sym ok) (ap u64 (sym sum) ∙ sym at) ∙ e),
      )
  pop-Gates {p} (Consumer.asking_again hd w) content room sum ok at g =
      if-keep (λ q. Gates cap r p q cl t h k) r.closed
        (λ _. pop-stays cap g (Consumer.testing hd) refl refl tt)
        (λ e.
          pop-stays cap g (Consumer.waiting hd w) refl refl
            (Watch-map (omega arith) (λ _ empty. (empty, inl e)) g.consumer_sees))
  pop-Gates {p} (Consumer.waiting hd w) content room sum ok at g =
      if-keep (λ q. Gates cap r p q cl t h k) (r.not_empty_gate == w) (λ _. g)
        (λ _. pop-stays cap g (Consumer.testing hd) refl refl tt)
  pop-Gates (Consumer.loading hd) content room sum ok at g =
      pop-stays cap g (Consumer.publishing hd (r.buf (slot cap hd))) refl refl tt
  pop-Gates {p} (Consumer.publishing hd v) content room sum ok at g = record {
    filled = g.filled;
    filled_at = g.filled_at;
    filled_sum = g.filled_sum;
    freed = g.freed;
    freed_at = g.freed_at;
    freed_sum = omega (arith, g.freed_sum);
    consumer_sees = tt;
    producer_sees =
        ProducerSees-map (t - cap) {P = Full cap t h (Consumer.publishing hd v)}
          {Q = Open r.closed (waking_producer cl)} (omega arith) (λ _ _. inr (omega arith))
          (λ _ q. q) p g.producer_sees;
  }
  pop-Gates {p} (Consumer.signalling v) content room sum ok at g = record {
    filled = g.filled;
    filled_at = g.filled_at;
    filled_sum = g.filled_sum;
    freed = g.freed + 1;
    freed_at = ap (λ n. u32 (n + 1)) g.freed_at ∙ u32-suc g.freed;
    freed_sum = omega (arith, g.freed_sum);
    consumer_sees = tt;
    producer_sees =
        ProducerSees-map (t - cap) {P = Full cap t h (Consumer.signalling v)}
          {Q = Open r.closed (waking_producer cl)} (omega arith) (λ e _. absurd (omega arith))
          (λ _ q. q) p g.producer_sees;
  }

module _ {A : Type 0} (cap : ℕ) {r : Ring A} {p : Producer A} {c : Consumer A} {t h k : ℕ} where
  pub close-Gates :
      (cl : Closer)
      → Gates cap r p c cl t h k
      → Gates cap (close_step r cl).0 p c (close_step r cl).1 t h (k + beginning cl)
  unfolding close_step
  close-Gates Closer.outside g = record {
    filled = g.filled;
    filled_at = g.filled_at;
    filled_sum = omega (arith, g.filled_sum);
    freed = g.freed;
    freed_at = g.freed_at;
    freed_sum = omega (arith, g.freed_sum);
    consumer_sees =
        ConsumerSees-map h {P = Empty t h p} {Q = Open r.closed 0} (omega arith) (λ _ q. q)
          (λ _ _. inr (omega arith)) c g.consumer_sees;
    producer_sees =
        ProducerSees-map (t - cap) {P = Full cap t h c} {Q = Open r.closed 0} (omega arith)
          (λ _ q. q) (λ _ _. inr (omega arith)) p g.producer_sees;
  }
  close-Gates Closer.waking_consumer g = record {
    filled = g.filled + 1;
    filled_at = ap (λ n. u32 (n + 1)) g.filled_at ∙ u32-suc g.filled;
    filled_sum = omega (arith, g.filled_sum);
    freed = g.freed;
    freed_at = g.freed_at;
    freed_sum = omega (arith, g.freed_sum);
    consumer_sees =
        ConsumerSees-map h {P = Empty t h p} {Q = Open r.closed 1} (omega arith) (λ _ q. q)
          (λ e _. absurd (omega arith)) c g.consumer_sees;
    producer_sees = g.producer_sees;
  }
  close-Gates Closer.waking_producer g = record {
    filled = g.filled;
    filled_at = g.filled_at;
    filled_sum = omega (arith, g.filled_sum);
    freed = g.freed + 1;
    freed_at = ap (λ n. u32 (n + 1)) g.freed_at ∙ u32-suc g.freed;
    freed_sum = omega (arith, g.freed_sum);
    consumer_sees = g.consumer_sees;
    producer_sees =
        ProducerSees-map (t - cap) {P = Full cap t h c} {Q = Open r.closed 1} (omega arith)
          (λ _ q. q) (λ e _. absurd (omega arith)) p g.producer_sees;
  }
