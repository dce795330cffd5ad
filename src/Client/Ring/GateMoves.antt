-- ===== src/Client/Ring/GateMoves.antt =====
-- client/ring.h, the gates: each access of `push` keeps what the threads know of them.
use dicker.Base.{
  ℕ, ◌+◌, ◌-◌, ◌^◌, ◌≤◌, ◌≡◌, refl, sym, ap, ◌∙◌, arith, u64, u32, ltb, ◌==◌, false, inl, inr, ap₂,
  if-keep,
}
use dicker.Client.Ring.{Ring, Producer, Consumer, minus, push_step, Closer}
use dicker.Client.Ring.Invariant.{ProducerOk, no_room}
use dicker.Client.Ring.Gates.{
  Watch, Watch-map, waking_consumer, waking_producer, Open, signals_push, signals_pop, ConsumerSees,
  ProducerSees, ConsumerSees-map, ProducerSees-map, Empty, Full, Gates,
}

pub u32-suc : (n : ℕ) → u32 (u32 n + 1) ≡ u32 (n + 1)
u32-suc n = omega arith

module _ {A : Type 0} where
  one_pop : (c : Consumer A) → signals_pop c ≤ 1
  one_pop c = ground arith

  one_push : (p : Producer A) → signals_push p ≤ 1
  one_push p = ground arith

one_waking : (cl : Closer) → (waking_consumer cl ≤ 1) × (waking_producer cl ≤ 1)
one_waking Closer.outside = omega arith
one_waking Closer.waking_consumer = omega arith
one_waking Closer.waking_producer = omega arith

module _ {A : Type 0} where
  abbrev pub adds : Producer A → ℕ → ℕ
  adds (Producer.publishing _ _) t = t + 1
  adds _ t = t

  abbrev pub takes : Consumer A → ℕ → ℕ
  takes (Consumer.publishing _ _) h = h + 1
  takes _ h = h

module _ {A : Type 0} (cap : ℕ) {r : Ring A} {p : Producer A} {c : Consumer A} {cl : Closer}
    {t h k : ℕ} (g : Gates cap r p c cl t h k) where
  open g use {
    filled, filled_at, filled_sum, freed, freed_at, freed_sum, consumer_sees, producer_sees,
  }

  -- A thread moves on between accesses that change nothing.
  pub push-stays :
      (p' : Producer A)
      → signals_push p ≡ 0
      → signals_push p' ≡ 0
      → ProducerSees freed (t - cap) (Full cap t h c) (Open r.closed (waking_producer cl)) p'
      → Gates cap r p' c cl t h k
  push-stays p' e e' sees = record {
    filled = filled;
    filled_at = filled_at;
    filled_sum = omega arith;
    freed = freed;
    freed_at = freed_at;
    freed_sum = freed_sum;
    consumer_sees =
        ConsumerSees-map h {Q = Open r.closed (waking_consumer cl)} (omega arith)
          (λ _. elim [ inl le ↦ inl le | inr lt ↦ absurd (omega arith) ]) (λ _ q. q) c
          consumer_sees;
    producer_sees = sees;
  }

  pub pop-stays :
      (c' : Consumer A)
      → signals_pop c ≡ 0
      → signals_pop c' ≡ 0
      → ConsumerSees filled h (Empty t h p) (Open r.closed (waking_consumer cl)) c'
      → Gates cap r p c' cl t h k
  pop-stays c' e e' sees = record {
    filled = filled;
    filled_at = filled_at;
    filled_sum = filled_sum;
    freed = freed;
    freed_at = freed_at;
    freed_sum = omega arith;
    consumer_sees = sees;
    producer_sees =
        ProducerSees-map (t - cap) {Q = Open r.closed (waking_producer cl)} (omega arith)
          (λ _. elim [ inl le ↦ inl le | inr lt ↦ absurd (omega arith) ]) (λ _ q. q) p
          producer_sees;
  }

  watch_freed : t ≤ h + cap → Watch freed r.not_full_gate (t - cap) Unit
  watch_freed room = record {
    seen = freed;
    value = freed_at;
    before = omega arith;
    recent = omega (arith, one_pop c, one_waking cl);
    since = λ _. tt;
  }

  pub watch_filled : h ≤ t → Watch filled r.not_empty_gate h Unit
  watch_filled le = record {
    seen = filled;
    value = filled_at;
    before = omega arith;
    recent = omega (arith, one_push p, one_waking cl);
    since = λ _. tt;
  }

module _ {A : Type 0} (cap : ℕ) (small : cap ≤ 2 ^ 32) {r : Ring A} {cl : Closer} {t h k : ℕ} where
  pub push-Gates :
      {c : Consumer A} (p : Producer A)
      → t ≤ h + cap
      → h ≤ t
      → ProducerOk cap r.buf h t p
      → r.head ≡ u64 h
      → Gates cap r p c cl t h k
      → Gates cap (push_step cap r p).0 (push_step cap r p).1 c cl (adds p t) h k
  unfolding push_step
  push-Gates (Producer.outside b) room le ok at g = g
  push-Gates {c} (Producer.entering v tl) room le ok at g =
      if-keep (λ q. Gates cap r q c cl t h k) r.closed
        (λ _. push-stays cap g (Producer.outside false) refl refl tt)
        (λ _. push-stays cap g (Producer.testing v tl) refl refl tt)
  push-Gates {c} (Producer.testing v tl) room le ok at g =
      if-keep (λ q. Gates cap r q c cl t h k) (ltb (minus tl r.head) cap)
        (λ _. push-stays cap g (Producer.storing v tl) refl refl tt)
        (λ _. push-stays cap g (Producer.loading_gate v tl) refl refl tt)
  push-Gates (Producer.loading_gate v tl) room le ok at g =
      push-stays cap g (Producer.testing_again v tl r.not_full_gate) refl refl
        (watch_freed cap g room)
  push-Gates {c} (Producer.testing_again v tl w) room le ok at g =
      if-keep (λ q. Gates cap r q c cl t h k) (ltb (minus tl r.head) cap)
        (λ _. push-stays cap g (Producer.entering v tl) refl refl tt)
        (λ e.
          push-stays cap g (Producer.asking_closed v tl w) refl refl
            (Watch-map (omega arith) (λ _ _. inl (full e)) g.producer_sees))
    where
      full : ltb (minus tl r.head) cap ≡ false → h + cap ≤ t
      full e = omega (
        arith,
        no_room cap small h (t - h) (omega arith) (
            ap₂ (λ a b. ltb (minus a b) cap) (ap u64 {x = h + (t - h)} (omega arith) ∙ sym ok)
              (sym at)
            ∙ e),
      )
  push-Gates {c} (Producer.asking_closed v tl w) room le ok at g =
      if-keep (λ q. Gates cap r q c cl t h k) r.closed
        (λ _. push-stays cap g (Producer.entering v tl) refl refl tt)
        (λ e.
          push-stays cap g (Producer.waiting v tl w) refl refl
            (Watch-map (omega arith) (λ _ full. (full, inl e)) g.producer_sees))
  push-Gates {c} (Producer.waiting v tl w) room le ok at g =
      if-keep (λ q. Gates cap r q c cl t h k) (r.not_full_gate == w) (λ _. g)
        (λ _. push-stays cap g (Producer.entering v tl) refl refl tt)
  push-Gates {c} (Producer.storing v tl) room le ok at g = record {
    filled = g.filled;
    filled_at = g.filled_at;
    filled_sum = g.filled_sum;
    freed = g.freed;
    freed_at = g.freed_at;
    freed_sum = g.freed_sum;
    consumer_sees = g.consumer_sees;
    producer_sees = tt;
  }
  push-Gates {c} (Producer.publishing v tl) room le ok at g = record {
    filled = g.filled;
    filled_at = g.filled_at;
    filled_sum = omega (arith, g.filled_sum);
    freed = g.freed;
    freed_at = g.freed_at;
    freed_sum = g.freed_sum;
    consumer_sees =
        ConsumerSees-map h {P = Empty t h (Producer.publishing v tl)}
          {Q = Open r.closed (waking_consumer cl)} (omega arith) (λ _ _. inr (omega arith))
          (λ _ q. q) c g.consumer_sees;
    producer_sees = tt;
  }
  push-Gates {c} Producer.signalling room le ok at g = record {
    filled = g.filled + 1;
    filled_at = ap (λ n. u32 (n + 1)) g.filled_at ∙ u32-suc g.filled;
    filled_sum = omega (arith, g.filled_sum);
    freed = g.freed;
    freed_at = g.freed_at;
    freed_sum = g.freed_sum;
    consumer_sees =
        ConsumerSees-map h {P = Empty {A = A} t h Producer.signalling}
          {Q = Open r.closed (waking_consumer cl)} (omega arith) (λ e _. absurd (omega arith))
          (λ _ q. q) c g.consumer_sees;
    producer_sees = tt;
  }
