-- ===== src/Client/Ring/Invariant.antt =====
-- client/ring.h: what holds of the ring between two steps, and the moves that change nothing.
use dicker.Base.{
  ℕ, ◌+◌, ◌^◌, ◌<◌, ◌≤◌, ◌≡◌, sym, ap, ◌∙◌, arith, u64, length, length-append, List, [], ◌∷◌, ◌++◌,
  ltb, ◌==◌, Bool, true, false, append-nil, subst,
}
use dicker.Client.Ring.{Ring, Producer, Consumer, slot, minus}

module _ (cap : ℕ) (small : cap ≤ 2 ^ 32) where
  pub testing_room :
      (h n : ℕ) → n ≤ cap → ltb (minus (u64 (h + n)) (u64 h)) cap ≡ true → h + n < h + cap
  testing_room h n le test = ground arith

  pub tail_apart : (h n : ℕ) → n ≤ cap → (u64 h == u64 (h + n)) ≡ false → 0 < n
  tail_apart h n le test = ground arith

  pub none_left : (h n : ℕ) → n ≤ cap → (u64 h == u64 (h + n)) ≡ true → n ≡ 0
  none_left h n le test = ground arith

  pub no_room : (h n : ℕ) → n ≤ cap → ltb (minus (u64 (h + n)) (u64 h)) cap ≡ false → cap ≤ n
  no_room h n le test = ground arith

module _ {A : Type 0} (cap : ℕ) where
  -- The slots from place `n` on hold the values.
  abbrev pub Holds : (ℕ → A) → ℕ → List A → Type 0
  Holds buf n [] = Unit
  Holds buf n (x ∷ xs) = (buf (slot cap n) ≡ x) × Holds buf (n + 1) xs

  -- With `h` values popped and `t` pushed.
  abbrev pub ProducerOk : (ℕ → A) → (h t : ℕ) → Producer A → Type 0
  ProducerOk buf h t (Producer.outside _) = Unit
  ProducerOk buf h t (Producer.entering v tl) = tl ≡ u64 t
  ProducerOk buf h t (Producer.testing v tl) = tl ≡ u64 t
  ProducerOk buf h t (Producer.loading_gate v tl) = tl ≡ u64 t
  ProducerOk buf h t (Producer.testing_again v tl g) = tl ≡ u64 t
  ProducerOk buf h t (Producer.asking_closed v tl g) = tl ≡ u64 t
  ProducerOk buf h t (Producer.waiting v tl g) = tl ≡ u64 t
  ProducerOk buf h t (Producer.storing v tl) = (tl ≡ u64 t) × (t < h + cap)
  ProducerOk buf h t (Producer.publishing v tl) =
      (tl ≡ u64 t) × (t < h + cap) × (buf (slot cap t) ≡ v)
  ProducerOk buf h t Producer.signalling = Unit

  abbrev pub StartsWith : A → List A → Type 0
  StartsWith v [] = ⊥
  StartsWith v (x ∷ _) = x ≡ v

  abbrev pub ConsumerOk : ℕ → List A → Consumer A → Type 0
  ConsumerOk h content (Consumer.outside _) = Unit
  ConsumerOk h content (Consumer.testing hd) = hd ≡ u64 h
  ConsumerOk h content (Consumer.asking_closed hd) = hd ≡ u64 h
  ConsumerOk h content (Consumer.testing_last hd) = hd ≡ u64 h
  ConsumerOk h content (Consumer.loading_gate hd) = hd ≡ u64 h
  ConsumerOk h content (Consumer.testing_again hd g) = hd ≡ u64 h
  ConsumerOk h content (Consumer.asking_again hd g) = hd ≡ u64 h
  ConsumerOk h content (Consumer.waiting hd g) = hd ≡ u64 h
  ConsumerOk h content (Consumer.loading hd) = (hd ≡ u64 h) × (0 < length content)
  ConsumerOk h content (Consumer.publishing hd v) = (hd ≡ u64 h) × StartsWith v content
  ConsumerOk h content (Consumer.signalling _) = Unit

  pub record Inv (r : Ring A) (p : Producer A) (c : Consumer A) (pushed popped : List A)
      : Type 0 where
    pub content : List A
    pub split : pushed ≡ popped ++ content
    pub room : length content ≤ cap
    pub tail_at : r.tail ≡ u64 (length popped + length content)
    pub head_at : r.head ≡ u64 (length popped)
    pub held : Holds r.buf (length popped) content
    pub producer_at : ProducerOk r.buf (length popped) (length popped + length content) p
    pub consumer_at : ConsumerOk (length popped) content c

  module _ {r : Ring A} {p : Producer A} {c : Consumer A} {pushed popped : List A}
      (inv : Inv r p c pushed popped) where
    open inv use {content, split, room, tail_at, head_at, held, producer_at, consumer_at}

    -- A thread moves on and changes nothing.
    pub push-quiet :
        (p' : Producer A)
        → ProducerOk r.buf (length popped) (length popped + length content) p'
        → Inv r p' c (pushed ++ []) popped
    push-quiet p' ok = record {
      content = content;
      split = append-nil pushed ∙ split;
      room = room;
      tail_at = tail_at;
      head_at = head_at;
      held = held;
      producer_at = ok;
      consumer_at = consumer_at;
    }

    pub pop-quiet :
        (c' : Consumer A) → ConsumerOk (length popped) content c' → Inv r p c' pushed (popped ++ [])
    pop-quiet c' ok =
        subst (λ l. Inv r p c' pushed l) (sym (append-nil popped))
          (record {
            content = content;
            split = split;
            room = room;
            tail_at = tail_at;
            head_at = head_at;
            held = held;
            producer_at = producer_at;
            consumer_at = ok;
          })

  -- The gates and the flag are free.
  pub gates-free :
      {r : Ring A} {p : Producer A} {c : Consumer A} {pushed popped : List A} (b : Bool) (e f : ℕ)
      → Inv r p c pushed popped
      → Inv (record r { closed = b; not_empty_gate = e; not_full_gate = f }) p c pushed popped
  gates-free b e f inv = record {
    content = inv.content;
    split = inv.split;
    room = inv.room;
    tail_at = inv.tail_at;
    head_at = inv.head_at;
    held = inv.held;
    producer_at = inv.producer_at;
    consumer_at = inv.consumer_at;
  }

  pub Holds-append :
      (buf : ℕ → A) (v : A) (n : ℕ) (xs : List A)
      → Holds buf n xs
      → buf (slot cap (n + length xs)) ≡ v
      → Holds buf n (xs ++ v ∷ [])
  Holds-append buf v n [] h e = (ap (λ m. buf (slot cap m)) (omega arith) ∙ e, tt)
  Holds-append buf v n (x ∷ xs) h e =
      (h.0, Holds-append buf v (n + 1) xs h.1 (ap (λ m. buf (slot cap m)) (omega arith) ∙ e))

  StartsWith-append : (v w : A) (xs : List A) → StartsWith v xs → StartsWith v (xs ++ w ∷ [])
  StartsWith-append v w [] h = elim h [ ]
  StartsWith-append v w (x ∷ xs) h = h

  pub ConsumerOk-append :
      (h : ℕ) (xs : List A) (w : A) (c : Consumer A)
      → ConsumerOk h xs c
      → ConsumerOk h (xs ++ w ∷ []) c
  ConsumerOk-append h xs w (Consumer.outside _) ok = tt
  ConsumerOk-append h xs w (Consumer.testing hd) ok = ok
  ConsumerOk-append h xs w (Consumer.asking_closed hd) ok = ok
  ConsumerOk-append h xs w (Consumer.testing_last hd) ok = ok
  ConsumerOk-append h xs w (Consumer.loading_gate hd) ok = ok
  ConsumerOk-append h xs w (Consumer.testing_again hd g) ok = ok
  ConsumerOk-append h xs w (Consumer.asking_again hd g) ok = ok
  ConsumerOk-append h xs w (Consumer.waiting hd g) ok = ok
  ConsumerOk-append h xs w (Consumer.loading hd) ok =
      (ok.0, omega (arith, ok.1, length-append xs (w ∷ [])))
  ConsumerOk-append h xs w (Consumer.publishing hd v) ok = (ok.0, StartsWith-append v w xs ok.1)
  ConsumerOk-append h xs w (Consumer.signalling _) ok = tt

  -- One value more is popped.
  pub ProducerOk-suc :
      (buf : ℕ → A) (h t : ℕ) (p : Producer A) → ProducerOk buf h t p → ProducerOk buf (h + 1) t p
  ProducerOk-suc buf h t (Producer.outside _) ok = tt
  ProducerOk-suc buf h t (Producer.entering v tl) ok = ok
  ProducerOk-suc buf h t (Producer.testing v tl) ok = ok
  ProducerOk-suc buf h t (Producer.loading_gate v tl) ok = ok
  ProducerOk-suc buf h t (Producer.testing_again v tl g) ok = ok
  ProducerOk-suc buf h t (Producer.asking_closed v tl g) ok = ok
  ProducerOk-suc buf h t (Producer.waiting v tl g) ok = ok
  ProducerOk-suc buf h t (Producer.storing v tl) ok = (ok.0, omega (arith, ok.1))
  ProducerOk-suc buf h t (Producer.publishing v tl) ok = (ok.0, omega (arith, ok.1), ok.2)
  ProducerOk-suc buf h t Producer.signalling ok = tt

  pub Holds-first :
      (buf : ℕ → A) (n : ℕ) (xs : List A)
      → 0 < length xs
      → Holds buf n xs
      → StartsWith (buf (slot cap n)) xs
  Holds-first buf n [] some_values h = absurd (omega arith)
  Holds-first buf n (x ∷ xs) some_values h = sym h.0
