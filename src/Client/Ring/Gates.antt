-- ===== src/Client/Ring/Gates.antt =====
-- client/ring.h, the gates: what a thread has seen of a gate before it waits on it.
use dicker.Base.{ℕ, ◌+◌, ◌-◌, ◌<◌, ◌≤◌, ◌≡◌, arith, u32, Bool, false, ◌⊎◌}
use dicker.Client.Ring.{Ring, Producer, Consumer, Closer}

-- A gate at `now`, of which `g` is a value seen; `since` holds while the gate has not moved.
pub record Watch (now g low : ℕ) (Since : Type 0) : Type 0 where
  pub seen : ℕ
  pub value : g ≡ u32 seen
  pub before : seen ≤ now
  pub recent : low ≤ seen + 2
  pub since : seen ≡ now → Since

pub Watch-map :
    {n n' g low : ℕ} {P Q : Type 0} → n ≤ n' → (n ≡ n' → P → Q) → Watch n g low P → Watch n' g low Q
Watch-map le f w = record {
  seen = w.seen;
  value = w.value;
  before = omega (arith, w.before);
  recent = w.recent;
  since = λ e. f (omega (arith, w.before)) (w.since (omega (arith, w.before)));
}

-- Increments under way.
abbrev pub waking_consumer : Closer → ℕ
waking_consumer Closer.waking_consumer = 1
waking_consumer _ = 0

abbrev pub waking_producer : Closer → ℕ
waking_producer Closer.outside = 0
waking_producer _ = 1

abbrev pub Open : Bool → ℕ → Type 0
Open closed w = (closed ≡ false) ⊎ (0 < w)

module _ {A : Type 0} where
  abbrev pub signals_push : Producer A → ℕ
  signals_push Producer.signalling = 1
  signals_push _ = 0

  abbrev pub signals_pop : Consumer A → ℕ
  signals_pop (Consumer.signalling _) = 1
  signals_pop _ = 0

  -- What the consumer knows at gate value `n`, and the producer.
  abbrev pub ConsumerSees : (n low : ℕ) (Empty Open : Type 0) → Consumer A → Type 0
  ConsumerSees n low Empty Open (Consumer.testing_again hd g) = Watch n g low Unit
  ConsumerSees n low Empty Open (Consumer.asking_again hd g) = Watch n g low Empty
  ConsumerSees n low Empty Open (Consumer.waiting hd g) = Watch n g low (Empty × Open)
  ConsumerSees n low Empty Open _ = Unit

  abbrev pub ProducerSees : (n low : ℕ) (Full Open : Type 0) → Producer A → Type 0
  ProducerSees n low Full Open (Producer.testing_again v tl g) = Watch n g low Unit
  ProducerSees n low Full Open (Producer.asking_closed v tl g) = Watch n g low Full
  ProducerSees n low Full Open (Producer.waiting v tl g) = Watch n g low (Full × Open)
  ProducerSees n low Full Open _ = Unit

  module _ {n n' : ℕ} (low : ℕ) {P P' Q Q' : Type 0} (le : n ≤ n') (f : n ≡ n' → P → P')
      (g : n ≡ n' → Q → Q') where
    pub ConsumerSees-map : (c : Consumer A) → ConsumerSees n low P Q c → ConsumerSees n' low P' Q' c
    ConsumerSees-map (Consumer.testing_again hd g) w = Watch-map le (λ e u. u) w
    ConsumerSees-map (Consumer.asking_again hd g) w = Watch-map le f w
    ConsumerSees-map (Consumer.waiting hd _) w = Watch-map le (λ e u. (f e u.0, g e u.1)) w
    ConsumerSees-map (Consumer.outside _) w = tt
    ConsumerSees-map (Consumer.testing _) w = tt
    ConsumerSees-map (Consumer.asking_closed _) w = tt
    ConsumerSees-map (Consumer.testing_last _) w = tt
    ConsumerSees-map (Consumer.loading_gate _) w = tt
    ConsumerSees-map (Consumer.loading _) w = tt
    ConsumerSees-map (Consumer.publishing _ _) w = tt
    ConsumerSees-map (Consumer.signalling _) w = tt

    pub ProducerSees-map : (p : Producer A) → ProducerSees n low P Q p → ProducerSees n' low P' Q' p
    ProducerSees-map (Producer.testing_again v tl g) w = Watch-map le (λ e u. u) w
    ProducerSees-map (Producer.asking_closed v tl g) w = Watch-map le f w
    ProducerSees-map (Producer.waiting v tl _) w = Watch-map le (λ e u. (f e u.0, g e u.1)) w
    ProducerSees-map (Producer.outside _) w = tt
    ProducerSees-map (Producer.entering _ _) w = tt
    ProducerSees-map (Producer.testing _ _) w = tt
    ProducerSees-map (Producer.loading_gate _ _) w = tt
    ProducerSees-map (Producer.storing _ _) w = tt
    ProducerSees-map (Producer.publishing _ _) w = tt
    ProducerSees-map Producer.signalling w = tt

  abbrev pub Empty : (t h : ℕ) → Producer A → Type 0
  Empty t h p = (t ≤ h) ⊎ (0 < signals_push p)

  module _ (cap : ℕ) where
    abbrev pub Full : (t h : ℕ) → Consumer A → Type 0
    Full t h c = (h + cap ≤ t) ⊎ (0 < signals_pop c)

    -- With `t` values pushed, `h` popped, and `k` calls of `close`.
    pub record Gates (r : Ring A) (p : Producer A) (c : Consumer A) (cl : Closer) (t h k : ℕ)
        : Type 0 where
      pub filled : ℕ
      pub filled_at : r.not_empty_gate ≡ u32 filled
      pub filled_sum : filled + signals_push p + waking_consumer cl ≡ t + k
      pub freed : ℕ
      pub freed_at : r.not_full_gate ≡ u32 freed
      pub freed_sum : freed + signals_pop c + waking_producer cl ≡ h + k
      pub consumer_sees : ConsumerSees filled h (Empty t h p) (Open r.closed (waking_consumer cl)) c
      pub producer_sees :
          ProducerSees freed (t - cap) (Full t h c) (Open r.closed (waking_producer cl)) p
