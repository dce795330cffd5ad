-- ===== src/Client/Ring.antt =====
-- client/ring.h, `SpscRing`: a bounded queue between one producer thread and one consumer thread. A thread is a state
-- machine that makes one access to shared memory in a step; the steps of the threads interleave in any order, and each
-- sees all accesses before it. A `wait` on a gate ends once the gate has another value than the one it is given: the
-- `notify` behind each increment is part of the increment.
pub mod Slots
mod Invariant
mod Moves
pub mod Gates
mod GateMoves
mod GatePops
pub mod Order
pub mod Wakeups
use dicker.Base.{
  ℕ, ◌+◌, ◌-◌, ◌^◌, ◌≡◌, List, [], ◌∷◌, ◌++◌, Bool, true, false, not, ◌==◌, ltb, if◌then◌else◌,
  Option, some, none, bit_and, u32, u64,
}

-- Where `close` stands.
pub data Closer : Type 0 where
  outside : Closer
  waking_consumer : Closer
  waking_producer : Closer

module _ (A : Type 0) where
  pub record Ring : Type 0 where
    pub buf : ℕ → A
    pub head : ℕ
    pub tail : ℕ
    pub not_empty_gate : ℕ
    pub not_full_gate : ℕ
    pub closed : Bool

  -- Where `push` stands, with its variables: `v`, `tl` and `g`.
  pub data Producer : Type 0 where
    outside : (result : Bool) → Producer
    -- at the load of `closed`, and at the test for room
    entering : A → ℕ → Producer
    testing : A → ℕ → Producer
    -- at the load of the gate, at the second test for room, at the second load of `closed`, in the wait
    loading_gate : A → ℕ → Producer
    testing_again : A → ℕ → (g : ℕ) → Producer
    asking_closed : A → ℕ → (g : ℕ) → Producer
    waiting : A → ℕ → (g : ℕ) → Producer
    -- at the store in the buffer, at the store of `tail`, at the increment of the gate
    storing : A → ℕ → Producer
    publishing : A → ℕ → Producer
    signalling : Producer

  -- Where `pop` stands, with its variables: `hd`, `g` and the value.
  pub data Consumer : Type 0 where
    outside : (result : Option A) → Consumer
    -- at the load of `tail`, at the load of `closed`, at the load of `tail` behind it
    testing : ℕ → Consumer
    asking_closed : ℕ → Consumer
    testing_last : ℕ → Consumer
    -- at the load of the gate, at the second test, at the second load of `closed`, in the wait
    loading_gate : ℕ → Consumer
    testing_again : ℕ → (g : ℕ) → Consumer
    asking_again : ℕ → (g : ℕ) → Consumer
    waiting : ℕ → (g : ℕ) → Consumer
    -- at the load from the buffer, at the store of `head`, at the increment of the gate
    loading : ℕ → Consumer
    publishing : ℕ → A → Consumer
    signalling : A → Consumer

  -- The values whose push has reached the store of `tail`, and those whose pop has reached the store of `head`, in order;
  -- and how often `close` has been called.
  pub record System : Type 0 where
    pub ring : Ring
    pub producer : Producer
    pub consumer : Consumer
    pub closer : Closer
    pub pushed : List A
    pub popped : List A
    pub closes : ℕ

-- `tl - head` on size_t
abbrev pub minus : ℕ → ℕ → ℕ
minus a b = u64 (a + 2 ^ 64 - b)

-- `& Mask`
unfoldable pub slot : (cap : ℕ) → ℕ → ℕ
slot cap n = bit_and n (cap - 1)

abbrev pub put : {A : Type 0} → (ℕ → A) → ℕ → A → ℕ → A
put buf i v j = if j == i then v else buf j

abbrev pub pushing : {A : Type 0} → Producer A → List A
pushing (publishing v _) = v ∷ []
pushing _ = []

abbrev pub popping : {A : Type 0} → Consumer A → List A
popping (publishing _ v) = v ∷ []
popping _ = []

abbrev pub beginning : Closer → ℕ
beginning outside = 1
beginning _ = 0

-- The next access of `close`; from `outside` it is the first of a call.
unfoldable pub close_step : {A : Type 0} → Ring A → Closer → Ring A × Closer
close_step r outside = (record r { closed = true }, waking_consumer)
close_step r waking_consumer =
    (record r { not_empty_gate = u32 (r.not_empty_gate + 1) }, waking_producer)
close_step r waking_producer = (record r { not_full_gate = u32 (r.not_full_gate + 1) }, outside)

-- A ring as it is built, with nothing under way.
abbrev pub new_ring : {A : Type 0} → (ℕ → A) → System A
new_ring buf = record {
  ring = record {
    buf = buf;
    head = 0;
    tail = 0;
    not_empty_gate = 0;
    not_full_gate = 0;
    closed = false;
  };
  producer = outside true;
  consumer = outside none;
  closer = outside;
  pushed = [];
  popped = [];
  closes = 0;
}

module _ {A : Type 0} (cap : ℕ) where
  -- The next access of `push`.
  unfoldable pub push_step : Ring A → Producer A → Ring A × Producer A
  push_step r (outside result) = (r, outside result)
  push_step r (entering v tl) = (r, if r.closed then outside false else testing v tl)
  push_step r (testing v tl) =
      (r, if ltb (minus tl r.head) cap then storing v tl else loading_gate v tl)
  push_step r (loading_gate v tl) = (r, testing_again v tl r.not_full_gate)
  push_step r (testing_again v tl g) =
      (r, if ltb (minus tl r.head) cap then entering v tl else asking_closed v tl g)
  push_step r (asking_closed v tl g) = (r, if r.closed then entering v tl else waiting v tl g)
  push_step r (waiting v tl g) = (r, if r.not_full_gate == g then waiting v tl g else entering v tl)
  push_step r (storing v tl) = (record r { buf = put r.buf (slot cap tl) v }, publishing v tl)
  push_step r (publishing v tl) = (record r { tail = u64 (tl + 1) }, signalling)
  push_step r signalling = (record r { not_empty_gate = u32 (r.not_empty_gate + 1) }, outside true)

  -- The next access of `pop`.
  unfoldable pub pop_step : Ring A → Consumer A → Ring A × Consumer A
  pop_step r (outside result) = (r, outside result)
  pop_step r (testing hd) = (r, if hd == r.tail then asking_closed hd else loading hd)
  pop_step r (asking_closed hd) = (r, if r.closed then testing_last hd else loading_gate hd)
  pop_step r (testing_last hd) = (r, if hd == r.tail then outside none else loading hd)
  pop_step r (loading_gate hd) = (r, testing_again hd r.not_empty_gate)
  pop_step r (testing_again hd g) = (r, if hd == r.tail then asking_again hd g else testing hd)
  pop_step r (asking_again hd g) = (r, if r.closed then testing hd else waiting hd g)
  pop_step r (waiting hd g) = (r, if r.not_empty_gate == g then waiting hd g else testing hd)
  pop_step r (loading hd) = (r, publishing hd (r.buf (slot cap hd)))
  pop_step r (publishing hd v) = (record r { head = u64 (hd + 1) }, signalling v)
  pop_step r (signalling v) =
      (record r { not_full_gate = u32 (r.not_full_gate + 1) }, outside (some v))

  abbrev pub after_push : System A → System A
  after_push s = record s {
    ring = (push_step s.ring s.producer).0;
    producer = (push_step s.ring s.producer).1;
    pushed = s.pushed ++ pushing s.producer;
  }

  abbrev pub after_pop : System A → System A
  after_pop s = record s {
    ring = (pop_step s.ring s.consumer).0;
    consumer = (pop_step s.ring s.consumer).1;
    popped = s.popped ++ popping s.consumer;
  }

  abbrev pub after_close : System A → System A
  after_close s = record s {
    ring = (close_step s.ring s.closer).0;
    closer = (close_step s.ring s.closer).1;
    closes = s.closes + beginning s.closer;
  }

  pub data Step : System A → System A → Type 0 where
    -- a call of `push` loads `tail`; a call of `pop` loads `head`
    calls_push :
        (s : System A) (v : A) (b : Bool)
        → s.producer ≡ outside b
        → Step s (record s { producer = entering v s.ring.tail })
    calls_pop :
        (s : System A) (o : Option A)
        → s.consumer ≡ outside o
        → Step s (record s { consumer = testing s.ring.head })
    pushes : (s : System A) → Step s (after_push s)
    pops : (s : System A) → Step s (after_pop s)
    closes_on : (s : System A) → Step s (after_close s)

  pub data Reach (s : System A) : System A → Type 0 where
    here : Reach s s
    next : {t u : System A} → Reach s t → Step t u → Reach s u
