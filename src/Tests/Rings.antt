-- ===== src/Tests/Rings.antt =====
-- Runs of the ring of client/ring.h, and the theorems about it applied to them.
use dicker.Base.{
  ℕ, zero, suc, ◌+◌, ◌<◌, ◌≤◌, ◌≡◌, refl, arith, length, List, ◌++◌, true, false, ◌⊎◌, some, none,
}
use dicker.Client.Ring.{
  System, Producer, Consumer, Closer, new_ring, push_step, pop_step, close_step, after_push,
  after_pop, after_close, Step, Reach,
}
use dicker.Client.Ring.Gates.{signals_push, signals_pop, waking_consumer, waking_producer}
use dicker.Client.Ring.Order.{first_in_first_out, pop-false}
use dicker.Client.Ring.Wakeups.{consumer_asleep, producer_asleep, never_both_asleep}

abbrev initial : System ℕ
initial = new_ring (λ _. 0)

abbrev pushing_on : ℕ → System ℕ → System ℕ
pushing_on zero s = s
pushing_on (suc n) s = pushing_on n (after_push 2 s)

abbrev popping_on : ℕ → System ℕ → System ℕ
popping_on zero s = s
popping_on (suc n) s = popping_on n (after_pop 2 s)

reach-pushing_on : (n : ℕ) (s t : System ℕ) → Reach 2 s t → Reach 2 s (pushing_on n t)
reach-pushing_on zero s t r = r
reach-pushing_on (suc n) s t r = reach-pushing_on n s _ (Reach.next r (Step.pushes t))

reach-popping_on : (n : ℕ) (s t : System ℕ) → Reach 2 s t → Reach 2 s (popping_on n t)
reach-popping_on zero s t r = r
reach-popping_on (suc n) s t r = reach-popping_on n s _ (Reach.next r (Step.pops t))

abbrev push_call : ℕ → System ℕ → System ℕ
push_call v s = record s { producer = Producer.entering v s.ring.tail }

abbrev pop_call : System ℕ → System ℕ
pop_call s = record s { consumer = Consumer.testing s.ring.head }

-- The consumer finds the ring empty and waits.
abbrev sleeping : System ℕ
sleeping = popping_on 5 (pop_call initial)

sleeping-Reach : Reach 2 initial sleeping
sleeping-Reach =
    reach-popping_on 5 initial _ (Reach.next Reach.here (Step.calls_pop initial none refl))

-- Two values are pushed, and the third waits.
abbrev one_in : System ℕ
one_in = pushing_on 5 (push_call 7 sleeping)

abbrev two_in : System ℕ
two_in = pushing_on 5 (push_call 8 one_in)

abbrev stuffed : System ℕ
stuffed = pushing_on 5 (push_call 9 two_in)

one_in-Reach : Reach 2 initial one_in
one_in-Reach =
    reach-pushing_on 5 initial _ (Reach.next sleeping-Reach (Step.calls_push sleeping 7 true quiet))
  where
    quiet : sleeping.producer ≡ Producer.outside true
    quiet = refl

one_in_done : one_in.producer ≡ Producer.outside true
unfolding push_step pop_step
one_in_done = refl

two_in_done : two_in.producer ≡ Producer.outside true
unfolding push_step pop_step
two_in_done = refl

stuffed-Reach : Reach 2 initial stuffed
stuffed-Reach = reach-pushing_on 5 initial _ (
    Reach.next
      (reach-pushing_on 5 initial _
        (Reach.next one_in-Reach (Step.calls_push one_in 8 true one_in_done)))
      (Step.calls_push two_in 9 true two_in_done))

stuffed_waits : stuffed.producer ≡ Producer.waiting 9 2 0
unfolding push_step pop_step
stuffed_waits = refl

-- The consumer wakes and takes the first.
abbrev woken : System ℕ
woken = popping_on 5 stuffed

woken_got : woken.consumer ≡ Consumer.outside (some 7)
unfolding push_step pop_step dicker.Client.Ring.slot
woken_got = refl

woken-Reach : Reach 2 initial woken
woken-Reach = reach-popping_on 5 initial _ stuffed-Reach

first_in_first_out_example :
    (left : List ℕ) × (woken.pushed ≡ woken.popped ++ left) × (length left ≤ 2)
first_in_first_out_example = first_in_first_out {bits = 1} (omega arith) woken-Reach

sleeping_waits : sleeping.consumer ≡ Consumer.waiting 0 0
unfolding pop_step
sleeping_waits = refl

sleeping_gate : sleeping.ring.not_empty_gate ≡ 0
unfolding pop_step
sleeping_gate = refl

consumer_asleep_example :
    ((length sleeping.popped ≡ length sleeping.pushed) ⊎ (0 < signals_push sleeping.producer))
    × ((sleeping.ring.closed ≡ false) ⊎ (0 < waking_consumer sleeping.closer))
consumer_asleep_example =
    consumer_asleep {bits = 1} (omega arith) (omega arith) sleeping-Reach sleeping_waits
      sleeping_gate

stuffed_gate : stuffed.ring.not_full_gate ≡ 0
unfolding push_step pop_step
stuffed_gate = refl

producer_asleep_example :
    ((length stuffed.pushed ≡ length stuffed.popped + 2) ⊎ (0 < signals_pop stuffed.consumer))
    × ((stuffed.ring.closed ≡ false) ⊎ (0 < waking_producer stuffed.closer))
producer_asleep_example =
    producer_asleep {bits = 1} (omega arith) (omega arith) stuffed-Reach stuffed_waits stuffed_gate

stuffed_sleeper : stuffed.consumer ≡ Consumer.waiting 0 0
unfolding push_step pop_step
stuffed_sleeper = refl

never_both_asleep_example : ¬ ((stuffed.ring.not_empty_gate ≡ 0) × (stuffed.ring.not_full_gate ≡ 0))
never_both_asleep_example =
    never_both_asleep {bits = 1} (omega arith) (omega arith) stuffed-Reach stuffed_sleeper
      stuffed_waits

-- A ring that is closed before anything is in it.
abbrev shut : System ℕ
shut = popping_on 2 (pop_call (after_close 2 initial))

shut-Reach : Reach 2 initial shut
shut-Reach = reach-popping_on 2 initial _ (
    Reach.next (Reach.next Reach.here (Step.closes_on initial))
      (Step.calls_pop (after_close 2 initial) none refl))

shut_asks : shut.consumer ≡ Consumer.testing_last 0
unfolding pop_step close_step
shut_asks = refl

shut_answers : (pop_step 2 shut.ring (Consumer.testing_last 0)).1 ≡ Consumer.outside none
unfolding pop_step close_step
shut_answers = refl

pop-false_example : shut.popped ≡ shut.pushed
pop-false_example = pop-false {bits = 1} (omega arith) shut-Reach shut_asks shut_answers
