-- ===== src/ByteChannel.antt =====
-- server/byte_channel.h and server/byte_channel.cxx: the queue between the loop thread, which pushes what the
-- socket delivers, and the consumer thread, which reads exact amounts. Both hold `mutex_`, so the other thread
-- acts only before a call and inside a wait: `read_exact` is given the calls that other threads make at its
-- waits, in order. `size_t` counts of bytes in memory do not wrap; `ByteChannel.Invariant` shows that no
-- subtraction goes below zero.
pub mod Invariant
pub mod Stream
use dicker.Base.{
  ℕ, zero, suc, ◌+◌, ◌-◌, List, [], ◌∷◌, ◌++◌, Bool, true, false, ◌&&◌, length, take, drop, ltb,
  leb, ◌==◌, not, if◌then◌else◌,
}

pub record ByteChannel : Type 0 where
  pub blocks : List (List ℕ)
  pub front_offset : ℕ
  pub buffered : ℕ
  pub low_water_mark : ℕ
  pub closed : Bool
  -- the calls of `resume_notifier_` so far
  pub resumes : ℕ

abbrev pub new_channel : ℕ → ByteChannel
new_channel low_water = record {
  blocks = [];
  front_offset = 0;
  buffered = 0;
  low_water_mark = low_water;
  closed = false;
  resumes = 0;
}

unfoldable pub push : ByteChannel → List ℕ → ByteChannel
push ch bytes =
    if length bytes == 0
    then ch
    else if ch.closed
    then ch
    else record ch { blocks = ch.blocks ++ (bytes ∷ []); buffered = ch.buffered + length bytes }

unfoldable pub close : ByteChannel → ByteChannel
close ch = record ch { closed = true }

unfoldable pub buffered_bytes : ByteChannel → ℕ
buffered_bytes ch = ch.buffered

-- What another thread does while the reader waits.
pub data Event : Type 0 where
  pushed : List ℕ → Event
  closing : Event

abbrev pub happen : ByteChannel → Event → ByteChannel
happen ch (pushed bytes) = push ch bytes
happen ch closing = close ch

abbrev pub is_empty : List (List ℕ) → Bool
is_empty [] = true
is_empty (_ ∷ _) = false

-- `while (blocks_.empty() && !closed_) wait`; with no event left it would wait for ever.
unfoldable pub await : ByteChannel → List Event → ByteChannel × List Event
await ch [] = (ch, [])
await ch (e ∷ es) =
    let woken = await (happen ch e) es in
    if is_empty ch.blocks && not ch.closed then woken else (ch, e ∷ es)

-- The bytes that one round takes from the front block, and what it leaves.
abbrev pub amount_of : ℕ → ℕ → ℕ
amount_of needed available = if ltb needed available then needed else available

unfoldable pub take_front : ByteChannel → List ℕ → List (List ℕ) → ℕ → List ℕ × ByteChannel
take_front ch front rest needed =
    let amount = amount_of needed (length front - ch.front_offset) in
    let moved = ch.front_offset + amount in
    let left = ch.buffered - amount in
    (
      take amount (drop ch.front_offset front),
      if moved == length front
          then record ch { blocks = rest; front_offset = 0; buffered = left }
          else record ch { front_offset = moved; buffered = left },
    )

-- `if (!signaled && buffered_ <= low_water_mark_) { resume_notifier_(); signaled = true; }`
unfoldable pub signal : ByteChannel → Bool → ByteChannel × Bool
signal ch signaled =
    if not signaled && leb ch.buffered ch.low_water_mark
    then (record ch { resumes = suc ch.resumes }, true)
    else (ch, signaled)

-- How a call of `read_exact` ends; `starved` is a wait that no event ends.
pub data Outcome : Type 0 where
  got : List ℕ → ByteChannel → List Event → Outcome
  ended : ByteChannel → List Event → Outcome
  starved : ByteChannel → Outcome

abbrev pub on_front : List (List ℕ) → (List ℕ → List (List ℕ) → Outcome) → Outcome → Outcome
on_front [] copy stop = stop
on_front (front ∷ rest) copy stop = copy front rest

-- The outer loop, with `needed` bytes still to copy behind `out`. A round copies at least one byte, so
-- `count` rounds are enough.
unfoldable pub read_loop : ℕ → ℕ → List ℕ → Bool → ByteChannel → List Event → Outcome
read_loop zero needed out signaled ch env = got out ch env
read_loop (suc fuel) needed out signaled ch env =
    let (awake, later) = await ch env in
    let copy = λ (front : List ℕ) (rest : List (List ℕ)).
      let (bytes, taken) = take_front awake front rest needed in
      let (told, signaled') = signal taken signaled in
      read_loop fuel (needed - length bytes) (out ++ bytes) signaled' told later in
    let stop = if awake.closed then ended awake later else starved awake in
    let round = on_front awake.blocks copy stop in if needed == 0 then got out ch env else round

unfoldable pub read_exact : ByteChannel → List Event → ℕ → Outcome
unfolding read_loop await take_front signal
read_exact ch env count = read_loop count count [] false ch env
