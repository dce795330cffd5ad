-- ===== src/Connection/Life.antt =====
-- The life of a connection without its data: what server/connection.cxx keeps to close its handles once, to end the
-- consumer thread and to delete the connection behind both.
use dicker.Base.{ℕ, ◌+◌, ◌-◌, ◌≡◌, ◌⊎◌, Bool, true, false, ◌&&◌, ◌==◌, if◌then◌else◌, arith}
use dicker.Connection.{
  Connection, State, handshaking, streaming, closing, Handle, Handles, tcp, no_handles, has, mark,
}

pub record Life : Type 0 where
  pub state : State
  pub channel_closed : Bool
  pub consumer_started : Bool
  pub teardown_started : Bool
  pub handles_closing : Bool
  pub pending : ℕ
  pub is_closing : Handles
  pub deleted : Bool

abbrev pub life : Connection → Life
life c = record {
  state = c.state;
  channel_closed = c.channel.closed;
  consumer_started = c.consumer_started;
  teardown_started = c.teardown_started;
  handles_closing = c.handles_closing;
  pending = c.pending_handle_closes;
  is_closing = c.is_closing;
  deleted = c.deleted;
}

abbrev pub all_handles : Bool → Handles
all_handles b = record { tcp_flag = b; resume_flag = b; close_flag = b; outbox_flag = b }

abbrev one : Bool → ℕ
one true = 1
one false = 0

abbrev pub count : Handles → ℕ
count hs = one hs.tcp_flag + one hs.resume_flag + one hs.close_flag + one hs.outbox_flag

-- What a state says of the two threads.
abbrev pub Phase : State → Life → Type 0
Phase handshaking l = (l.consumer_started ≡ false) × (l.teardown_started ≡ false)
Phase streaming l = (l.consumer_started ≡ true) × (l.teardown_started ≡ false)
Phase closing l = l.teardown_started ≡ true

pub record IsSound (l : Life) (finished : Bool) (called_back : Handles) : Type 0 where
  pub phase : Phase l.state l
  -- all handles are closed together, and each is called back once
  pub together : l.is_closing ≡ all_handles l.handles_closing
  pub counted : l.pending + count called_back ≡ count l.is_closing
  pub back : l.handles_closing ≡ false → called_back ≡ no_handles
  -- the connection is gone behind the last callback
  pub gone : l.deleted ≡ (l.handles_closing && l.pending == 0)
  pub torn : l.handles_closing ≡ true → l.teardown_started ≡ true
  -- no handle is closed under a consumer that runs, so the join does not wait
  pub joined : l.handles_closing ≡ true → l.consumer_started ≡ true → finished ≡ true
  -- a teardown wakes the consumer
  pub woken :
      l.teardown_started ≡ true
      → l.consumer_started ≡ true
      → (l.channel_closed ≡ true) ⊎ (finished ≡ true)
  pub ran : finished ≡ true → l.consumer_started ≡ true

-- The four moves of the loop thread.
abbrev pub finalized : Life → Life
finalized l =
    if l.handles_closing
    then l
    else record l { handles_closing = true; pending = l.pending + 4; is_closing = all_handles true }

abbrev pub torn_down : Life → Life
torn_down l =
    if l.teardown_started
    then l
    else if l.consumer_started
    then record l { teardown_started = true; state = closing; channel_closed = true }
    else finalized (record l { teardown_started = true; state = closing })

abbrev pub started : Life → Life
started l = record l { state = streaming; consumer_started = true }

abbrev pub close_called : Life → Life
close_called l = finalized (record l { teardown_started = true; state = closing })

abbrev pub called : Life → Life
called l = record l {
  pending = l.pending - 1;
  deleted = if l.pending - 1 == 0 then true else l.deleted;
}

module _ {l : Life} {finished : Bool} {called_back : Handles}
    (s : IsSound l finished called_back) where
  pub torn_down-IsSound : IsSound (torn_down l) finished called_back
  torn_down-IsSound = ground arith

  pub started-IsSound : l.state ≡ handshaking → IsSound (started l) finished called_back
  started-IsSound fresh = ground arith

  pub finished-IsSound : l.consumer_started ≡ true → IsSound l true called_back
  finished-IsSound ran = ground arith

  pub close_called-IsSound : finished ≡ true → IsSound (close_called l) finished called_back
  close_called-IsSound done = ground arith

  pub called-IsSound :
      (handle : Handle)
      → has l.is_closing handle ≡ true
      → has called_back handle ≡ false
      → IsSound (called l) finished (mark called_back handle)
  called-IsSound tcp opened back = ground arith
  called-IsSound _ opened back = ground arith

  -- A connection that is gone has had all its callbacks, and its consumer is over.
  pub gone_lem :
      l.deleted ≡ true
      → (called_back ≡ all_handles true)
        × (l.is_closing ≡ all_handles true)
        × (l.consumer_started ≡ true → finished ≡ true)
  gone_lem gone = (ground arith, ground arith, ground arith)
