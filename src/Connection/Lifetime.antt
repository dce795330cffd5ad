-- ===== src/Connection/Lifetime.antt =====
-- server/connection.cxx: a connection that the loop drives stays sound, is deleted once, and never under a running consumer
-- or before a callback that is still to come.
use dicker.Base.{
  ℕ, ◌≡◌, inl, inr, refl, sym, subst, ap, ◌∙◌, ◌∷◌, ◌++◌, List, Bool, true, false, arith, ◌||◌,
  if-keep,
}
use dicker.Connection.{
  Connection, Output, Handle, Handles, tcp, resume_async, close_async, outbox_async, has, mark,
  on_close_async, on_handle_closed, on_resume_async, new_connection, no_handles,
}
use dicker.Connection.Life.{
  Life, life, IsSound, close_called, called, torn_down-IsSound, started-IsSound, finished-IsSound,
  close_called-IsSound, called-IsSound, gone_lem, all_handles,
}
use dicker.Protocol.{magic}
use dicker.Connection.Replies.{Transport, on_write, post}
use dicker.Connection.Preamble.{Server}
use dicker.Connection.Moves.{
  Together, Tears, Moves, Refuses, life-finalize_close, life-begin_teardown, on_outbox_async-Tears,
  handle_data-Moves, handle_raw-Moves,
}
use dicker.Connection.Loop.{
  System, Step, Reach, accept, consume, reads, decrypts, breaks, writes_done, resumes, drains,
  consumes, posts, finishes, closes, calls_back, here, next,
}

pub on_write-Tears :
    (c : Connection) (after failed : Bool)
    → Together c
    → Tears (life c) (life (on_write c after failed))
unfolding on_write
on_write-Tears c after failed h =
    if-keep (λ x. Tears (life c) (life x)) (after || failed) (λ _. inr (life-begin_teardown c h))
      (λ _. inl refl)

pub life-on_resume_async : (c : Connection) → life (on_resume_async c) ≡ life c
unfolding on_resume_async
life-on_resume_async c = if-keep (λ x. life x ≡ life c) _ (λ _. refl) (λ _. refl)

pub life-on_close_async :
    (c : Connection) → Together c → life (on_close_async c) ≡ close_called (life c)
unfolding on_close_async
life-on_close_async c h = life-finalize_close _ h

pub life-on_handle_closed : (c : Connection) → life (on_handle_closed c) ≡ called (life c)
unfolding on_handle_closed
life-on_handle_closed c = ground arith

-- What a system's invariant says.
abbrev pub SystemIsSound : System → Type 0
SystemIsSound s = IsSound (life s.conn) s.finished s.called_back

-- The reply to an accepted handshake leaves the process.
abbrev pub RepliesGoOut : Transport → Type 0
RepliesGoOut t =
    (log : List Output) (mode : List ℕ)
    → (t.takes log (magic ++ 0 ∷ mode) ≡ true) × (t.tls_sends log (magic ++ 0 ∷ mode) ≡ true)

goes_out : (t : Transport) → RepliesGoOut t → ¬ Refuses t
goes_out t out (log, mode, inl e) = let sent = (out log mode).0 in cc
goes_out t out (log, mode, inr e) = let sent = (out log mode).1 in cc

Moves-IsSound :
    {a : Life} {finished : Bool} {called_back : Handles} (t : Transport)
    → RepliesGoOut t
    → (b : Life) → Moves t a b
    → IsSound a finished called_back
    → IsSound b finished called_back
Moves-IsSound {finished} {called_back} t out b (inl (inl e)) s =
    subst (λ l. IsSound l finished called_back) (sym e) s
Moves-IsSound {finished} {called_back} t out b (inl (inr e)) s =
    subst (λ l. IsSound l finished called_back) (sym e) (torn_down-IsSound s)
Moves-IsSound {finished} {called_back} t out b (inr (fresh, inl e)) s =
    subst (λ l. IsSound l finished called_back) (sym e) (started-IsSound s fresh)
Moves-IsSound t out b (inr (fresh, inr (refused, e))) s = absurd (goes_out t out refused)

-- Every step keeps a connection sound, where the reply to an accepted handshake goes out.
pub Step-IsSound :
    (server : Server)
    → RepliesGoOut server.transport
    → {s t : System} → Step server s t
    → SystemIsSound s
    → SystemIsSound t
Step-IsSound server out (reads s data_bytes _ _) i =
    Moves-IsSound server.transport out _ (handle_raw-Moves server s.conn data_bytes i.together) i
Step-IsSound server out (decrypts s data_bytes _ _) i =
    Moves-IsSound server.transport out _ (handle_data-Moves server s.conn data_bytes i.together) i
Step-IsSound server out (breaks s _) i =
    Moves-IsSound server.transport out _ (inl (inr (life-begin_teardown s.conn i.together))) i
Step-IsSound server out (writes_done s after failed _) i =
    Moves-IsSound server.transport out _ (inl (on_write-Tears s.conn after failed i.together)) i
Step-IsSound server out (resumes s _) i =
    Moves-IsSound server.transport out _ (inl (inl (life-on_resume_async s.conn))) i
Step-IsSound server out (drains s _) i =
    Moves-IsSound server.transport out _
      (inl (on_outbox_async-Tears server.transport s.conn i.together)) i
Step-IsSound server out (consumes s channel units bytes ran running closed fewer) i =
    Moves-IsSound server.transport out (life (consume s.conn channel units bytes))
      (inl (inl (ap (λ b. record (life s.conn) { channel_closed = b }) closed))) i
Step-IsSound server out (posts s data_bytes ran running) i = unfold post in i
Step-IsSound server out (finishes s ran running) i = finished-IsSound i ran
Step-IsSound server out (closes s done opened) i =
    subst (λ l. IsSound l s.finished s.called_back) (sym (life-on_close_async s.conn i.together))
      (close_called-IsSound i done)
Step-IsSound server out (calls_back s handle opened back) i =
    subst (λ l. IsSound l s.finished (mark s.called_back handle))
      (sym (life-on_handle_closed s.conn)) (called-IsSound i handle opened back)

new_connection-IsSound :
    (low_water : ℕ) → IsSound (life (new_connection low_water)) false no_handles
new_connection-IsSound low_water = ground arith

accept-IsSound : (low_water : ℕ) (accepted : Bool) → SystemIsSound (accept low_water accepted)
unfolding accept
accept-IsSound low_water true = new_connection-IsSound low_water
accept-IsSound low_water false =
    subst (λ l. IsSound l false no_handles)
      (sym (life-begin_teardown (new_connection low_water) refl))
      (torn_down-IsSound (new_connection-IsSound low_water))

-- From its acceptance on, a connection is sound: its four handles are closed together and each is called back once, the
-- count of callbacks to come is right, a teardown closes the channel of a running consumer, and no handle is closed
-- under one. The reply to an accepted handshake must go out.
pub Reach-IsSound :
    (server : Server) (low_water : ℕ) (accepted : Bool)
    → RepliesGoOut server.transport
    → {s : System} → Reach server (accept low_water accepted) s
    → SystemIsSound s
Reach-IsSound server low_water accepted out here = accept-IsSound low_water accepted
Reach-IsSound server low_water accepted out (next r step) =
    Step-IsSound server out step (Reach-IsSound server low_water accepted out r)

has_all : (handle : Handle) → has (all_handles true) handle ≡ true
has_all tcp = refl
has_all _ = refl

-- A flag of a set of handles that is full is set.
full : {hs : Handles} (handle : Handle) → hs ≡ all_handles true → has hs handle ≡ false → ⊥
full handle e unset = let set = ap (λ h. has h handle) e ∙ has_all handle in cc

Step-gone :
    (server : Server) {s t : System} → Step server s t → SystemIsSound s → s.conn.deleted ≡ true → ⊥
Step-gone server (reads s data_bytes opened _) i gone = full tcp (gone_lem i gone).1 opened
Step-gone server (decrypts s data_bytes back _) i gone = full tcp (gone_lem i gone).0 back
Step-gone server (breaks s back) i gone = full tcp (gone_lem i gone).0 back
Step-gone server (writes_done s after failed back) i gone = full tcp (gone_lem i gone).0 back
Step-gone server (resumes s opened) i gone = full resume_async (gone_lem i gone).1 opened
Step-gone server (drains s opened) i gone = full outbox_async (gone_lem i gone).1 opened
Step-gone server (consumes s channel units bytes ran running closed fewer) i gone =
    let over = (gone_lem i gone).2 ran in cc
Step-gone server (posts s data_bytes ran running) i gone = let over = (gone_lem i gone).2 ran in cc
Step-gone server (finishes s ran running) i gone = let over = (gone_lem i gone).2 ran in cc
Step-gone server (closes s done opened) i gone = full close_async (gone_lem i gone).1 opened
Step-gone server (calls_back s handle opened back) i gone = full handle (gone_lem i gone).0 back

-- Where the reply to an accepted handshake goes out, a connection that is deleted has had the close callbacks of all its
-- handles, its consumer thread is over, so the join before the delete does not wait, and no callback and no act of
-- the consumer can come after it.
pub Reach-deleted :
    (server : Server) (low_water : ℕ) (accepted : Bool) {s : System}
    → RepliesGoOut server.transport
    → Reach server (accept low_water accepted) s
    → s.conn.deleted ≡ true
    → (s.called_back ≡ all_handles true)
      × (s.conn.consumer_started ≡ true → s.finished ≡ true)
      × ((t : System) → ¬ Step server s t)
Reach-deleted server low_water accepted out r gone =
    let i = Reach-IsSound server low_water accepted out r in
    ((gone_lem i gone).0, (gone_lem i gone).2, λ t step. Step-gone server step i gone)
