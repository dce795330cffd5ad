-- ===== src/Client/Worker/Window.antt =====
-- client/worker.h, `pending`: the keys of the probes without a reply, how many there are, and what becomes of them.
use dicker.Base.{
  ℕ, ◌+◌, ◌<◌, ◌≡◌, refl, sym, ap, ◌∙◌, true, false, Bool, List, [], ◌∷◌, ◌++◌, length,
  append_assoc, append-nil, if◌then◌else◌, not, arith, if-keep, u64, leb, ◌||◌,
}
use dicker.Codec.{Compressor}
use dicker.Upload.Session.{Checksum}
use dicker.Client.Worker.Frames.{Task, unit_header, accepted_header}
use dicker.Client.Worker.Session.{
  PendingUnit, Hasher, Worker, UploadEvent, upload_started, upload_skipped, upload_finished, send,
  send_probe, send_accepted, resolve, process, probe_window, read_replies, emitted,
}
use dicker.Client.Worker.Upload.{enqueue, upload}

-- Keys count up from `first` to `next`.
abbrev pub Numbered : (first next : ℕ) → List PendingUnit → Type 0
Numbered first next [] = first ≡ next
Numbered first next (u ∷ us) = (u.key ≡ first) × Numbered (u64 (first + 1)) next us

Numbered-snoc :
    (first next : ℕ) (us : List PendingUnit) (u : PendingUnit)
    → Numbered first next us
    → u.key ≡ next
    → Numbered first (u64 (next + 1)) (us ++ u ∷ [])
Numbered-snoc first next [] u e key = (key ∙ sym e, ap (λ n. u64 (n + 1)) e)
Numbered-snoc first next (v ∷ us) u (v_key, ok) key =
    (v_key, Numbered-snoc (u64 (first + 1)) next us u ok key)

-- What the worker reports of units whose replies it has.
abbrev pub ReportsUnit : Bool → Task → List UploadEvent → Type 0
ReportsUnit true t log = (n : ℕ) × (log ≡ upload_started t ∷ upload_finished t n true ∷ [])
ReportsUnit false t log = log ≡ upload_skipped t ∷ []

abbrev pub Reports : List PendingUnit → List UploadEvent → Type 0
Reports [] log = log ≡ []
Reports (u ∷ us) log =
    (first : List UploadEvent) × (rest : List UploadEvent) × (log ≡ first ++ rest)
    × ReportsUnit u.accepted u.task first
    × Reports us rest

none_pending : 0 < probe_window
none_pending = omega arith

below_window : (n : ℕ) (idle : Bool) → (leb probe_window n || idle) ≡ false → n < probe_window
below_window n idle few = ground arith

module _ (c : Compressor) (x : Checksum) (h : Hasher) (reads : ℕ → Task → List (List ℕ)) where
  pub record InWindow (s : Worker c x h) : Type 0 where
    pub first : ℕ
    pub numbered : Numbered first s.next_key s.pending
    pub short : length s.pending < probe_window

  abbrev Succeeds-InWindow : Bool × Worker c x h → Type 0
  Succeeds-InWindow r = r.0 ≡ true → InWindow r.1

  send_kept :
      (s : Worker c x h) (t : Task) (header : List ℕ)
      → InWindow s
      → InWindow (send c x h reads s t header).1
  unfolding send
  send_kept s t header inv = record {
    first = inv.first;
    numbered = inv.numbered;
    short = inv.short;
  }

  -- What a unit that goes out and an event keep, all the units keep.
  send_accepted-keeps :
      (P : Worker c x h → Type 0)
      → ((s : Worker c x h) (t : Task) (header : List ℕ) → P s → P (send c x h reads s t header).1)
      → ((s : Worker c x h) (e : UploadEvent) → P s → P (emitted c x h s e))
      → (s : Worker c x h) (us : List PendingUnit) → P s
      → P (send_accepted c x h reads s us).1
  unfolding send_accepted
  send_accepted-keeps P keep note s [] start = start
  send_accepted-keeps P keep note s (u ∷ us) start =
      let turn : Bool × Worker c x h =
        if u.accepted
        then send c x h reads s u.task (accepted_header u.key)
        else (true, emitted c x h s (upload_skipped u.task)) in
      let kept : P turn.1 =
        if-keep (λ (r : Bool × Worker c x h). P r.1) u.accepted
          (λ _. keep s u.task (accepted_header u.key) start)
          (λ _. note s (upload_skipped u.task) start) in
      if-keep (λ (r : Bool × Worker c x h). P r.1) turn.0
        (λ _. send_accepted-keeps P keep note turn.1 us kept) (λ _. kept)

  -- Behind `resolve` no probe is pending.
  resolve-InWindow : (s : Worker c x h) → InWindow (resolve c x h reads s).1
  unfolding resolve
  resolve-InWindow s =
      if-keep (λ (r : Bool × Worker c x h). InWindow r.1)
        (read_replies (enqueue s.net []).0 s.pending s.incoming).0
        (λ _.
          send_accepted-keeps InWindow send_kept
            (λ _ _ inv. record { first = inv.first; numbered = inv.numbered; short = inv.short }) _
            ((read_replies (enqueue s.net []).0 s.pending s.incoming).1)
            (record { first = s.next_key; numbered = refl; short = none_pending }))
        (λ _. record { first = s.next_key; numbered = refl; short = none_pending })

  -- A worker whose pending probes number fewer than the window and are numbered one after another, up to the next key,
  -- is such a worker again after any task that it processes with success.
  pub process-InWindow :
      (s : Worker c x h) (idle : Bool) (t : Task)
      → InWindow s
      → (process c x h reads s idle t).0 ≡ true
      → InWindow (process c x h reads s idle t).1
  unfolding process send_probe
  process-InWindow s idle t inv =
      if-keep Succeeds-InWindow (not s.accept_mode) (λ _ _. send_kept s t (unit_header t) inv)
        (λ _.
          if-keep Succeeds-InWindow (not (send_probe c x h reads s t).0)
            (λ _ failed. absurd (ground arith))
            (λ _.
              if-keep Succeeds-InWindow
                (leb probe_window (length (send_probe c x h reads s t).1.pending) || idle)
                (λ _ _. resolve-InWindow (send_probe c x h reads s t).1)
                (λ few _. record {
                  first = inv.first;
                  numbered = Numbered-snoc inv.first s.next_key s.pending _ inv.numbered refl;
                  short = below_window _ idle few;
                })))

  abbrev turn_of : Worker c x h → Task → List ℕ → Bool → Bool × Worker c x h
  turn_of s t header accepted =
      if accepted then send c x h reads s t header else (true, emitted c x h s (upload_skipped t))

  turn-Reports :
      (s : Worker c x h) (t : Task) (header : List ℕ) (accepted : Bool)
      → (turn_of s t header accepted).0 ≡ true
      → (log : List UploadEvent) × ((turn_of s t header accepted).1.events ≡ s.events ++ log)
        × ReportsUnit accepted t log
  unfolding send
  turn-Reports s t header true ok =
      let bytes : ℕ =
        (upload c x s.integrity s.net s.compressor header (reads s.submits t)).1.compressed_bytes in
      (
        upload_started t ∷ upload_finished t bytes true ∷ [],
        append_assoc s.events (upload_started t ∷ []) _
            ∙ ap (λ b. s.events ++ upload_started t ∷ upload_finished t bytes b ∷ []) ok,
        (bytes, refl),
      )
  turn-Reports s t header false ok = (upload_skipped t ∷ [], refl, refl)

  -- Where the accepted units of a list all go out, the worker has reported each unit once and in order: an accepted one
  -- as started and finished, a rejected one as skipped.
  pub send_accepted-Reports :
      (s : Worker c x h) (us : List PendingUnit)
      → (send_accepted c x h reads s us).0 ≡ true
      → (log : List UploadEvent) × ((send_accepted c x h reads s us).1.events ≡ s.events ++ log)
        × Reports us log
  unfolding send_accepted
  send_accepted-Reports s [] ok = ([], sym (append-nil s.events), refl)
  send_accepted-Reports s (u ∷ us) ok =
      let turn : Bool × Worker c x h = turn_of s u.task (accepted_header u.key) u.accepted in
      if-keep
        (λ (r : Bool × Worker c x h).
          r.0 ≡ true
          → (log : List UploadEvent) × (r.1.events ≡ s.events ++ log) × Reports (u ∷ us) log)
        turn.0
        (λ went all_went.
          let (front, front_events, front_ok) =
            turn-Reports s u.task (accepted_header u.key) u.accepted went in
          let (rest, rest_events, rest_ok) = send_accepted-Reports turn.1 us all_went in
          (
            front ++ rest,
            rest_events ∙ ap (λ l. l ++ rest) front_events ∙ append_assoc s.events front rest,
            (front, rest, refl, front_ok, rest_ok),
          ))
        (λ stayed all_went. absurd (ground arith)) ok
