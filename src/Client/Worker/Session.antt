-- ===== src/Client/Worker/Session.antt =====
-- client/worker.h, `Worker`: probes, their replies, and what goes out for them.
use dicker.Base.{
  ℕ, ◌+◌, List, [], ◌∷◌, ◌++◌, Bool, true, false, if◌then◌else◌, length, drop, not, ◌==◌, ◌||◌, leb,
  u64, get_or,
}
use dicker.Protocol.{unit_code, end_of_session, probe_reply_size, decision_code, accept}
use dicker.Wire.{read_u64_le}
use dicker.Codec.{Compressor}
use dicker.Upload.Session.{Checksum, read_exact, on_read}
use dicker.Client.Worker.Frames.{Task, unit_header, accepted_header, probe_frame}
use dicker.Client.Worker.Upload.{Network, enqueue, upload}

-- BLAKE3, a library of its own: `blake3_hasher_init`, `blake3_hasher_update`, `blake3_hasher_finalize` for 32 bytes.
pub record Hasher : Type 1 where
  pub State : Type 0
  pub init : State
  pub update : State → List ℕ → State
  pub finalize : State → List ℕ

pub record PendingUnit : Type 0 where
  pub key : ℕ
  pub task : Task
  pub accepted : Bool

-- client/events.h
pub data UploadEvent : Type 0 where
  upload_started : Task → UploadEvent
  upload_skipped : Task → UploadEvent
  upload_finished : Task → (compressed_bytes : ℕ) → (ok : Bool) → UploadEvent

-- `kProbeWindow`
abbrev pub probe_window : ℕ
probe_window = 128

-- `accepted` of a reply's first byte
abbrev pub taken : List ℕ → Bool
taken reply = get_or reply 0 0 == decision_code accept

-- The replies to the pending units in order, from what the server sends; the loop stops at the first that does not come
-- or is about another unit.
unfoldable pub read_replies : Bool → List PendingUnit → List ℕ → Bool × List PendingUnit × List ℕ
read_replies ok [] incoming = (ok, [], incoming)
read_replies ok (u ∷ us) incoming =
    let stop : Bool × List PendingUnit × List ℕ = (false, u ∷ us, incoming) in
    if not ok
    then stop
    else on_read (read_exact probe_reply_size incoming) stop λ reply behind.
      let (rest_ok, rest, left) = read_replies true us behind in
      if read_u64_le (drop 1 reply) == u.key
      then (rest_ok, record u { accepted = taken reply } ∷ rest, left)
      else (false, u ∷ us, behind)

module _ (c : Compressor) (x : Checksum) (h : Hasher) where
  -- `incoming` is what the server still sends; `submits` counts the requests to the storage reader.
  pub record Worker : Type 0 where
    pub integrity : Bool
    pub accept_mode : Bool
    pub hash_first : Bool
    pub next_key : ℕ
    pub pending : List PendingUnit
    pub compressor : c.State
    pub net : Network
    pub incoming : List ℕ
    pub submits : ℕ
    pub events : List UploadEvent

  abbrev pub emitted : Worker → UploadEvent → Worker
  emitted s e = record s { events = s.events ++ e ∷ [] }

  -- The buffers that the storage reader fills for its n-th request.
  module _ (reads : ℕ → Task → List (List ℕ)) where
    abbrev pub hash_blocks : h.State → List (List ℕ) → h.State
    hash_blocks state [] = state
    hash_blocks state (block ∷ blocks) = hash_blocks (h.update state block) blocks

    unfoldable pub hash_unit : Worker → Task → List ℕ × Worker
    hash_unit s t =
        (h.finalize (hash_blocks h.init (reads s.submits t)), record s { submits = s.submits + 1 })

    unfoldable pub send : Worker → Task → List ℕ → Bool × Worker
    unfolding upload
    send s t header =
        let begun = emitted s (upload_started t) in
        let (ok, after) = upload c x s.integrity s.net s.compressor header (reads s.submits t) in
        (
          ok,
          emitted
              (record begun {
                net = after.net;
                compressor = after.compressor;
                submits = if (enqueue s.net header).0 then s.submits + 1 else s.submits;
              })
              (upload_finished t after.compressed_bytes ok),
        )

    -- `probe`, with the hash of the unit where the server wants one.
    unfoldable pub send_probe : Worker → Task → Bool × Worker
    unfolding hash_unit
    send_probe s t =
        let (hash, hashed) = hash_unit s t in
        let asked = if s.hash_first then hashed else s in
        let frame = probe_frame s.next_key t (if s.hash_first then hash else []) in
        let (ok, net) = enqueue s.net frame in
        (
          ok,
          record asked {
            next_key = u64 (s.next_key + 1);
            pending = s.pending ++ record { key = s.next_key; task = t; accepted = false } ∷ [];
            net = net;
          },
        )

    -- The accepted units go out, the others are reported.
    unfoldable pub send_accepted : Worker → List PendingUnit → Bool × Worker
    unfolding send
    send_accepted s [] = (true, s)
    send_accepted s (u ∷ us) =
        let turn : Bool × Worker =
          if u.accepted
          then send s u.task (accepted_header u.key)
          else (true, emitted s (upload_skipped u.task)) in
        let rest = send_accepted turn.1 us in if turn.0 then rest else turn

    unfoldable pub resolve : Worker → Bool × Worker
    unfolding read_replies send_accepted
    resolve s =
        let (drained, net) = enqueue s.net [] in
        let (ok, units, left) = read_replies drained s.pending s.incoming in
        let read = record s { net = net; incoming = left; pending = [] } in
        if ok then send_accepted read units else (false, read)

    -- `idle`: there is no channel, or no task waits in it.
    unfoldable pub process : Worker → (idle : Bool) → Task → Bool × Worker
    unfolding send send_probe resolve
    process s idle t =
        let (probed, asked) = send_probe s t in
        if not s.accept_mode
        then send s t (unit_header t)
        else if not probed
        then (false, asked)
        else if leb probe_window (length asked.pending) || idle
        then resolve asked
        else (true, asked)

  unfoldable pub finish : Worker → Worker
  finish s = record s { net = (enqueue s.net (unit_code end_of_session ∷ [])).1 }
