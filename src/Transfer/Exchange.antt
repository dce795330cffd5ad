-- ===== src/Transfer/Exchange.antt =====
-- client/worker.h, `resolve`, against what server/connection.cxx answers to its probes.
use dicker.Base.{
  ℕ, suc, ◌<◌, ◌≡◌, refl, sym, ap, true, false, Bool, List, [], ◌∷◌, ◌++◌, length, append_assoc,
  if◌then◌else◌, ◌==◌, ◌^◌, ==_refl,
}
use dicker.Protocol.{decision_code, accept, reject}
use dicker.Wire.{write_u64_le}
use dicker.Wire.RoundTrip.{length-write_u64_le}
use dicker.Upload.Session.{Settings, Session, posted, Effect}
use dicker.Upload.Units.{answer}
use dicker.Codec.{Compressor}
use dicker.Upload.Session.{Checksum}
use dicker.Client.Worker.Frames.{Task, probe_frame}
use dicker.Client.Worker.Upload.{enqueue}
use dicker.Client.Worker.Session.{PendingUnit, read_replies, Hasher, Worker, resolve, send_accepted}
use dicker.Transfer.Step.{read_exact-append}
use dicker.Transfer.Header.{read_u64}
use dicker.Transfer.Probes.{IsProbeable, probe_of, hash_length}

-- The bytes that go back to the client.
abbrev pub posted_bytes : List Effect → List ℕ
posted_bytes [] = []
posted_bytes (posted bytes ∷ log) = bytes ++ posted_bytes log
posted_bytes (_ ∷ log) = posted_bytes log

-- A unit that waits for its reply, with the hash that went out for it.
pub record Asked : Type 0 where
  pub unit : PendingUnit
  pub hash : List ℕ

abbrev pub units : List Asked → List PendingUnit
units [] = []
units (a ∷ rs) = a.unit ∷ units rs

abbrev pub frames : List Asked → List ℕ
frames [] = []
frames (a ∷ rs) = probe_frame a.unit.key a.unit.task a.hash ++ frames rs

taken-decision :
    (b : Bool)
    → ((if b then decision_code accept else decision_code reject) == decision_code accept) ≡ b
taken-decision true = refl
taken-decision false = refl

module _ (w : Settings) where
  open w use {decompressor, filter}

  abbrev pub IsAsked : Asked → Type 0
  IsAsked a = IsProbeable a.unit.task × (a.unit.key < 2 ^ 64) × (length a.hash ≡ hash_length w)

  abbrev pub AllAsked : List Asked → Type 0
  AllAsked [] = Unit
  AllAsked (a ∷ rs) = IsAsked a × AllAsked rs

  abbrev pub wanted : Asked → Bool
  wanted a = filter (probe_of a.unit.task a.hash)

  -- The units with the filter's decisions.
  abbrev pub decided : List Asked → List PendingUnit
  decided [] = []
  decided (a ∷ rs) = record a.unit { accepted = wanted a } ∷ decided rs

  abbrev pub reply : Asked → List ℕ
  reply a =
      (if wanted a then decision_code accept else decision_code reject) ∷ write_u64_le a.unit.key

  abbrev pub replies : List Asked → List ℕ
  replies [] = []
  replies (a ∷ rs) = reply a ++ replies rs

  -- The session when the probes have been answered.
  abbrev pub answered : Session decompressor.State → List Asked → Session decompressor.State
  answered s [] = s
  answered s (a ∷ rs) = answered (answer w s a.unit.key (probe_of a.unit.task a.hash)) rs

  -- The worker takes each reply for its unit.
  read_replies-replies :
      (rs : List Asked) (more : List ℕ)
      → AllAsked rs
      → read_replies true (units rs) (replies rs ++ more) ≡ (true, decided rs, more)
  unfolding read_replies
  read_replies-replies [] more ok = refl
  read_replies-replies (a ∷ rs) more ok =
      rw
        (
          append_assoc (reply a) (replies rs) more,
          read_exact-append 9 (reply a) (replies rs ++ more)
              (ap suc (sym (length-write_u64_le a.unit.key))),
        )
        (rw (
          read_u64 a.unit.key ((ok.0).1),
          ==_refl a.unit.key,
          taken-decision (wanted a),
          read_replies-replies rs more ok.1,
        ))

-- Where the worker's frames went out and the server answers as above, `resolve` sends the units that the filter takes, in
-- the order of the probes, and reports the others; no probe is pending any more, and what the server sends next is unread.
module _ (c : Compressor) (x : Checksum) (h : Hasher) (reads : ℕ → Task → List (List ℕ)) where
  pub resolve-replies :
      (w : Settings) (s : Worker c x h) (rs : List Asked) (more : List ℕ)
      → AllAsked w rs
      → s.pending ≡ units rs
      → s.incoming ≡ replies w rs ++ more
      → (enqueue s.net []).0 ≡ true
      → resolve c x h reads s
        ≡ send_accepted c x h reads
            (record s { net = (enqueue s.net []).1; incoming = more; pending = [] })
            (decided w rs)
  unfolding resolve
  resolve-replies w s rs more ok waiting sent drained =
      rw (drained, waiting, sent, read_replies-replies w rs more ok)
