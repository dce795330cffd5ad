-- ===== src/Upload/Session.antt =====
-- server/connection.h: the state of the consumer thread, and what it does to the world.
use dicker.Base.{
  ℕ, Bool, List, [], ◌∷◌, ◌++◌, Option, none, some, length, take, drop, ltb, if◌then◌else◌, ◌==◌,
}
use dicker.Protocol.{UnitType}
use dicker.Codec.{Decompressor}

-- XXH64 (shared/xxhash.h): its state, `XXH64_reset`, `XXH64_update` and `XXH64_digest`.
pub record Checksum : Type 1 where
  pub State : Type 0
  pub reset : State
  pub update : State → List ℕ → State
  pub digest : State → ℕ

pub record AcceptedUnit : Type 0 where
  pub type : UnitType
  pub path : List ℕ
  pub offset : ℕ

-- server/server.h, `Probe`, less the session and the peer.
pub record Probe : Type 0 where
  pub path : List ℕ
  pub type : UnitType
  pub offset : ℕ
  pub length_of_unit : ℕ
  pub file_size : ℕ
  pub mtime : ℕ
  pub hash : List ℕ

pub data Reason : Type 0 where
  no_reason rejected connection_lost protocol_error decode_error checksum_mismatch : Reason

-- What other parts of the program see: events for the application, calls on files, replies.
pub data Effect : Type 0 where
  started : UnitType → List ℕ → ℕ → Effect
  wrote : List ℕ → ℕ → List ℕ → Effect
  write_failed : List ℕ → ℕ → List ℕ → Effect
  closed_file : List ℕ → Effect
  finished : UnitType → List ℕ → ℕ → (wire bytes : ℕ) → Bool → Reason → Effect
  skipped : Probe → Effect
  posted : List ℕ → Effect

-- What does not change while the consumer runs.
pub record Settings : Type 1 where
  pub decompressor : Decompressor
  pub checksum : Checksum
  pub integrity_checks : Bool
  pub mode : ℕ
  pub filter : Probe → Bool
  -- whether `open_sequential` and `open_offset` give a valid writer, and a write succeeds
  pub can_open : UnitType → List ℕ → Bool
  pub can_write : List ℕ → ℕ → List ℕ → Bool

pub record Session (D : Type 0) : Type 0 where
  pub input : List ℕ
  pub decoder : D
  pub accepted : List (ℕ × AcceptedUnit)
  pub units_done : ℕ
  pub bytes_total : ℕ
  pub log : List Effect

-- `read_exact`: the next `n` bytes, or false at the end of the stream.
unfoldable pub read_exact : ℕ → List ℕ → Option (List ℕ × List ℕ)
read_exact n input = if ltb (length input) n then none else some (take n input, drop n input)

-- What follows a read: `stop` where it was false.
abbrev pub on_read {ℓ} : {B : Type ℓ} → Option (List ℕ × List ℕ) → B → (List ℕ → List ℕ → B) → B
on_read none stop next = stop
on_read (some (bytes, input)) stop next = next bytes input

-- `accepted_[key] = unit`
unfoldable pub assign : ℕ → AcceptedUnit → List (ℕ × AcceptedUnit) → List (ℕ × AcceptedUnit)
assign key unit [] = (key, unit) ∷ []
assign key unit ((k, u) ∷ m) = if k == key then (key, unit) ∷ m else (k, u) ∷ assign key unit m

unfoldable pub find : ℕ → List (ℕ × AcceptedUnit) → Option AcceptedUnit
find key [] = none
find key ((k, u) ∷ m) = if k == key then some u else find key m

unfoldable pub erase : ℕ → List (ℕ × AcceptedUnit) → List (ℕ × AcceptedUnit)
erase key [] = []
erase key ((k, u) ∷ m) = if k == key then m else (k, u) ∷ erase key m

abbrev pub logged : {D : Type 0} → Session D → Effect → Session D
logged s e = record s { log = s.log ++ (e ∷ []) }
