-- ===== src/Upload/Units.antt =====
-- server/connection.cxx: `handle_probe`, `handle_upload` and `consumer_main`.
use dicker.Base.{
  ℕ, zero, suc, ◌+◌, Bool, true, false, ◌||◌, not, List, [], ◌∷◌, ◌++◌, Option, none, some,
  if◌then◌else◌, u64, ltb, ◌==◌, length, drop, get_or,
}
use dicker.Protocol.{
  UnitType, file, chunk, probe, accepted, end_of_session, unit_of, max_path_length, mode_accept,
  mode_hash_first, has_mode, decision_code, accept, reject, cmd_upload, probe_hash_size,
}
use dicker.Wire.{at, read_u16_le, read_u64_le, write_u64_le}
use dicker.Upload.Session.{
  Settings, Session, Probe, AcceptedUnit, started, closed_file, finished, skipped, posted, Reason,
  no_reason, rejected, read_exact, on_read, assign, find, erase, logged,
}
use dicker.Upload.Blocks.{block_loop, check_trailer}

-- An iteration of the loop goes on (`continue`, or its end) or leaves it (`break`).
pub data Turn (D : Type 0) : Type 0 where
  go_on : Session D → Turn D
  leave : Session D → Turn D

-- `next` follows where the loop goes on.
abbrev pub on_turn : {D : Type 0} → Turn D → (Session D → Session D) → Session D
on_turn (go_on s) next = next s
on_turn (leave s) next = s

-- A probe that is not answered ends the loop.
abbrev pub probed : {D : Type 0} → Session D → Option (Session D) → Turn D
probed s none = leave s
probed s (some s') = go_on s'

-- A unit whose header was read.
pub record Head (D : Type 0) : Type 0 where
  pub type : UnitType
  pub path : List ℕ
  pub base_offset : ℕ
  pub session : Session D

abbrev pub is_chunk : UnitType → Bool
is_chunk chunk = true
is_chunk _ = false

-- A type that a probe may name.
abbrev pub probe_kind : Option UnitType → Option UnitType
probe_kind (some file) = some file
probe_kind (some chunk) = some chunk
probe_kind _ = none

abbrev pub on_kind : {S : Type 0} → Option UnitType → (UnitType → Option S) → Option S
on_kind none next = none
on_kind (some type) next = next type

module _ (w : Settings) where
  open w use {decompressor, checksum, integrity_checks, mode, filter, can_open}

  abbrev S : Type 0
  S = Session decompressor.State

  -- The filter's answer to a probe: remembered under its key, or reported; then the reply.
  unfoldable pub answer : S → ℕ → Probe → S
  answer s key p =
      let ok = filter p in
      let noted =
        if ok
        then record s {
          accepted =
              assign key (record { type = p.type; path = p.path; offset = p.offset }) s.accepted;
        }
        else logged s (skipped p) in
      logged noted
        (posted ((if ok then decision_code accept else decision_code reject) ∷ write_u64_le key))

  -- `none` is false, which leaves the upload loop.
  unfoldable pub handle_probe : S → Option S
  unfolding answer
  handle_probe s = on_read (read_exact 11 s.input) none λ head input₁.
      let key = read_u64_le head in
      let path_len = read_u16_le (drop 9 head) in
      let hash_len = if has_mode mode mode_hash_first then probe_hash_size else 0 in
      let body = λ (type : UnitType). on_read (read_exact path_len input₁) none λ path input₂.
        on_read (read_exact 32 input₂) none λ sizes input₃.
          on_read (read_exact hash_len input₃) none λ hash input₄. some (
            answer (record s { input = input₄ }) key
              (record {
                path = path;
                type = type;
                offset = read_u64_le sizes;
                length_of_unit = read_u64_le (drop 8 sizes);
                file_size = read_u64_le (drop 16 sizes);
                mtime = read_u64_le (drop 24 sizes);
                hash = hash;
              })) in
      on_kind (probe_kind (unit_of (get_or head 8 0)))
        λ type. if path_len == 0 || ltb max_path_length path_len then none else body type

  -- The unit that stands under a key, which is used up.
  abbrev known : S → ℕ → List ℕ → Option AcceptedUnit → Option (Head decompressor.State)
  known s key input none = none
  known s key input (some unit) = some (record {
    type = unit.type;
    path = unit.path;
    base_offset = unit.offset;
    session = record s { input = input; accepted = erase key s.accepted };
  })

  -- The header of a unit that was accepted before.
  unfoldable pub accepted_head : S → Option (Head decompressor.State)
  accepted_head s = on_read (read_exact 8 s.input) none λ key_bytes input₁.
      known s (read_u64_le key_bytes) input₁ (find (read_u64_le key_bytes) s.accepted)

  abbrev pub headed : S → UnitType → List ℕ → ℕ → List ℕ → Head decompressor.State
  headed s type path offset input = record {
    type = type;
    path = path;
    base_offset = offset;
    session = record s { input = input };
  }

  -- The header of a plain FILE or FILE_CHUNK unit.
  unfoldable pub plain_head : S → UnitType → Option (Head decompressor.State)
  plain_head s type = on_read (read_exact 2 s.input) none λ path_len_bytes input₁.
      let path_len = read_u16_le path_len_bytes in
      let body = on_read (read_exact path_len input₁) none λ path input₂.
        let with_offset =
          on_read (read_exact 8 input₂) none
            λ offset_bytes input₃. some (headed s type path (read_u64_le offset_bytes) input₃) in
        if is_chunk type then with_offset else some (headed s type path 0 input₂) in
      if path_len == 0 || ltb max_path_length path_len then none else body

  -- From the writer that is open to the end of the unit.
  unfoldable pub receive : ℕ → Head decompressor.State → Turn decompressor.State
  unfolding block_loop check_trailer
  receive fuel h =
      let s = h.session in
      let e = check_trailer w (
        block_loop w fuel s.input s.decoder
          (record {
            is_chunk = is_chunk h.type;
            path = h.path;
            base_offset = h.base_offset;
            position = 0;
            running = 0;
            checksum_state = checksum.reset;
            effects = s.log;
          })
          0) in
      let closed =
        if is_chunk h.type then e.sink.effects else e.sink.effects ++ (closed_file h.path ∷ []) in
      let after = record s { input = e.input; decoder = e.decoder; log = closed } in
      let report = λ (ok : Bool) (reason : Reason).
        finished h.type h.path h.base_offset e.unit_wire e.sink.running ok reason in
      if not e.unit_ok || not e.unit_done
      then leave (logged after (report false e.failure))
      else go_on (
          logged
            (record after {
              units_done = u64 (s.units_done + 1);
              bytes_total = u64 (s.bytes_total + e.sink.running);
            })
            (report true no_reason))

  -- A unit behind its header: announced, opened or rejected, received.
  unfoldable pub handle_unit : ℕ → S → Option (Head decompressor.State) → Turn decompressor.State
  unfolding receive
  handle_unit fuel s none = leave s
  handle_unit fuel s (some h) =
      let announced = record h {
        session = logged h.session (started h.type h.path h.base_offset);
      } in
      if can_open h.type h.path
      then receive fuel announced
      else leave
          (logged announced.session (finished h.type h.path h.base_offset 0 0 false rejected))

  -- One iteration of the loop behind the type byte.
  unfoldable pub on_type : ℕ → S → Option UnitType → Turn decompressor.State
  unfolding handle_unit handle_probe accepted_head plain_head
  on_type fuel s none = leave s
  on_type fuel s (some end_of_session) = leave s
  on_type fuel s (some probe) =
      if has_mode mode mode_accept then probed s (handle_probe s) else leave s
  on_type fuel s (some accepted) =
      if has_mode mode mode_accept then handle_unit fuel s (accepted_head s) else leave s
  on_type fuel s (some file) =
      if has_mode mode mode_accept then leave s else handle_unit fuel s (plain_head s file)
  on_type fuel s (some chunk) =
      if has_mode mode mode_accept then leave s else handle_unit fuel s (plain_head s chunk)

  -- An iteration takes at least a byte, so with the length of the input for fuel the next read fails when the
  -- fuel ends.
  unfoldable pub handle_upload : ℕ → S → S
  unfolding on_type
  handle_upload zero s = s
  handle_upload (suc fuel) s = on_read (read_exact 1 s.input) s λ type_byte input.
      on_turn (on_type (length input) (record s { input = input }) (unit_of (at type_byte 0)))
        λ s'. handle_upload fuel s'

  unfoldable pub consumer_main : S → S
  unfolding handle_upload
  consumer_main s = on_read (read_exact 1 s.input) s λ cmd_byte input.
      let opened = record s { input = input } in
      if at cmd_byte 0 == cmd_upload then handle_upload (length input) opened else opened
