-- ===== src/Transfer/Unit.antt =====
-- client/worker.h, `upload`, against server/connection.cxx, `handle_upload`: one unit from end to end.
use dicker.Base.{
  ℕ, suc, ◌-◌, ◌≤◌, ◌<◌, ◌≡◌, refl, sym, ap, ap₂, ◌∙◌, Bool, true, false, List, [], ◌∷◌, ◌++◌,
  length, length-append, append_assoc, if◌then◌else◌, arith, All, Bool-cases, inl, inr, ◌^◌, not,
}
use mathlib.Core.Path.{subst}
use dicker.Protocol.{block_code, end_of_unit}
use dicker.Wire.{write_u64_le}
use dicker.Codec.{Compressor, Agrees, joined, read_block}
use dicker.Upload.Session.{Settings, Checksum}
use dicker.Upload.Sink.{UnitSink, write_pieces, write}
use dicker.Upload.Blocks.{block_loop, check_trailer}
use dicker.Client.Worker.Upload.{
  Network, enqueue, Sending, emit, send_filled, send_all, finish_unit, upload,
}
use dicker.Transfer.Step.{Writable, done, end_step, trailer_step}
use dicker.Transfer.Send.{Through, joined-append, enqueue_ok}
use dicker.Transfer.Whole.{send_all_ok, flush_ok, Carried-both, emit-compressor, emit-checksum}

-- What the code relies on in XXH64: the digest is 64 bits wide and does not depend on how the input is cut.
pub record Streams (x : Checksum) : Type 0 where
  pub update_nil : (s : x.State) → x.update s [] ≡ s
  pub update_append : (s : x.State) (a b : List ℕ) → x.update (x.update s a) b ≡ x.update s (a ++ b)
  pub digest_small : (s : x.State) → x.digest s < 2 ^ 64

module _ (c : Compressor) (w : Settings) (agrees : Agrees c w.decompressor) (ok : Writable w)
    (streams : Streams w.checksum) where
  open w use {decompressor, checksum, integrity_checks}

  abbrev Out : Type 0
  Out = Sending c checksum integrity_checks

  abbrev flushed : Out → Bool × Out
  flushed s =
      emit c checksum integrity_checks (record s { compressor = (c.flush s.compressor).1 })
        (c.flush s.compressor).0

  abbrev summed : checksum.State → List ℕ → checksum.State
  summed x bytes = if integrity_checks then checksum.update x bytes else x

  summed-append : (x : checksum.State) (a b : List ℕ) → summed (summed x a) b ≡ summed x (a ++ b)
  summed-append x a b = elim (Bool-cases integrity_checks) [
    | inl e ↦ rw e (streams.update_append x a b)
    | inr e ↦ rw e
  ]

  summed-nil : (x : checksum.State) → summed x [] ≡ x
  summed-nil x = elim (Bool-cases integrity_checks) [
    | inl e ↦ rw e (streams.update_nil x)
    | inr e ↦ rw e
  ]

  write_pieces-checksum :
      (ps : List (List ℕ)) (sink : UnitSink checksum.State)
      → (write_pieces w sink ps).1.checksum_state ≡ summed sink.checksum_state (joined ps)
  unfolding write_pieces write
  write_pieces-checksum [] sink = sym (summed-nil sink.checksum_state)
  write_pieces-checksum (p ∷ ps) sink =
      rw ok (write_pieces-checksum ps _ ∙ summed-append sink.checksum_state p (joined ps))

  send_filled-checksum :
      (s : Out) (block : List ℕ)
      → (send_filled c checksum integrity_checks s block).1.checksum ≡ summed s.checksum block
  unfolding send_filled
  send_filled-checksum s block = emit-checksum c w agrees ok _ (c.update s.compressor block).0

  send_all-checksum :
      (blocks : List (List ℕ)) (s : Out)
      → (send_all c checksum integrity_checks s blocks).0 ≡ true
      → (send_all c checksum integrity_checks s blocks).1.checksum
        ≡ summed s.checksum (joined blocks)
  unfolding send_all
  send_all-checksum [] s sent = sym (summed-nil s.checksum)
  send_all-checksum (b ∷ bs) s sent =
      let after = (send_filled c checksum integrity_checks s b).1 in
      elim (Bool-cases (send_filled c checksum integrity_checks s b).0) [
        | inl one ↦ rw one (
            send_all-checksum bs after (rw one at sent)
            ∙ ap (λ t. summed t (joined bs)) (send_filled-checksum s b)
            ∙ summed-append s.checksum b (joined bs))
        | inr dropped ↦ let bad : false ≡ true = rw dropped at sent in cc
      ]

  -- What stands behind the last block of a unit.
  abbrev ending : checksum.State → List ℕ
  ending x =
      block_code end_of_unit ∷ (if integrity_checks then write_u64_le (checksum.digest x) else [])

  finish-flushed :
      (s : Out) → (finish_unit c checksum integrity_checks s).0 ≡ true → (flushed s).0 ≡ true
  unfolding finish_unit
  finish-flushed s sent = elim (Bool-cases (flushed s).0) [
    | inl e ↦ e
    | inr e ↦ let bad : false ≡ true = rw e at sent in cc
  ]

  -- The end of a unit, once what was flushed has gone out.
  abbrev closing : Out → List ℕ → Bool → Bool × Out
  closing after digest i =
      let (closed, net₁) = enqueue after.net (block_code end_of_unit ∷ []) in
      let (sent, net₂) = enqueue net₁ digest in
      if not closed
      then (false, record after { net = net₁ })
      else if i
      then (sent, record after { net = net₂ })
      else (true, record after { net = net₁ })

  closing_ok :
      (after : Out) (digest : List ℕ) (i : Bool)
      → (closing after digest i).0 ≡ true
      → ((closing after digest i).1.net.sent
          ≡ after.net.sent ++ (block_code end_of_unit ∷ (if i then digest else [])))
        × ((closing after digest i).1.compressor ≡ after.compressor)
        × ((closing after digest i).1.compressed_bytes ≡ after.compressed_bytes)
  closing_ok after digest i sent =
      elim (Bool-cases (enqueue after.net (block_code end_of_unit ∷ [])).0) [
        | inl closed ↦ elim (Bool-cases i) [
          | inl checked ↦
              rw (closed, checked)
                (
                  enqueue_ok (enqueue after.net (block_code end_of_unit ∷ [])).1 digest
                        (rw (closed, checked) at sent)
                      ∙ ap (λ t. t ++ digest)
                          (enqueue_ok after.net (block_code end_of_unit ∷ []) closed)
                      ∙ append_assoc after.net.sent (block_code end_of_unit ∷ []) digest,
                  refl,
                  refl,
                )
          | inr plain ↦
              rw (closed, plain)
                (enqueue_ok after.net (block_code end_of_unit ∷ []) closed, refl, refl)
        ]
        | inr dropped ↦ let bad : false ≡ true = rw dropped at sent in cc
      ]

  finish-closing :
      (s : Out)
      → (flushed s).0 ≡ true
      → finish_unit c checksum integrity_checks s
        ≡ closing (flushed s).1 (write_u64_le (checksum.digest s.checksum)) integrity_checks
  unfolding finish_unit
  finish-closing s e = rw e

  abbrev start : Network → c.State → List ℕ → Out
  start net cs header = record {
    net = (enqueue net header).1;
    compressor = cs;
    checksum = checksum.reset;
    compressed_bytes = 0;
  }

  abbrev after_blocks : Network → c.State → List ℕ → List (List ℕ) → Bool × Out
  after_blocks net cs header blocks =
      send_all c checksum integrity_checks (start net cs header) blocks

  upload_parts :
      (net : Network) (cs : c.State) (header : List ℕ) (blocks : List (List ℕ))
      → (upload c checksum integrity_checks net cs header blocks).0 ≡ true
      → ((enqueue net header).0 ≡ true)
        × ((after_blocks net cs header blocks).0 ≡ true)
        × (upload c checksum integrity_checks net cs header blocks
            ≡ finish_unit c checksum integrity_checks (after_blocks net cs header blocks).1)
  unfolding upload
  upload_parts net cs header blocks sent = elim (Bool-cases (enqueue net header).0) [
    | inl one ↦ elim (Bool-cases (after_blocks net cs header blocks).0) [
      | inl all ↦ (one, all, rw (one, all))
      | inr dropped ↦ let bad : false ≡ true = rw (one, dropped) at sent in cc
    ]
    | inr dropped ↦ let bad : false ≡ true = rw dropped at sent in cc
  ]

  ending-append :
      (x : checksum.State) (rest : List ℕ)
      → ending x ++ rest
        ≡ block_code end_of_unit
          ∷ (if integrity_checks then write_u64_le (checksum.digest x) ++ rest else rest)
  ending-append x rest = elim (Bool-cases integrity_checks) [ inl e ↦ rw e | inr e ↦ rw e ]

  -- The server's side behind the blocks.
  ending_taken :
      (x : checksum.State) (m : ℕ) (rest : List ℕ) (ds : decompressor.State)
      (sink : UnitSink checksum.State) (wire : ℕ)
      → x ≡ sink.checksum_state
      → check_trailer w (block_loop w (suc m) (ending x ++ rest) ds sink wire)
        ≡ done w rest ds sink wire
  ending_taken x m rest ds sink wire e =
      ap (λ i. check_trailer w (block_loop w (suc m) i ds sink wire))
        (ap (λ y. ending y ++ rest) e ∙ ending-append sink.checksum_state rest)
      ∙ ap (check_trailer w) (end_step w m _ ds sink wire)
      ∙ trailer_step w rest ds sink wire (streams.digest_small sink.checksum_state)

  body_taken :
      (bytes : List ℕ) (x : checksum.State) (fuel : ℕ) (rest : List ℕ) {ds ds' : decompressor.State}
      {sink sink' : UnitSink checksum.State} {wire wire' : ℕ}
      → Through w bytes ds sink wire ds' sink' wire'
      → x ≡ sink'.checksum_state
      → suc (length bytes) ≤ fuel
      → check_trailer w (block_loop w fuel ((bytes ++ ending x) ++ rest) ds sink wire)
        ≡ done w rest ds' sink' wire'
  body_taken bytes x fuel rest {ds} {ds'} {sink} {sink'} {wire} {wire'} t e enough =
      let m = fuel - suc t.count in
      ap (λ i. check_trailer w (block_loop w fuel i ds sink wire))
        (append_assoc bytes (ending x) rest)
      ∙ ap (check_trailer w) (t.runs fuel (suc m) (ending x ++ rest) (omega (arith, t.count_le)))
      ∙ ending_taken x m rest ds' sink' wire' e

  grown_lem :
      (net : Network) (header bytes closing_bytes flushed_bytes sent : List ℕ)
      → (enqueue net header).0 ≡ true
      → flushed_bytes ≡ (enqueue net header).1.sent ++ bytes
      → sent ≡ flushed_bytes ++ closing_bytes
      → sent ≡ net.sent ++ (header ++ (bytes ++ closing_bytes))
  grown_lem net header bytes closing_bytes flushed_bytes sent one e e' =
      let first = enqueue_ok net header one in
      e'
      ∙ ap (λ t. t ++ closing_bytes) (e ∙ ap (λ t. t ++ bytes) first)
      ∙ append_assoc (net.sent ++ header) bytes closing_bytes
      ∙ append_assoc net.sent header (bytes ++ closing_bytes)

  length_le :
      (net : Network) (header bytes tail sent : List ℕ) (fuel : ℕ)
      → sent ≡ net.sent ++ (header ++ (bytes ++ (block_code end_of_unit ∷ tail)))
      → length sent ≤ fuel
      → suc (length bytes) ≤ fuel
  length_le net header bytes tail sent fuel e enough = omega (
    arith,
    ap length e,
    length-append net.sent (header ++ (bytes ++ (0 ∷ tail))),
    length-append header (bytes ++ (0 ∷ tail)),
    length-append bytes (0 ∷ tail),
  )

  -- A unit that the client has sent, and what the server makes of it.
  pub record Delivered (net : Network) (cs : c.State) (header : List ℕ) (blocks : List (List ℕ))
      (ds : decompressor.State) (sink : UnitSink checksum.State) (rest : List ℕ) (fuel : ℕ)
      : Type 0 where
    pub body : List ℕ
    pub pieces : List (List ℕ)
    pub decoder : decompressor.State
    pub sent :
        (upload c checksum integrity_checks net cs header blocks).1.net.sent
        ≡ net.sent ++ (header ++ body)
    pub whole : joined pieces ≡ joined blocks
    pub received :
        check_trailer w (block_loop w fuel (body ++ rest) ds sink 0)
        ≡ done w rest decoder
            (write_pieces w sink pieces).1
            (upload c checksum integrity_checks net cs header blocks).1.compressed_bytes
    pub in_step :
        agrees.Lag (upload c checksum integrity_checks net cs header blocks).1.compressor decoder []

  -- Given a compressor and a decompressor of which no call fails and that agree, a checksum of 64 bits that does not depend on how
  -- its input is cut, and a server of which every write to a file succeeds: if the client's `upload` returns true on
  -- blocks of at most READ_BLOCK bytes and starts with the codecs in step and the server's checksum reset, then what it
  -- has sent is the header and a body; and the server's block loop, on fuel for the bytes sent, and trailer check, run on
  -- that body with whatever follows it, end with the unit done and its checksum accepted, have consumed exactly the body,
  -- have written pieces that are together the blocks, have counted the bytes that the client counted, and leave the
  -- codecs in step.
  pub upload-block_loop :
      (net : Network) (cs : c.State) (header : List ℕ) (blocks : List (List ℕ))
      (ds : decompressor.State) (sink : UnitSink checksum.State) (rest : List ℕ) (fuel : ℕ)
      → All (λ b. length b ≤ read_block) blocks
      → agrees.Lag cs ds []
      → sink.checksum_state ≡ checksum.reset
      → (upload c checksum integrity_checks net cs header blocks).0 ≡ true
      → length (upload c checksum integrity_checks net cs header blocks).1.net.sent ≤ fuel
      → Delivered net cs header blocks ds sink rest fuel
  upload-block_loop net cs header blocks ds sink rest fuel small lag fresh sent enough =
      let (one, all, whole_upload) = upload_parts net cs header blocks sent in
      let after = (after_blocks net cs header blocks).1 in
      let first = send_all_ok c w agrees ok blocks (start net cs header) [] ds small lag all in
      let finished : (finish_unit c checksum integrity_checks after).0 ≡ true =
        sym (ap (λ t. t.0) whole_upload) ∙ sent in
      let went = finish-flushed after finished in
      let (ds', ps, carried, held, lag') =
        flush_ok c w agrees ok after first.rest first.decoder first.lag went in
      let (grown, comp, count) =
        closing_ok (flushed after).1 (write_u64_le (checksum.digest after.checksum))
          integrity_checks (sym (ap (λ t. t.0) (finish-closing after went)) ∙ finished) in
      let as_closing = whole_upload ∙ finish-closing after went in
      let both = Carried-both c w agrees ok first.pieces ps first.carried carried in
      let body = both.bytes ++ ending after.checksum in
      let on_wire =
        grown_lem net header both.bytes (ending after.checksum) _ _ one both.grown
          (ap (λ t. t.1.net.sent) as_closing ∙ grown) in
      let whole : joined (first.pieces ++ ps) ≡ joined blocks =
        joined-append first.pieces ps
        ∙ ap (λ t. joined first.pieces ++ t) (sym held)
        ∙ sym first.covers in
      let digests : after.checksum ≡ (write_pieces w sink (first.pieces ++ ps)).1.checksum_state =
        send_all-checksum blocks (start net cs header) all
        ∙ ap₂ summed (sym fresh) (sym whole)
        ∙ sym (write_pieces-checksum (first.pieces ++ ps) sink) in
      let fits =
        length_le net header both.bytes
          (if integrity_checks then write_u64_le (checksum.digest after.checksum) else []) _ fuel
          on_wire enough in
      record {
        body = body;
        pieces = first.pieces ++ ps;
        decoder = ds';
        sent = on_wire;
        whole = whole;
        received =
            body_taken both.bytes after.checksum fuel rest (both.through sink) digests fits
            ∙ ap (done w rest ds' (write_pieces w sink (first.pieces ++ ps)).1)
                (sym (ap (λ t. t.1.compressed_bytes) as_closing ∙ count));
        in_step =
            subst (λ t. agrees.Lag t ds' [])
              (sym (
                ap (λ t. t.1.compressor) as_closing
                ∙ comp
                ∙ emit-compressor c w agrees ok
                    (record after { compressor = (c.flush after.compressor).1 })
                    (c.flush after.compressor).0))
              lag';
      }
