-- ===== src/Transfer/Whole.antt =====
-- A unit from the client's compressor to the server's sink: the induction over the blocks that are sent.
use dicker.Base.{
  ℕ, ◌≤◌, ◌≡◌, ◌≢◌, refl, sym, ap, ◌∙◌, true, false, List, [], ◌∷◌, ◌++◌, length, append_assoc,
  append-nil, if◌then◌else◌, ◌==◌, arith, All, Bool-cases, inl, inr, ◌⊎◌,
}
use mathlib.Core.Path.{subst}
use dicker.Codec.{Compressor, Agrees, joined, read_block}
use dicker.Upload.Session.{Settings}
use dicker.Upload.Sink.{UnitSink, write_pieces}
use dicker.Client.Worker.Frames.{block_header}
use dicker.Client.Worker.Upload.{send_block, Sending, emit, send_filled, send_all}
use dicker.Transfer.Step.{Writable}
use dicker.Transfer.Send.{
  Through, Through-nothing, Through-both, Through-block, write_pieces-append, joined-append,
  send_block_ok,
}

module _ (c : Compressor) (w : Settings) (agrees : Agrees c w.decompressor) (ok : Writable w) where
  open w use {decompressor, checksum, integrity_checks}

  -- What went out between two states of the channel takes the block loop from one decoder to another, and
  -- `pieces` to the sink, whichever it is.
  pub record Carried (sent : List ℕ) (wire : ℕ) (sent' : List ℕ) (wire' : ℕ)
      (ds ds' : decompressor.State) (pieces : List (List ℕ)) : Type 0 where
    pub bytes : List ℕ
    pub grown : sent' ≡ sent ++ bytes
    pub through :
        (sink : UnitSink checksum.State)
        → Through w bytes ds sink wire ds' (write_pieces w sink pieces).1 wire'

  Carried-nothing :
      (sent : List ℕ) (wire : ℕ) (ds : decompressor.State) → Carried sent wire sent wire ds ds []
  unfolding write_pieces
  Carried-nothing sent wire ds = record {
    bytes = [];
    grown = sym (append-nil sent);
    through = λ sink. Through-nothing w ds sink wire;
  }

  pub Carried-both :
      {s s' s'' : List ℕ} {n n' n'' : ℕ} {ds ds' ds'' : decompressor.State} (ps qs : List (List ℕ))
      → Carried s n s' n' ds ds' ps
      → Carried s' n' s'' n'' ds' ds'' qs
      → Carried s n s'' n'' ds ds'' (ps ++ qs)
  Carried-both {s} {n} {n''} {ds} {ds''} ps qs a b = record {
    bytes = a.bytes ++ b.bytes;
    grown = b.grown ∙ ap (λ t. t ++ b.bytes) a.grown ∙ append_assoc s a.bytes b.bytes;
    through = λ sink.
        subst (λ t. Through w (a.bytes ++ b.bytes) ds sink n ds'' t n'')
          (sym (write_pieces-append w ps qs sink ok))
          (Through-both w a.bytes b.bytes (a.through sink) (b.through (write_pieces w sink ps).1));
  }

  abbrev Out : Type 0
  Out = Sending c checksum integrity_checks

  emit_sends :
      (s : Out) (b : ℕ) (bs : List ℕ)
      → (emit c checksum integrity_checks s (b ∷ bs)).0 ≡ (send_block s.net (b ∷ bs)).0
  unfolding emit
  emit_sends s b bs = let e : (length (b ∷ bs) == 0) ≡ false = ground arith in rw e

  emit_block :
      (s : Out) (produced : List ℕ) (ds : decompressor.State)
      → (emit c checksum integrity_checks s produced).0 ≡ true
      → produced ≢ []
      → length produced ≤ 67108864
      → (decompressor.decompress ds produced).decodes ≡ true
      → Carried s.net.sent s.compressed_bytes
          (emit c checksum integrity_checks s produced).1.net.sent
          (emit c checksum integrity_checks s produced).1.compressed_bytes
          ds
          (decompressor.decompress ds produced).state
          (decompressor.decompress ds produced).pieces
  unfolding emit
  emit_block s [] ds sent some_bytes fits decodes = absurd (some_bytes refl)
  emit_block s (b ∷ bs) ds sent some_bytes fits decodes =
      let e : (length (b ∷ bs) == 0) ≡ false = ground arith in
      let taken : (send_block s.net (b ∷ bs)).0 ≡ true = sym (emit_sends s b bs) ∙ sent in
      rw (e, taken)
        (record {
          bytes = block_header (b ∷ bs) ++ (b ∷ bs);
          grown = send_block_ok s.net (b ∷ bs) taken;
          through = λ sink.
              Through-block w (b ∷ bs) ds sink s.compressed_bytes ok (omega arith) fits decodes;
        })

  pub emit-compressor :
      (s : Out) (produced : List ℕ)
      → (emit c checksum integrity_checks s produced).1.compressor ≡ s.compressor
  unfolding emit
  emit-compressor s [] = refl
  emit-compressor s (b ∷ bs) = let e : (length (b ∷ bs) == 0) ≡ false = ground arith in rw e

  pub emit-checksum :
      (s : Out) (produced : List ℕ)
      → (emit c checksum integrity_checks s produced).1.checksum ≡ s.checksum
  unfolding emit
  emit-checksum s [] = refl
  emit-checksum s (b ∷ bs) = let e : (length (b ∷ bs) == 0) ≡ false = ground arith in rw e

  -- The client after some blocks: what of them the sink has, and what the compressor still holds.
  pub record Sent (s s' : Out) (ds : decompressor.State) (content : List ℕ) : Type 0 where
    pub decoder : decompressor.State
    pub pieces : List (List ℕ)
    pub rest : List ℕ
    pub carried :
        Carried s.net.sent s.compressed_bytes s'.net.sent s'.compressed_bytes ds decoder pieces
    pub covers : content ≡ joined pieces ++ rest
    pub lag : agrees.Lag s'.compressor decoder rest

  nil-cases : (xs : List ℕ) → (xs ≡ []) ⊎ (xs ≢ [])
  nil-cases [] = inl refl
  nil-cases (x ∷ xs) = inr (λ e. cc)

  -- One block: silent, or framed and decoded.
  send_filled_ok :
      (s : Out) (block pending : List ℕ) (ds : decompressor.State)
      → length block ≤ read_block
      → agrees.Lag s.compressor ds pending
      → (send_filled c checksum integrity_checks s block).0 ≡ true
      → Sent s (send_filled c checksum integrity_checks s block).1 ds (pending ++ block)
  unfolding send_filled emit
  send_filled_ok s block pending ds small lag sent =
      let (produced, after) = c.update s.compressor block in
      let start : Out = record s {
        compressor = after;
        checksum = if integrity_checks then checksum.update s.checksum block else s.checksum;
      } in
      elim (nil-cases (c.update s.compressor block).0) [
        | inl silent ↦ rw silent (record {
          decoder = ds;
          pieces = [];
          rest = pending ++ block;
          carried = Carried-nothing s.net.sent s.compressed_bytes ds;
          covers = refl;
          lag = agrees.update_silent s.compressor ds pending block small lag silent;
        })
        | inr some_bytes ↦
            let (rest, decodes, covers, lag') =
              agrees.update_block s.compressor ds pending block small lag some_bytes in
            let fits = agrees.update_fits s.compressor block small in
            record {
              decoder = _;
              pieces = (decompressor.decompress ds produced).pieces;
              rest = rest;
              carried = emit_block start produced ds sent some_bytes fits decodes;
              covers = covers;
              lag =
                  subst (λ t. agrees.Lag t (decompressor.decompress ds produced).state rest)
                    (sym (emit-compressor start produced)) lag';
            }
      ]

  sent_covers :
      (pending b bs : List ℕ) (ps qs : List (List ℕ)) (r r' : List ℕ)
      → pending ++ b ≡ joined ps ++ r
      → r ++ bs ≡ joined qs ++ r'
      → pending ++ (b ++ bs) ≡ joined (ps ++ qs) ++ r'
  sent_covers pending b bs ps qs r r' e e' =
      sym (append_assoc pending b bs)
      ∙ ap (λ t. t ++ bs) e
      ∙ append_assoc (joined ps) r bs
      ∙ ap (λ t. joined ps ++ t) e'
      ∙ sym (append_assoc (joined ps) (joined qs) r')
      ∙ ap (λ t. t ++ r') (sym (joined-append ps qs))

  pub send_all_ok :
      (blocks : List (List ℕ)) (s : Out) (pending : List ℕ) (ds : decompressor.State)
      → All (λ b. length b ≤ read_block) blocks
      → agrees.Lag s.compressor ds pending
      → (send_all c checksum integrity_checks s blocks).0 ≡ true
      → Sent s (send_all c checksum integrity_checks s blocks).1 ds (pending ++ joined blocks)
  unfolding send_all
  send_all_ok [] s pending ds small lag sent = record {
    decoder = ds;
    pieces = [];
    rest = pending;
    carried = Carried-nothing s.net.sent s.compressed_bytes ds;
    covers = append-nil pending;
    lag = lag;
  }
  send_all_ok (b ∷ bs) s pending ds small lag sent =
      let after = (send_filled c checksum integrity_checks s b).1 in
      elim (Bool-cases (send_filled c checksum integrity_checks s b).0) [
        | inl one ↦
            let first = send_filled_ok s b pending ds small.0 lag one in
            let more =
              send_all_ok bs after first.rest first.decoder small.1 first.lag (rw one at sent) in
            rw one (record {
              decoder = more.decoder;
              pieces = first.pieces ++ more.pieces;
              rest = more.rest;
              carried = Carried-both first.pieces more.pieces first.carried more.carried;
              covers =
                  sent_covers pending b (joined bs) first.pieces more.pieces first.rest more.rest
                    first.covers more.covers;
              lag = more.lag;
            })
        | inr dropped ↦ let bad : false ≡ true = rw dropped at sent in cc
      ]

  pub flush_ok :
      (s : Out) (pending : List ℕ) (ds : decompressor.State)
      → agrees.Lag s.compressor ds pending
      → (emit c checksum integrity_checks
          (record s { compressor = (c.flush s.compressor).1 })
          (c.flush s.compressor).0).0
        ≡ true
      → (ds' : decompressor.State) × (pieces : List (List ℕ)) × Carried s.net.sent
          s.compressed_bytes
          (emit c checksum integrity_checks
            (record s { compressor = (c.flush s.compressor).1 })
            (c.flush s.compressor).0).1.net.sent
          (emit c checksum integrity_checks
            (record s { compressor = (c.flush s.compressor).1 })
            (c.flush s.compressor).0).1.compressed_bytes
          ds
          ds'
          pieces
        × (pending ≡ joined pieces)
        × agrees.Lag (c.flush s.compressor).1 ds' []
  unfolding emit
  flush_ok s pending ds lag sent = elim (nil-cases (c.flush s.compressor).0) [
    | inl silent ↦
        let (empty, lag') = agrees.flush_silent s.compressor ds pending lag silent in
        rw silent (ds, [], Carried-nothing s.net.sent s.compressed_bytes ds, empty, lag')
    | inr some_bytes ↦
        let (decodes, covers, lag') = agrees.flush_block s.compressor ds pending lag some_bytes in
        let start : Out = record s { compressor = (c.flush s.compressor).1 } in
        (
          _,
          _,
          emit_block start (c.flush s.compressor).0 ds sent some_bytes
              (agrees.flush_fits s.compressor) decodes,
          covers,
          lag',
        )
  ]
