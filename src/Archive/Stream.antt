-- ===== src/Archive/Stream.antt =====
-- server/archive.cxx, the rounds of `refill_raw`, against the tar file that the entries make.
use dicker.Base.{
  ℕ, zero, suc, ◌≡◌, refl, sym, ap, ◌∙◌, min, List, [], ◌∷◌, ◌++◌, Bool, true, false, Option, none,
  some, if◌then◌else◌, not, ltb, ◌&&◌, length, take, replicate, append_assoc, append-nil, arith,
  if-keep, length-take, subst,
}
use dicker.Archive.{
  Entry, ArchiveStreamer, emit_header, begin_member, read_data, refill_round, refill_loop,
  raw_target, buf_size,
}
use dicker.Archive.Member.{
  padded, padded-short, all_read, none_left, nothing_left, member_of, tar_of,
}

module _ (files : Entry → Option (List ℕ)) where
  abbrev pub rest_of : List Entry → ArchiveStreamer → List ℕ
  rest_of [] s = if s.trailer_emitted then [] else replicate 1024 0
  rest_of (e ∷ es) s =
      if s.header_pending
      then tar_of files (e ∷ es)
      else padded s.cur_remaining s.cur ++ (replicate s.pad_remaining 0 ++ tar_of files es)

  -- What the archive still lacks.
  abbrev pub to_come : ArchiveStreamer → List ℕ
  to_come s = rest_of s.entries s

  abbrev whole : ArchiveStreamer → List ℕ
  whole s = s.raw ++ to_come s

  read_data_kept :
      (e : Entry) (es : List Entry) (s : ArchiveStreamer)
      → (let t : ArchiveStreamer = record s { entries = e ∷ es; header_pending = false } in
          whole (read_data files t) ≡ whole t)
  unfolding read_data
  read_data_kept e es s =
      let want : ℕ = min s.cur_remaining buf_size in
      let got : List ℕ = take want s.cur in
      let tail : List ℕ = replicate s.pad_remaining 0 ++ tar_of files es in
      if-keep (λ t. whole t ≡ whole (record s { entries = e ∷ es; header_pending = false }))
        (ltb (length got) want)
        (λ short.
          ap (λ l. l ++ tail) (append_assoc s.raw got _)
          ∙ append_assoc s.raw _ tail
          ∙ ap (λ l. s.raw ++ (l ++ tail))
              (padded-short s.cur_remaining want s.cur (omega arith) (ground arith)))
        (λ full.
          append_assoc s.raw got _
          ∙ ap (λ l. s.raw ++ l)
              (sym (append_assoc got _ tail)
                ∙ ap (λ l. l ++ tail)
                    (all_read s.cur_remaining want s.cur (omega arith)
                      (ground (arith, length-take want s.cur)))))

  rest_start :
      (es : List Entry) (s : ArchiveStreamer)
      → s.trailer_emitted ≡ false
      → rest_of es (record s { entries = es; header_pending = true }) ≡ tar_of files es
  rest_start [] s waits = rw waits
  rest_start (e ∷ es) s waits = refl

  begin_kept :
      (e : Entry) (es : List Entry) (s : ArchiveStreamer)
      → s.trailer_emitted ≡ false
      → (opened : Option (List ℕ))
      → whole (begin_member files (record s { entries = e ∷ es }) e es opened)
        ≡ s.raw ++ member_of files e opened (tar_of files es)
  begin_kept e es s waits none = ap (λ l. s.raw ++ l) (rest_start es (record s { cur = [] }) waits)
  begin_kept e es s waits (some content) = append_assoc s.raw (emit_header e.name e.size) _

  round_kept :
      (es : List Entry) (b : Bool) (s : ArchiveStreamer)
      → (let t : ArchiveStreamer = record s {
        entries = es;
        header_pending = b;
        trailer_emitted = false;
      } in
          whole (refill_round files es t) ≡ whole t)
  unfolding refill_round
  round_kept [] b s = append-nil (s.raw ++ replicate 1024 0)
  round_kept (e ∷ es) true s =
      begin_kept e es
        (record s { entries = e ∷ es; header_pending = true; trailer_emitted = false }) refl
        (files e)
  round_kept (e ∷ es) false s =
      let t : ArchiveStreamer = record s {
        entries = e ∷ es;
        header_pending = false;
        trailer_emitted = false;
      } in
      let tail : List ℕ = replicate s.pad_remaining 0 ++ tar_of files es in
      if-keep (λ u. whole u ≡ whole t) (ltb 0 s.cur_remaining) (λ _. read_data_kept e es t)
        (λ read.
          if-keep (λ u. whole u ≡ whole t) (ltb 0 s.pad_remaining)
            (λ _.
              rw (none_left s.cur_remaining read)
                (append_assoc s.raw (replicate s.pad_remaining 0) (tar_of files es)))
            (λ padded_out.
              ap (λ l. s.raw ++ l)
                (rest_start es (record t { cur = [] }) refl
                  ∙ nothing_left s.cur_remaining s.pad_remaining s.cur (tar_of files es)
                      (none_left s.cur_remaining read) (none_left s.pad_remaining padded_out))))

  -- A round keeps what is out and what is to come.
  pub refill_round_kept :
      (s : ArchiveStreamer)
      → s.trailer_emitted ≡ false
      → whole (refill_round files s.entries s) ≡ whole s
  refill_round_kept s waits =
      subst
        (λ b.
          (let t : ArchiveStreamer = record s { trailer_emitted = b } in
            whole (refill_round files t.entries t) ≡ whole t))
        (sym waits) (round_kept s.entries s.header_pending s)

  -- The trailer goes out as the input ends.
  abbrev pub Waits : ArchiveStreamer → Type 0
  Waits s = (s.trailer_emitted ≡ s.input_done) × (s.input_done ≡ true → s.entries ≡ [])

  pub refill_flags :
      (e : Entry) (es : List Entry) (s : ArchiveStreamer)
      → (let t : ArchiveStreamer = refill_round files (e ∷ es) s in
          (t.trailer_emitted ≡ s.trailer_emitted) × (t.input_done ≡ s.input_done))
  unfolding refill_round read_data
  refill_flags e es s =
      if-keep Same s.header_pending (λ _. opened (files e))
        (λ _.
          if-keep Same (ltb 0 s.cur_remaining)
            (λ _.
              if-keep Same
                (ltb (length (take (min s.cur_remaining buf_size) s.cur))
                  (min s.cur_remaining buf_size))
                (λ _. (refl, refl)) (λ _. (refl, refl)))
            (λ _. if-keep Same (ltb 0 s.pad_remaining) (λ _. (refl, refl)) (λ _. (refl, refl))))
    where
      Same : ArchiveStreamer → Type 0
      Same t = (t.trailer_emitted ≡ s.trailer_emitted) × (t.input_done ≡ s.input_done)

      opened : (o : Option (List ℕ)) → Same (begin_member files s e es o)
      opened none = (refl, refl)
      opened (some content) = (refl, refl)

  pub refill_round-Waits :
      (es : List Entry) (s : ArchiveStreamer)
      → s.entries ≡ es
      → Waits s
      → s.input_done ≡ false
      → Waits (refill_round files es s)
  unfolding refill_round
  refill_round-Waits [] s at ok open_input = (refl, λ _. at)
  refill_round-Waits (e ∷ es) s at ok open_input =
      let (trailer_same, done_same) = refill_flags e es s in
      (
        trailer_same ∙ ok.0 ∙ sym done_same,
        λ done. absurd (distinct (sym done ∙ done_same ∙ open_input)),
      )
    where
      distinct : true ≡ false → ⊥
      distinct e = ground arith

  pub refill_loop_kept :
      (fuel : ℕ) (s : ArchiveStreamer)
      → Waits s
      → (whole (refill_loop files fuel s) ≡ whole s) × Waits (refill_loop files fuel s)
  unfolding refill_loop
  refill_loop_kept zero s ok = (refl, ok)
  refill_loop_kept (suc fuel) s ok =
      if-keep (λ t. (whole t ≡ whole s) × Waits t)
        (ltb (length s.raw) raw_target && not s.input_done)
        (λ goes_on.
          let open_input : s.input_done ≡ false = ground arith in
          let kept =
            refill_loop_kept fuel (refill_round files s.entries s)
              (refill_round-Waits s.entries s refl ok open_input) in
          (kept.0 ∙ refill_round_kept s (ok.0 ∙ open_input), kept.1))
        (λ _. (refl, ok))
