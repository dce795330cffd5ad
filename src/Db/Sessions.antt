-- ===== src/Db/Sessions.antt =====
-- server/db.cxx, `SessionLog::append` and `SessionLog::load_all`: a row on its way through the log.
use dicker.Base.{
  ℕ, ◌<◌, ◌≡◌, ◌≢◌, ◌⊎◌, ◌==◌, Bool-cases, inl, inr, refl, sym, ◌∙◌, ap, subst, List, [], ◌∷◌, ◌++◌,
  append_assoc, append-nil, Bool, true, false, arith, Option, some, none, length, length-append,
  take, drop, take-append, drop-append, All, IsByte, Lacks, is_nil, Option-cases, ==_iff, ltb,
  if◌then◌else◌, bit_and, ◌>>>◌, ◌^◌, bytes_eq, bytes_eq_iff,
}
use dicker.Crypto.Sha256.{sha256}
use dicker.Handshake.{hex_digit, session_id_to_hex}
use dicker.Db.{
  Cipher, gcm_seal, gcm_open, hex_encode, SessionInfo, Rows, lines_of, put, append, row_of, put_row,
  load_lines, load_all, write_line,
}
use dicker.Db.Tokens.{take_all}
use dicker.Db.Hex.{hex_decode-hex_encode}

-- What the code relies on in AES-GCM: a sealed text is opened under the same key and nonce, and its tag has 16 bytes.
pub record Opens (aes : Cipher) : Type 0 where
  pub opens :
      (key nonce plain tag cipher : List ℕ)
      → aes.seal key nonce plain ≡ some (tag, cipher)
      → aes.open_sealed key nonce tag cipher ≡ some plain
  pub tag_length :
      (key nonce plain tag cipher : List ℕ)
      → aes.seal key nonce plain ≡ some (tag, cipher)
      → length tag ≡ 16
  pub seals_bytes :
      (key nonce plain tag cipher : List ℕ)
      → aes.seal key nonce plain ≡ some (tag, cipher)
      → All IsByte (tag ++ cipher)

abbrev pub IsAscii : List ℕ → Type 0
IsAscii text = All (λ c. c < 128) text

-- A row whose strings are ASCII and whose number fits 64 bits is written as JSON and read back.
abbrev pub ReadsBack : Rows → Type 0
ReadsBack rows =
    (id : List ℕ) (info : SessionInfo)
    → IsAscii id
    → IsAscii info.ip
    → info.created < 2 ^ 64
    → rows.session_row_from_json (rows.session_row_to_json id info) ≡ some (id, info)

-- What a map of sessions holds under an id.
abbrev pub session_under : List (List ℕ × SessionInfo) → List ℕ → Option SessionInfo
session_under [] id = none
session_under ((other, info) ∷ sessions) id =
    let rest = session_under sessions id in if bytes_eq other id then some info else rest

-- The map `after` is `before` with the info under the id, in place of one that was there.
abbrev pub HoldsAlso :
    (id : List ℕ) → SessionInfo → (before after : List (List ℕ × SessionInfo)) → Type 0
HoldsAlso id info before after =
    (key : List ℕ)
    → session_under after key ≡ (if bytes_eq id key then some info else session_under before key)

put-HoldsAlso :
    (id : List ℕ) (info : SessionInfo) (sessions : List (List ℕ × SessionInfo))
    → HoldsAlso id info sessions (put id info sessions)
unfolding put
put-HoldsAlso id info [] key = refl
put-HoldsAlso id info ((other, known) ∷ sessions) key = ground (
  arith,
  put-HoldsAlso id info sessions key,
  bytes_eq_iff id other,
  bytes_eq_iff other key,
  bytes_eq_iff id key,
)

-- A log that no write has left in the middle of a line.
abbrev pub IsWhole : List ℕ → Type 0
IsWhole log = (log ≡ []) ⊎ ((text : List ℕ) × (log ≡ text ++ 10 ∷ []))

line_lem :
    (line rest : List ℕ) → Lacks 10 line → lines_of (line ++ 10 ∷ rest) ≡ line ∷ lines_of rest
unfolding lines_of
line_lem [] rest h = refl
line_lem (c ∷ line) rest h = rw (line_lem line rest h.1) (ground (arith, h.0))

-- Behind a line break a new line begins.
whole_lem :
    (text : List ℕ)
    → (line : List ℕ) × (lines : List (List ℕ)) × ((rest : List ℕ)
        → lines_of (text ++ 10 ∷ rest) ≡ (line ∷ lines) ++ lines_of rest)
unfolding lines_of
whole_lem [] = ([], [], λ rest. refl)
whole_lem (c ∷ text) =
    let (line, lines, e) = whole_lem text in
    elim (Bool-cases (c == 10)) [
      | inl ends ↦ ([], line ∷ lines, λ rest. rw (ends, e rest))
      | inr goes_on ↦ (c ∷ line, lines, λ rest. rw (goes_on, e rest))
    ]

lines_of-append :
    (log rest : List ℕ) → IsWhole log → lines_of (log ++ rest) ≡ lines_of log ++ lines_of rest
unfolding lines_of
lines_of-append log rest (inl e) = rw e
lines_of-append log rest (inr (text, e)) =
    let (line, lines, split) = whole_lem text in
    ap (λ l. lines_of (l ++ rest)) e
    ∙ ap lines_of (append_assoc text (10 ∷ []) rest)
    ∙ split rest
    ∙ ap (λ l. l ++ lines_of rest) (sym (ap lines_of e ∙ split [] ∙ append-nil (line ∷ lines)))

hex_digit-above : (n : ℕ) → hex_digit n ≢ 10
hex_digit-above n = ground arith

hex_encode-Lacks : (bytes : List ℕ) → Lacks 10 (hex_encode bytes)
unfolding session_id_to_hex
hex_encode-Lacks [] = tt
hex_encode-Lacks (b ∷ bytes) =
    (hex_digit-above (b >>> 4), (hex_digit-above (bit_and b 0x0f), hex_encode-Lacks bytes))

load_lines-append :
    (aes : Cipher) (rows : Rows) (key : List ℕ) (xs ys : List (List ℕ))
    (sessions : List (List ℕ × SessionInfo))
    → load_lines aes rows key (xs ++ ys) sessions
      ≡ load_lines aes rows key ys (load_lines aes rows key xs sessions)
load_lines-append aes rows key [] ys sessions = refl
load_lines-append aes rows key (x ∷ xs) ys sessions = load_lines-append aes rows key xs ys _

bytes_append : (xs ys : List ℕ) → All IsByte xs → All IsByte ys → All IsByte (xs ++ ys)
bytes_append [] ys h k = k
bytes_append (x ∷ xs) ys h k = (h.0, bytes_append xs ys h.1 k)

-- What a nonce of 12 bytes seals is opened, and consists of bytes.
module _ (aes : Cipher) (laws : Opens aes) (key nonce plain : List ℕ) (size : length nonce ≡ 12)
    (small : All IsByte nonce) where
  sealed_lem :
      (tag cipher : List ℕ)
      → aes.seal key nonce plain ≡ some (tag, cipher)
      → (gcm_open aes key (nonce ++ (tag ++ cipher)) ≡ some plain)
        × All IsByte (nonce ++ (tag ++ cipher))
  unfolding gcm_open
  sealed_lem tag cipher e =
      let t = laws.tag_length key nonce plain tag cipher e in
      let all = nonce ++ (tag ++ cipher) in
      let long : ltb (length all) 28 ≡ false =
        ground (arith, length-append nonce (tag ++ cipher), length-append tag cipher) in
      let front : take 12 all ≡ nonce = take-append 12 nonce (tag ++ cipher) (sym size) in
      let behind_nonce : drop 12 all ≡ tag ++ cipher =
        drop-append 12 nonce (tag ++ cipher) (sym size) in
      let middle : take 16 (drop 12 all) ≡ tag =
        ap (take 16) behind_nonce ∙ take-append 16 tag cipher (sym t) in
      let back : drop 28 all ≡ cipher =
        ap (drop 28) (sym (append_assoc nonce tag cipher))
        ∙ drop-append 28 (nonce ++ tag) cipher (omega (arith, length-append nonce tag)) in
      (
        rw (long, front, middle, back) (laws.opens key nonce plain tag cipher e),
        bytes_append nonce (tag ++ cipher) small (laws.seals_bytes key nonce plain tag cipher e),
      )

hex_encode-is_nil : (bytes : List ℕ) → 0 < length bytes → is_nil (hex_encode bytes) ≡ false
unfolding session_id_to_hex
hex_encode-is_nil [] h = absurd (omega arith)
hex_encode-is_nil (b ∷ bytes) h = refl

module _ (aes : Cipher) (rows : Rows) (laws : Opens aes) (reads : ReadsBack rows)
    (key : List ℕ) where
  nothing_left : (line : List ℕ) → line ∷ lines_of [] ≡ line ∷ []
  unfolding lines_of
  nothing_left line = refl

  row_lem :
      (sealed plain id : List ℕ) (info : SessionInfo)
      → All IsByte sealed
      → gcm_open aes (sha256 key) sealed ≡ some plain
      → rows.session_row_from_json plain ≡ some (id, info)
      → row_of aes rows key (hex_encode sealed) ≡ some (id, info)
  unfolding row_of
  row_lem sealed plain id info bytes opened read =
      let parsed : Option (List ℕ) → Option (List ℕ × SessionInfo) =
        λ o. elim o [ none ↦ none | some text ↦ rows.session_row_from_json text ] in
      let decoded : Option (List ℕ) → Option (List ℕ × SessionInfo) =
        λ o. elim o [ none ↦ none | some line ↦ parsed (gcm_open aes (sha256 key) line) ] in
      ap decoded (hex_decode-hex_encode sealed bytes) ∙ ap parsed opened ∙ read

  -- One more line that is a row.
  load_all-row :
      (log line : List ℕ) (id : List ℕ) (info : SessionInfo)
      → IsWhole log
      → Lacks 10 line
      → is_nil line ≡ false
      → row_of aes rows key line ≡ some (id, info)
      → load_all aes rows key (log ++ (line ++ 10 ∷ [])) ≡ put id info (load_all aes rows key log)
  unfolding load_all
  load_all-row log line id info whole lacks some_line row =
      let one : lines_of (line ++ 10 ∷ []) ≡ line ∷ [] =
        line_lem line [] lacks ∙ nothing_left line in
      ap (λ ls. load_lines aes rows key ls [])
        (lines_of-append log (line ++ 10 ∷ []) whole ∙ ap (λ ls. lines_of log ++ ls) one)
      ∙ load_lines-append aes rows key (lines_of log) (line ∷ []) []
      ∙ ap
          (λ b.
            if b
            then load_lines aes rows key (lines_of log) []
            else put_row aes rows (row_of aes rows key line)
                (load_lines aes rows key (lines_of log) []))
          some_line
      ∙ ap (λ r. put_row aes rows r (load_lines aes rows key (lines_of log) [])) row

  abbrev pub Appended : (id : List ℕ) → SessionInfo → (log : List ℕ) → Bool × List ℕ → Type 0
  Appended id info log result =
      (result.0 ≡ true
        → HoldsAlso id info (load_all aes rows key log) (load_all aes rows key result.1)
          × IsWhole result.1)
      × (result.0 ≡ false → (part : List ℕ) × (result.1 ≡ log ++ part))

  written_lem :
      (log line : List ℕ) (id : List ℕ) (info : SessionInfo) (written : Option ℕ)
      → IsWhole log
      → Lacks 10 line
      → is_nil line ≡ false
      → row_of aes rows key line ≡ some (id, info)
      → Appended id info log (write_line (line ++ 10 ∷ []) written log)
  written_lem log line id info none whole lacks some_line row =
      (λ h. cc, λ _. ([], sym (append-nil log)))
  written_lem log line id info (some n) whole lacks some_line row =
      let ended = line ++ 10 ∷ [] in
      (
        λ h.
            let all : take n ended ≡ ended = take_all n ended ((==_iff n (length ended)).0 h) in
            subst
              (λ l.
                HoldsAlso id info (load_all aes rows key log) (load_all aes rows key (log ++ l))
                × IsWhole (log ++ l))
              (sym all)
              (
                subst (HoldsAlso id info (load_all aes rows key log))
                    (sym (load_all-row log line id info whole lacks some_line row))
                    (put-HoldsAlso id info (load_all aes rows key log)),
                inr (log ++ line, sym (append_assoc log line (10 ∷ []))),
              ),
        λ _. (take n ended, refl),
      )

  -- On a log that is empty or ends with a line break, under a nonce of 12 bytes, for an id and an address in ASCII and a
  -- time that fits 64 bits, given that AES-GCM opens what it seals, into bytes and a tag of 16, and JSON reads such a row back: where append
  -- returns true, loading the log gives, under every id, what it gave before, but the new info under the id of the new
  -- row, whether or not the log had a row of that id; and the log ends with a line break. Where append returns false,
  -- what was in the log is still there, in front.
  pub append-Appended :
      (nonce : List ℕ) (written : Option ℕ) (id : List ℕ) (info : SessionInfo) (log : List ℕ)
      → length nonce ≡ 12
      → All IsByte nonce
      → IsWhole log
      → IsAscii id
      → IsAscii info.ip
      → info.created < 2 ^ 64
      → Appended id info log (append aes rows key (some nonce) written id info log)
  unfolding append gcm_seal
  append-Appended nonce written id info log size small whole ascii_id ascii_ip in_range =
      let plain = rows.session_row_to_json id info in
      let framed : Option (List ℕ × List ℕ) → Option (List ℕ) =
        λ o. elim o [ none ↦ none | some (tag, cipher) ↦ some (nonce ++ (tag ++ cipher)) ] in
      let logged : Option (List ℕ) → Bool × List ℕ = λ o. elim o [
        | none ↦ (false, log)
        | some sealed ↦ write_line (hex_encode sealed ++ 10 ∷ []) written log
      ] in
      elim (Option-cases (aes.seal (sha256 key) nonce plain)) [
        | inl none_sealed ↦
            subst (λ o. Appended id info log (logged (framed o))) (sym none_sealed)
              (λ h. cc, λ _. ([], sym (append-nil log)))
        | inr ((tag, cipher), e) ↦
            let sealed = nonce ++ (tag ++ cipher) in
            let (opened, bytes) =
              sealed_lem aes laws (sha256 key) nonce plain size small tag cipher e in
            subst (λ o. Appended id info log (logged (framed o))) (sym e)
              (written_lem log (hex_encode sealed) id info written whole (hex_encode-Lacks sealed)
                (hex_encode-is_nil sealed (omega (arith, length-append nonce (tag ++ cipher))))
                (row_lem sealed plain id info bytes opened
                  (reads id info ascii_id ascii_ip in_range)))
      ]
