-- ===== src/Db.antt =====
-- server/db.cxx: the tokens that a server accepts, and the log of sessions, a line of hexadecimal digits for each. The
-- cipher, the random nonces and JSON are libraries', and parameters; so is the file system.
pub mod Tokens
pub mod Hex
pub mod Sessions
use dicker.Base.{
  ℕ, ◌+◌, ◌-◌, ◌*◌, List, [], ◌∷◌, ◌++◌, Bool, true, false, ◌&&◌, ◌||◌, ◌==◌, leb, ltb,
  if◌then◌else◌, Option, none, some, length, take, drop, is_nil, bytes_eq, bit_or, ◌<<<◌, u8,
}
use dicker.Crypto.Compare.{constant_time_equal}
use dicker.Crypto.Sha256.{sha256}
use dicker.Handshake.{session_id_to_hex}

-- `TokenStore::verify`
unfoldable pub verify : (tokens : List (List ℕ)) → (token : List ℕ) → Bool
verify [] token = false
verify (candidate ∷ tokens) token =
    let matched = verify tokens token in
    if length candidate == length token && constant_time_equal candidate token (length token)
    then true
    else matched

-- AES-GCM: the tag and the cipher text of a plain text, and the plain text of a cipher text whose tag is right.
pub record Cipher : Type 0 where
  pub seal : (key nonce plain : List ℕ) → Option (List ℕ × List ℕ)
  pub open_sealed : (key nonce tag cipher : List ℕ) → Option (List ℕ)

abbrev pub nonce_size : ℕ
nonce_size = 12

abbrev pub tag_size : ℕ
tag_size = 16

unfoldable pub gcm_seal :
    Cipher → (key : List ℕ) → (nonce : Option (List ℕ)) → List ℕ → Option (List ℕ)
gcm_seal aes key none plain = none
gcm_seal aes key (some nonce) plain = elim (aes.seal key nonce plain) [
  | none ↦ none
  | some (tag, cipher) ↦ some (nonce ++ (tag ++ cipher))
]

unfoldable pub gcm_open : Cipher → (key sealed : List ℕ) → Option (List ℕ)
gcm_open aes key sealed =
    if ltb (length sealed) (nonce_size + tag_size)
    then none
    else aes.open_sealed key (take nonce_size sealed) (take tag_size (drop nonce_size sealed))
        (drop (nonce_size + tag_size) sealed)

-- The two digits of each byte, the higher first.
abbrev pub hex_encode : List ℕ → List ℕ
hex_encode bytes = session_id_to_hex bytes

unfoldable pub nibble : ℕ → Option ℕ
nibble c =
    if leb b'0' c && leb c b'9'
    then some (c - b'0')
    else if leb b'a' c && leb c b'f'
    then some (c - b'a' + 10)
    else if leb b'A' c && leb c b'F'
    then some (c - b'A' + 10)
    else none

abbrev pub joined_nibbles : Option ℕ → Option ℕ → Option (List ℕ) → Option (List ℕ)
joined_nibbles (some hi) (some lo) (some rest) = some (u8 (bit_or (hi <<< 4) lo) ∷ rest)
joined_nibbles _ _ _ = none

-- An odd number of digits is refused.
unfoldable pub hex_decode : List ℕ → Option (List ℕ)
unfolding nibble
hex_decode [] = some []
hex_decode (_ ∷ []) = none
hex_decode (hi ∷ lo ∷ digits) = joined_nibbles (nibble hi) (nibble lo) (hex_decode digits)

pub record SessionInfo : Type 0 where
  pub ip : List ℕ
  pub created : ℕ

-- The rows of the log as JSON, and back.
pub record Rows : Type 0 where
  pub session_row_to_json : (session_id : List ℕ) → SessionInfo → List ℕ
  pub session_row_from_json : List ℕ → Option (List ℕ × SessionInfo)

-- `std::getline`, until the end of the file.
abbrev add_to_line : ℕ → List (List ℕ) → List (List ℕ)
add_to_line c [] = (c ∷ []) ∷ []
add_to_line c (line ∷ lines) = (c ∷ line) ∷ lines

unfoldable pub lines_of : List ℕ → List (List ℕ)
lines_of [] = []
lines_of (c ∷ text) =
    let lines = lines_of text in if c == 10 then [] ∷ lines else add_to_line c lines

-- `out[session_id] = info`, on an association list in the order of the first rows.
unfoldable pub put :
    List ℕ → SessionInfo → List (List ℕ × SessionInfo) → List (List ℕ × SessionInfo)
put id info [] = (id, info) ∷ []
put id info ((other, known) ∷ sessions) =
    let rest = put id info sessions in
    if bytes_eq id other then (other, info) ∷ sessions else (other, known) ∷ rest

-- One `write` at the end of the log: it may take a part of the line.
abbrev pub write_line : (line : List ℕ) → (written : Option ℕ) → (log : List ℕ) → Bool × List ℕ
write_line line none log = (false, log)
write_line line (some n) log = (n == length line, log ++ take n line)

module _ (aes : Cipher) (rows : Rows) where
  -- `SessionLog::append`, the log that it leaves; `written` is how many bytes `write` takes, `none` where the file
  -- does not open or the call fails.
  unfoldable pub append :
      (key : List ℕ)
      → (nonce : Option (List ℕ)) → (written : Option ℕ) → (session_id : List ℕ) → SessionInfo
      → (log : List ℕ) → Bool × List ℕ
  append key nonce written session_id info log =
      elim (gcm_seal aes (sha256 key) nonce (rows.session_row_to_json session_id info)) [
        | none ↦ (false, log)
        | some sealed ↦ write_line (hex_encode sealed ++ 10 ∷ []) written log
      ]

  -- A row of the log, or `none` for a line that is not one.
  unfoldable pub row_of : (key : List ℕ) → (line : List ℕ) → Option (List ℕ × SessionInfo)
  row_of key line = elim (hex_decode line) [
    | none ↦ none
    | some sealed ↦ elim (gcm_open aes (sha256 key) sealed) [
      | none ↦ none
      | some text ↦ rows.session_row_from_json text
    ]
  ]

  abbrev pub put_row :
      Option (List ℕ × SessionInfo) → List (List ℕ × SessionInfo) → List (List ℕ × SessionInfo)
  put_row none sessions = sessions
  put_row (some (id, info)) sessions = put id info sessions

  abbrev pub load_lines :
      (key : List ℕ) → List (List ℕ) → List (List ℕ × SessionInfo) → List (List ℕ × SessionInfo)
  load_lines key [] sessions = sessions
  load_lines key (line ∷ lines) sessions =
      load_lines key lines (if is_nil line then sessions else put_row (row_of key line) sessions)

  -- `SessionLog::load_all`
  unfoldable pub load_all : (key log : List ℕ) → List (List ℕ × SessionInfo)
  unfolding lines_of put row_of
  load_all key log = load_lines key (lines_of log) []
