-- ===== src/Tests/Logs.antt =====
-- server/db.cxx and the check of a token at concrete inputs, with a cipher that hides nothing and
-- rows that are no JSON.
use dicker.Base.{
  ℕ, zero, suc, ◌≡◌, ◌↔◌, inl, refl, List, [], ◌∷◌, ◌++◌, Bool, true, Option, some, none, arith,
  bytes, replicate, take, drop, length, ltb, ltb→lt, ◌&&◌, if◌then◌else◌, if-keep, ap, sym, subst,
  take-append, drop-append, All, IsByte,
}
use dicker.Http.Message.{HttpRequest}
use dicker.Db.{Cipher, SessionInfo, Rows, verify, append}
use dicker.Db.Tokens.{Among, verify_iff}
use dicker.Db.Sessions.{Opens, ReadsBack, Appended, append-Appended}

abbrev tokens : List (List ℕ)
tokens = bytes "abc" ∷ bytes "de" ∷ []

verify_iff_example : (verify tokens (bytes "de") ≡ true) ↔ Among (bytes "de") tokens
verify_iff_example = verify_iff tokens (bytes "de") (omega arith) (omega arith)

abbrev asking : HttpRequest
asking = record {
  method = bytes "GET";
  target = bytes "/uploads";
  path = bytes "/uploads";
  version = bytes "HTTP/1.1";
  headers = (bytes "authorization", bytes "Bearer de") ∷ [];
}

abbrev are_bytes : List ℕ → Bool
are_bytes [] = true
are_bytes (b ∷ bytes) = ltb b 256 && are_bytes bytes

are_bytes_lem : (bytes : List ℕ) → are_bytes bytes ≡ true → All IsByte bytes
are_bytes_lem [] h = tt
are_bytes_lem (b ∷ bytes) h = (ltb→lt b 256 (ground arith), are_bytes_lem bytes (ground arith))

abbrev sealing : List ℕ → Option (List ℕ × List ℕ)
sealing plain = if are_bytes plain then some (replicate 16 0, plain) else none

-- A cipher that leaves bytes as they are and refuses other texts.
abbrev open_cipher : Cipher
open_cipher = record {
  seal = λ _ _ plain. sealing plain;
  open_sealed = λ _ _ _ cipher. some cipher;
}

open_cipher_lem :
    (plain tag cipher : List ℕ)
    → sealing plain ≡ some (tag, cipher)
    → (tag ≡ replicate 16 0) × (cipher ≡ plain) × (are_bytes plain ≡ true)
open_cipher_lem plain tag cipher =
    if-keep
      (λ x.
        x ≡ some (tag, cipher)
        → (tag ≡ replicate 16 0) × (cipher ≡ plain) × (are_bytes plain ≡ true))
      (are_bytes plain) (λ small e. (cc, cc, small)) (λ _ e. absurd cc)

zeros_lem : (n : ℕ) (bytes : List ℕ) → All IsByte bytes → All IsByte (replicate n 0 ++ bytes)
zeros_lem zero bytes h = h
zeros_lem (suc n) bytes h = (omega arith, zeros_lem n bytes h)

open_cipher_opens : Opens open_cipher
open_cipher_opens = record {
  opens = λ key nonce plain tag cipher e. ap some (open_cipher_lem plain tag cipher e).1;
  tag_length = λ key nonce plain tag cipher e.
      ap (λ (l : List ℕ). length l) (open_cipher_lem plain tag cipher e).0;
  seals_bytes = λ key nonce plain tag cipher e.
      let h = open_cipher_lem plain tag cipher e in
      subst (λ l. All IsByte (l ++ cipher)) (sym h.0)
        (subst (λ l. All IsByte (replicate 16 0 ++ l)) (sym h.1)
          (zeros_lem 16 plain (are_bytes_lem plain h.2)));
}

-- The time, the length of the address, the address and the id.
abbrev parse : List ℕ → Option (List ℕ × SessionInfo)
parse (created ∷ n ∷ text) = some (drop n text, record { ip = take n text; created = created })
parse _ = none

abbrev plain_rows : Rows
plain_rows = record {
  session_row_to_json = λ id info. info.created ∷ length info.ip ∷ (info.ip ++ id);
  session_row_from_json = parse;
}

plain_rows_read : ReadsBack plain_rows
plain_rows_read id info _ _ _ = λ i. some (
  drop-append (length info.ip) info.ip id refl i,
  record { ip = take-append (length info.ip) info.ip id refl i; created = info.created },
)

abbrev info : SessionInfo
info = record { ip = bytes "10.0.0.1"; created = 5 }

append-Appended_example :
    Appended open_cipher plain_rows open_cipher_opens plain_rows_read
      (bytes "key")
      (bytes "s")
      info
      []
      (append open_cipher plain_rows
        (bytes "key")
        (some (replicate 12 1))
        (some 79)
        (bytes "s")
        info
        [])
append-Appended_example =
    append-Appended open_cipher plain_rows open_cipher_opens plain_rows_read (bytes "key")
      (replicate 12 1) (some 79) (bytes "s") info [] refl (omega arith) (inl refl) (omega arith)
      (omega arith) (omega arith)
