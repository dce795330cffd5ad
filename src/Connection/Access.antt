-- ===== src/Connection/Access.antt =====
-- server/connection.cxx, `authorized`, over server/db.cxx, `TokenStore::verify`: which requests are let in.
use dicker.Base.{
  ℕ, ◌≡◌, ◌≢◌, List, [], ◌++◌, Bool, false, not, ◌||◌, length, drop, leb, starts_with, All, IsByte,
  bytes, if◌then◌else◌,
}
use dicker.Db.{verify}
use dicker.Db.Tokens.{Among}

abbrev prefix : List ℕ
prefix = bytes "Bearer "

-- The header names a stored token behind `Bearer `.
abbrev pub Bears : List ℕ → List (List ℕ) → Type 0
Bears auth tokens =
    (token : List ℕ) × (auth ≡ bytes "Bearer " ++ token) × (token ≢ []) × Among token tokens

module _ (tokens : List (List ℕ)) (stored : All (λ candidate. All IsByte candidate) tokens) where
  abbrev let_in : List ℕ → Bool
  let_in auth =
      if leb (length auth) (length prefix) || not (starts_with prefix auth)
      then false
      else verify tokens (drop (length prefix) auth)
