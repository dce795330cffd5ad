-- ===== src/Http/Controllers/Download.antt =====
-- server/controllers/uploads.cxx: which directories a download can name, and that the sessions that the server itself
-- makes are among them.
use dicker.Base.{
  ℕ, ◌*◌, ◌<◌, ◌≤◌, ◌≡◌, ◌≢◌, ◌⊎◌, ◌↔◌, refl, List, [], ◌∷◌, Bool, true, ◌&&◌, arith, length, All,
  IsByte, holds_up_to, holds_up_to_lem, ◌>>>◌, bit_and,
}
use dicker.Handshake.{session_id_to_hex, hex_digit}
use dicker.Http.Router.{HttpContext}
use dicker.Http.Controllers.{valid_session_id, all_lower_hex, is_lower_hex}

abbrev pub LowerHex : ℕ → Type 0
LowerHex c = ((b'0' ≤ c) × (c ≤ b'9')) ⊎ ((b'a' ≤ c) × (c ≤ b'f'))

-- The ids that may name a directory: one to 64 lower-case hexadecimal digits.
pub record IsSessionId (id : List ℕ) : Type 0 where
  pub some_digits : id ≢ []
  pub few_digits : length id ≤ 64
  pub hex_digits : All LowerHex id

is_lower_hex_iff : (c : ℕ) → (is_lower_hex c ≡ true) ↔ LowerHex c
is_lower_hex_iff c = (λ h. ground arith, λ h. ground arith)

all_lower_hex_iff : (cs : List ℕ) → (all_lower_hex cs ≡ true) ↔ All LowerHex cs
all_lower_hex_iff [] = (λ _. tt, λ _. refl)
all_lower_hex_iff (c ∷ cs) = (
  λ h. ((is_lower_hex_iff c).0 (ground arith), (all_lower_hex_iff cs).0 (ground arith)),
  λ h. ground (arith, (is_lower_hex_iff c).1 h.0, (all_lower_hex_iff cs).1 h.1),
)

valid_session_id_iff : (id : List ℕ) → (valid_session_id id ≡ true) ↔ IsSessionId id
unfolding valid_session_id
valid_session_id_iff [] = (λ h. cc, λ s. absurd (s.some_digits refl))
valid_session_id_iff (c ∷ cs) = (
  λ h. record {
    some_digits = λ e. cc;
    few_digits = ground arith;
    hex_digits = (all_lower_hex_iff (c ∷ cs)).0 (ground arith);
  },
  λ s. ground (arith, s.few_digits, (all_lower_hex_iff (c ∷ cs)).1 s.hex_digits),
)

module _ (root_dir : List ℕ) (join : List ℕ → List ℕ → List ℕ) (is_directory : List ℕ → Bool) where
  abbrev pub Downloads : HttpContext → Type 0
  Downloads ctx = IsSessionId ctx.param × (is_directory (join root_dir ctx.param) ≡ true)

hex_digits_table :
    holds_up_to
      (λ b. is_lower_hex (hex_digit (b >>> 4)) && is_lower_hex (hex_digit (bit_and b 0x0f)))
      256
    ≡ true
unfolding holds_up_to
hex_digits_table = refl

length-session_id_to_hex : (id : List ℕ) → length (session_id_to_hex id) ≡ 2 * length id
unfolding session_id_to_hex
length-session_id_to_hex [] = refl
length-session_id_to_hex (b ∷ id) = omega (arith, length-session_id_to_hex id)

all_lower_hex-session_id_to_hex :
    (id : List ℕ) → All IsByte id → all_lower_hex (session_id_to_hex id) ≡ true
unfolding session_id_to_hex
all_lower_hex-session_id_to_hex [] h = refl
all_lower_hex-session_id_to_hex (b ∷ id) h =
    let digits =
      holds_up_to_lem
        (λ b. is_lower_hex (hex_digit (b >>> 4)) && is_lower_hex (hex_digit (bit_and b 0x0f)))
        hex_digits_table b h.0 in
    ground (arith, digits, all_lower_hex-session_id_to_hex id h.1)

not_nil : (id : List ℕ) → 0 < length id → id ≢ []
not_nil [] h e = absurd (omega arith)
not_nil (b ∷ id) h e = cc

-- Every id that the server makes of the 16 bytes of a handshake passes the test of the download endpoint.
pub valid_session_id-session_id_to_hex :
    (id : List ℕ) → length id ≡ 16 → All IsByte id → valid_session_id (session_id_to_hex id) ≡ true
valid_session_id-session_id_to_hex id len small =
    (valid_session_id_iff (session_id_to_hex id)).1 (record {
      some_digits = not_nil (session_id_to_hex id) (omega (arith, length-session_id_to_hex id));
      few_digits = omega (arith, length-session_id_to_hex id);
      hex_digits =
          (all_lower_hex_iff (session_id_to_hex id)).0 (all_lower_hex-session_id_to_hex id small);
    })
