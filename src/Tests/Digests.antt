-- ===== src/Tests/Digests.antt =====
-- shared/sha256.h and shared/hmac_sha256.h at concrete inputs, and the handshake that is signed with them.
use dicker.Base.{ℕ, ◌≡◌, refl, List, [], ◌∷◌, ◌++◌, arith, replicate, ◌↔◌, inl}
use dicker.Crypto.Sha256.{sha256, reset, update, finish}
use dicker.Crypto.Sha256.Compress.{
  process_block, add_vars, rounds, rotate_right, extend_words, load_words,
}
use dicker.Crypto.Sha256.Stream.{update-append}
use dicker.Crypto.Hmac.{hmac_sha256, masked, IsBlockOf, hmac_sha256_lem}
use dicker.Protocol.{status_ok}
use dicker.Handshake.{HandshakeRequest, request_of, parse_and_verify_handshake}
use dicker.Handshake.Accepts.{IsAuthentic, parse_ok_iff}
use dicker.Handshake.RoundTrip.{IsIdentity, meant, parse-handshake}
use dicker.Client.Shake.{Identity, handshake}

abbrev pub abc : List ℕ
abc = 0x61 ∷ 0x62 ∷ 0x63 ∷ []

update-append_example : update (update reset abc) abc ≡ update reset (abc ++ abc)
update-append_example = update-append reset abc abc (unfold reset in omega arith)

abbrev abc_block : List ℕ
abc_block = abc ++ replicate 61 0

abc_block-IsBlockOf : IsBlockOf abc abc_block
abc_block-IsBlockOf =
    IsBlockOf.short (omega arith) (record { size = refl; starts = refl; zeros = omega arith })

hmac_sha256_lem_example :
    hmac_sha256 abc abc ≡ sha256 (masked 0x5c abc_block ++ sha256 (masked 0x36 abc_block ++ abc))
hmac_sha256_lem_example = hmac_sha256_lem abc abc_block abc abc_block-IsBlockOf

abbrev blank : HandshakeRequest
blank = record { version = 0; flags = 0; algo = 1; session_id = [] }

abbrev buffer : List ℕ
buffer = replicate 60 0x44

parse_ok_iff_example :
    (parse_and_verify_handshake buffer abc blank ≡ (status_ok, request_of buffer))
    ↔ IsAuthentic abc buffer
parse_ok_iff_example = parse_ok_iff abc buffer blank (omega arith) (omega arith)

abbrev pub client : Identity
client = record { session_id = replicate 16 7; key = abc; flags = 3; algo = 1 }

pub client_fits : IsIdentity client
client_fits = record {
  id_length = refl;
  id_bytes = omega arith;
  flag_byte = omega arith;
  algo_known = inl refl;
}

parse-handshake_example :
    parse_and_verify_handshake (handshake client 2 ++ abc) abc blank ≡ (status_ok, meant client 2)
parse-handshake_example =
    parse-handshake client 2 client_fits (omega arith) (omega arith) abc (omega arith) blank

-- The first test vector of the standard.
sha256-abc :
    sha256 abc
    ≡ 0xba ∷ 0x78 ∷ 0x16 ∷ 0xbf ∷ 0x8f ∷ 0x01 ∷ 0xcf ∷ 0xea ∷ 0x41 ∷ 0x41 ∷ 0x40 ∷ 0xde ∷ 0x5d
      ∷ 0xae ∷ 0x22 ∷ 0x23 ∷ 0xb0 ∷ 0x03 ∷ 0x61 ∷ 0xa3 ∷ 0x96 ∷ 0x17 ∷ 0x7a ∷ 0x9c ∷ 0xb4 ∷ 0x10
      ∷ 0xff ∷ 0x61 ∷ 0xf2 ∷ 0x00 ∷ 0x15 ∷ 0xad ∷ []
unfolding sha256 finish update reset process_block add_vars rounds rotate_right extend_words
    load_words
sha256-abc = refl
