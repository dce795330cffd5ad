-- ===== src/Client/Shake.antt =====
-- client/worker.h, `handshake`: the first bytes of a connection.
use dicker.Base.{ℕ, List, [], ◌∷◌, ◌++◌}
use dicker.Protocol.{magic, cmd_upload}
use dicker.Wire.{append_u16}
use dicker.Crypto.Hmac.{hmac_sha256}

-- The fields of `Conn` and of the compressor that the handshake reads.
pub record Identity : Type 0 where
  pub session_id : List ℕ
  pub key : List ℕ
  pub flags : ℕ
  pub algo : ℕ

-- What the HMAC signs.
unfoldable pub signed_prefix : Identity → ℕ → List ℕ
signed_prefix conn version =
    append_u16 magic version ++ (conn.flags ∷ []) ++ (conn.algo ∷ []) ++ conn.session_id

unfoldable pub handshake : Identity → ℕ → List ℕ
handshake conn version =
    let out = signed_prefix conn version in (out ++ hmac_sha256 conn.key out) ++ (cmd_upload ∷ [])
