-- ===== src/Client/Worker/Init.antt =====
-- client/worker.h: `init`, `connect` and `shake`.
use dicker.Base.{
  ℕ, List, Bool, false, Option, none, some, if◌then◌else◌, not, ◌==◌, leb, get_or, length,
}
use dicker.Protocol.{
  magic, protocol_version, min_protocol_version, handshake_reply_size, bad_version, status_code,
  has_mode, mode_accept, mode_hash_first,
}
use dicker.Upload.Session.{read_exact, on_read}
use dicker.Client.Shake.{Identity, handshake}
use dicker.Client.Worker.Upload.{Network, enqueue}

-- A connection: the way out, and what the server sends on it.
pub record Link : Type 0 where
  pub net : Network
  pub incoming : List ℕ

-- `network`, once it is connected, and what the handshake settles.
pub record Joined : Type 0 where
  pub link : Link
  pub accept_mode : Bool
  pub hash_first : Bool

abbrev pub settled : Network → List ℕ → (mode : ℕ) → Option ℕ × Joined
settled net left mode = (
  some 0,
  record {
    link = record { net = net; incoming = left };
    accept_mode = has_mode mode mode_accept;
    hash_first = has_mode mode mode_hash_first;
  },
)

-- `shake`: the status, `none` for -1.
unfoldable pub shake : Identity → Joined → ℕ → Option ℕ × Joined
unfolding enqueue handshake
shake conn w version =
    let (sent, net) = enqueue w.link.net (handshake conn version) in
    let failed : Option ℕ × Joined =
      (none, record w { link = record { net = net; incoming = w.link.incoming } }) in
    if not sent
    then failed
    else on_read (read_exact handshake_reply_size w.link.incoming) failed λ reply behind.
      let status = get_or reply (length magic) 0 in
      let told : Joined = record w { link = record { net = net; incoming = behind } } in
      let moded : Option ℕ × Joined =
        on_read (read_exact 1 behind) (none, told)
          λ mode left. settled net left (get_or mode 0 0) in
      if not (status == 0)
      then (some status, told)
      else if leb 2 version
      then moded
      else settled net behind 0

abbrev pub status_is : ℕ → Option ℕ → Bool
status_is s none = false
status_is s (some status) = status == s

-- `dial` is what the n-th connection gives.
module _ (conn : Identity) (dial : ℕ → Option Link) where
  -- A connection and the handshake over it.
  unfoldable pub connect_and_shake : ℕ → Joined → ℕ → Option ℕ × Joined
  unfolding shake
  connect_and_shake n w version = elim (dial n) [
    | none ↦ (none, w)
    | some link ↦ shake conn (record w { link = link }) version
  ]

  unfoldable pub init : Joined → Bool × Joined
  unfolding connect_and_shake
  init w =
      let (first, w₁) = connect_and_shake 0 w protocol_version in
      let (second, w₂) = connect_and_shake 1 w₁ min_protocol_version in
      if status_is (status_code bad_version) first
      then (status_is 0 second, w₂)
      else (status_is 0 first, w₁)
