-- ===== src/Transfer/Replies.antt =====
-- client/worker.h, `shake`, against the reply of server/connection.cxx.
use dicker.Base.{ℕ, List, Option, some, if◌then◌else◌}
use dicker.Protocol.{HandshakeStatus, status_code}
use dicker.Connection.{Connection}
use dicker.Connection.Replies.{is_ok}
use dicker.Connection.Preamble.{Server, mode_for}
use dicker.Client.Worker.Upload.{Network}
use dicker.Client.Worker.Init.{Joined, settled}

-- What `shake` makes of a status.
abbrev pub shaken :
    Server → HandshakeStatus → (version : ℕ) → Network → List ℕ → Joined → Option ℕ × Joined
shaken server status version net rest w =
    if is_ok status
    then settled net rest (mode_for server version)
    else (some (status_code status), record w { link = record { net = net; incoming = rest } })
