-- ===== src/Tests/Probes.antt =====
-- client/worker.h at concrete inputs: two probes of which the server takes one.
use dicker.Base.{ℕ, ◌≡◌, refl, arith, List, [], ◌∷◌, ◌++◌, true, false, ◌==◌}
use dicker.Protocol.{mode_accept, HandshakeStatus}
use dicker.Upload.Session.{Settings, read_exact}
use dicker.Client.Worker.Frames.{Task}
use dicker.Client.Worker.Upload.{enqueue}
use dicker.Client.Worker.Session.{Hasher, Worker, UploadEvent, send_accepted, process}
use dicker.Client.Worker.Window.{InWindow, Reports, process-InWindow, send_accepted-Reports}
use dicker.Client.Worker.Init.{Joined}
use dicker.Connection.Replies.{reply_bytes}
use dicker.Transfer.Exchange.{Asked, units, decided, replies}
use dicker.Wire.{read_u64_le, write_u64_le}
use dicker.Connection.{Connection, new_connection}
use dicker.Connection.Preamble.{Server, mode_for}
use dicker.Tests.Connections.{server_with}
use dicker.Tests.Transfers.{copying, counting, settings, task, blocks}

abbrev summing : Hasher
summing = record { State = ℕ; init = 0; update = λ s b. s; finalize = λ s. [] }

-- It takes the units at offset 4096.
abbrev choosy : Settings
choosy = record settings { mode = mode_accept; filter = λ p. p.offset == 4096 }

abbrev other : Task
other = record task { offset = 8192 }

abbrev two_asked : List Asked
two_asked =
    record { unit = record { key = 6; task = task; accepted = false }; hash = [] }
    ∷ record { unit = record { key = 7; task = other; accepted = false }; hash = [] }
    ∷ []

abbrev reads : ℕ → Task → List (List ℕ)
reads _ _ = blocks

-- Both probes are out, and the replies are on their way.
abbrev asking : Worker copying counting summing
asking = record {
  integrity = true;
  accept_mode = true;
  hash_first = false;
  next_key = 8;
  pending = units two_asked;
  compressor = 0;
  net = record { sent = []; alive = 20 };
  incoming = replies choosy two_asked ++ (9 ∷ []);
  submits = 0;
  events = [];
}

abbrev read_out : Worker copying counting summing
read_out = record asking { net = (enqueue asking.net []).1; incoming = 9 ∷ []; pending = [] }

drained : (enqueue asking.net []).0 ≡ true
unfolding enqueue
drained = refl

all_went : (send_accepted copying counting summing reads asking (decided choosy two_asked)).0 ≡ true
unfolding send_accepted
all_went = refl

send_accepted-Reports_example :
    (log : List UploadEvent) × ((send_accepted copying counting summing reads asking
        (decided choosy two_asked)).1.events
      ≡ asking.events ++ log)
    × Reports (decided choosy two_asked) log
send_accepted-Reports_example =
    send_accepted-Reports copying counting summing reads asking (decided choosy two_asked) all_went

-- The first probe alone is out, and the task of the second comes.
abbrev one_out : Worker copying counting summing
one_out = record asking {
  next_key = 7;
  pending = record { key = 6; task = task; accepted = false } ∷ [];
}

one_out-InWindow : InWindow copying counting summing reads one_out
one_out-InWindow = record { first = 6; numbered = (refl, refl); short = omega arith }

processed : (process copying counting summing reads one_out true other).0 ≡ true
unfolding process read_u64_le write_u64_le read_exact
processed = refl

process-InWindow_example :
    InWindow copying counting summing reads
      (process copying counting summing reads one_out true other).1
process-InWindow_example =
    process-InWindow copying counting summing reads one_out true other one_out-InWindow processed

-- A server with a filter answers the client of version 2.
abbrev filtering : Server
filtering = record (server_with true) { has_filter = true }

abbrev greeted : Connection
greeted = record (new_connection 4) { protocol_version = 2; mode = mode_for filtering 2 }

abbrev joining : Joined
joining = record {
  link = record {
    net = record { sent = []; alive = 3 };
    incoming = reply_bytes greeted HandshakeStatus.status_ok ++ (9 ∷ []);
  };
  accept_mode = false;
  hash_first = false;
}
