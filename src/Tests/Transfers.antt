-- ===== src/Tests/Transfers.antt =====
-- client/worker.h against server/connection.cxx at concrete inputs: a codec that copies, a checksum that counts.
use dicker.Base.{
  ℕ, ◌≤◌, ◌%◌, ◌^◌, ◌≡◌, refl, sym, ◌∙◌, List, [], ◌∷◌, ◌++◌, true, false, arith, length, drop,
  some, append-nil, append_assoc,
}
use dicker.Protocol.{chunk}
use dicker.Codec.{Compressor, Decompressor, Agrees}
use dicker.Upload.Session.{Checksum, Settings, Session, Probe, erase}
use dicker.Upload.Sink.{UnitSink}
use dicker.Upload.Units.{headed, plain_head, accepted_head, answer}
use dicker.Client.Worker.Frames.{Task, unit_header, accepted_header, block_header}
use dicker.Wire.{write_u32_le, write_u64_le}
use dicker.Client.Worker.Upload.{Network, upload}
use dicker.Transfer.Unit.{Streams, Delivered, upload-block_loop}
use dicker.Transfer.Header.{plain_head-unit_header, accepted_head-answer}

abbrev pub copying : Compressor
copying = record { State = ℕ; update = λ s x. (x, s); flush = λ s. ([], s) }

abbrev pub uncopying : Decompressor
uncopying = record {
  State = ℕ;
  decompress = λ s b. record { pieces = b ∷ []; decodes = true; state = s };
}

abbrev pub counting : Checksum
counting = record {
  State = List ℕ;
  reset = [];
  update = λ s b. s ++ b;
  digest = λ s. length s % 2 ^ 64;
}

abbrev pub settings : Settings
settings = record {
  decompressor = uncopying;
  checksum = counting;
  integrity_checks = true;
  mode = 0;
  filter = λ _. true;
  can_open = λ _ _. true;
  can_write = λ _ _ _. true;
}

counting_streams : Streams counting
counting_streams = record {
  update_nil = λ s. append-nil s;
  update_append = λ s a b. append_assoc s a b;
  digest_small = λ s. omega arith;
}

copying_agrees : Agrees copying uncopying
copying_agrees = record {
  Lag = λ _ _ pending. pending ≡ [];
  update_fits = λ _ x small. omega arith;
  update_silent = λ _ _ pending x _ none_left silent. rw (none_left, silent);
  update_block = λ _ _ pending x _ none_left some_bytes.
      ([], refl, rw none_left (sym (append-nil (x ++ []) ∙ append-nil x)), refl);
  flush_fits = λ _. omega arith;
  flush_silent = λ _ _ pending none_left _. (none_left, refl);
  flush_block = λ _ _ pending none_left some_bytes. absurd (some_bytes refl);
}

abbrev network : Network
network = record { sent = []; alive = 12 }

abbrev pub blocks : List (List ℕ)
blocks = (0x61 ∷ 0x62 ∷ []) ∷ (0x63 ∷ []) ∷ []

abbrev sink : UnitSink (List ℕ)
sink = record {
  is_chunk = false;
  path = 0x66 ∷ [];
  base_offset = 0;
  position = 0;
  running = 0;
  checksum_state = [];
  effects = [];
}

sent_ok : (upload copying counting true network 0 (1 ∷ []) blocks).0 ≡ true
unfolding upload
sent_ok = refl

short : length (upload copying counting true network 0 (1 ∷ []) blocks).1.net.sent ≤ 100
unfolding upload block_header write_u32_le write_u64_le
short = omega arith

in_step : copying_agrees.Lag 0 0 []
unfolding copying_agrees
in_step = refl

upload-block_loop_example :
    Delivered copying settings copying_agrees
      (λ _ _ _. refl)
      counting_streams
      network
      0
      (1 ∷ [])
      blocks
      0
      sink
      (5 ∷ [])
      100
upload-block_loop_example =
    upload-block_loop copying settings copying_agrees (λ _ _ _. refl) counting_streams network 0
      (1 ∷ []) blocks 0 sink (5 ∷ []) 100 (omega arith) in_step refl sent_ok short

abbrev pub session : Session ℕ
session = record {
  input = [];
  decoder = 0;
  accepted = [];
  units_done = 0;
  bytes_total = 0;
  log = [];
}

abbrev pub task : Task
task = record {
  type = chunk;
  path = 0x66 ∷ 0x67 ∷ [];
  offset = 4096;
  length_of_unit = 3;
  file_size = 9000;
  mtime = 1;
}

plain_head-unit_header_example :
    plain_head settings (record session { input = drop 1 (unit_header task) ++ (8 ∷ []) }) chunk
    ≡ some (headed settings session chunk (0x66 ∷ 0x67 ∷ []) 4096 (8 ∷ []))
plain_head-unit_header_example =
    plain_head-unit_header settings session task (8 ∷ []) (omega arith, omega arith, omega arith)

abbrev asked : Probe
asked = record {
  path = 0x66 ∷ [];
  type = chunk;
  offset = 64;
  length_of_unit = 3;
  file_size = 9000;
  mtime = 1;
  hash = [];
}

accepted_head-answer_example :
    accepted_head settings
      (record (answer settings session 7 asked) { input = drop 1 (accepted_header 7) ++ (8 ∷ []) })
    ≡ some (record {
      type = chunk;
      path = 0x66 ∷ [];
      base_offset = 64;
      session = record (answer settings session 7 asked) {
        input = 8 ∷ [];
        accepted = erase 7 (answer settings session 7 asked).accepted;
      };
    })
accepted_head-answer_example =
    accepted_head-answer settings session 7 asked (8 ∷ []) (omega arith) refl
