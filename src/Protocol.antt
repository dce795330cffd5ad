-- ===== src/Protocol.antt =====
-- shared/protocol.h: the constants and the enumerations of the wire protocol. A value of an `enum struct`
-- over `uint8_t` is read from its byte; a byte that names no enumerator is `none`.
pub mod Codes
use dicker.Base.{
  ℕ, ◌+◌, ◌*◌, List, [], ◌∷◌, Bool, Option, none, some, bit_and, ◌==◌, not, if◌then◌else◌,
}

abbrev pub magic : List ℕ
magic = b'D' ∷ b'K' ∷ b'R' ∷ b'1' ∷ []

abbrev pub protocol_version : ℕ
protocol_version = 2

abbrev pub min_protocol_version : ℕ
min_protocol_version = 1

-- The only command.
abbrev pub cmd_upload : ℕ
cmd_upload = 0x33

pub data CompressionAlgo : Type 0 where
  no_compression lz4 zstd : CompressionAlgo

abbrev pub algo_code : CompressionAlgo → ℕ
algo_code no_compression = 0
algo_code lz4 = 1
algo_code zstd = 2

unfoldable pub algo_of : ℕ → Option CompressionAlgo
algo_of c =
    if c == 0
    then some no_compression
    else if c == 1
    then some lz4
    else if c == 2
    then some zstd
    else none

pub data UnitType : Type 0 where
  file chunk probe accepted end_of_session : UnitType

abbrev pub unit_code : UnitType → ℕ
unit_code file = 0
unit_code chunk = 1
unit_code probe = 2
unit_code accepted = 3
unit_code end_of_session = 0xff

unfoldable pub unit_of : ℕ → Option UnitType
unit_of c =
    if c == 0
    then some file
    else if c == 1
    then some chunk
    else if c == 2
    then some probe
    else if c == 3
    then some accepted
    else if c == 0xff
    then some end_of_session
    else none

-- Bits of the mode byte.
abbrev pub mode_accept : ℕ
mode_accept = 1

abbrev pub mode_hash_first : ℕ
mode_hash_first = 2

pub data ProbeDecision : Type 0 where
  accept reject : ProbeDecision

abbrev pub decision_code : ProbeDecision → ℕ
decision_code accept = 0
decision_code reject = 1

pub data BlockType : Type 0 where
  end_of_unit data_block : BlockType

abbrev pub block_code : BlockType → ℕ
block_code end_of_unit = 0
block_code data_block = 1

unfoldable pub block_of : ℕ → Option BlockType
block_of c = if c == 0 then some end_of_unit else if c == 1 then some data_block else none

abbrev pub flag_integrity : ℕ
flag_integrity = 1

pub data HandshakeStatus : Type 0 where
  status_ok bad_magic bad_version auth_failed bad_algo server_error : HandshakeStatus

abbrev pub status_code : HandshakeStatus → ℕ
status_code status_ok = 0
status_code bad_magic = 1
status_code bad_version = 2
status_code auth_failed = 3
status_code bad_algo = 4
status_code server_error = 5

abbrev pub session_id_size : ℕ
session_id_size = 16

abbrev pub hmac_size : ℕ
hmac_size = 32

abbrev pub handshake_signed_prefix_size : ℕ
handshake_signed_prefix_size = 4 + 2 + 1 + 1 + session_id_size

abbrev pub handshake_request_size : ℕ
handshake_request_size = handshake_signed_prefix_size + hmac_size

abbrev pub handshake_reply_size : ℕ
handshake_reply_size = 4 + 1

abbrev pub probe_hash_size : ℕ
probe_hash_size = 32

abbrev pub probe_reply_size : ℕ
probe_reply_size = 1 + 8

abbrev pub max_path_length : ℕ
max_path_length = 4096

abbrev pub max_block_size : ℕ
max_block_size = 64 * 1024 * 1024

unfoldable pub has_flag : ℕ → ℕ → Bool
has_flag flags flag = not (bit_and flags flag == 0)

unfoldable pub has_mode : ℕ → ℕ → Bool
has_mode mode flag = not (bit_and mode flag == 0)
