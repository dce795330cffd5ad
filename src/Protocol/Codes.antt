-- ===== src/Protocol/Codes.antt =====
-- shared/protocol.h: every enumerator is read back from its byte.
use dicker.Base.{◌≡◌, refl, some}
use dicker.Protocol.{
  CompressionAlgo, no_compression, lz4, zstd, algo_code, algo_of, UnitType, file, chunk, probe,
  accepted, end_of_session, unit_code, unit_of, BlockType, end_of_unit, data_block, block_code,
  block_of,
}

pub algo_of-algo_code : (a : CompressionAlgo) → algo_of (algo_code a) ≡ some a
unfolding algo_of
algo_of-algo_code no_compression = refl
algo_of-algo_code lz4 = refl
algo_of-algo_code zstd = refl

pub unit_of-unit_code : (u : UnitType) → unit_of (unit_code u) ≡ some u
unfolding unit_of
unit_of-unit_code file = refl
unit_of-unit_code chunk = refl
unit_of-unit_code probe = refl
unit_of-unit_code accepted = refl
unit_of-unit_code end_of_session = refl

pub block_of-block_code : (b : BlockType) → block_of (block_code b) ≡ some b
unfolding block_of
block_of-block_code end_of_unit = refl
block_of-block_code data_block = refl
