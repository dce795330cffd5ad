-- ===== src/Codec.antt =====
-- client/compressor.h, `StreamCompressor`, and server/decompressor.h, `StreamDecompressor`: the two ends of a
-- connection's compression stream. LZ4 and zstd stand behind them and are parameters of the model.
use dicker.Base.{ℕ, ◌*◌, ◌≤◌, ◌≡◌, ◌≢◌, Bool, true, List, [], ◌∷◌, ◌++◌, length}
use dicker.Protocol.{max_block_size}

-- What a call produces (nothing, for an error or while the codec only buffers), and the state after it.
pub record Compressor : Type 1 where
  pub State : Type 0
  pub update : State → List ℕ → List ℕ × State
  pub flush : State → List ℕ × State

-- One call on a block: the pieces that are written to the sink in order, and whether the block decoded.
pub record Decoded (S : Type 0) : Type 0 where
  pub pieces : List (List ℕ)
  pub decodes : Bool
  pub state : S

pub record Decompressor : Type 1 where
  pub State : Type 0
  pub decompress : State → List ℕ → Decoded State

abbrev pub joined : List (List ℕ) → List ℕ
joined [] = []
joined (p ∷ ps) = p ++ joined ps

-- `READ_BLOCK`, the most that one `update` is given.
abbrev pub read_block : ℕ
read_block = 256 * 1024

-- The documented behaviour of a stream codec while no call fails: what has been put in and has not come
-- out is `pending`; a block decodes to the next bytes of it, and after a flush nothing is pending. A call that
-- produces nothing leaves its input pending.
pub record Agrees (c : Compressor) (d : Decompressor) : Type 1 where
  pub Lag : c.State → d.State → List ℕ → Type 0
  pub update_fits :
      (cs : c.State) (x : List ℕ)
      → length x ≤ read_block
      → length (c.update cs x).0 ≤ max_block_size
  pub update_silent :
      (cs : c.State) (ds : d.State) (pending x : List ℕ)
      → length x ≤ read_block
      → Lag cs ds pending
      → (c.update cs x).0 ≡ []
      → Lag (c.update cs x).1 ds (pending ++ x)
  pub update_block :
      (cs : c.State) (ds : d.State) (pending x : List ℕ)
      → length x ≤ read_block
      → Lag cs ds pending
      → (c.update cs x).0 ≢ []
      → (rest : List ℕ) × ((d.decompress ds (c.update cs x).0).decodes ≡ true)
        × (pending ++ x ≡ joined (d.decompress ds (c.update cs x).0).pieces ++ rest)
        × Lag (c.update cs x).1 (d.decompress ds (c.update cs x).0).state rest
  pub flush_fits : (cs : c.State) → length (c.flush cs).0 ≤ max_block_size
  pub flush_silent :
      (cs : c.State) (ds : d.State) (pending : List ℕ)
      → Lag cs ds pending
      → (c.flush cs).0 ≡ []
      → (pending ≡ []) × Lag (c.flush cs).1 ds []
  pub flush_block :
      (cs : c.State) (ds : d.State) (pending : List ℕ)
      → Lag cs ds pending
      → (c.flush cs).0 ≢ []
      → ((d.decompress ds (c.flush cs).0).decodes ≡ true)
        × (pending ≡ joined (d.decompress ds (c.flush cs).0).pieces)
        × Lag (c.flush cs).1 (d.decompress ds (c.flush cs).0).state []
