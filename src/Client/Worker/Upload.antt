-- ===== src/Client/Worker/Upload.antt =====
-- client/worker.h, `sendBlock` and `upload`: one unit, block by block.
use dicker.Base.{
  ℕ, zero, suc, ◌+◌, List, [], ◌∷◌, ◌++◌, Bool, true, false, if◌then◌else◌, length, not, ◌==◌, u64,
}
use dicker.Protocol.{block_code, end_of_unit}
use dicker.Wire.{write_u64_le}
use dicker.Codec.{Compressor}
use dicker.Upload.Session.{Checksum}
use dicker.Client.Worker.Frames.{block_header}

-- The channel to the network thread: what it has taken, and how many more frames it takes before the
-- connection drops and `enqueue` answers false.
pub record Network : Type 0 where
  pub sent : List ℕ
  pub alive : ℕ

abbrev pub take_frame : ℕ → List ℕ → List ℕ → Bool × Network
take_frame zero sent bytes = (false, record { sent = sent; alive = 0 })
take_frame (suc n) sent bytes = (true, record { sent = sent ++ bytes; alive = n })

unfoldable pub enqueue : Network → List ℕ → Bool × Network
enqueue net bytes = take_frame net.alive net.sent bytes

-- `sendBlock`
unfoldable pub send_block : Network → List ℕ → Bool × Network
unfolding enqueue
send_block net bytes =
    let (ok, after) = enqueue net (block_header bytes) in
    if ok then enqueue after bytes else (false, after)

module _ (c : Compressor) (x : Checksum) (integrity : Bool) where
  -- The variables of `upload`.
  pub record Sending : Type 0 where
    pub net : Network
    pub compressor : c.State
    pub checksum : x.State
    pub compressed_bytes : ℕ

  -- What the compressor produced goes out as a block; nothing goes out for nothing.
  unfoldable pub emit : Sending → List ℕ → Bool × Sending
  unfolding send_block
  emit s produced =
      let (ok, net) = send_block s.net produced in
      if length produced == 0 then (true, s) else (
        ok,
        record s {
          net = net;
          compressed_bytes =
              if ok then u64 (s.compressed_bytes + length produced) else s.compressed_bytes;
        },
      )

  -- One block that the storage reader filled.
  unfoldable pub send_filled : Sending → List ℕ → Bool × Sending
  unfolding emit
  send_filled s block =
      let (produced, compressor) = c.update s.compressor block in
      emit
        (record s {
          compressor = compressor;
          checksum = if integrity then x.update s.checksum block else s.checksum;
        })
        produced

  unfoldable pub send_all : Sending → List (List ℕ) → Bool × Sending
  unfolding send_filled
  send_all s [] = (true, s)
  send_all s (block ∷ blocks) =
      let (ok, after) = send_filled s block in
      let rest = send_all after blocks in if ok then rest else (false, after)

  -- Behind the blocks: the flush, the end of the unit, the checksum.
  unfoldable pub finish_unit : Sending → Bool × Sending
  unfolding emit
  finish_unit s =
      let (produced, compressor) = c.flush s.compressor in
      let (flushed, after) = emit (record s { compressor = compressor }) produced in
      let (closed, net₁) = enqueue after.net (block_code end_of_unit ∷ []) in
      let (summed, net₂) = enqueue net₁ (write_u64_le (x.digest s.checksum)) in
      if not flushed
      then (false, after)
      else if not closed
      then (false, record after { net = net₁ })
      else if integrity
      then (summed, record after { net = net₂ })
      else (true, record after { net = net₁ })

  unfoldable pub upload : Network → c.State → List ℕ → List (List ℕ) → Bool × Sending
  unfolding send_all finish_unit
  upload net compressor header blocks =
      let (ok, net₁) = enqueue net header in
      let start : Sending = record {
        net = net₁;
        compressor = compressor;
        checksum = x.reset;
        compressed_bytes = 0;
      } in
      let (sent, after) = send_all start blocks in
      if not ok then (false, start) else if not sent then (false, after) else finish_unit after
