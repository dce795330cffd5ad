-- ===== src/Transfer/Send.antt =====
-- The client's side of a transfer: the blocks of a unit on the wire, and what they do at the server.
use dicker.Base.{
  ℕ, zero, suc, ◌+◌, ◌≤◌, ◌≡◌, refl, sym, ap, ap₂, ◌∙◌, true, false, List, [], ◌∷◌, ◌++◌, length,
  length-append, append_assoc, u64, arith, Bool-cases, inl, inr,
}
use dicker.Codec.{joined}
use dicker.Upload.Session.{Settings}
use dicker.Upload.Sink.{UnitSink, write_pieces, write}
use dicker.Upload.Blocks.{block_loop}
use dicker.Client.Worker.Frames.{block_header}
use dicker.Client.Worker.Upload.{Network, take_frame, enqueue, send_block}
use dicker.Transfer.Step.{Writable, block_step}

take_frame_ok :
    (n : ℕ) (sent bytes : List ℕ)
    → (take_frame n sent bytes).0 ≡ true
    → (take_frame n sent bytes).1.sent ≡ sent ++ bytes
take_frame_ok zero sent bytes h = cc
take_frame_ok (suc n) sent bytes h = refl

-- A frame that was taken is behind what was sent before.
pub enqueue_ok :
    (net : Network) (bytes : List ℕ)
    → (enqueue net bytes).0 ≡ true
    → (enqueue net bytes).1.sent ≡ net.sent ++ bytes
unfolding enqueue
enqueue_ok net bytes h = take_frame_ok net.alive net.sent bytes h

pub send_block_ok :
    (net : Network) (bytes : List ℕ)
    → (send_block net bytes).0 ≡ true
    → (send_block net bytes).1.sent ≡ net.sent ++ (block_header bytes ++ bytes)
unfolding send_block
send_block_ok net bytes h = elim (Bool-cases (enqueue net (block_header bytes)).0) [
  | inl ok ↦ rw ok (
      enqueue_ok (enqueue net (block_header bytes)).1 bytes (rw ok at h)
      ∙ ap (λ t. t ++ bytes) (enqueue_ok net (block_header bytes) ok)
      ∙ append_assoc net.sent (block_header bytes) bytes)
  | inr dropped ↦ let bad : false ≡ true = rw dropped at h in cc
]

-- What goes out for what a compressor produced.
abbrev pub frame_of : List ℕ → List ℕ
frame_of [] = []
frame_of (b ∷ bs) = block_header (b ∷ bs) ++ (b ∷ bs)

module _ (w : Settings) where
  open w use {decompressor, checksum, integrity_checks}

  -- The block loop runs from one state to another over `bytes`, whatever stands behind them.
  pub record Through (bytes : List ℕ) (ds : decompressor.State) (sink : UnitSink checksum.State)
      (wire : ℕ) (ds' : decompressor.State) (sink' : UnitSink checksum.State) (wire' : ℕ)
      : Type 0 where
    pub count : ℕ
    pub count_le : count ≤ length bytes
    pub runs :
        (total fuel : ℕ) (rest : List ℕ)
        → total ≡ count + fuel
        → block_loop w total (bytes ++ rest) ds sink wire ≡ block_loop w fuel rest ds' sink' wire'

  pub Through-nothing :
      (ds : decompressor.State) (sink : UnitSink checksum.State) (wire : ℕ)
      → Through [] ds sink wire ds sink wire
  Through-nothing ds sink wire = record {
    count = 0;
    count_le = omega arith;
    runs = λ total fuel rest e. ap (λ n. block_loop w n rest ds sink wire) (omega arith);
  }

  pub Through-both :
      (xs ys : List ℕ) {ds ds' ds'' : decompressor.State}
      {sink sink' sink'' : UnitSink checksum.State} {wire wire' wire'' : ℕ}
      → Through xs ds sink wire ds' sink' wire'
      → Through ys ds' sink' wire' ds'' sink'' wire''
      → Through (xs ++ ys) ds sink wire ds'' sink'' wire''
  Through-both xs ys {ds} {ds'} {ds''} {sink} {sink'} {sink''} {wire} {wire'} {wire''} t u =
      record {
        count = t.count + u.count;
        count_le = omega (arith, length-append xs ys, t.count_le, u.count_le);
        runs = λ total fuel rest e.
            ap (λ i. block_loop w total i ds sink wire) (append_assoc xs ys rest)
            ∙ t.runs total (u.count + fuel) (ys ++ rest) (omega arith)
            ∙ u.runs (u.count + fuel) fuel rest refl;
      }

  pub Through-block :
      (p : List ℕ) (ds : decompressor.State) (sink : UnitSink checksum.State) (wire : ℕ)
      → Writable w
      → 1 ≤ length p
      → length p ≤ 67108864
      → (decompressor.decompress ds p).decodes ≡ true
      → Through
          (block_header p ++ p)
          ds
          sink
          wire
          (decompressor.decompress ds p).state
          (write_pieces w sink (decompressor.decompress ds p).pieces).1
          (u64 (wire + length p))
  Through-block p ds sink wire ok pos fits decodes = record {
    count = 1;
    count_le = omega (arith, length-append (block_header p) p);
    runs = λ total fuel rest e.
        let e' : total ≡ suc fuel = omega arith in
        ap₂ (λ n i. block_loop w n i ds sink wire) e' (append_assoc (block_header p) p rest)
        ∙ block_step w fuel p rest ds sink wire ok pos fits decodes;
  }

  pub write_pieces-append :
      (ps qs : List (List ℕ)) (sink : UnitSink checksum.State)
      → Writable w
      → (write_pieces w sink (ps ++ qs)).1 ≡ (write_pieces w (write_pieces w sink ps).1 qs).1
  unfolding write_pieces write
  write_pieces-append [] qs sink ok = refl
  write_pieces-append (p ∷ ps) qs sink ok = rw ok (write_pieces-append ps qs _ ok)

pub joined-append : (ps qs : List (List ℕ)) → joined (ps ++ qs) ≡ joined ps ++ joined qs
joined-append [] qs = refl
joined-append (p ∷ ps) qs =
    ap (λ t. p ++ t) (joined-append ps qs) ∙ sym (append_assoc p (joined ps) (joined qs))
