-- ===== src/Crypto/Sha256/Compress.antt =====
-- shared/sha256.h, `process_block`: the compression of one block of 64 bytes into the state.
use dicker.Base.{
  ℕ, zero, suc, ◌+◌, ◌-◌, ◌*◌, ◌^◌, List, [], ◌∷◌, ◌++◌, get_or, length, ◌≡◌, refl, bit_and, bit_or,
  bit_xor, u32, ◌<<<◌, ◌>>>◌,
}

abbrev pub round_constants : List ℕ
round_constants =
    0x428a2f98 ∷ 0x71374491 ∷ 0xb5c0fbcf ∷ 0xe9b5dba5 ∷ 0x3956c25b ∷ 0x59f111f1 ∷ 0x923f82a4
    ∷ 0xab1c5ed5 ∷ 0xd807aa98 ∷ 0x12835b01 ∷ 0x243185be ∷ 0x550c7dc3 ∷ 0x72be5d74 ∷ 0x80deb1fe
    ∷ 0x9bdc06a7 ∷ 0xc19bf174 ∷ 0xe49b69c1 ∷ 0xefbe4786 ∷ 0x0fc19dc6 ∷ 0x240ca1cc ∷ 0x2de92c6f
    ∷ 0x4a7484aa ∷ 0x5cb0a9dc ∷ 0x76f988da ∷ 0x983e5152 ∷ 0xa831c66d ∷ 0xb00327c8 ∷ 0xbf597fc7
    ∷ 0xc6e00bf3 ∷ 0xd5a79147 ∷ 0x06ca6351 ∷ 0x14292967 ∷ 0x27b70a85 ∷ 0x2e1b2138 ∷ 0x4d2c6dfc
    ∷ 0x53380d13 ∷ 0x650a7354 ∷ 0x766a0abb ∷ 0x81c2c92e ∷ 0x92722c85 ∷ 0xa2bfe8a1 ∷ 0xa81a664b
    ∷ 0xc24b8b70 ∷ 0xc76c51a3 ∷ 0xd192e819 ∷ 0xd6990624 ∷ 0xf40e3585 ∷ 0x106aa070 ∷ 0x19a4c116
    ∷ 0x1e376c08 ∷ 0x2748774c ∷ 0x34b0bcb5 ∷ 0x391c0cb3 ∷ 0x4ed8aa4a ∷ 0x5b9cca4f ∷ 0x682e6ff3
    ∷ 0x748f82ee ∷ 0x78a5636f ∷ 0x84c87814 ∷ 0x8cc70208 ∷ 0x90befffa ∷ 0xa4506ceb ∷ 0xbef9a3f7
    ∷ 0xc67178f2 ∷ []

unfoldable pub rotate_right : ℕ → ℕ → ℕ
rotate_right value bits = bit_or (value >>> bits) (u32 (value <<< (32 - bits)))

-- `~e` on a uint32_t.
abbrev complement : ℕ → ℕ
complement e = 2 ^ 32 - 1 - e

-- w[0..16): the block as big-endian words, `n` of them from byte `4 * i` on.
unfoldable pub load_words : ℕ → ℕ → List ℕ → List ℕ
load_words zero i block = []
load_words (suc n) i block =
    bit_or
      (bit_or (bit_or (get_or block (i * 4) 0 <<< 24) (get_or block (i * 4 + 1) 0 <<< 16))
        (get_or block (i * 4 + 2) 0 <<< 8))
      (get_or block (i * 4 + 3) 0)
    ∷ load_words n (i + 1) block

-- w[i] for 16 <= i, from the words before it.
abbrev extend_word : List ℕ → ℕ → ℕ
extend_word w i =
    let x = get_or w (i - 15) 0 in
    let y = get_or w (i - 2) 0 in
    let s0 = bit_xor (bit_xor (rotate_right x 7) (rotate_right x 18)) (x >>> 3) in
    let s1 = bit_xor (bit_xor (rotate_right y 17) (rotate_right y 19)) (y >>> 10) in
    u32 (get_or w (i - 16) 0 + s0 + get_or w (i - 7) 0 + s1)

-- `n` rounds of the second loop, from index `i` on.
unfoldable pub extend_words : ℕ → ℕ → List ℕ → List ℕ
extend_words zero i w = w
extend_words (suc n) i w = extend_words n (i + 1) (w ++ (extend_word w i ∷ []))

-- a, b, …, h.
pub record Vars : Type 0 where
  pub a : ℕ
  pub b : ℕ
  pub c : ℕ
  pub d : ℕ
  pub e : ℕ
  pub f : ℕ
  pub g : ℕ
  pub h : ℕ

abbrev round : Vars → ℕ → ℕ → Vars
round v k wi =
    let big_s1 =
      bit_xor (bit_xor (rotate_right v.e 6) (rotate_right v.e 11)) (rotate_right v.e 25) in
    let choose = bit_xor (bit_and v.e v.f) (bit_and (complement v.e) v.g) in
    let temp1 = u32 (v.h + big_s1 + choose + k + wi) in
    let big_s0 =
      bit_xor (bit_xor (rotate_right v.a 2) (rotate_right v.a 13)) (rotate_right v.a 22) in
    let majority = bit_xor (bit_xor (bit_and v.a v.b) (bit_and v.a v.c)) (bit_and v.b v.c) in
    let temp2 = u32 (big_s0 + majority) in
    record {
      a = u32 (temp1 + temp2);
      b = v.a;
      c = v.b;
      d = v.c;
      e = u32 (v.d + temp1);
      f = v.e;
      g = v.f;
      h = v.g;
    }

-- `n` rounds of the main loop, from index `i` on.
unfoldable pub rounds : ℕ → ℕ → List ℕ → Vars → Vars
rounds zero i w v = v
rounds (suc n) i w v = rounds n (i + 1) w (round v (get_or round_constants i 0) (get_or w i 0))

-- `state_[i] += …` at the end of a block.
unfoldable pub add_vars : List ℕ → Vars → List ℕ
add_vars state v =
    u32 (get_or state 0 0 + v.a)
    ∷ u32 (get_or state 1 0 + v.b)
    ∷ u32 (get_or state 2 0 + v.c)
    ∷ u32 (get_or state 3 0 + v.d)
    ∷ u32 (get_or state 4 0 + v.e)
    ∷ u32 (get_or state 5 0 + v.f)
    ∷ u32 (get_or state 6 0 + v.g)
    ∷ u32 (get_or state 7 0 + v.h)
    ∷ []

unfoldable pub process_block : List ℕ → List ℕ → List ℕ
process_block state block =
    let w = extend_words 48 16 (load_words 16 0 block) in
    let word = λ (i : ℕ). get_or state i 0 in
    add_vars state (
      rounds 64 0 w (record {
        a = word 0;
        b = word 1;
        c = word 2;
        d = word 3;
        e = word 4;
        f = word 5;
        g = word 6;
        h = word 7;
      }))

pub length-process_block : (state block : List ℕ) → length (process_block state block) ≡ 8
unfolding process_block add_vars
length-process_block state block = refl
