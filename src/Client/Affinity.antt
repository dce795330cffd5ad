-- ===== src/Client/Affinity.antt =====
-- client/affinity.h: what a file is like, by its extension, and how far it is from what a worker's compressor has seen.
use dicker.Base.{
  ℕ, zero, suc, ◌/◌, ◌%◌, ◌<◌, ◌≢◌, ◌↔◌, ◌||◌, sym, ap, ap₂, ◌∙◌, refl, holds_up_to,
  holds_up_to_lem, ◌+◌, ◌-◌, ◌*◌, ◌≤◌, ◌≡◌, arith, List, [], ◌∷◌, ◌++◌, Bool, true, false, not,
  ◌&&◌, ◌==◌, if◌then◌else◌, if-keep, bit_and, bit_or, ◌<<<◌, ◌>>>◌, u8, bytes, bytes_eq, is_nil,
}
use native.Mathlib.Nat.{mul-le-mul}
use dicker.Http.Message.{lower}

pub data Flavor : Type 0 where
  none opaque prose structured tabular code logs generic : Flavor

pub record AffinityVector : Type 0 where
  pub structure : ℕ
  pub tokens : ℕ
  pub records : ℕ
  pub is_opaque : Bool
  pub cold : Bool

abbrev opaque_bit : ℕ
opaque_bit = 1 <<< 24

abbrev cold_bit : ℕ
cold_bit = 1 <<< 25

abbrev pub cold_cost : ℕ
cold_cost = 16

abbrev pub wall_cost : ℕ
wall_cost = 1 <<< 20

-- A byte moved to its place in 32 bits loses nothing.
unfoldable pub pack_affinity : AffinityVector → ℕ
pack_affinity vector =
    let value₀ = bit_or (bit_or vector.structure (vector.tokens <<< 8)) (vector.records <<< 16) in
    let value₁ = if vector.is_opaque then bit_or value₀ opaque_bit else value₀ in
    if vector.cold then bit_or value₁ cold_bit else value₁

unfoldable pub unpack_affinity : ℕ → AffinityVector
unpack_affinity key = record {
  structure = u8 (bit_and key 0xff);
  tokens = u8 (bit_and (key >>> 8) 0xff);
  records = u8 (bit_and (key >>> 16) 0xff);
  is_opaque = not (bit_and key opaque_bit == 0);
  cold = not (bit_and key cold_bit == 0);
}

abbrev vector_of : Flavor → AffinityVector
vector_of none = record { structure = 0; tokens = 0; records = 0; is_opaque = false; cold = true }
vector_of opaque = record { structure = 0; tokens = 0; records = 0; is_opaque = true; cold = false }
vector_of prose = record { structure = 0; tokens = 0; records = 0; is_opaque = false; cold = false }
vector_of structured = record {
  structure = 9;
  tokens = 0;
  records = 0;
  is_opaque = false;
  cold = false;
}
vector_of tabular = record {
  structure = 3;
  tokens = 0;
  records = 9;
  is_opaque = false;
  cold = false;
}
vector_of code = record { structure = 2; tokens = 9; records = 2; is_opaque = false; cold = false }
vector_of logs = record { structure = 2; tokens = 0; records = 8; is_opaque = false; cold = false }
vector_of generic = record {
  structure = 1;
  tokens = 0;
  records = 1;
  is_opaque = false;
  cold = false;
}

unfoldable pub affinity_of : Flavor → ℕ
unfolding pack_affinity
affinity_of flavor = pack_affinity (vector_of flavor)

abbrev same : Bool → Bool → Bool
same true b = b
same false b = not b

-- The square of a difference of two bytes, which is the same from either side.
abbrev squared : ℕ → ℕ → ℕ
squared a b = ((a - b) + (b - a)) * ((a - b) + (b - a))

unfoldable pub distance : (incoming resident : ℕ) → ℕ
unfolding unpack_affinity
distance incoming resident =
    let left = unpack_affinity incoming in
    let right = unpack_affinity resident in
    if right.cold
    then cold_cost
    else if not (same left.is_opaque right.is_opaque)
    then wall_cost
    else if left.is_opaque && right.is_opaque
    then 0
    else squared left.structure right.structure
      + squared left.tokens right.tokens
      + squared left.records right.records

abbrev rows : Flavor → List (List ℕ) → List (List ℕ × Flavor)
rows flavor [] = []
rows flavor (name ∷ names) = (name, flavor) ∷ rows flavor names

abbrev pub flavor_table : List (List ℕ × Flavor)
flavor_table =
    rows opaque (
      bytes "png"
      ∷ bytes "jpg"
      ∷ bytes "jpeg"
      ∷ bytes "gif"
      ∷ bytes "webp"
      ∷ bytes "mp4"
      ∷ bytes "mkv"
      ∷ bytes "mov"
      ∷ bytes "webm"
      ∷ bytes "mp3"
      ∷ bytes "flac"
      ∷ bytes "ogg"
      ∷ bytes "zip"
      ∷ bytes "gz"
      ∷ bytes "zst"
      ∷ bytes "xz"
      ∷ bytes "7z"
      ∷ bytes "rar"
      ∷ bytes "pdf"
      ∷ bytes "docx"
      ∷ bytes "xlsx"
      ∷ bytes "exe"
      ∷ bytes "dll"
      ∷ bytes "woff2"
      ∷ [])
    ++ rows prose (bytes "txt" ∷ bytes "md" ∷ bytes "rst" ∷ [])
    ++ rows structured (
        bytes "json"
        ∷ bytes "xml"
        ∷ bytes "html"
        ∷ bytes "htm"
        ∷ bytes "yaml"
        ∷ bytes "yml"
        ∷ bytes "toml"
        ∷ bytes "svg"
        ∷ [])
    ++ rows tabular (bytes "csv" ∷ bytes "tsv" ∷ [])
    ++ rows code (
        bytes "c"
        ∷ bytes "h"
        ∷ bytes "cpp"
        ∷ bytes "hpp"
        ∷ bytes "cc"
        ∷ bytes "py"
        ∷ bytes "js"
        ∷ bytes "ts"
        ∷ bytes "go"
        ∷ bytes "rs"
        ∷ bytes "java"
        ∷ bytes "sql"
        ∷ [])
    ++ rows logs (bytes "log" ∷ [])

-- `std::filesystem::path::extension` of the path is a parameter of what follows.
abbrev pub lowered_extension : (extension : List ℕ) → List ℕ
lowered_extension [] = []
lowered_extension (c ∷ extension) = lower (if c == b'.' then extension else c ∷ extension)

abbrev pub flavor_in : List (List ℕ × Flavor) → List ℕ → Flavor
flavor_in [] extension = generic
flavor_in ((name, flavor) ∷ table) extension =
    if bytes_eq name extension then flavor else flavor_in table extension

unfoldable pub classify : (extension : List ℕ) → Flavor
classify extension =
    let lowered = lowered_extension extension in
    if is_nil lowered then generic else flavor_in flavor_table lowered

-- `forPath`
unfoldable pub for_path : (extension : List ℕ) → ℕ
unfolding classify affinity_of
for_path extension = affinity_of (classify extension)

squared-le : (a b : ℕ) → a ≤ 255 → b ≤ 255 → squared a b ≤ 255 * 255
squared-le a b ha hb = mul-le-mul {n₂ = 255} {m₂ = 255} (omega arith) (omega arith)

-- No distance is above the cost of the wall between opaque and other content.
pub distance-le : (incoming resident : ℕ) → distance incoming resident ≤ wall_cost
unfolding distance
distance-le incoming resident =
    let left = unpack_affinity incoming in
    let right = unpack_affinity resident in
    let apart =
      squared left.structure right.structure
      + squared left.tokens right.tokens
      + squared left.records right.records in
    let near : apart ≤ wall_cost = omega (
      arith,
      squared-le left.structure right.structure (omega arith) (omega arith),
      squared-le left.tokens right.tokens (omega arith) (omega arith),
      squared-le left.records right.records (omega arith) (omega arith),
    ) in
    let zero_near : 0 ≤ wall_cost = omega arith in
    let wall_near : wall_cost ≤ wall_cost = omega arith in
    let cold_near : cold_cost ≤ wall_cost = omega arith in
    if-keep (λ x. x ≤ wall_cost) right.cold (λ _. cold_near)
      (λ _.
        if-keep (λ x. x ≤ wall_cost) (not (same left.is_opaque right.is_opaque)) (λ _. wall_near)
          (λ _.
            if-keep (λ x. x ≤ wall_cost) (left.is_opaque && right.is_opaque) (λ _. zero_near)
              (λ _. near)))

-- The place of a flavour in its enumeration.
abbrev pub rank : Flavor → ℕ
rank none = 0
rank opaque = 1
rank prose = 2
rank structured = 3
rank tabular = 4
rank code = 5
rank logs = 6
rank generic = 7

flavor_at : ℕ → Flavor
flavor_at zero = none
flavor_at (suc zero) = opaque
flavor_at (suc (suc zero)) = prose
flavor_at (suc (suc (suc zero))) = structured
flavor_at (suc (suc (suc (suc zero)))) = tabular
flavor_at (suc (suc (suc (suc (suc zero))))) = code
flavor_at (suc (suc (suc (suc (suc (suc zero)))))) = logs
flavor_at _ = generic

flavor_at-rank : (flavor : Flavor) → (flavor_at (rank flavor) ≡ flavor) × (rank flavor < 8)
unfolding flavor_at
flavor_at-rank none = (refl, omega arith)
flavor_at-rank opaque = (refl, omega arith)
flavor_at-rank prose = (refl, omega arith)
flavor_at-rank structured = (refl, omega arith)
flavor_at-rank tabular = (refl, omega arith)
flavor_at-rank code = (refl, omega arith)
flavor_at-rank logs = (refl, omega arith)
flavor_at-rank generic = (refl, omega arith)

abbrev apart_as_told : Flavor → Flavor → Bool
apart_as_told incoming resident =
    rank incoming == 0
    || same (distance (affinity_of incoming) (affinity_of resident) == 0)
        (rank incoming == rank resident)

table : holds_up_to (λ n. apart_as_told (flavor_at (n / 8)) (flavor_at (n % 8))) 64 ≡ true
unfolding holds_up_to flavor_at distance affinity_of unpack_affinity pack_affinity
table = refl

told : (incoming resident : Flavor) → apart_as_told incoming resident ≡ true
told incoming resident =
    let n = rank incoming * 8 + rank resident in
    let (left, l) = flavor_at-rank incoming in
    let (right, r) = flavor_at-rank resident in
    let q : n / 8 ≡ rank incoming = omega arith in
    let m : n % 8 ≡ rank resident = omega arith in
    sym (ap₂ apart_as_told (ap flavor_at q ∙ left) (ap flavor_at m ∙ right))
    ∙ holds_up_to_lem (λ n. apart_as_told (flavor_at (n / 8)) (flavor_at (n % 8))) table n
        (omega arith)

-- The content of a file is at distance 0 from a worker exactly where the worker is warm with content of the same flavour.
pub distance-affinity_of :
    (incoming resident : Flavor)
    → rank incoming ≢ 0
    → (distance (affinity_of incoming) (affinity_of resident) ≡ 0) ↔ (rank incoming ≡ rank resident)
distance-affinity_of incoming resident some_flavor =
    let t = told incoming resident in (λ h. ground arith, λ h. ground arith)
