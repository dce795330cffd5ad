-- ===== src/Archive.antt =====
-- server/archive.cxx, `ArchiveStreamer`: the tar stream behind a download, up to its compression. What the walk over the
-- directory found is the list of entries; what a file gives when it is opened is a parameter.
pub mod Octal
pub mod Fields
pub mod Names
pub mod Header
pub mod Member
pub mod Stream
pub mod Refill
pub mod Blocks
use dicker.Base.{
  ℕ, zero, suc, ◌+◌, ◌-◌, ◌*◌, ◌/◌, ◌%◌, ◌^◌, min, List, [], ◌∷◌, ◌++◌, Bool, true, false, Option,
  none, some, if◌then◌else◌, not, ◌==◌, ltb, leb, ◌&&◌, length, take, drop, replicate, bit_and, u32,
  bytes,
}

-- `set_octal`: the digits behind each other, the last first.
unfoldable pub octal : (digits : ℕ) → ℕ → List ℕ
octal zero v = []
octal (suc k) v = octal k (v / 2 ^ 3) ++ (0x30 + bit_and v 7) ∷ []

unfoldable pub set_octal : (n : ℕ) → ℕ → List ℕ
set_octal n v = octal (n - 1) v ++ 0 ∷ []

-- `memcpy` of at most n bytes into n zero bytes
unfoldable pub field : (n : ℕ) → List ℕ → List ℕ
field n src = take n src ++ replicate (n - length src) 0

-- The last `/` at which the name can be split, from position p on; `split` is the one so far.
unfoldable pub find_split : (size p : ℕ) (split : Option ℕ) → List ℕ → Option ℕ
find_split size p split [] = split
find_split size p split (b ∷ name) =
    find_split size (p + 1)
      (if b == 0x2f && (leb (size - (p + 1)) 100 && leb p 155) then some p else split) name

-- The fields for the name and its prefix.
abbrev pub cut_name : List ℕ → Option ℕ → List ℕ × List ℕ
cut_name name none = (drop (length name - 100) name, [])
cut_name name (some split) = (drop (split + 1) name, take split name)

unfoldable pub split_name : List ℕ → List ℕ × List ℕ
split_name name =
    if leb (length name) 100
    then (name, [])
    else cut_name name (find_split (length name) 0 none name)

abbrev pub sum_of : List ℕ → ℕ
sum_of [] = 0
sum_of (b ∷ bs) = b + sum_of bs

-- The header in front of the checksum and behind it.
unfoldable pub front_fields : List ℕ → ℕ → List ℕ
front_fields name size =
    field 100 name
    ++ (set_octal 8 (6 * 64 + 4 * 8 + 4)
        ++ (set_octal 8 0 ++ (set_octal 8 0 ++ (set_octal 12 size ++ set_octal 12 0))))

unfoldable pub back_fields : List ℕ → List ℕ
back_fields prefix =
    0x30
    ∷ (field 100 []
        ++ (field 6 (bytes "ustar")
            ++ (bytes "00" ++ (field 80 [] ++ (field 155 prefix ++ field 12 [])))))

-- `emit_header`: the checksum is taken with blanks in its place.
unfoldable pub emit_header : List ℕ → ℕ → List ℕ
emit_header name size =
    let (field_name, field_prefix) = split_name name in
    let front = front_fields field_name size in
    let back = back_fields field_prefix in
    let sum = u32 (sum_of (front ++ (replicate 8 0x20 ++ back))) in
    front ++ ((octal 6 (bit_and sum 0x1fffff) ++ (0 ∷ 0x20 ∷ [])) ++ back)

pub record Entry : Type 0 where
  pub path : List ℕ
  pub name : List ℕ
  pub size : ℕ

-- `cur` is what is still to be read of the file that is open.
pub record ArchiveStreamer : Type 0 where
  pub entries : List Entry
  pub header_pending : Bool
  pub cur : List ℕ
  pub cur_remaining : ℕ
  pub pad_remaining : ℕ
  pub trailer_emitted : Bool
  pub input_done : Bool
  pub raw : List ℕ

-- `kRawTarget`, and the size of `buf`
abbrev pub raw_target : ℕ
raw_target = 2 ^ 18

abbrev pub buf_size : ℕ
buf_size = 65536

-- `files` is what a file holds when it is opened, `none` where it cannot be.
module _ (files : Entry → Option (List ℕ)) where
  -- The next member: its header, or nothing where its file cannot be opened.
  abbrev pub begin_member : ArchiveStreamer → Entry → List Entry → Option (List ℕ) → ArchiveStreamer
  begin_member s e es none = record s { entries = es; header_pending = true; cur = [] }
  begin_member s e es (some content) = record s {
    raw = s.raw ++ emit_header e.name e.size;
    cur = content;
    cur_remaining = e.size;
    pad_remaining = (512 - e.size % 512) % 512;
    header_pending = false;
  }

  -- A read of at most `buf_size` bytes; where it is short, zeros stand for what is missing.
  unfoldable pub read_data : ArchiveStreamer → ArchiveStreamer
  read_data s =
      let want = min s.cur_remaining buf_size in
      let got = take want s.cur in
      let left = s.cur_remaining - length got in
      if ltb (length got) want
      then record s {
        raw = (s.raw ++ got) ++ replicate left 0;
        cur = drop want s.cur;
        cur_remaining = 0;
      }
      else record s { raw = s.raw ++ got; cur = drop want s.cur; cur_remaining = left }

  unfoldable pub end_input : ArchiveStreamer → ArchiveStreamer
  end_input s = record s {
    raw = if s.trailer_emitted then s.raw else s.raw ++ replicate 1024 0;
    trailer_emitted = true;
    input_done = true;
  }

  -- One round of the loop of `refill_raw`.
  unfoldable pub refill_round : List Entry → ArchiveStreamer → ArchiveStreamer
  unfolding read_data end_input
  refill_round [] s = end_input s
  refill_round (e ∷ es) s =
      if s.header_pending
      then begin_member s e es (files e)
      else if ltb 0 s.cur_remaining
      then read_data s
      else if ltb 0 s.pad_remaining
      then record s { raw = s.raw ++ replicate s.pad_remaining 0; pad_remaining = 0 }
      else record s { entries = es; header_pending = true; cur = [] }

  unfoldable pub refill_loop : ℕ → ArchiveStreamer → ArchiveStreamer
  unfolding refill_round
  refill_loop zero s = s
  refill_loop (suc fuel) s =
      let rest = refill_loop fuel (refill_round s.entries s) in
      if ltb (length s.raw) raw_target && not s.input_done then rest else s
