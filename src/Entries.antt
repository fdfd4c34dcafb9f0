-- ===== src/Entries.antt =====
-- entry.go: a data item, its meta data, and its encoding as bytes of the data file.
pub mod Header
pub mod Layout
use nutsdb.Prelude.{
  ℕ, ◌+◌, ◌-◌, ◌%◌, ◌^◌, Bool, ◌&&◌, ◌||◌, Option, none, some, List, [], ◌∷◌, leb, ltb, ◌==◌,
  if◌then◌else◌, length, take, drop, replicate, Outcome, ok, err,
}
use nutsdb.Prelude.Arrays.{write_all}
use nutsdb.Prelude.Crc.{checksum, update}
use nutsdb.Prelude.LittleEndian.{put, get}
use nutsdb.Prelude.Options.{◌>>=◌}
use nutsdb.Prelude.Words.{Bytes}

pub record MetaData : Type 0 where
  pub key_size : ℕ
  pub value_size : ℕ
  pub timestamp : ℕ
  pub ttl : ℕ
  pub flag : ℕ
  pub bucket_size : ℕ
  pub tx_id : ℕ
  pub status : ℕ
  pub ds : ℕ
  pub crc : ℕ

pub record Entry : Type 0 where
  pub key : Bytes
  pub value : Bytes
  pub bucket : Bytes
  pub meta : MetaData

pub record Hint : Type 0 where
  pub key : Bytes
  pub file_id : ℕ
  pub meta : MetaData
  pub data_pos : ℕ

abbrev pub data_entry_header_size : ℕ
data_entry_header_size = 42

-- `math.MaxInt32`
abbrev pub max_size : ℕ
max_size = 2 ^ 31 - 1

-- Sums of `uint32` wrap, those of `int64` here do not.
abbrev pub add32 : ℕ → ℕ → ℕ
add32 a b = (a + b) % 2 ^ 32

unfoldable pub payload_size : MetaData → ℕ
payload_size m = m.bucket_size + m.key_size + m.value_size

unfoldable pub size : Entry → ℕ
size e =
    add32 (add32 (add32 data_entry_header_size e.meta.key_size) e.meta.value_size)
      e.meta.bucket_size

unfoldable pub set_entry_header_buf : MetaData → Bytes → Option Bytes
set_entry_header_buf m buf = do
  buf ← put 4 0 m.crc buf
  buf ← put 8 4 m.timestamp buf
  buf ← put 4 12 m.key_size buf
  buf ← put 4 16 m.value_size buf
  buf ← put 2 20 m.flag buf
  buf ← put 4 22 m.ttl buf
  buf ← put 4 26 m.bucket_size buf
  buf ← put 2 30 m.status buf
  buf ← put 2 32 m.ds buf
  buf ← put 8 34 m.tx_id buf
  some buf

-- `copy(buf[low:high], src)`
unfoldable pub copy_to : ℕ → ℕ → Bytes → Bytes → Option Bytes
copy_to low high src buf =
    if leb low high && leb high (length buf)
    then write_all (take (high - low) src) low buf
    else none

unfoldable pub encode : Entry → Option Bytes
encode e =
    let bucket_start = data_entry_header_size in
    let key_start = add32 data_entry_header_size e.meta.bucket_size in
    let value_start = add32 key_start e.meta.key_size in
    let value_end = add32 value_start e.meta.value_size in
    do
      buf ← set_entry_header_buf e.meta (replicate (size e) 0)
      buf ← copy_to bucket_start key_start e.bucket buf
      buf ← copy_to key_start value_start e.key buf
      buf ← copy_to value_start value_end e.value buf
      put 4 0 (checksum (drop 4 buf)) buf

unfoldable pub is_zero : MetaData → Bool
is_zero m = m.crc == 0 && m.key_size == 0 && m.value_size == 0 && m.timestamp == 0

-- The checksum of the header behind its first field, then of the payload.
unfoldable pub get_crc : Entry → Bytes → ℕ
get_crc e buf = update (update (update (checksum (drop 4 buf)) e.bucket) e.key) e.value

-- `data[low:high]`
unfoldable pub sub_slice : ℕ → ℕ → Bytes → Option Bytes
sub_slice low high xs =
    if leb low high && leb high (length xs) then some (take (high - low) (drop low xs)) else none

unfoldable pub parse_payload : MetaData → Bytes → Option Entry
parse_payload m bytes =
    let key_start = m.bucket_size in
    let value_start = add32 m.bucket_size m.key_size in
    let value_end = add32 value_start m.value_size in
    do
      bucket ← sub_slice 0 key_start bytes
      key ← sub_slice key_start value_start bytes
      value ← sub_slice value_start value_end bytes
      some (record { key = key; value = value; bucket = bucket; meta = m })

unfoldable pub parse_meta : Bytes → Option MetaData
parse_meta buf = do
  crc ← get 4 0 buf
  timestamp ← get 8 4 buf
  key_size ← get 4 12 buf
  value_size ← get 4 16 buf
  flag ← get 2 20 buf
  ttl ← get 4 22 buf
  bucket_size ← get 4 26 buf
  status ← get 2 30 buf
  ds ← get 2 32 buf
  tx_id ← get 8 34 buf
  some (record {
    key_size = key_size;
    value_size = value_size;
    timestamp = timestamp;
    ttl = ttl;
    flag = flag;
    bucket_size = bucket_size;
    tx_id = tx_id;
    status = status;
    ds = ds;
    crc = crc;
  })

pub data EntryError : Type 0 where
  key_empty data_size_exceed payload_size_mismatch : EntryError

unfoldable pub check_payload_size : MetaData → ℕ → Outcome EntryError (Unit {0})
check_payload_size m size = if payload_size m == size then ok tt else err payload_size_mismatch

unfoldable pub valid : Entry → Outcome EntryError (Unit {0})
valid e =
    if length e.key == 0
    then err key_empty
    else if ltb max_size (length e.bucket)
        || ltb max_size (length e.key)
        || ltb max_size (length e.value)
    then err data_size_exceed
    else ok tt
