-- ===== src/Entries/Header.antt =====
-- The 42 bytes of an entry's header.
use nutsdb.Prelude.{◌^◌, ◌≤◌, ◌<◌, ◌≡◌, refl, ◌∙◌, some, List, [], ◌∷◌, ◌++◌, length, drop}
use nutsdb.Prelude.Words.{Bytes}
use nutsdb.Prelude.Fields.{Field, field_bytes, Fit, put_fields, put_fields-append, AllRead-append}
use nutsdb.Entries.{MetaData, set_entry_header_buf, parse_meta}

-- The fields of the header behind the checksum, in the order of the file.
abbrev pub meta_fields : MetaData → List Field
meta_fields m =
    (8, m.timestamp)
    ∷ (4, m.key_size)
    ∷ (4, m.value_size)
    ∷ (2, m.flag)
    ∷ (4, m.ttl)
    ∷ (4, m.bucket_size)
    ∷ (2, m.status)
    ∷ (2, m.ds)
    ∷ (8, m.tx_id)
    ∷ []

abbrev pub header_fields : MetaData → List Field
header_fields m = (4, m.crc) ∷ meta_fields m

-- The widths of Go's types.
pub record InRange (m : MetaData) : Type 0 where
  pub timestamp : m.timestamp < 2 ^ 64
  pub key_size : m.key_size < 2 ^ 32
  pub value_size : m.value_size < 2 ^ 32
  pub flag : m.flag < 2 ^ 16
  pub ttl : m.ttl < 2 ^ 32
  pub bucket_size : m.bucket_size < 2 ^ 32
  pub status : m.status < 2 ^ 16
  pub ds : m.ds < 2 ^ 16
  pub tx_id : m.tx_id < 2 ^ 64

pub set_entry_header_buf-put_fields :
    (m : MetaData) (buf : Bytes) → set_entry_header_buf m buf ≡ put_fields (header_fields m) 0 buf
unfolding set_entry_header_buf put_fields
set_entry_header_buf-put_fields m buf = refl

pub set_entry_header_buf-bytes :
    (m : MetaData) (buf : Bytes)
    → 42 ≤ length buf
    → set_entry_header_buf m buf ≡ some (field_bytes (header_fields m) ++ drop 42 buf)
set_entry_header_buf-bytes m buf h =
    set_entry_header_buf-put_fields m buf ∙ put_fields-append (header_fields m) [] buf h

header-Fit : (m : MetaData) → InRange m → m.crc < 2 ^ 32 → Fit (header_fields m)
header-Fit m r c = (
  c,
  (
    r.timestamp,
    (
      r.key_size,
      (r.value_size, (r.flag, (r.ttl, (r.bucket_size, (r.status, (r.ds, (r.tx_id, tt))))))),
    ),
  ),
)

-- `ParseMeta` gives the meta data whose ten fields a buffer starts with, where every field is in
-- the range of its type.
pub parse_meta-header :
    (m : MetaData) (post : Bytes)
    → InRange m
    → m.crc < 2 ^ 32
    → parse_meta (field_bytes (header_fields m) ++ post) ≡ some m
unfolding parse_meta
parse_meta-header m post r c =
    let reads = AllRead-append (header_fields m) [] post (header-Fit m r c) in
    let (crc, after_crc) = reads in
    let (timestamp, after_timestamp) = after_crc in
    let (key_size, after_key_size) = after_timestamp in
    let (value_size, after_value_size) = after_key_size in
    let (flag, after_flag) = after_value_size in
    let (ttl, after_ttl) = after_flag in
    let (bucket_size, after_bucket_size) = after_ttl in
    let (status, after_status) = after_bucket_size in
    let (ds, after_ds) = after_status in
    rw (crc, timestamp, key_size, value_size, flag, ttl, bucket_size, status, ds, after_ds.0)
