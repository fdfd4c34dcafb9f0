-- ===== src/Entries/Layout.antt =====
-- What `Encode` writes, and that `ParsePayload` and `GetCrc` read it back.
use mathlib.Core.List.{append_assoc, append-nil}
use nutsdb.Prelude.{
  ℕ, ◌+◌, ◌-◌, ◌^◌, ◌≤◌, ◌<◌, ◌≡◌, ap, sym, ◌∙◌, true, some, [], ◌++◌, arith, leb, ◌&&◌, length,
  length-append, length-replicate, length-drop, drop, drop_all, take_all, drop_append, replicate,
}
use nutsdb.Prelude.Words.{Bytes}
use nutsdb.Prelude.Crc.{checksum}
use nutsdb.Prelude.LittleEndian.{le_bytes, length-le_bytes, put}
use nutsdb.Prelude.Fields.{field_bytes, length-field_bytes, write_all-next, put-next}
use nutsdb.Entries.{Entry, size, set_entry_header_buf, copy_to, encode, add32}
use nutsdb.Entries.Header.{InRange, meta_fields, header_fields, set_entry_header_buf-bytes}

-- The meta data gives the sizes of the parts, and the whole fits a `uint32`.
pub record IsSized (e : Entry) : Type 0 where
  pub in_range : InRange e.meta
  pub key : e.meta.key_size ≡ length e.key
  pub value : e.meta.value_size ≡ length e.value
  pub bucket : e.meta.bucket_size ≡ length e.bucket
  pub total : 42 + e.meta.key_size + e.meta.value_size + e.meta.bucket_size < 2 ^ 32

abbrev pub payload : Entry → Bytes
payload e = e.bucket ++ (e.key ++ e.value)

-- All bytes of an entry but its checksum.
abbrev pub body : Entry → Bytes
body e = field_bytes (meta_fields e.meta) ++ payload e

-- The entry as it stands in the data file.
abbrev pub encoded : Entry → Bytes
encoded e = le_bytes 4 (checksum (body e)) ++ body e

copy_to-next :
    (low high : ℕ) (src done rest : Bytes)
    → length done ≡ low
    → high ≡ low + length src
    → length src ≤ length rest
    → copy_to low high src (done ++ rest) ≡ some ((done ++ src) ++ drop (length src) rest)
unfolding copy_to
copy_to-next low high src done rest hl hh h =
    let fits : (leb low high && leb high (length (done ++ rest))) ≡ true =
      ground (arith, length-append done rest) in
    let whole : high - low ≡ length src = omega arith in
    rw (fits, whole, take_all src, ← hl)
      (write_all-next src done rest h
        ∙ ap some (sym (append_assoc done src (drop (length src) rest))))

encode_steps :
    (e : Entry) (b0 b1 b2 b3 b4 : Bytes)
    → set_entry_header_buf e.meta (replicate (size e) 0) ≡ some b0
    → copy_to 42 (add32 42 e.meta.bucket_size) e.bucket b0 ≡ some b1
    → copy_to
        (add32 42 e.meta.bucket_size)
        (add32 (add32 42 e.meta.bucket_size) e.meta.key_size)
        e.key
        b1
      ≡ some b2
    → copy_to
        (add32 (add32 42 e.meta.bucket_size) e.meta.key_size)
        (add32 (add32 (add32 42 e.meta.bucket_size) e.meta.key_size) e.meta.value_size)
        e.value
        b2
      ≡ some b3
    → put 4 0 (checksum (drop 4 b3)) b3 ≡ some b4
    → encode e ≡ some b4
unfolding encode
encode_steps e b0 b1 b2 b3 b4 h0 h1 h2 h3 h4 = rw (h0, h1, h2, h3, h4)

module _ (e : Entry) (s : IsSized e) where
  abbrev header : Bytes
  header = field_bytes (header_fields e.meta)

  abbrev blank : Bytes
  blank = drop 42 (replicate (size e) 0)

  length-header : length header ≡ 42
  length-header = length-field_bytes (header_fields e.meta)

  size-sum : size e ≡ 42 + length e.key + length e.value + length e.bucket
  unfolding size
  size-sum = let k = s.key in let v = s.value in let b = s.bucket in let t = s.total in omega arith

  length-blank : length blank ≡ length e.key + length e.value + length e.bucket
  length-blank =
      let zero_byte : ℕ = 0 in
      omega (
        arith,
        length-drop 42 (replicate (size e) zero_byte),
        length-replicate (size e) zero_byte,
        size-sum,
      )

  filled : Bytes
  filled = ((header ++ e.bucket) ++ e.key) ++ e.value

  filled-body : filled ≡ le_bytes 4 e.meta.crc ++ body e
  unfolding filled
  filled-body =
      append_assoc (header ++ e.bucket) e.key e.value
      ∙ append_assoc header e.bucket (e.key ++ e.value)
      ∙ append_assoc (le_bytes 4 e.meta.crc) (field_bytes (meta_fields e.meta)) (payload e)

  drop-filled : drop 4 filled ≡ body e
  drop-filled =
      ap (drop 4) filled-body
      ∙ ap (λ n. drop n (le_bytes 4 e.meta.crc ++ body e)) (sym (length-le_bytes 4 e.meta.crc))
      ∙ drop_append (le_bytes 4 e.meta.crc) (body e)

  after_bucket : Bytes
  after_bucket = drop (length e.bucket) blank

  after_key : Bytes
  after_key = drop (length e.key) after_bucket

  length-after_key : length after_key ≡ length e.value
  unfolding after_key after_bucket
  length-after_key = omega (
    arith,
    length-drop (length e.key) (drop (length e.bucket) blank),
    length-drop (length e.bucket) blank,
    length-blank,
  )

  header_step : set_entry_header_buf e.meta (replicate (size e) 0) ≡ some (header ++ blank)
  header_step =
      let zero_byte : ℕ = 0 in
      set_entry_header_buf-bytes e.meta (replicate (size e) zero_byte)
        (omega (arith, length-replicate (size e) zero_byte, size-sum))

  bucket_step :
      copy_to 42 (add32 42 e.meta.bucket_size) e.bucket (header ++ blank)
      ≡ some ((header ++ e.bucket) ++ after_bucket)
  unfolding after_bucket
  bucket_step =
      let b = s.bucket in
      let t = s.total in
      copy_to-next 42 (add32 42 e.meta.bucket_size) e.bucket header blank length-header
        (omega arith) (omega (arith, length-blank))

  key_step :
      copy_to
        (add32 42 e.meta.bucket_size)
        (add32 (add32 42 e.meta.bucket_size) e.meta.key_size)
        e.key
        ((header ++ e.bucket) ++ after_bucket)
      ≡ some (((header ++ e.bucket) ++ e.key) ++ after_key)
  unfolding after_key after_bucket
  key_step =
      let b = s.bucket in
      let k = s.key in
      let t = s.total in
      copy_to-next _ _ e.key (header ++ e.bucket) (drop (length e.bucket) blank)
        (omega (arith, length-append header e.bucket, length-header)) (omega arith)
        (omega (arith, length-drop (length e.bucket) blank, length-blank))

  value_step :
      copy_to
        (add32 (add32 42 e.meta.bucket_size) e.meta.key_size)
        (add32 (add32 (add32 42 e.meta.bucket_size) e.meta.key_size) e.meta.value_size)
        e.value
        (((header ++ e.bucket) ++ e.key) ++ after_key)
      ≡ some filled
  unfolding filled
  value_step =
      let b = s.bucket in
      let k = s.key in
      let v = s.value in
      let t = s.total in
      copy_to-next _ _ e.value ((header ++ e.bucket) ++ e.key) after_key
        (omega (
          arith,
          length-append (header ++ e.bucket) e.key,
          length-append header e.bucket,
          length-header,
        ))
        (omega arith) (omega (arith, length-after_key))
      ∙ ap some (
          ap (λ r. (((header ++ e.bucket) ++ e.key) ++ e.value) ++ r)
            (ap (λ n. drop n after_key) (sym length-after_key) ∙ drop_all after_key)
          ∙ append-nil _)

  crc_step : put 4 0 (checksum (drop 4 filled)) filled ≡ some (encoded e)
  crc_step =
      put-next 4 (checksum (drop 4 filled)) [] filled (
        omega (
          arith,
          ap length filled-body,
          length-append (le_bytes 4 e.meta.crc) (body e),
          length-le_bytes 4 e.meta.crc,
        ))
      ∙ ap (λ t. some (le_bytes 4 (checksum t) ++ t)) drop-filled

  -- An entry that has the sizes of its parts is written as its checksum, its header, its bucket,
  -- its key and its value, the checksum being the one of all that follows it.
  pub encode-encoded : encode e ≡ some (encoded e)
  encode-encoded = encode_steps e _ _ _ _ _ header_step bucket_step key_step value_step crc_step
