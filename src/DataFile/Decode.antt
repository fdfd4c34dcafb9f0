-- ===== src/DataFile/Decode.antt =====
-- The parts of an encoded entry are parsed back, and its checksum holds.
use mathlib.Core.List.{append_assoc, append-nil}
use mathlib.Core.Path.{subst}
use nutsdb.Prelude.{
  ℕ, ◌+◌, ◌-◌, ◌<◌, ◌≡◌, refl, ap, sym, ◌∙◌, true, false, ◌&&◌, some, [], ◌++◌, arith, leb, length,
  length-append, drop, take_append, drop_append, ok,
}
use nutsdb.Prelude.Words.{Bytes}
use nutsdb.Prelude.Crc.{checksum, update, checksum-lt, checksum-update}
use nutsdb.Prelude.LittleEndian.{le_bytes, length-le_bytes}
use nutsdb.Prelude.Fields.{field_bytes, length-field_bytes}
use nutsdb.Entries.{
  MetaData, Entry, payload_size, is_zero, get_crc, sub_slice, parse_meta, parse_payload, add32,
}
use nutsdb.Entries.Header.{meta_fields, header_fields, parse_meta-header}
use nutsdb.Entries.Layout.{IsSized, payload, body, encoded}
use nutsdb.DataFile.{checked_entry}

-- The meta data and the entry as they are read: with the checksum that was written.
abbrev pub stamped_meta : Entry → MetaData
stamped_meta e = record e.meta { crc = checksum (body e) }

abbrev pub stamped : Entry → Entry
stamped e = record e { meta = stamped_meta e }

-- The 42 bytes of the header.
abbrev pub header : Entry → Bytes
header e = field_bytes (header_fields (stamped_meta e))

pub encoded-header : (e : Entry) → encoded e ≡ header e ++ payload e
encoded-header e =
    sym
      (append_assoc (le_bytes 4 (checksum (body e))) (field_bytes (meta_fields e.meta)) (payload e))

pub length-header : (e : Entry) → length (header e) ≡ 42
length-header e = length-field_bytes (header_fields (stamped_meta e))

sub_slice-middle :
    (low high : ℕ) (pre mid post : Bytes)
    → length pre ≡ low
    → high ≡ low + length mid
    → sub_slice low high (pre ++ (mid ++ post)) ≡ some mid
unfolding sub_slice
sub_slice-middle low high pre mid post hl hh =
    let fits : (leb low high && leb high (length (pre ++ (mid ++ post)))) ≡ true =
      ground (arith, length-append pre (mid ++ post), length-append mid post) in
    let whole : high - low ≡ length mid = omega arith in
    rw (fits, whole, ← hl, drop_append pre (mid ++ post), take_append mid post)

sub_slice-end :
    (low high : ℕ) (pre mid : Bytes)
    → length pre ≡ low
    → high ≡ low + length mid
    → sub_slice low high (pre ++ mid) ≡ some mid
sub_slice-end low high pre mid hl hh =
    subst (λ t. sub_slice low high (pre ++ t) ≡ some mid) (append-nil mid)
      (sub_slice-middle low high pre mid [] hl hh)

module _ (e : Entry) (s : IsSized e) where
  pub parse_meta-stamped : (post : Bytes) → parse_meta (header e ++ post) ≡ some (stamped_meta e)
  parse_meta-stamped post =
      let r = s.in_range in
      parse_meta-header (stamped_meta e) post
        (record {
          timestamp = r.timestamp;
          key_size = r.key_size;
          value_size = r.value_size;
          flag = r.flag;
          ttl = r.ttl;
          bucket_size = r.bucket_size;
          status = r.status;
          ds = r.ds;
          tx_id = r.tx_id;
        })
        (checksum-lt (body e))

  pub length-payload : payload_size (stamped_meta e) ≡ length (payload e)
  unfolding payload_size
  length-payload =
      let b = s.bucket in
      let k = s.key in
      let v = s.value in
      omega (arith, length-append e.bucket (e.key ++ e.value), length-append e.key e.value)

  pub payload_size-stamped : payload_size e.meta ≡ payload_size (stamped_meta e)
  unfolding payload_size
  payload_size-stamped = refl

  parse_payload-stamped : parse_payload (stamped_meta e) (payload e) ≡ some (stamped e)
  unfolding parse_payload
  parse_payload-stamped =
      let b = s.bucket in
      let k = s.key in
      let v = s.value in
      let t = s.total in
      let bucket : sub_slice 0 e.meta.bucket_size (payload e) ≡ some e.bucket =
        sub_slice-middle 0 e.meta.bucket_size [] e.bucket (e.key ++ e.value) refl (omega arith) in
      let key : sub_slice e.meta.bucket_size (add32 e.meta.bucket_size e.meta.key_size) (payload e)
          ≡ some e.key =
        sub_slice-middle _ _ e.bucket e.key e.value (omega arith) (omega arith) in
      let value : sub_slice (add32 e.meta.bucket_size e.meta.key_size)
            (add32 (add32 e.meta.bucket_size e.meta.key_size) e.meta.value_size) (payload e)
          ≡ some e.value =
        rw (← append_assoc e.bucket e.key e.value) (
          sub_slice-end _ _ (e.bucket ++ e.key) e.value
            (omega (arith, length-append e.bucket e.key)) (omega arith)) in
      rw (bucket, key, value)

  get_crc-stamped : get_crc (stamped e) (header e) ≡ checksum (body e)
  unfolding get_crc
  get_crc-stamped =
      let fields = field_bytes (meta_fields e.meta) in
      let stamp = le_bytes 4 (checksum (body e)) in
      let behind : drop 4 (header e) ≡ fields =
        ap (λ n. drop n (header e)) (sym (length-le_bytes 4 (checksum (body e))))
        ∙ drop_append stamp fields in
      ap (λ t. update (update (update (checksum t) e.bucket) e.key) e.value) behind
      ∙ ap (λ t. update (update t e.key) e.value) (checksum-update fields e.bucket)
      ∙ ap (λ t. update t e.value) (checksum-update (fields ++ e.bucket) e.key)
      ∙ checksum-update ((fields ++ e.bucket) ++ e.key) e.value
      ∙ ap checksum (
          append_assoc (fields ++ e.bucket) e.key e.value
          ∙ append_assoc fields e.bucket (e.key ++ e.value))

  pub checked_entry-stamped :
      checked_entry (stamped_meta e) (header e) (payload e) ≡ ok (some (stamped e))
  unfolding checked_entry
  checked_entry-stamped = rw (parse_payload-stamped, get_crc-stamped) (ground arith)

  pub is_zero-stamped : 0 < length e.key → is_zero (stamped_meta e) ≡ false
  unfolding is_zero
  is_zero-stamped h = let k = s.key in ground arith
