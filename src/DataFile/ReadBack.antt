-- ===== src/DataFile/ReadBack.antt =====
-- An entry written by `Encode` is read back by every reader.
use mathlib.Core.List.{append_assoc, append-nil}
use mathlib.Core.Path.{subst}
use nutsdb.Prelude.{
  ℕ, ◌+◌, ◌-◌, ◌<◌, ◌≡◌, refl, ap, sym, ◌∙◌, true, false, some, [], ◌++◌, arith, leb, ◌==◌, length,
  length-append, take, drop, take_append, drop_append, ok,
}
use nutsdb.Prelude.Words.{Bytes}
use nutsdb.Entries.{Entry, payload_size, parse_meta}
use nutsdb.Entries.Layout.{IsSized, payload, encoded}
use nutsdb.DataFile.{
  RwManager, file_io, mmap, read_at, read_entry_at, read_record, read_full, read_entry,
}
use nutsdb.DataFile.Decode.{
  stamped, stamped_meta, header, encoded-header, length-header, parse_meta-stamped, length-payload,
  payload_size-stamped, checked_entry-stamped, is_zero-stamped,
}

read_full-append :
    (n : ℕ) (front rest : Bytes) → length front ≡ n → read_full n (front ++ rest) ≡ ok (front, rest)
unfolding read_full
read_full-append n front rest h =
    let fits : leb n (length (front ++ rest)) ≡ true = ground (arith, length-append front rest) in
    rw fits (rw (← h, take_append front rest, drop_append front rest))

-- Either manager over a file that holds the bytes.
pub data Holds (m : Bytes) : RwManager → Type 0 where
  by_file : Holds m (file_io m)
  by_mmap : Holds m (mmap (some m))

read_at-middle :
    (w : RwManager) (pre mid post : Bytes) (n off : ℕ)
    → Holds (pre ++ (mid ++ post)) w
    → length pre ≡ off
    → length mid ≡ n
    → 0 < n
    → read_at w n off ≡ ok mid
unfolding read_at
read_at-middle _ pre mid post n off by_file hl hn h =
    let fits : leb (off + n) (length (pre ++ (mid ++ post))) ≡ true =
      ground (arith, length-append pre (mid ++ post), length-append mid post) in
    rw fits (rw (← hl, drop_append pre (mid ++ post), ← hn, take_append mid post))
read_at-middle _ pre mid post n off by_mmap hl hn h =
    let inside : leb (length (pre ++ (mid ++ post))) off ≡ false =
      ground (arith, length-append pre (mid ++ post), length-append mid post) in
    let none_left : n - (length (pre ++ (mid ++ post)) - off) ≡ 0 =
      omega (arith, length-append pre (mid ++ post), length-append mid post) in
    rw inside (
      rw none_left
        (rw (← hl, drop_append pre (mid ++ post), ← hn, take_append mid post, append-nil mid)))

module _ (e : Entry) (s : IsSized e) (k : 0 < length e.key) where
  -- `readEntry` gives the encoded entry that a stream starts with, with its checksum filled in, and
  -- leaves the stream behind it. The entry has the sizes of its parts and a key.
  pub read_entry-encoded :
      (rest : Bytes) → read_entry (encoded e ++ rest) ≡ ok (some (stamped e), rest)
  unfolding read_entry
  read_entry-encoded rest =
      let split : encoded e ++ rest ≡ header e ++ (payload e ++ rest) =
        ap (λ t. t ++ rest) (encoded-header e) ∙ append_assoc (header e) (payload e) rest in
      let meta : parse_meta (header e) ≡ some (stamped_meta e) =
        subst (λ t. parse_meta t ≡ some (stamped_meta e)) (append-nil (header e))
          (parse_meta-stamped e s []) in
      rw split (
        rw (read_full-append 42 (header e) (payload e ++ rest) (length-header e)) (
          rw (meta, is_zero-stamped e s k)
            (rw (read_full-append _ (payload e) rest (sym (length-payload e s)))
              (rw (checked_entry-stamped e s)))))

  module _ (w : RwManager) (pre post : Bytes) (h : Holds (pre ++ (encoded e ++ post)) w) where
    split_file : pre ++ (encoded e ++ post) ≡ pre ++ (header e ++ (payload e ++ post))
    split_file =
        ap (λ t. pre ++ t)
          (ap (λ t. t ++ post) (encoded-header e) ∙ append_assoc (header e) (payload e) post)

    split_payload :
        pre ++ (header e ++ (payload e ++ post)) ≡ (pre ++ header e) ++ (payload e ++ post)
    split_payload = sym (append_assoc pre (header e) (payload e ++ post))

    whole_entry : read_at w (42 + length (payload e)) (length pre) ≡ ok (header e ++ payload e)
    whole_entry =
        read_at-middle w pre (header e ++ payload e) post (42 + length (payload e)) (length pre)
          (subst (λ t. Holds (pre ++ (t ++ post)) w) (encoded-header e) h) refl
          (omega (arith, length-append (header e) (payload e), length-header e)) (omega arith)

    header_part : read_at w 42 (length pre) ≡ ok (header e)
    header_part =
        read_at-middle w pre (header e) (payload e ++ post) 42 (length pre)
          (subst (λ t. Holds t w) split_file h) refl (length-header e) (omega arith)

    payload_part : read_at w (payload_size (stamped_meta e)) (length pre + 42) ≡ ok (payload e)
    payload_part =
        read_at-middle w (pre ++ header e) (payload e) post (payload_size (stamped_meta e))
          (length pre + 42) (subst (λ t. Holds t w) (split_file ∙ split_payload) h)
          (omega (arith, length-append pre (header e), length-header e)) (sym (length-payload e s))
          (omega (
            arith,
            length-payload e s,
            length-append e.bucket (e.key ++ e.value),
            length-append e.key e.value,
          ))

    -- Both readers of a data file give the entry that stands at its offset, with its checksum
    -- filled in, over a plain file and over a mapping: `ReadAt` by the header alone, `ReadRecord`
    -- with the payload's size. The entry has the sizes of its parts and a key.
    pub read_entry_at-encoded :
        (read_entry_at w (length pre) ≡ ok (some (stamped e)))
        × (read_record w (length pre) (payload_size e.meta) ≡ ok (some (stamped e)))
    unfolding read_entry_at read_record
    read_entry_at-encoded =
        let meta : parse_meta (header e) ≡ some (stamped_meta e) =
          subst (λ t. parse_meta t ≡ some (stamped_meta e)) (append-nil (header e))
            (parse_meta-stamped e s []) in
        let same : payload_size e.meta ≡ length (payload e) =
          payload_size-stamped e s ∙ length-payload e s in
        let whole : read_at w (42 + payload_size e.meta) (length pre) ≡ ok (header e ++ payload e) =
          subst (λ n. read_at w (42 + n) (length pre) ≡ ok (header e ++ payload e)) (sym same)
            whole_entry in
        let sizes : (payload_size (stamped_meta e) == payload_size e.meta) ≡ true =
          ground (arith, payload_size-stamped e s) in
        let front : take 42 (header e ++ payload e) ≡ header e =
          ap (λ n. take n (header e ++ payload e)) (sym (length-header e))
          ∙ take_append (header e) (payload e) in
        let back : drop 42 (header e ++ payload e) ≡ payload e =
          ap (λ n. drop n (header e ++ payload e)) (sym (length-header e))
          ∙ drop_append (header e) (payload e) in
        (
          rw header_part
              (rw (meta, is_zero-stamped e s k) (rw payload_part (rw (checked_entry-stamped e s)))),
          rw whole (
              rw (parse_meta-stamped e s (payload e), is_zero-stamped e s k)
                (rw sizes (rw (front, back) (checked_entry-stamped e s)))),
        )
