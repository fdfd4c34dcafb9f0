-- ===== src/TxBuckets/Deletes.antt =====
-- What `DeleteBucket` of tx_bucket.go writes, and what a recovery makes of it.
use nutsdb.Prelude.{
  ℕ, ◌+◌, ◌^◌, ◌≡◌, ◌<◌, refl, sym, ap, ◌∙◌, inl, inr, ◌⊎◌, true, false, some, [], ◌∷◌, arith, ◌==◌,
  length, if◌then◌else◌, ok, err,
}
use mathlib.Core.Path.{subst}
use nutsdb.Prelude.Maps.{bytes_key}
use nutsdb.Prelude.Words.{Bytes}
use nutsdb.Entries.{Entry, valid}
use nutsdb.Records.{EntryIdxMode, is_sparse, ScanRecord}
use nutsdb.Indexing.{Structures, Db, build_record}
use nutsdb.Indexing.Buckets.{WithoutBucket, build_record-WithoutBucket}
use nutsdb.Tx.{Tx, tx_closed, put, new_entry}
use nutsdb.TxSets.News.{with_writes}
use nutsdb.TxBuckets.{
  tx_error, mode_not_supported, exist_bucket, put_result, delete_existing, put_deletion,
  tx_delete_bucket,
}

-- The record that a scan makes of an entry, with the status that it was given and its place.
abbrev pub scanned : ℕ → ℕ → ℕ → Entry → ScanRecord
scanned status file_id data_pos e = record {
  hint = record {
    key = e.key;
    file_id = file_id;
    meta = record e.meta { status = status };
    data_pos = data_pos;
  };
  entry = some e;
  bucket = e.bucket;
}

-- The write that deletes a bucket; the flags stand in the order of the structures.
abbrev deletion : ℕ → Tx → ℕ → Bytes → Entry
deletion now tx ds bucket = new_entry tx bucket ((b'0' + ds) ∷ []) [] 0 (14 + ds) now 4

ds-cases : (ds : ℕ) → (ds ≡ 0) ⊎ ((ds ≡ 1) ⊎ ((ds ≡ 2) ⊎ ((ds ≡ 3) ⊎ (3 < ds))))
ds-cases ds = omega arith

deletion-valid :
    (now : ℕ) (tx : Tx) (ds : ℕ) (bucket : Bytes)
    → length bucket < 2 ^ 31
    → valid (deletion now tx ds bucket) ≡ ok tt
unfolding valid
deletion-valid now tx ds bucket h = ground (arith, h)

put-deletion :
    (now : ℕ) (tx : Tx) (ds : ℕ) (bucket : Bytes)
    → tx.has_db ≡ true
    → tx.writable ≡ true
    → length bucket < 2 ^ 31
    → put bucket ((b'0' + ds) ∷ []) [] 0 (14 + ds) now 4 tx
      ≡ (ok tt, with_writes tx (deletion now tx ds bucket ∷ []))
unfolding put
put-deletion now tx ds bucket has_db writable h = ground (arith, deletion-valid now tx ds bucket h)

module _ {T Z L : Type 0} (ops : Structures T Z L) where
  supported :
      (P : ℕ → Type 0)
      → P 0
      → P 1
      → P 2
      → P 3
      → (ds : ℕ) (bucket : Bytes) (db : Db T Z L) → exist_bucket ds bucket db ≡ ok true
      → P ds
  unfolding exist_bucket
  supported P p0 p1 p2 p3 ds bucket db h = elim (ds-cases ds) [
    | inl a ↦ subst P (sym a) p0
    | inr (inl a) ↦ subst P (sym a) p1
    | inr (inr (inl a)) ↦ subst P (sym a) p2
    | inr (inr (inr (inl a))) ↦ subst P (sym a) p3
    | inr (inr (inr (inr a))) ↦ absurd (ground (arith, a))
  ]

  -- The buckets of `after` are those of `before` but for one bucket of one structure.
  abbrev pub IsWithout : ℕ → Bytes → Db T Z L → Db T Z L → Type 0
  IsWithout ds bucket before after =
      (other : ℕ) (j : Bytes)
      → exist_bucket other j after ≡ (
          if other == ds
          then (if bytes_key.same bucket j then ok false else exist_bucket other j before)
          else exist_bucket other j before)

  abbrev IsDeleted : ℕ → ℕ → EntryIdxMode → Bytes → Db T Z L → Tx → ℕ → ℕ → ℕ → ℕ → Type 0
  IsDeleted now now' mode bucket db tx status file_id data_pos ds =
      (e : Entry) × (after : Db T Z L) × (put_deletion now ds bucket tx
        ≡ (ok tt, with_writes tx (e ∷ [])))
      × (build_record ops now' mode (scanned status file_id data_pos e) db ≡ (ok tt, after))
      × IsWithout ds bucket db after

  built-IsWithout :
      (ds flag : ℕ) (bucket : Bytes) (before after : Db T Z L)
      → ds < 4
      → flag ≡ 14 + ds
      → WithoutBucket ops 14 flag bucket before.set_idx after.set_idx
      → WithoutBucket ops 15 flag bucket before.sorted_set_idx after.sorted_set_idx
      → WithoutBucket ops 16 flag bucket before.bp_tree_idx after.bp_tree_idx
      → WithoutBucket ops 17 flag bucket before.list_idx after.list_idx
      → IsWithout ds bucket before after
  unfolding exist_bucket
  built-IsWithout ds flag bucket before after small e sets sorted_sets trees lists other j =
      ground (arith, e, small, sets j, sorted_sets j, trees j, lists j)

  deleted :
      (now now' : ℕ) (mode : EntryIdxMode) (bucket : Bytes) (db : Db T Z L) (tx : Tx)
      (status file_id data_pos ds : ℕ)
      → ds < 4
      → put_deletion now ds bucket tx ≡ (ok tt, with_writes tx (deletion now tx ds bucket ∷ []))
      → IsDeleted now now' mode bucket db tx status file_id data_pos ds
  deleted now now' mode bucket db tx status file_id data_pos ds small done =
      let e = deletion now tx ds bucket in
      let (after, built, sets, sorted_sets, trees, lists, counted) =
        build_record-WithoutBucket ops now' mode (scanned status file_id data_pos e) db refl in
      (
        e,
        after,
        done,
        built,
        built-IsWithout ds (14 + ds) bucket db after small refl sets sorted_sets trees lists,
      )

  -- `DeleteBucket` in an open, writable transaction, outside the sparse mode, of a bucket that
  -- exists and whose name is shorter than 2^31 bytes, succeeds and puts one write. When a recovery
  -- indexes the record of this write, it succeeds, and then `ExistBucket` does not find the bucket
  -- in its structure any more, and answers as before for every other bucket and structure.
  pub tx_delete_bucket_refines :
      (now now' : ℕ) (mode : EntryIdxMode) (ds : ℕ) (bucket : Bytes) (db : Db T Z L) (tx : Tx)
      (status file_id data_pos : ℕ)
      → tx.has_db ≡ true
      → tx.writable ≡ true
      → is_sparse mode ≡ false
      → length bucket < 2 ^ 31
      → exist_bucket ds bucket db ≡ ok true
      → (e : Entry) × (after : Db T Z L) × (tx_delete_bucket now mode db ds bucket tx
          ≡ (ok tt, with_writes tx (e ∷ [])))
        × (build_record ops now' mode (scanned status file_id data_pos e) db ≡ (ok tt, after))
        × IsWithout ds bucket db after
  unfolding tx_delete_bucket put_deletion
  tx_delete_bucket_refines now now' mode ds bucket db tx status file_id data_pos has_db writable
        dense short found =
      let P : ℕ → Type 0 = IsDeleted now now' mode bucket db tx status file_id data_pos in
      let at : (n : ℕ)
          → n < 4
          → put_deletion now n bucket tx ≡ (ok tt, with_writes tx (deletion now tx n bucket ∷ []))
          → P n =
        deleted now now' mode bucket db tx status file_id data_pos in
      let (e, after, done, built, without) =
        supported P
          (at 0 (omega arith) (ap put_result (put-deletion now tx 0 bucket has_db writable short)))
          (at 1 (omega arith) (ap put_result (put-deletion now tx 1 bucket has_db writable short)))
          (at 2 (omega arith) (ap put_result (put-deletion now tx 2 bucket has_db writable short)))
          (at 3 (omega arith) (ap put_result (put-deletion now tx 3 bucket has_db writable short)))
          ds bucket db found in
      (
        e,
        after,
        ap
              (λ b.
                if b
                then (if is_sparse mode
                    then (err mode_not_supported, tx)
                    else delete_existing (exist_bucket ds bucket db) now ds bucket tx)
                else (err (tx_error tx_closed), tx))
              has_db
            ∙ ap
                (λ b.
                  if b
                  then (err mode_not_supported, tx)
                  else delete_existing (exist_bucket ds bucket db) now ds bucket tx)
                dense
            ∙ ap (λ o. delete_existing o now ds bucket tx) found
            ∙ done,
        built,
        without,
      )
