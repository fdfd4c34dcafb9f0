-- ===== src/Indexing/Buckets.antt =====
-- What the records by which a bucket is deleted do to the indexes of db.go.
use nutsdb.Prelude.{ℕ, ◌+◌, ◌==◌, ◌≡◌, refl, ap, none, arith, if◌then◌else◌, ok}
use nutsdb.Prelude.Maps
use nutsdb.Prelude.Maps.{Map, bytes_key, lookup-delete}
use nutsdb.Prelude.Words.{Bytes}
use nutsdb.Records.{EntryIdxMode, ScanRecord}
use nutsdb.Indexing.{
  Structures, Db, delete_bucket, build_tree_record, build_other_idxes, build_not_ds_idxes,
  build_record,
}

module _ {T Z L : Type 0} (ops : Structures T Z L) where
  -- A map as it was, but for the bucket's entry where the flag is the one that deletes it.
  abbrev pub WithoutBucket : {V : Type 0} → ℕ → ℕ → Bytes → Map Bytes V → Map Bytes V → Type 0
  WithoutBucket deletes flag bucket before after =
      (j : Bytes)
      → Maps.lookup j after ≡ (
          if flag == deletes
          then (if bytes_key.same bucket j then none else Maps.lookup j before)
          else Maps.lookup j before)

  lookup-build_not_ds_idxes :
      (bucket : Bytes) (r : ScanRecord) (db : Db T Z L)
      → WithoutBucket 14 r.hint.meta.flag bucket db.set_idx
          (build_not_ds_idxes ops bucket r db).set_idx
        × WithoutBucket 15 r.hint.meta.flag bucket db.sorted_set_idx
            (build_not_ds_idxes ops bucket r db).sorted_set_idx
        × WithoutBucket 16 r.hint.meta.flag bucket db.bp_tree_idx
            (build_not_ds_idxes ops bucket r db).bp_tree_idx
        × WithoutBucket 17 r.hint.meta.flag bucket db.list_idx
            (build_not_ds_idxes ops bucket r db).list_idx
  unfolding build_not_ds_idxes delete_bucket
  lookup-build_not_ds_idxes bucket r db = (
    λ j. ground (arith, lookup-delete bucket j db.set_idx),
    λ j. ground (arith, lookup-delete bucket j db.sorted_set_idx),
    λ j. ground (arith, lookup-delete bucket j db.bp_tree_idx),
    λ j. ground (arith, lookup-delete bucket j db.list_idx),
  )

  key_count-build_not_ds_idxes :
      (bucket : Bytes) (r : ScanRecord) (db : Db T Z L)
      → (build_not_ds_idxes ops bucket r db).key_count ≡ db.key_count
  unfolding build_not_ds_idxes delete_bucket
  key_count-build_not_ds_idxes bucket r db = ground arith

  -- Indexing the record of a committed entry that belongs to no data structure never fails. By its
  -- flag it deletes the record's bucket from the index of the sets, the sorted sets, the B+ trees
  -- or the lists, from that index only and no other bucket, and it counts as one more key.
  pub build_record-WithoutBucket :
      (now : ℕ) (mode : EntryIdxMode) (r : ScanRecord) (db : Db T Z L)
      → r.hint.meta.ds ≡ 4
      → (after : Db T Z L) × (build_record ops now mode r db ≡ (ok tt, after))
        × WithoutBucket 14 r.hint.meta.flag r.bucket db.set_idx after.set_idx
        × WithoutBucket 15 r.hint.meta.flag r.bucket db.sorted_set_idx after.sorted_set_idx
        × WithoutBucket 16 r.hint.meta.flag r.bucket db.bp_tree_idx after.bp_tree_idx
        × WithoutBucket 17 r.hint.meta.flag r.bucket db.list_idx after.list_idx
        × (after.key_count ≡ db.key_count + 1)
  unfolding build_record build_tree_record build_other_idxes
  build_record-WithoutBucket now mode r db h =
      let (sets, sorted_sets, trees, lists) = lookup-build_not_ds_idxes r.bucket r db in
      let gone = build_not_ds_idxes ops r.bucket r db in
      (
        record gone { key_count = gone.key_count + 1 },
        rw h refl,
        sets,
        sorted_sets,
        trees,
        lists,
        ap (λ n. n + 1) (key_count-build_not_ds_idxes r.bucket r db),
      )
