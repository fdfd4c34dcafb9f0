-- ===== src/TxBuckets.antt =====
-- tx_bucket.go: the buckets that a transaction lists and deletes, with `handleListBucket` of
-- index.go, `MatchForRange` of utils.go, and `SKeys` of tx_set.go. The pattern matcher of the
-- standard library is an argument, and so is the callback, which works on a state of any type.
pub mod Deletes
use nutsdb.Prelude.{
  ℕ, Bool, true, false, Option, none, some, List, [], ◌∷◌, ◌==◌, if◌then◌else◌, Outcome, ok, err,
  panic,
}
use nutsdb.Prelude.Exec
use nutsdb.Prelude.Exec.{Exec}
use nutsdb.Prelude.Maps
use nutsdb.Prelude.Maps.{Map, bytes_key, has}
use nutsdb.Prelude.Words.{Bytes}
use nutsdb.Records.{
  EntryIdxMode, is_sparse, data_set_bucket_delete_flag, data_sorted_set_bucket_delete_flag,
  data_bp_tree_bucket_delete_flag, data_list_bucket_delete_flag, data_structure_set,
  data_structure_sorted_set, data_structure_bp_tree, data_structure_list, data_structure_none,
}
use nutsdb.Indexing.{Db}
use nutsdb.Tx.{Tx, TxError, tx_closed, put}
use nutsdb.TxSets.{persistent}

pub data BucketError : Type 0 where
  bucket_missing mode_not_supported data_structure_not_supported bad_pattern unknown_bucket :
      BucketError
  tx_error : TxError → BucketError

abbrev pub keys_of : {V : Type 0} → Map Bytes V → List Bytes
keys_of [] = []
keys_of ((k, v) ∷ m) = k ∷ keys_of m

-- A callback `f func(key string) bool`.
abbrev pub Callback : Type 0 → Type 0
Callback S = Bytes → S → Bool × S

-- `end` and `err` of `MatchForRange`.
abbrev pub Matched : Type 0 → Type 0
Matched S = (Bool × Outcome BucketError (Unit {0})) × S

module _ {S : Type 0} where
  abbrev asked : Bool × S → Matched S
  asked (true, s) = ((false, ok tt), s)
  asked (false, s) = ((true, ok tt), s)

  abbrev on_match : Option Bool → Bytes → Callback S → S → Matched S
  on_match none key f s = ((true, err bad_pattern), s)
  on_match (some true) key f s = asked (f key s)
  on_match (some false) key f s = ((false, ok tt), s)

  module _ (matches : Bytes → Bytes → Option Bool) where
    unfoldable pub match_for_range : Bytes → Bytes → Callback S → S → Matched S
    match_for_range pattern key f s = on_match (matches pattern key) key f s

    -- `if end, err := MatchForRange(…); end || err != nil { return err }`, and then the rest.
    abbrev unless_end :
        Matched S → Exec S BucketError (Unit {0}) → Outcome BucketError (Unit {0}) × S
    unless_end ((true, o), s) rest = (o, s)
    unless_end ((false, ok u), s) rest = rest s
    unless_end ((false, err x), s) rest = (err x, s)
    unless_end ((false, panic), s) rest = (panic, s)

    -- The loop over the keys of an index.
    unfoldable pub range_keys : Bytes → Callback S → List Bytes → Exec S BucketError (Unit {0})
    range_keys pattern f [] s = (ok tt, s)
    range_keys pattern f (key ∷ keys) s =
        unless_end (match_for_range pattern key f s) (range_keys pattern f keys)

    -- The loop of `handleListBucket`, for the function that `IterateBuckets` passes it: this one
    -- returns the error, which is nil where the callback asks for the end.
    unfoldable pub handle_list_bucket :
        Bytes → Callback S → List Bytes → Exec S BucketError (Unit {0})
    handle_list_bucket pattern f [] s = (ok tt, s)
    handle_list_bucket pattern f (key ∷ keys) s =
        let ((end, o), s') = match_for_range pattern key f s in
        Exec.continue o s' (λ u. handle_list_bucket pattern f keys)

    unfoldable pub tx_iterate_buckets :
        {T Z L : Type 0}
        → EntryIdxMode
        → Db T Z L
        → Tx
        → ℕ
        → Bytes
        → Callback S
        → Exec S BucketError (Unit {0})
    tx_iterate_buckets mode db tx ds pattern f s =
        if tx.has_db
        then (if is_sparse mode
            then (err mode_not_supported, s)
            else if ds == data_structure_set
            then range_keys pattern f (keys_of db.set_idx) s
            else if ds == data_structure_sorted_set
            then range_keys pattern f (keys_of db.sorted_set_idx) s
            else if ds == data_structure_list
            then handle_list_bucket pattern f (keys_of db.list_idx) s
            else if ds == data_structure_bp_tree
            then range_keys pattern f (keys_of db.bp_tree_idx) s
            else (ok tt, s))
        else (err (tx_error tx_closed), s)

    -- `SKeys`
    unfoldable pub tx_s_keys :
        {T Z L : Type 0}
        → Db T Z L
        → Tx
        → Bytes
        → Bytes
        → Callback S
        → Exec S BucketError (Unit {0})
    tx_s_keys db tx bucket pattern f s =
        if tx.has_db
        then elim (Maps.lookup bucket db.set_idx) [
          | none ↦ (err unknown_bucket, s)
          | some set ↦ range_keys pattern f (keys_of set) s
        ]
        else (err (tx_error tx_closed), s)

-- What a call of `put` returns.
abbrev pub put_result : Outcome TxError (Unit {0}) × Tx → Outcome BucketError (Unit {0}) × Tx
put_result (ok u, tx) = (ok u, tx)
put_result (err x, tx) = (err (tx_error x), tx)
put_result (panic, tx) = (panic, tx)

-- `put` of the write that deletes a bucket.
abbrev put_flag : ℕ → ℕ → ℕ → Bytes → Exec Tx BucketError (Unit {0})
put_flag key flag now bucket tx =
    put_result (put bucket (key ∷ []) [] persistent flag now data_structure_none tx)

unfoldable pub put_deletion : ℕ → ℕ → Bytes → Exec Tx BucketError (Unit {0})
put_deletion now ds bucket tx =
    if ds == data_structure_set
    then put_flag b'0' data_set_bucket_delete_flag now bucket tx
    else if ds == data_structure_sorted_set
    then put_flag b'1' data_sorted_set_bucket_delete_flag now bucket tx
    else if ds == data_structure_bp_tree
    then put_flag b'2' data_bp_tree_bucket_delete_flag now bucket tx
    else if ds == data_structure_list
    then put_flag b'3' data_list_bucket_delete_flag now bucket tx
    else (ok tt, tx)

-- `DeleteBucket` after its guards.
abbrev pub delete_existing :
    Outcome BucketError Bool → ℕ → ℕ → Bytes → Exec Tx BucketError (Unit {0})
delete_existing (ok true) now ds bucket tx = put_deletion now ds bucket tx
delete_existing (ok false) now ds bucket tx = (err bucket_missing, tx)
delete_existing (err x) now ds bucket tx = (err x, tx)
delete_existing panic now ds bucket tx = (panic, tx)

module _ {T Z L : Type 0} where
  -- `ExistBucket`, where the field `db` is set.
  unfoldable pub exist_bucket : ℕ → Bytes → Db T Z L → Outcome BucketError Bool
  exist_bucket ds bucket db =
      if ds == data_structure_set
      then ok (has bucket db.set_idx)
      else if ds == data_structure_sorted_set
      then ok (has bucket db.sorted_set_idx)
      else if ds == data_structure_bp_tree
      then ok (has bucket db.bp_tree_idx)
      else if ds == data_structure_list
      then ok (has bucket db.list_idx)
      else err data_structure_not_supported

  unfoldable pub tx_delete_bucket :
      ℕ → EntryIdxMode → Db T Z L → ℕ → Bytes → Exec Tx BucketError (Unit {0})
  tx_delete_bucket now mode db ds bucket tx =
      if tx.has_db
      then (if is_sparse mode
          then (err mode_not_supported, tx)
          else delete_existing (exist_bucket ds bucket db) now ds bucket tx)
      else (err (tx_error tx_closed), tx)
