-- ===== src/Indexing.antt =====
-- `buildHintIdx` of db.go and the builders it calls: from the records of the data files to the
-- indexes in memory. The B+ tree, the sorted set and the list index are of any types, with the
-- operations that the builders call; the set index is the one of set.go.
pub mod Atomic
pub mod Buckets
use nutsdb.Prelude.{
  ℕ, ◌+◌, ◌==◌, Bool, true, false, Option, none, some, List, [], ◌∷◌, if◌then◌else◌, Outcome, ok,
  err, panic,
}
use nutsdb.Prelude.Exec
use nutsdb.Prelude.Exec.{Exec, ◌>>=◌, ◌>>◌, pure, fail, crash, modify}
use nutsdb.Prelude.Maps
use nutsdb.Prelude.Maps.{Map, bytes_key, nat_key, has}
use nutsdb.Prelude.Words.{Bytes}
use nutsdb.Entries.{Entry, Hint, MetaData}
use nutsdb.Records.{
  EntryIdxMode, is_sparse, committed, data_delete_flag, data_set_flag, data_set_bucket_delete_flag,
  data_sorted_set_bucket_delete_flag, data_bp_tree_bucket_delete_flag, data_list_bucket_delete_flag,
  data_structure_set, data_structure_sorted_set, data_structure_bp_tree, data_structure_list,
  data_structure_none, Record, ScanRecord, to_record, is_expired, get_new_key,
}
use nutsdb.Sets.{SetError, SetStore, s_add, s_rem}
use nutsdb.Sets
use nutsdb.Recovery.{RecoveryError, Options, Scan, parse_data_files}

-- The operations of the other index structures: `NewTree` and `Insert` of bptree.go, `zset.New` and
-- the `switch` of `buildSortedSetIdx` (`none` where it panics), `NewList` and the `switch` of
-- `buildListIdx` (`none` where it has an error).
pub record Structures (T Z L : Type 0) : Type 0 where
  pub new_tree : T
  pub insert : Bytes → Option Entry → Hint → Bool → T → Option T
  pub insert_tx_id : ℕ → T → Option T
  pub new_sorted_set : Z
  pub replay_sorted_set : ℕ → Option Entry → Z → Option Z
  pub new_list : L
  pub replay_list : ℕ → Record → Entry → L → Option L

pub data IndexError : Type 0 where
  entry_idx_mode_opt tree_failed list_failed : IndexError
  set_failed : SetError → IndexError
  recovery_failed : RecoveryError → IndexError

-- The fields of `DB` that the builders write.
pub record Db (T Z L : Type 0) : Type 0 where
  pub set_idx : Map Bytes (SetStore Record)
  pub sorted_set_idx : Map Bytes Z
  pub bp_tree_idx : Map Bytes T
  pub list_idx : Map Bytes L
  pub active_bp_tree_idx : T
  pub active_committed_tx_ids_idx : T
  pub key_entry_pos_map : Map Bytes ℕ
  pub committed_tx_ids : Map ℕ (Unit {0})
  pub key_count : ℕ

abbrev pub count_flag_enabled : Bool
count_flag_enabled = true

-- `idx[bucket]`, which the builders first make where it is missing.
abbrev pub get_or : {V : Type 0} → V → Option V → V
get_or d none = d
get_or d (some v) = v

-- `r.H.Meta.Status = Committed`: the entry of the record, if any, shares the meta data.
abbrev pub commit_meta : MetaData → MetaData
commit_meta m = record m { status = committed }

abbrev pub committed_entry : Option Entry → Option Entry
committed_entry none = none
committed_entry (some e) = some (record e { meta = commit_meta e.meta })

abbrev pub set_committed : ScanRecord → ScanRecord
set_committed r = record {
  hint = record r.hint { meta = commit_meta r.hint.meta };
  entry = committed_entry r.entry;
  bucket = r.bucket;
}

module _ {T Z L : Type 0} (ops : Structures T Z L) where
  abbrev pub Method : Type 0 → Type 0
  Method A = Exec (Db T Z L) IndexError A

  unfoldable pub delete_bucket : ℕ → Bytes → Db T Z L → Db T Z L
  delete_bucket ds bucket db =
      if ds == data_structure_set
      then record db { set_idx = Maps.delete bucket db.set_idx }
      else if ds == data_structure_sorted_set
      then record db { sorted_set_idx = Maps.delete bucket db.sorted_set_idx }
      else if ds == data_structure_bp_tree
      then record db { bp_tree_idx = Maps.delete bucket db.bp_tree_idx }
      else if ds == data_structure_list
      then record db { list_idx = Maps.delete bucket db.list_idx }
      else db

  -- A method of the bucket's set, and what `buildSetIdx` makes of its error.
  abbrev set_result : Bytes → Outcome SetError (Unit {0}) × SetStore Record → Method (Unit {0})
  set_result bucket (ok a, s) db = (ok a, record db { set_idx = Maps.insert bucket s db.set_idx })
  set_result bucket (err x, s) db =
      (err (set_failed x), record db { set_idx = Maps.insert bucket s db.set_idx })
  set_result bucket (panic, s) db = (panic, record db { set_idx = Maps.insert bucket s db.set_idx })

  -- What `buildSetIdx` does by the flag with a record and its entry.
  unfoldable pub replay_set :
      ℕ → Record → Entry → SetStore Record → Outcome SetError (Unit {0}) × SetStore Record
  replay_set flag r e s =
      if flag == data_set_flag
      then s_add e.key (some e.value ∷ []) (r ∷ []) s
      else if flag == data_delete_flag
      then s_rem e.key (some e.value ∷ []) s
      else (ok tt, s)

  unfoldable pub build_set_idx : Bytes → ScanRecord → Method (Unit {0})
  build_set_idx bucket r db =
      let s = get_or [] (Maps.lookup bucket db.set_idx) in
      elim r.entry [
        | none ↦ (err entry_idx_mode_opt, record db { set_idx = Maps.insert bucket s db.set_idx })
        | some e ↦ set_result bucket (replay_set r.hint.meta.flag (to_record r) e s) db
      ]

  -- Here a record without its entry panics where the `switch` reads the entry.
  unfoldable pub build_sorted_set_idx : Bytes → ScanRecord → Method (Unit {0})
  build_sorted_set_idx bucket r db =
      let z = get_or ops.new_sorted_set (Maps.lookup bucket db.sorted_set_idx) in
      elim (ops.replay_sorted_set r.hint.meta.flag r.entry z) [
        | none ↦ (panic, record db { sorted_set_idx = Maps.insert bucket z db.sorted_set_idx })
        | some z' ↦ (ok tt, record db { sorted_set_idx = Maps.insert bucket z' db.sorted_set_idx })
      ]

  unfoldable pub build_list_idx : ℕ → Bytes → ScanRecord → Method (Unit {0})
  build_list_idx now bucket r db =
      let l = get_or ops.new_list (Maps.lookup bucket db.list_idx) in
      let made = record db { list_idx = Maps.insert bucket l db.list_idx } in
      elim r.entry [
        | none ↦ (err entry_idx_mode_opt, made)
        | some e ↦
            if is_expired now e.meta.ttl e.meta.timestamp
            then (ok tt, made)
            else elim (ops.replay_list r.hint.meta.flag (to_record r) e l) [
              | none ↦ (err list_failed, made)
              | some l' ↦ (ok tt, record db { list_idx = Maps.insert bucket l' db.list_idx })
            ]
      ]

  unfoldable pub build_bp_tree_idx : Bytes → ScanRecord → Method (Unit {0})
  build_bp_tree_idx bucket r db =
      let t = get_or ops.new_tree (Maps.lookup bucket db.bp_tree_idx) in
      elim (ops.insert r.hint.key r.entry r.hint count_flag_enabled t) [
        | none ↦ (err tree_failed, record db { bp_tree_idx = Maps.insert bucket t db.bp_tree_idx })
        | some t' ↦ (ok tt, record db { bp_tree_idx = Maps.insert bucket t' db.bp_tree_idx })
      ]

  unfoldable pub build_active_bp_tree_idx : ScanRecord → Method (Unit {0})
  build_active_bp_tree_idx r db =
      elim (ops.insert (get_new_key r.bucket r.hint.key) r.entry r.hint count_flag_enabled
        db.active_bp_tree_idx) [
          | none ↦ (err tree_failed, db)
          | some t ↦ (ok tt, record db { active_bp_tree_idx = t })
        ]

  unfoldable pub build_other_idxes : ℕ → Bytes → ScanRecord → Method (Unit {0})
  build_other_idxes now bucket r = do
    (if r.hint.meta.ds == data_structure_set then build_set_idx bucket r else pure tt)
    (if r.hint.meta.ds == data_structure_sorted_set then build_sorted_set_idx bucket r else pure tt)
    (if r.hint.meta.ds == data_structure_list then build_list_idx now bucket r else pure tt)

  unfoldable pub build_not_ds_idxes : Bytes → ScanRecord → Db T Z L → Db T Z L
  build_not_ds_idxes bucket r db =
      let flag = r.hint.meta.flag in
      if flag == data_set_bucket_delete_flag
      then delete_bucket data_structure_set bucket db
      else if flag == data_sorted_set_bucket_delete_flag
      then delete_bucket data_structure_sorted_set bucket db
      else if flag == data_bp_tree_bucket_delete_flag
      then delete_bucket data_structure_bp_tree bucket db
      else if flag == data_list_bucket_delete_flag
      then delete_bucket data_structure_list bucket db
      else db

  -- The branch of a record of the B+ tree.
  unfoldable pub build_tree_record : EntryIdxMode → ScanRecord → Method (Unit {0})
  build_tree_record mode r =
      if r.hint.meta.ds == data_structure_bp_tree
      then (if is_sparse mode
          then build_active_bp_tree_idx (set_committed r)
          else build_bp_tree_idx r.bucket (set_committed r))
      else pure tt

  -- The body of the loop of `buildHintIdx`, for the record of a committed transaction.
  unfoldable pub build_record : ℕ → EntryIdxMode → ScanRecord → Method (Unit {0})
  build_record now mode r = do
    build_tree_record mode r
    build_other_idxes now r.bucket r
    modify (λ db.
        if r.hint.meta.ds == data_structure_none then build_not_ds_idxes r.bucket r db else db)
    modify (λ db. record db { key_count = db.key_count + 1 })

  -- The loop of `buildHintIdx`, which reads `db.committedTxIds`.
  unfoldable pub build_records :
      ℕ → EntryIdxMode → Map ℕ (Unit {0}) → List ScanRecord → Method (Unit {0})
  build_records now mode ids [] = pure tt
  build_records now mode ids (r ∷ rs) =
      (if has r.hint.meta.tx_id ids then build_record now mode r else pure tt)
      >> build_records now mode ids rs

  -- `buildHintIdx` without its last step, which reads the roots of older trees in the sparse mode.
  -- The scan writes the index of transaction IDs and the positions in place; what it has written of
  -- them before an error, after which the database is not opened, is left out.
  unfoldable pub build_hint_idx : ℕ → Options → (ℕ → Option Bytes) → List ℕ → Method (Unit {0})
  build_hint_idx now o dir f_ids db =
      elim (parse_data_files ops.insert_tx_id o dir f_ids db.active_committed_tx_ids_idx
        db.key_entry_pos_map) [
          | err x ↦ (err (recovery_failed x), record db { committed_tx_ids = [] })
          | panic ↦ (panic, db)
          | ok scan ↦
              build_records now o.entry_idx_mode scan.committed_tx_ids scan.unconfirmed_records
                (record db {
                  committed_tx_ids = scan.committed_tx_ids;
                  active_committed_tx_ids_idx = scan.active_committed_tx_ids_idx;
                  key_entry_pos_map = scan.key_entry_pos_map;
                })
        ]
