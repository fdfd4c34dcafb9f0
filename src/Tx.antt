-- ===== src/Tx.antt =====
-- tx.go: a transaction's states, its pending writes, and the lock of the
-- database, as `Begin`, `put` and `Rollback` change them. The status of `atomic.Value` and the lock of the database are explicit.
pub mod States
use nutsdb.Prelude.{
  ℕ, zero, suc, ◌+◌, ◌%◌, ◌^◌, Bool, true, false, Option, none, some, List, [], ◌∷◌, ◌++◌, ltb,
  ◌==◌, if◌then◌else◌, length, Outcome, ok, err, panic,
}
use nutsdb.Prelude.Exec
use nutsdb.Prelude.Exec.{Exec, ◌>>=◌, ◌>>◌, pure, fail, crash, gets, modify}
use nutsdb.Prelude.Maps
use nutsdb.Prelude.Maps.{Map, bytes_key, nat_key}
use nutsdb.Prelude.Words.{Bytes}
use nutsdb.Entries.{Entry, EntryError, Hint, MetaData, encode, size, valid}
use nutsdb.Records.{
  EntryIdxMode, keeps_values, hint_key_val_and_ram, un_committed, committed, data_set_flag,
  data_delete_flag, data_set_bucket_delete_flag, data_sorted_set_bucket_delete_flag,
  data_bp_tree_bucket_delete_flag, data_list_bucket_delete_flag, data_structure_set,
  data_structure_sorted_set, data_structure_bp_tree, data_structure_list, data_structure_none,
  Record, get_new_key, is_expired,
}
use nutsdb.Storage
use nutsdb.Storage.{Storage, StorageError, write_data, rotate_active_file}

pub data TxError : Type 0 where
  tx_closed tx_not_writable db_closed cannot_commit_a_closed_tx cannot_rollback_a_committing_tx
        cannot_rollback_a_closed_tx data_size_exceed :
      TxError
  entry_invalid : EntryError → TxError
  storage_failed : StorageError → TxError

pub data Status : Type 0 where
  not_started running committing closed : Status

-- `Tx`: whether its field `db` is set stands in `has_db`.
pub record Tx : Type 0 where
  pub id : ℕ
  pub writable : Bool
  pub has_db : Bool
  pub status : Status
  pub pending_writes : List Entry

-- `sync.RWMutex`: the writer, and the number of readers.
pub record Lock : Type 0 where
  pub writer : Bool
  pub readers : ℕ

-- `tx.lock()`, where the lock is free for it; a transaction that must wait has no result yet.
unfoldable pub lock : Bool → Lock → Option Lock
lock true l =
    if l.writer then none else if l.readers == 0 then some (record l { writer = true }) else none
lock false l = if l.writer then none else some (record l { readers = l.readers + 1 })

-- `tx.unlock()`: to unlock what is not locked is a fatal error.
unfoldable pub unlock : Bool → Lock → Option Lock
unlock true l = if l.writer then some (record l { writer = false }) else none
unlock false l = elim l.readers [ zero ↦ none | suc n ↦ some (record l { readers = n }) ]

-- `newTx` and `Begin`, with the ID that the snowflake node generates, once the lock is free.
unfoldable pub new_tx : ℕ → Bool → Tx
new_tx id writable = record {
  id = id;
  writable = writable;
  has_db = true;
  status = not_started;
  pending_writes = [];
}

abbrev opened : Tx → Bool → Lock → Option (Outcome TxError Tx × Lock)
opened tx true l = elim (unlock tx.writable l) [
  | none ↦ some (panic, l)
  | some l' ↦ some (err db_closed, l')
]
opened tx false l = some (ok (record tx { status = running }), l)

unfoldable pub begin : ℕ → Bool → Bool → Lock → Option (Outcome TxError Tx × Lock)
begin id writable is_closed l = elim (lock writable l) [
  | none ↦ none
  | some l' ↦ opened (new_tx id writable) is_closed l'
]

-- The meta data that `put` makes.
abbrev pub new_meta : Tx → Bytes → Bytes → Bytes → ℕ → ℕ → ℕ → ℕ → MetaData
new_meta tx bucket key value ttl flag timestamp ds = record {
  key_size = length key % 2 ^ 32;
  value_size = length value % 2 ^ 32;
  timestamp = timestamp;
  ttl = ttl;
  flag = flag;
  bucket_size = length bucket % 2 ^ 32;
  tx_id = tx.id;
  status = un_committed;
  ds = ds;
  crc = 0;
}

abbrev pub new_entry : Tx → Bytes → Bytes → Bytes → ℕ → ℕ → ℕ → ℕ → Entry
new_entry tx bucket key value ttl flag timestamp ds = record {
  key = key;
  value = value;
  bucket = bucket;
  meta = new_meta tx bucket key value ttl flag timestamp ds;
}

abbrev add_valid : Outcome EntryError (Unit {0}) → Entry → Exec Tx TxError (Unit {0})
add_valid (ok u) e tx = (ok tt, record tx { pending_writes = tx.pending_writes ++ (e ∷ []) })
add_valid (err x) e tx = (err (entry_invalid x), tx)
add_valid panic e tx = (panic, tx)

unfoldable pub put : Bytes → Bytes → Bytes → ℕ → ℕ → ℕ → ℕ → Exec Tx TxError (Unit {0})
put bucket key value ttl flag timestamp ds tx =
    if tx.has_db
    then (if tx.writable
        then (let e = new_entry tx bucket key value ttl flag timestamp ds in
            add_valid (valid e) e tx)
        else (err tx_not_writable, tx))
    else (err tx_closed, tx)

-- `Rollback`
abbrev rolled_back : Option Lock → Tx → Lock → Outcome TxError (Unit {0}) × (Tx × Lock)
rolled_back none tx l = (panic, (record tx { status = closed }, l))
rolled_back (some l') tx l =
    (ok tt, (record tx { status = closed; has_db = false; pending_writes = [] }, l'))

unfoldable pub rollback : Exec (Tx × Lock) TxError (Unit {0})
rollback (tx, l) =
    if tx.has_db
    then elim tx.status [
      | committing ↦ (err cannot_rollback_a_committing_tx, (tx, l))
      | closed ↦ (err cannot_rollback_a_closed_tx, (tx, l))
      | running ↦ rolled_back (unlock tx.writable l) tx l
      | not_started ↦ (panic, (tx, l))
    ]
    else (err db_closed, (record tx { status = closed }, l))
