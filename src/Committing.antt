-- ===== src/Committing.antt =====
-- `Commit` of tx.go in the two modes that keep every index in memory, with the functions that it
-- calls. The structures that it indexes into are those of db.go's builders.
pub mod Log
pub mod Durable
pub mod Rooms
pub mod Guards
use nutsdb.Prelude.{
  ℕ, zero, suc, ◌+◌, Bool, true, false, ◌&&◌, not, Option, none, some, List, [], ◌∷◌, ◌++◌, ltb,
  ◌==◌, if◌then◌else◌, length, Outcome, ok, err, panic,
}
use nutsdb.Prelude.Exec
use nutsdb.Prelude.Exec.{Exec, ◌>>=◌, ◌>>◌, pure, fail, crash, gets, modify}
use nutsdb.Prelude.Maps
use nutsdb.Prelude.Maps.{Map, bytes_key, nat_key}
use nutsdb.Prelude.Words.{Bytes}
use nutsdb.Entries.{Entry, Hint, MetaData, encode, size}
use nutsdb.Records.{
  committed, data_bp_tree_bucket_delete_flag, data_set_bucket_delete_flag,
  data_sorted_set_bucket_delete_flag, data_list_bucket_delete_flag, data_structure_set,
  data_structure_sorted_set, data_structure_bp_tree, data_structure_list, data_structure_none,
  Record, get_new_key, is_expired,
}
use nutsdb.Sets.{SetStore}
use nutsdb.Storage
use nutsdb.Storage.{Storage, StorageError, write_data, rotate_active_file}
use nutsdb.Indexing.{Structures, Db, get_or, delete_bucket, replay_set}
use nutsdb.Tx.{
  TxError, data_size_exceed, storage_failed, db_closed, cannot_commit_a_closed_tx, Tx, Status,
  not_started, running, closed, committing, Lock, unlock,
}

-- The modes other than the sparse one.
pub data RamMode : Type 0 where
  key_val key_only : RamMode

-- What `Commit` reads and writes of the database.
pub record World (T Z L : Type 0) : Type 0 where
  pub is_merging : Bool
  pub storage : Storage
  pub db : Db T Z L

-- `e`, which is nil unless the values are kept in memory.
abbrev pub kept : RamMode → Entry → Option Entry
kept key_val e = some e
kept key_only e = none

-- `buildRecordByEntryAndOffset`: either the hint or the entry is nil.
abbrev pub record_at : RamMode → ℕ → Entry → ℕ → Record
record_at key_val file_id e off = record { hint = none; entry = some e; bucket = e.bucket }
record_at key_only file_id e off = record {
  hint = some (record { key = e.key; file_id = file_id; meta = e.meta; data_pos = off });
  entry = none;
  bucket = e.bucket;
}

abbrev pub is_last : List Entry → Bool
is_last [] = true
is_last (e ∷ es) = false

-- `if i == lastIndex { entry.Meta.Status = Committed }`
abbrev pub sealed : Bool → Entry → Entry
sealed true e = record e { meta = record e.meta { status = committed } }
sealed false e = e

-- The pending writes as the loop leaves them.
unfoldable pub seal_last : List Entry → List Entry
seal_last [] = []
seal_last (e ∷ es) = sealed (is_last es) e ∷ seal_last es

module _ {T Z L : Type 0} (ops : Structures T Z L) where
  abbrev pub Method : Type 0 → Type 0
  Method A = Exec (World T Z L) TxError A

  -- A call on the files, with its error as one of the transaction.
  abbrev stored : {A : Type 0} → Outcome StorageError A → Outcome TxError A
  stored (ok a) = ok a
  stored (err x) = err (storage_failed x)
  stored panic = panic

  abbrev pub on_storage : {A : Type 0} → Storage.Method A → Method A
  on_storage m w = (stored (m w.storage).0, record w { storage = (m w.storage).1 })

  abbrev pub on_db : (Db T Z L → Db T Z L) → Method (Unit {0})
  on_db f = modify (λ w. record w { db = f w.db })

  -- `buildBPTreeIdx`: an error of `Insert` is dropped.
  unfoldable pub commit_bp_tree_idx : Bool → RamMode → ℕ → Entry → ℕ → Db T Z L → Db T Z L
  commit_bp_tree_idx count_flag mode file_id e off db =
      let t = get_or ops.new_tree (Maps.lookup e.bucket db.bp_tree_idx) in
      let h : Hint = record { key = e.key; file_id = file_id; meta = e.meta; data_pos = off } in
      record db {
        bp_tree_idx =
            Maps.insert e.bucket (get_or t (ops.insert e.key (kept mode e) h count_flag t))
              db.bp_tree_idx;
      }

  -- `buildSetIdx`: what the set holds after an error stays.
  unfoldable pub commit_set_idx : RamMode → ℕ → Entry → ℕ → Db T Z L → Db T Z L
  commit_set_idx mode file_id e off db =
      let s = get_or [] (Maps.lookup e.bucket db.set_idx) in
      record db {
        set_idx =
            Maps.insert e.bucket (replay_set ops e.meta.flag (record_at mode file_id e off) e s).1
              db.set_idx;
      }

  -- `buildListIdx`: the errors of the list's methods are dropped.
  unfoldable pub commit_list_idx : ℕ → RamMode → ℕ → Entry → ℕ → Db T Z L → Db T Z L
  commit_list_idx now mode file_id e off db =
      let l = get_or ops.new_list (Maps.lookup e.bucket db.list_idx) in
      let l' =
        if is_expired now e.meta.ttl e.meta.timestamp
        then l
        else get_or l (ops.replay_list e.meta.flag (record_at mode file_id e off) e l) in
      record db { list_idx = Maps.insert e.bucket l' db.list_idx }

  -- The indexing at the end of the loop's body.
  unfoldable pub index_entry : ℕ → Bool → RamMode → ℕ → Entry → ℕ → Db T Z L → Db T Z L
  index_entry now count_flag mode file_id e off db =
      if e.meta.ds == data_structure_bp_tree
      then commit_bp_tree_idx count_flag mode file_id e off db
      else if e.meta.ds == data_structure_list
      then commit_list_idx now mode file_id e off db
      else if e.meta.ds == data_structure_set
      then commit_set_idx mode file_id e off db
      else if e.meta.ds == data_structure_none && e.meta.flag == data_bp_tree_bucket_delete_flag
      then delete_bucket ops data_structure_bp_tree e.bucket db
      else db

  -- `buildSortedSetIdx`
  unfoldable pub commit_sorted_set_idx : Entry → Method (Unit {0})
  commit_sorted_set_idx e w =
      let z = get_or ops.new_sorted_set (Maps.lookup e.bucket w.db.sorted_set_idx) in
      let with_set = λ (z' : Z). record w {
        db = record w.db { sorted_set_idx = Maps.insert e.bucket z' w.db.sorted_set_idx };
      } in
      elim (ops.replay_sorted_set e.meta.flag (some e) z) [
        | none ↦ (panic, with_set z)
        | some z' ↦ (ok tt, with_set z')
      ]

  -- The branch of `buildIdxes` for an entry of no data structure.
  unfoldable pub delete_buckets : Entry → Db T Z L → Db T Z L
  delete_buckets e db =
      if e.meta.flag == data_set_bucket_delete_flag
      then delete_bucket ops data_structure_set e.bucket db
      else if e.meta.flag == data_sorted_set_bucket_delete_flag
      then delete_bucket ops data_structure_sorted_set e.bucket db
      else if e.meta.flag == data_list_bucket_delete_flag
      then delete_bucket ops data_structure_list e.bucket db
      else db

  unfoldable pub build_idxes : List Entry → Method (Unit {0})
  build_idxes [] = pure tt
  build_idxes (e ∷ es) = do
    (if e.meta.ds == data_structure_sorted_set then commit_sorted_set_idx e else pure tt)
    on_db (λ db. if e.meta.ds == data_structure_none then delete_buckets e db else db)
    on_db (λ db. record db { key_count = db.key_count + 1 })
    build_idxes es

  -- The buffer is written out and the file rotated where the entry does not fit any more; the
  -- buffer that stays comes back.
  unfoldable pub make_room : Entry → Bytes → Method Bytes
  make_room e buff w =
      if ltb w.storage.segment_size (w.storage.active_file.actual_size + length buff + size e)
      then (do on_storage (write_data buff); on_storage rotate_active_file; pure []) w
      else (ok buff, w)

  -- `BPTreeKeyEntryPosMap[…] = offset`
  unfoldable pub note_position : Entry → ℕ → Method (Unit {0})
  note_position e off =
      if e.meta.ds == data_structure_bp_tree
      then on_db (λ db. record db {
        key_entry_pos_map = Maps.insert (get_new_key e.bucket e.key) off db.key_entry_pos_map;
      })
      else pure tt

  -- `buff.Write(entry.Encode())`; sizes that do not fit the parts panic.
  unfoldable pub append_entry : Entry → Bytes → Method Bytes
  append_entry e buff w = elim (encode e) [ none ↦ (panic, w) | some bs ↦ (ok (buff ++ bs), w) ]

  -- What follows the last entry: the write, and the mark of the transaction.
  unfoldable pub finish : Bool → Entry → Bytes → Method (Unit {0})
  finish true e buff = do
    on_storage (write_data buff)
    on_db (λ db. record db { committed_tx_ids = Maps.insert e.meta.tx_id tt db.committed_tx_ids })
  finish false e buff = pure tt

  -- The body of the loop for a pending write, the last one or not: what is in the buffer behind it.
  unfoldable pub commit_entry : ℕ → RamMode → Bool → Entry → Bytes → Method Bytes
  commit_entry now mode last e buff w =
      if ltb w.storage.segment_size (size e)
      then (err data_size_exceed, w)
      else (do
        buff ← make_room e buff
        off ← gets (λ w. w.storage.active_file.write_off + length buff)
        note_position e off
        buff ← append_entry (sealed last e) buff
        finish last (sealed last e) buff
        file_id ← gets (λ w. w.storage.active_file.file_id)
        count_flag ← gets (λ w. not w.is_merging)
        on_db (index_entry now count_flag mode file_id (sealed last e) off)
        pure buff)
          w

  unfoldable pub commit_entries : ℕ → RamMode → List Entry → Bytes → Method (Unit {0})
  commit_entries now mode [] buff = pure tt
  commit_entries now mode (e ∷ es) buff =
      commit_entry now mode (is_last es) e buff >>= commit_entries now mode es

  -- `Commit` between its guards and its deferred calls.
  unfoldable pub commit_writes : ℕ → RamMode → List Entry → Method (Unit {0})
  commit_writes now mode es = do commit_entries now mode es []; build_idxes (seal_last es)

  -- The deferred calls: after an error `handleErr` reads the database's options, so it panics where
  -- the field is nil; then the lock is given back, and the fields cleared.
  unfoldable pub deferred :
      Outcome TxError (Unit {0}) → Tx → Lock → Outcome TxError (Unit {0}) × (Tx × Lock)
  deferred r tx l =
      if tx.has_db
      then elim (unlock tx.writable l) [
        | none ↦ (panic, (tx, l))
        | some l' ↦ (r, (record tx { has_db = false; pending_writes = [] }, l'))
      ]
      else (panic, (tx, l))

  -- `Commit` of a transaction that is not closed.
  unfoldable pub commit_open :
      ℕ
      → RamMode
      → Tx
      → Lock
      → World T Z L
      → (Outcome TxError (Unit {0}) × (Tx × Lock)) × World T Z L
  commit_open now mode tx l w =
      let after = commit_writes now mode tx.pending_writes w in
      let done = record tx { status = closed } in
      if tx.has_db then (deferred after.0 done l, after.1) else (deferred (err db_closed) done l, w)

  unfoldable pub commit :
      ℕ
      → RamMode
      → Tx
      → Lock
      → World T Z L
      → (Outcome TxError (Unit {0}) × (Tx × Lock)) × World T Z L
  commit now mode tx l w = elim tx.status [
    | closed ↦ (deferred (err cannot_commit_a_closed_tx) tx l, w)
    | not_started ↦ (deferred panic tx l, w)
    | running ↦ commit_open now mode tx l w
    | committing ↦ commit_open now mode tx l w
  ]
