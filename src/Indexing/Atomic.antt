-- ===== src/Indexing/Atomic.antt =====
-- `buildHintIdx` of db.go indexes the transactions that committed, and no others.
use nutsdb.Prelude.{
  ℕ, ◌≡◌, refl, ap, ◌∙◌, Bool, false, Option, some, List, [], ◌∷◌, if◌then◌else◌, inl, inr,
  Bool-cases, ok,
}
use nutsdb.Prelude.Exec.{◌>>◌, pure}
use nutsdb.Prelude.Maps.{Map, nat_key, has}
use nutsdb.Prelude.Words.{Bytes}
use nutsdb.Records.{EntryIdxMode, is_sparse, ScanRecord}
use nutsdb.Recovery.{Options, Scan, parse_data_files}
use nutsdb.Recovery.Logs.{commits}
use nutsdb.Recovery.Directories.{
  LogFile, AreLogs, ids, all_entries, all_records, parse_data_files-logs,
}
use nutsdb.Indexing.{Structures, Db, Method, build_record, build_records, build_hint_idx}

-- The records whose transaction passes a test.
unfoldable pub select_records : (ℕ → Bool) → List ScanRecord → List ScanRecord
select_records p [] = []
select_records p (r ∷ rs) =
    let rest = select_records p rs in if p r.hint.meta.tx_id then r ∷ rest else rest

module _ {T Z L : Type 0} (ops : Structures T Z L) where
  -- Every record indexed, one after the other.
  unfoldable pub index_all : ℕ → EntryIdxMode → List ScanRecord → Method ops (Unit {0})
  index_all now mode [] = pure tt
  index_all now mode (r ∷ rs) = build_record ops now mode r >> index_all now mode rs

  build_records-select :
      (now : ℕ) (mode : EntryIdxMode) (ids : Map ℕ (Unit {0})) (p : ℕ → Bool)
      → ((t : ℕ) → has t ids ≡ p t)
      → (rs : List ScanRecord)
      → build_records ops now mode ids rs ≡ index_all now mode (select_records p rs)
  unfolding build_records index_all select_records
  build_records-select now mode ids p same [] = refl
  build_records-select now mode ids p same (r ∷ rs) =
      let rest = build_records-select now mode ids p same rs in
      let t = r.hint.meta.tx_id in
      elim (Bool-cases (p t)) [
        | inl done ↦ rw (done, same t) (rw done (ap (λ m. build_record ops now mode r >> m) rest))
        | inr open_yet ↦ rw (open_yet, same t) (rw open_yet rest)
      ]

  build_hint_idx-parsed :
      (now : ℕ) (o : Options) (dir : ℕ → Option Bytes) (f_ids : List ℕ) (db : Db T Z L)
      (scan : Scan T)
      → parse_data_files ops.insert_tx_id o dir f_ids db.active_committed_tx_ids_idx
          db.key_entry_pos_map
        ≡ ok scan
      → build_hint_idx ops now o dir f_ids db
        ≡ build_records ops now o.entry_idx_mode scan.committed_tx_ids scan.unconfirmed_records
            (record db {
              committed_tx_ids = scan.committed_tx_ids;
              active_committed_tx_ids_idx = scan.active_committed_tx_ids_idx;
              key_entry_pos_map = scan.key_entry_pos_map;
            })
  unfolding build_hint_idx
  build_hint_idx-parsed now o dir f_ids db scan parsed = rw (parsed, build_hint_idx) refl

  -- Where the files are encoded entries one after the other, each file followed by bytes that stop
  -- the reader, the index of transaction IDs takes every ID, and the mode is not the sparse one,
  -- `buildHintIdx` does what indexing does to the records of the transactions that have a committed
  -- entry somewhere, all of these records and in the order of the log; the other entries have no
  -- effect. It starts with the database's set of committed transactions made of just these.
  pub build_hint_idx-atomic :
      (now : ℕ) (o : Options) (dir : ℕ → Option Bytes) (fs : List LogFile) (db : Db T Z L)
      → ((t : ℕ) (idx : T) → (idx' : T) × (ops.insert_tx_id t idx ≡ some idx'))
      → AreLogs dir fs
      → is_sparse o.entry_idx_mode ≡ false
      → (tx_ids : Map ℕ (Unit {0})) × (idx : T) × (pos : Map Bytes ℕ) × (build_hint_idx ops now o
            dir
            (ids fs)
            db
          ≡ index_all now o.entry_idx_mode
              (select_records (λ t. commits t (all_entries fs)) (all_records o fs))
              (record db {
                committed_tx_ids = tx_ids;
                active_committed_tx_ids_idx = idx;
                key_entry_pos_map = pos;
              }))
        × ((t : ℕ) → has t tx_ids ≡ commits t (all_entries fs))
  build_hint_idx-atomic now o dir fs db ingests logs dense =
      let (scan, parsed, found, seen) =
        parse_data_files-logs ops.insert_tx_id o ingests dir fs db.active_committed_tx_ids_idx
          db.key_entry_pos_map logs dense in
      let start = record db {
        committed_tx_ids = scan.committed_tx_ids;
        active_committed_tx_ids_idx = scan.active_committed_tx_ids_idx;
        key_entry_pos_map = scan.key_entry_pos_map;
      } in
      (
        scan.committed_tx_ids,
        scan.active_committed_tx_ids_idx,
        scan.key_entry_pos_map,
        build_hint_idx-parsed now o dir (ids fs) db scan parsed
            ∙ ap (λ m. m start)
                (build_records-select now o.entry_idx_mode scan.committed_tx_ids
                  (λ t. commits t (all_entries fs)) seen scan.unconfirmed_records)
            ∙ ap
                (λ rs.
                  index_all now o.entry_idx_mode
                    (select_records (λ t. commits t (all_entries fs)) rs) start)
                found,
        seen,
      )
