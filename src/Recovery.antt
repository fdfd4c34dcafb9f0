-- ===== src/Recovery.antt =====
-- `parseDataFiles` of db.go: the records of all data files, and the transactions that committed.
-- A directory gives each file's bytes by its ID; the B+ tree of committed transaction IDs is one of
-- any type, with its insertion.
pub mod Logs
pub mod Directories
pub mod Fuel
use nutsdb.Prelude.{
  ℕ, zero, suc, ◌+◌, Bool, true, false, Option, none, some, List, [], ◌∷◌, ◌++◌, leb, ◌==◌,
  if◌then◌else◌, length, Outcome, ok, err, panic, ◌||◌,
}
use nutsdb.Prelude.Maps
use nutsdb.Prelude.Maps.{Map, bytes_key, nat_key}
use nutsdb.Prelude.Words.{Bytes}
use nutsdb.Entries.{Entry, size}
use nutsdb.DataFile.{
  ReadError, eof, unexpected_eof, index_out_of_bound, unmapped_memory, crc_mismatch, size_mismatch,
  read_entry,
}
use nutsdb.Records.{EntryIdxMode, is_sparse, keeps_values, committed, ScanRecord, get_new_key}

pub data RecoveryError : Type 0 where
  no_such_file tx_id_not_ingested out_of_fuel : RecoveryError
  read_failed : ReadError → RecoveryError

pub record Options : Type 0 where
  pub entry_idx_mode : EntryIdxMode
  pub segment_size : ℕ

-- The results of `parseDataFiles`, and the two fields of the database that it writes.
pub record Scan (T : Type 0) : Type 0 where
  pub unconfirmed_records : List ScanRecord
  pub committed_tx_ids : Map ℕ (Unit {0})
  pub active_committed_tx_ids_idx : T
  pub key_entry_pos_map : Map Bytes ℕ

-- The record of an entry that stands at an offset of a file.
abbrev pub record_of : Options → ℕ → ℕ → Entry → ScanRecord
record_of o f_id off e = record {
  hint = record { key = e.key; file_id = f_id; meta = e.meta; data_pos = off };
  entry = if keeps_values o.entry_idx_mode then some e else none;
  bucket = e.bucket;
}

-- The errors that end a file's loop without one.
abbrev pub is_end : ReadError → Bool
is_end eof = true
is_end unexpected_eof = true
is_end index_out_of_bound = true
is_end unmapped_memory = false
is_end crc_mismatch = false
is_end size_mismatch = false

-- `dataFileIds[len(dataFileIds)-1:]`
unfoldable pub last_only : List ℕ → Option (List ℕ)
last_only [] = none
last_only (f_id ∷ []) = some (f_id ∷ [])
last_only (f_id ∷ g_id ∷ f_ids) = last_only (g_id ∷ f_ids)

module _ {T : Type 0} (insert_tx_id : ℕ → T → Option T) (o : Options) where
  -- The branch of a committed entry.
  unfoldable pub note_commit : Entry → Scan T → Option (Scan T)
  note_commit e scan =
      if e.meta.status == committed
      then elim (insert_tx_id e.meta.tx_id scan.active_committed_tx_ids_idx) [
        | none ↦ none
        | some idx ↦ some (record scan {
          committed_tx_ids = Maps.insert e.meta.tx_id tt scan.committed_tx_ids;
          active_committed_tx_ids_idx = idx;
        })
      ]
      else some scan

  unfoldable pub add_record : ℕ → ℕ → Entry → Scan T → Scan T
  add_record f_id off e scan = record scan {
    unconfirmed_records = scan.unconfirmed_records ++ (record_of o f_id off e ∷ []);
    key_entry_pos_map =
        if is_sparse o.entry_idx_mode
        then Maps.insert (get_new_key e.bucket e.key) off scan.key_entry_pos_map
        else scan.key_entry_pos_map;
  }

  abbrev pub on_read_error : ReadError → ℕ → Scan T → Outcome RecoveryError (Scan T)
  on_read_error x off scan =
      if is_end x || leb o.segment_size off then ok scan else err (read_failed x)

  -- The loop over one file's entries.
  unfoldable pub parse_file : ℕ → ℕ → ℕ → Bytes → Scan T → Outcome RecoveryError (Scan T)
  parse_file zero f_id off s scan = err out_of_fuel
  parse_file (suc fuel) f_id off s scan = elim (read_entry s) [
    | err x ↦ on_read_error x off scan
    | panic ↦ panic
    | ok (none, rest) ↦ ok scan
    | ok (some e, rest) ↦ elim (note_commit e scan) [
      | none ↦ err tx_id_not_ingested
      | some scan' ↦ parse_file fuel f_id (off + size e) rest (add_record f_id off e scan')
    ]
  ]

  -- Every entry takes 42 bytes at least, so a file's length is fuel enough.
  unfoldable pub parse_files : (ℕ → Option Bytes) → List ℕ → Scan T → Outcome RecoveryError (Scan T)
  parse_files dir [] scan = ok scan
  parse_files dir (f_id ∷ f_ids) scan = elim (dir f_id) [
    | none ↦ err no_such_file
    | some s ↦ elim (parse_file (length s + 1) f_id 0 s scan) [
      | err x ↦ err x
      | panic ↦ panic
      | ok scan' ↦ parse_files dir f_ids scan'
    ]
  ]

  -- `parseDataFiles`, from what the database's two fields hold.
  unfoldable pub parse_data_files :
      (ℕ → Option Bytes) → List ℕ → T → Map Bytes ℕ → Outcome RecoveryError (Scan T)
  parse_data_files dir f_ids idx pos =
      let start : Scan T = record {
        unconfirmed_records = [];
        committed_tx_ids = [];
        active_committed_tx_ids_idx = idx;
        key_entry_pos_map = pos;
      } in
      if is_sparse o.entry_idx_mode
      then elim (last_only f_ids) [ none ↦ panic | some last ↦ parse_files dir last start ]
      else parse_files dir f_ids start
