-- ===== src/Tests/Recoveries.antt =====
-- The recovery of db.go on a directory of one file.
use nutsdb.Prelude.{
  ℕ, ◌+◌, ◌≡◌, ◌≢◌, refl, Option, none, some, [], ◌∷◌, ◌++◌, arith, ok, err, if◌then◌else◌, ◌==◌,
}
use nutsdb.Prelude.Maps.{Map, bytes_key, nat_key, has}
use nutsdb.Prelude.Words.{Bytes}
use nutsdb.Records.{hint_key_val_and_ram, ScanRecord}
use nutsdb.Recovery.{out_of_fuel, Options, Scan, parse_data_files}
use nutsdb.Recovery.Logs.{log, AreSized, Stops-torn, commits}
use nutsdb.Recovery.Directories.{LogFile, AreLogs, all_entries, all_records, parse_data_files-logs}
use nutsdb.Recovery.Fuel.{parse_data_files-settles}
use nutsdb.Indexing.{Structures, Db, build_hint_idx, build_record}
use nutsdb.Indexing.Atomic.{select_records, index_all, build_hint_idx-atomic}
use nutsdb.Indexing.Buckets.{WithoutBucket, build_record-WithoutBucket}
use nutsdb.Tests.Codec.{a_meta, an_entry, entry-IsSized}

-- Structures that only count what they are given.
abbrev pub counters : Structures ℕ ℕ ℕ
counters = record {
  new_tree = 0;
  insert = λ key e h count_flag t. some (t + 1);
  insert_tx_id = λ t idx. some (idx + 1);
  new_sorted_set = 0;
  replay_sorted_set = λ flag e z. some (z + 1);
  new_list = 0;
  replay_list = λ flag r e l. some (l + 1);
}

pub takes_all : (t idx : ℕ) → (idx' : ℕ) × (counters.insert_tx_id t idx ≡ some idx')
takes_all t idx = (idx + 1, refl)

abbrev pub options : Options
options = record { entry_idx_mode = hint_key_val_and_ram; segment_size = 8192 }

-- Two entries, and a torn header behind them.
abbrev a_file : LogFile
a_file = record { f_id = 3; entries = an_entry 0 ∷ an_entry 1 ∷ []; tail = 9 ∷ 9 ∷ [] }

abbrev directory : ℕ → Option Bytes
directory f_id = if f_id == 3 then some (log a_file.entries ++ a_file.tail) else none

pub entries-AreSized : AreSized a_file.entries
entries-AreSized =
    (entry-IsSized 0 (omega arith), omega arith, (entry-IsSized 1 (omega arith), omega arith, tt))

directory-AreLogs : AreLogs directory (a_file ∷ [])
directory-AreLogs = (refl, entries-AreSized, Stops-torn (9 ∷ 9 ∷ []) (omega arith), tt)

abbrev empty_db : Db ℕ ℕ ℕ
empty_db = record {
  set_idx = [];
  sorted_set_idx = [];
  bp_tree_idx = [];
  list_idx = (98 ∷ [], 0) ∷ [];
  active_bp_tree_idx = 0;
  active_committed_tx_ids_idx = 0;
  key_entry_pos_map = [];
  committed_tx_ids = [];
  key_count = 0;
}

parse_data_files-logs_example :
    (after : Scan ℕ) × (parse_data_files counters.insert_tx_id options directory (3 ∷ []) 0 []
      ≡ ok after)
    × (after.unconfirmed_records ≡ all_records options (a_file ∷ []))
    × ((t : ℕ) → has t after.committed_tx_ids ≡ commits t (all_entries (a_file ∷ [])))
parse_data_files-logs_example =
    parse_data_files-logs counters.insert_tx_id options takes_all directory (a_file ∷ []) 0 []
      directory-AreLogs refl

parse_data_files-settles_example :
    parse_data_files counters.insert_tx_id options directory (3 ∷ 4 ∷ []) 0 [] ≢ err out_of_fuel
parse_data_files-settles_example =
    parse_data_files-settles counters.insert_tx_id options directory (3 ∷ 4 ∷ []) 0 []

build_hint_idx-atomic_example :
    (tx_ids : Map ℕ (Unit {0})) × (idx : ℕ) × (pos : Map Bytes ℕ) × (build_hint_idx counters 0
        options directory
        (3 ∷ [])
        empty_db
      ≡ index_all counters 0 hint_key_val_and_ram
          (select_records
            (λ t. commits t (all_entries (a_file ∷ [])))
            (all_records options (a_file ∷ [])))
          (record empty_db {
            committed_tx_ids = tx_ids;
            active_committed_tx_ids_idx = idx;
            key_entry_pos_map = pos;
          }))
    × ((t : ℕ) → has t tx_ids ≡ commits t (all_entries (a_file ∷ [])))
build_hint_idx-atomic_example =
    build_hint_idx-atomic counters 0 options directory (a_file ∷ []) empty_db takes_all
      directory-AreLogs refl

-- The record that deletes the list bucket `b`.
abbrev a_deletion : ScanRecord
a_deletion = record {
  hint = record {
    key = 107 ∷ [];
    file_id = 3;
    meta = record (a_meta 1) { flag = 17; ds = 4 };
    data_pos = 0;
  };
  entry = none;
  bucket = 98 ∷ [];
}

build_record-WithoutBucket_example :
    (after : Db ℕ ℕ ℕ) × (build_record counters 0 hint_key_val_and_ram a_deletion empty_db
      ≡ (ok tt, after))
    × WithoutBucket counters 14 17 (98 ∷ []) empty_db.set_idx after.set_idx
    × WithoutBucket counters 15 17 (98 ∷ []) empty_db.sorted_set_idx after.sorted_set_idx
    × WithoutBucket counters 16 17 (98 ∷ []) empty_db.bp_tree_idx after.bp_tree_idx
    × WithoutBucket counters 17 17 (98 ∷ []) empty_db.list_idx after.list_idx
    × (after.key_count ≡ 1)
build_record-WithoutBucket_example =
    build_record-WithoutBucket counters 0 hint_key_val_and_ram a_deletion empty_db refl
