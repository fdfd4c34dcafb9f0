-- ===== src/Tests/Transactions.antt =====
-- Transactions of tx.go at work on a file that holds one entry.
use nutsdb.Prelude.{
  ℕ, ◌+◌, ◌<◌, ◌≡◌, refl, true, false, none, some, List, [], ◌∷◌, ◌++◌, arith, ok, panic,
  if◌then◌else◌, length, length-append, drop, replicate,
}
use nutsdb.Prelude.Maps
use nutsdb.Prelude.Maps.{Map, nat_key, has}
use nutsdb.Prelude.Words.{Bytes}
use nutsdb.Entries.{Entry, valid, size}
use nutsdb.Entries.Layout.{IsSized, encoded}
use nutsdb.Recovery.{Scan, parse_file}
use nutsdb.Recovery.Logs.{log, AreSized, Stops, Stops-torn, commits, records, length-encoded}
use nutsdb.Storage.{mmap_mode, Storage, contents, write_data}
use nutsdb.Storage.Writes.{IsWrittenTo, write_data-IsWrittenTo}
use nutsdb.Tx.{Tx, running, closed, Lock, lock, unlock, new_tx, begin, put, rollback, new_entry}
use nutsdb.Tx.States.{begin-excludes, begin-rollback, put-IsSized}
use nutsdb.Committing.{
  make_room, key_val, World, seal_last, commit_writes, commit, deferred, commit_open,
  commit_entries, build_idxes,
}
use nutsdb.Committing.Log.{commit-IsWrittenTo}
use nutsdb.Committing.Rooms.{make_room-rotates}
use nutsdb.Committing.Durable.{commit-recovered}
use nutsdb.Committing.Guards.{begin-commit, commit_panics_after_rollback}
use nutsdb.Tests.Codec.{an_entry, entry-IsSized}
use nutsdb.Tests.Recoveries.{counters, takes_all, options}

abbrev free_lock : Lock
free_lock = record { writer = false; readers = 0 }

abbrev write_lock : Lock
write_lock = record { writer = true; readers = 0 }

-- A writable transaction as `Begin` gives it.
abbrev a_tx : Tx
a_tx = record { id = 7; writable = true; has_db = true; status = running; pending_writes = [] }

begun : begin 7 true false free_lock ≡ some (ok a_tx, write_lock)
unfolding begin lock new_tx
begun = refl

-- The active file holds one entry, and 48 zero bytes behind it.
abbrev held : List Entry
held = an_entry 1 ∷ []

abbrev free : Bytes
free = replicate 48 0

abbrev storage : Storage
storage = record {
  rw_mode = mmap_mode;
  segment_size = 94;
  files = (0, log held ++ free) ∷ [];
  max_file_id = 0;
  active_file = record { file_id = 0; write_off = 46; actual_size = 46 };
}

abbrev world : World ℕ ℕ ℕ
world = record {
  is_merging = false;
  storage = storage;
  db = record {
    set_idx = [];
    sorted_set_idx = [];
    bp_tree_idx = [];
    list_idx = [];
    active_bp_tree_idx = 0;
    active_committed_tx_ids_idx = 0;
    key_entry_pos_map = [];
    committed_tx_ids = [];
    key_count = 0;
  };
}

length-held : (status : ℕ) → status < 2 → length (log (an_entry status ∷ [])) ≡ 46
unfolding size
length-held status h = omega (
  arith,
  length-append (encoded (an_entry status)) [],
  length-encoded (an_entry status) (entry-IsSized status h),
)

storage-IsWrittenTo : IsWrittenTo (log held) free storage
unfolding Maps.lookup
storage-IsWrittenTo = record {
  holds = refl;
  at_write_off = omega (arith, length-held 1 (omega arith));
  at_actual_size = omega (arith, length-held 1 (omega arith));
  whole = omega (arith, length-held 1 (omega arith));
}

write_data-IsWrittenTo_example :
    (t : Storage) × (write_data (1 ∷ 2 ∷ []) storage ≡ (ok tt, t))
    × IsWrittenTo (log held ++ (1 ∷ 2 ∷ [])) (replicate 46 0) t
    × (t.segment_size ≡ 94)
    × (t.active_file.file_id ≡ 0)
write_data-IsWrittenTo_example =
    write_data-IsWrittenTo (1 ∷ 2 ∷ []) (log held) free storage storage-IsWrittenTo (omega arith)

-- The transaction with one pending write.
abbrev writing_tx : Tx
writing_tx = record a_tx { pending_writes = an_entry 0 ∷ [] }

sealed_write : seal_last writing_tx.pending_writes ≡ an_entry 1 ∷ []
unfolding seal_last
sealed_write = refl

sealed-AreSized : AreSized (seal_last writing_tx.pending_writes)
unfolding seal_last
sealed-AreSized = (entry-IsSized 1 (omega arith), omega arith, tt)

sealed_length : length (log (seal_last writing_tx.pending_writes)) ≡ 46
unfolding seal_last
sealed_length = length-held 1 (omega arith)

sealed-Stops : Stops (drop (length (log (seal_last writing_tx.pending_writes))) free)
sealed-Stops = rw sealed_length (Stops-torn (0 ∷ 0 ∷ []) (omega arith))

commit-IsWrittenTo_example :
    IsWrittenTo
      (log held ++ log (seal_last writing_tx.pending_writes))
      (drop (length (log (seal_last writing_tx.pending_writes))) free)
      (commit counters 0 key_val writing_tx write_lock world).1.storage
commit-IsWrittenTo_example =
    commit-IsWrittenTo counters 0 key_val writing_tx write_lock (log held) free world refl refl
      sealed-AreSized storage-IsWrittenTo (omega (arith, sealed_length))

abbrev after_commit : Storage
after_commit = (commit counters 0 key_val writing_tx write_lock world).1.storage

abbrev no_scan : Scan ℕ
no_scan = record {
  unconfirmed_records = [];
  committed_tx_ids = [];
  active_committed_tx_ids_idx = 0;
  key_entry_pos_map = [];
}

commit-recovered_example :
    (after : Scan ℕ) × (parse_file counters.insert_tx_id options
        (length (contents after_commit.active_file.file_id after_commit) + 1)
        0
        0
        (contents after_commit.active_file.file_id after_commit)
        no_scan
      ≡ ok after)
    × (after.unconfirmed_records
        ≡ records options 0 0 (held ++ seal_last writing_tx.pending_writes))
    × ((t : ℕ)
        → has t after.committed_tx_ids ≡ (
            if commits t (held ++ seal_last writing_tx.pending_writes)
            then true
            else has t no_scan.committed_tx_ids))
commit-recovered_example =
    commit-recovered counters 0 key_val writing_tx write_lock held free world options 0 no_scan
      takes_all refl refl (entry-IsSized 1 (omega arith), omega arith, tt) sealed-AreSized
      storage-IsWrittenTo (omega (arith, sealed_length)) sealed-Stops

begin-excludes_example : begin 8 false false write_lock ≡ none
begin-excludes_example = begin-excludes 7 8 false false free_lock write_lock a_tx begun

begin-rollback_example :
    (t : Tx) × (rollback (writing_tx, write_lock) ≡ (ok tt, (t, free_lock)))
    × (t.status ≡ closed)
    × (t.has_db ≡ false)
    × (t.pending_writes ≡ [])
begin-rollback_example = begin-rollback 7 true free_lock write_lock a_tx (an_entry 0 ∷ []) begun

begin-commit_example :
    (t : Tx) × (commit counters 0 key_val writing_tx write_lock world ≡ (
      ((commit_writes counters 0 key_val (an_entry 0 ∷ []) world).0, (t, free_lock)),
      (commit_writes counters 0 key_val (an_entry 0 ∷ []) world).1,
    ))
    × (t.status ≡ closed)
    × (t.has_db ≡ false)
    × (t.pending_writes ≡ [])
begin-commit_example =
    begin-commit counters 7 0 true free_lock write_lock a_tx (an_entry 0 ∷ []) key_val world begun

-- A transaction that is over.
abbrev over_tx : Tx
over_tx = record { id = 7; writable = true; has_db = false; status = closed; pending_writes = [] }

rolled_back_run : rollback (a_tx, write_lock) ≡ (ok tt, (over_tx, free_lock))
unfolding rollback unlock
rolled_back_run = refl

commit_panics_after_rollback_example :
    commit counters 0 key_val over_tx free_lock world ≡ ((panic, (over_tx, free_lock)), world)
commit_panics_after_rollback_example =
    commit_panics_after_rollback counters 0 key_val a_tx over_tx write_lock free_lock free_lock
      world rolled_back_run

committed_run :
    commit counters 0 key_val a_tx write_lock world ≡ ((ok tt, (over_tx, free_lock)), world)
unfolding commit commit_open commit_writes commit_entries build_idxes seal_last deferred unlock
committed_run = refl

abbrev put_tx : Tx
put_tx = record a_tx {
  pending_writes = new_entry a_tx (98 ∷ []) (107 ∷ []) (118 ∷ []) 0 1 1547707905 2 ∷ [];
}

put_run : put (98 ∷ []) (107 ∷ []) (118 ∷ []) 0 1 1547707905 2 a_tx ≡ (ok tt, put_tx)
unfolding put valid
put_run = refl

put-IsSized_example :
    (e : Entry) × (put_tx.pending_writes ≡ [] ++ (e ∷ []))
    × IsSized e
    × (0 < length e.key)
    × (e.meta.tx_id ≡ 7)
put-IsSized_example =
    put-IsSized (98 ∷ []) (107 ∷ []) (118 ∷ []) 0 1 1547707905 2 a_tx put_tx put_run (omega arith)
      (omega arith) (omega arith) (omega arith) (omega arith) (omega arith)

-- Three bytes wait in the buffer, and the entry's 46 do not fit behind them.
too_long : 94 < 46 + 3 + size (an_entry 0)
unfolding size
too_long = omega arith

no_next : Maps.lookup 1 storage.files ≡ none
unfolding Maps.lookup
no_next = refl

make_room-rotates_example :
    (w' : World ℕ ℕ ℕ) × (make_room counters (an_entry 0) (1 ∷ 2 ∷ 3 ∷ []) world ≡ (ok [], w'))
    × (contents 0 w'.storage ≡ (log held ++ (1 ∷ 2 ∷ 3 ∷ [])) ++ replicate 45 0)
    × IsWrittenTo [] (replicate 94 0) w'.storage
    × (w'.storage.active_file.file_id ≡ 1)
make_room-rotates_example =
    make_room-rotates counters (an_entry 0) (1 ∷ 2 ∷ 3 ∷ []) (log held) free world
      storage-IsWrittenTo (omega arith) too_long (omega arith) refl no_next
