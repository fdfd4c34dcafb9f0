-- ===== src/Tests/TxBuckets.antt =====
-- A transaction that deletes a bucket of lists, and one that asks for the end of an iteration.
use nutsdb.Prelude.{ℕ, ◌+◌, ◌≡◌, refl, Bool, true, false, some, [], ◌∷◌, arith, ok}
use nutsdb.Prelude.Maps
use nutsdb.Prelude.Maps.{bytes_key}
use nutsdb.Prelude.Words.{Bytes, bytes_eq}
use nutsdb.Entries.{Entry}
use nutsdb.Records.{hint_key_val_and_ram}
use nutsdb.Indexing.{Db, build_record}
use nutsdb.Tx.{Tx, running}
use nutsdb.TxSets.News.{with_writes}
use nutsdb.TxBuckets
use nutsdb.TxBuckets.{exist_bucket, tx_delete_bucket, tx_iterate_buckets}
use nutsdb.TxBuckets.Deletes.{scanned, IsWithout, tx_delete_bucket_refines}
use nutsdb.Tests.Recoveries.{counters}

abbrev name : Bytes
name = b'l' ∷ []

abbrev a_tx : Tx
a_tx = record { id = 7; writable = true; has_db = true; status = running; pending_writes = [] }

-- A set and two lists.
abbrev db : Db ℕ ℕ ℕ
db = record {
  set_idx = (name, []) ∷ [];
  sorted_set_idx = [];
  bp_tree_idx = [];
  list_idx = (name, 0) ∷ (b'm' ∷ [], 0) ∷ [];
  active_bp_tree_idx = 0;
  active_committed_tx_ids_idx = 0;
  key_entry_pos_map = [];
  committed_tx_ids = [];
  key_count = 0;
}

list_stored : exist_bucket 3 name db ≡ ok true
unfolding exist_bucket Maps.lookup bytes_eq
list_stored = refl

tx_delete_bucket_refines_example :
    (e : Entry) × (after : Db ℕ ℕ ℕ) × (tx_delete_bucket 5 hint_key_val_and_ram db 3 name a_tx
      ≡ (ok tt, with_writes a_tx (e ∷ [])))
    × (build_record counters 6 hint_key_val_and_ram (scanned 1 0 94 e) db ≡ (ok tt, after))
    × IsWithout counters 3 name db after
tx_delete_bucket_refines_example =
    tx_delete_bucket_refines counters 5 6 hint_key_val_and_ram 3 name db a_tx 1 0 94 refl refl refl
      (omega arith) list_stored

-- A callback that counts its calls and asks for the end at once.
abbrev stops_at_once : Bytes → ℕ → Bool × ℕ
stops_at_once key calls = (false, calls + 1)

-- The lists are iterated to the last, the sets are not.
lists_go_on :
    tx_iterate_buckets (λ p k. some true) hint_key_val_and_ram db a_tx 3 [] stops_at_once 0
    ≡ (ok tt, 2)
unfolding tx_iterate_buckets TxBuckets.handle_list_bucket TxBuckets.match_for_range
lists_go_on = refl

sets_stop :
    tx_iterate_buckets (λ p k. some true) hint_key_val_and_ram db a_tx 0 [] stops_at_once 0
    ≡ (ok tt, 1)
unfolding tx_iterate_buckets TxBuckets.range_keys TxBuckets.match_for_range
sets_stop = refl
