-- ===== src/Tests/TxSets.antt =====
-- Transactions of tx_set.go on a set that has one member.
use nutsdb.Prelude.{ℕ, ◌≡◌, refl, true, false, none, some, List, [], ◌∷◌, ok, if◌then◌else◌, length}
use nutsdb.Prelude.Crc.{fnv32a}
use nutsdb.Prelude.Maps
use nutsdb.Prelude.Maps.{Map, bytes_key, nat_key, has}
use nutsdb.Prelude.Words.{Bytes, bytes_eq}
use nutsdb.Entries.{Entry, valid}
use nutsdb.Records.{Record, hint_key_val_and_ram}
use nutsdb.Recovery.Logs.{records}
use nutsdb.Sets.{Slice, get_fnv32, SetStore, members}
use nutsdb.Sets.Members.{hashes}
use nutsdb.Indexing.{Db, build_records}
use nutsdb.Committing.{key_only, seal_last}
use nutsdb.Sets
use nutsdb.Tx
use nutsdb.Tx.{Tx, running}
use nutsdb.TxSets
use nutsdb.TxSets.{SetTx, tx_s_add, tx_s_members, tx_s_has_key, tx_s_card}
use nutsdb.TxSets.News.{set_entries, AreValid, AreApart, with_writes}
use nutsdb.TxSets.Added.{set_of, IsAdded}
use nutsdb.TxSets.Replays.{index_entries, tx_s_add_refines}
use nutsdb.TxSets.Reads.{is_ok, tx_s_members_fails}
use nutsdb.Tests.Recoveries.{counters, options}

abbrev a_key : Bytes
a_key = b'a' ∷ []

abbrev a_bucket : Bytes
a_bucket = b's' ∷ []

abbrev x : Slice
x = some (b'x' ∷ [])

abbrev y : Slice
y = some (b'y' ∷ [])

abbrev a_tx : Tx
a_tx = record { id = 7; writable = true; has_db = true; status = running; pending_writes = [] }

abbrev held : Record
held = record { hint = none; entry = none; bucket = a_bucket }

-- The set has `x` under the key.
abbrev set_idx : Map Bytes (SetStore Record)
set_idx = (a_bucket, (a_key, (fnv32a (b'x' ∷ []), held) ∷ []) ∷ []) ∷ []

abbrev items : List Slice
items = x ∷ y ∷ y ∷ []

items-AreValid : AreValid a_tx 9 a_bucket a_key items
unfolding valid
items-AreValid = (refl, (refl, (refl, tt)))

-- One of the three writes is made.
one_write : length (tx_s_add set_idx 9 a_bucket a_key items a_tx).1.pending_writes ≡ 1
unfolding tx_s_add TxSets.s_put TxSets.put_new TxSets.add_hashes Tx.put valid members Maps.lookup
    Maps.insert bytes_eq get_fnv32 fnv32a
one_write = refl

abbrev db : Db ℕ ℕ ℕ
db = record {
  set_idx = set_idx;
  sorted_set_idx = [];
  bp_tree_idx = [];
  list_idx = [];
  active_bp_tree_idx = 0;
  active_committed_tx_ids_idx = 0;
  key_entry_pos_map = [];
  committed_tx_ids = [];
  key_count = 0;
}

abbrev place : Entry → ℕ × ℕ
place e = (0, 94)

abbrev ids : Map ℕ (Unit {0})
ids = (7, tt) ∷ []

seven_committed : has 7 ids ≡ true
unfolding Maps.lookup
seven_committed = refl

tx_s_add_refines_example :
    (new : List Slice) × (after : Db ℕ ℕ ℕ) × (tx_s_add set_idx 9 a_bucket a_key items a_tx
      ≡ (ok tt, with_writes a_tx (set_entries a_tx 9 a_bucket a_key new)))
    × AreApart new
    × ((h : ℕ)
        → hashes new h
          ≡ (if has h (members a_key (set_of a_bucket set_idx)) then false else hashes items h))
    × IsAdded a_bucket a_key items set_idx
        (index_entries counters 10 true key_only place
          (seal_last (set_entries a_tx 9 a_bucket a_key new))
          db).set_idx
    × (build_records counters 10 hint_key_val_and_ram ids
          (records options 0 94 (seal_last (set_entries a_tx 9 a_bucket a_key new)))
          db
        ≡ (ok tt, after))
    × IsAdded a_bucket a_key items set_idx after.set_idx
tx_s_add_refines_example =
    tx_s_add_refines counters db a_tx 9 10 a_bucket a_key items true key_only place options ids 0 94
      refl refl items-AreValid refl seven_committed

-- A record that holds its value stands in the set.
abbrev readable : SetTx
readable = record {
  tx = a_tx;
  set_idx =
      (
        a_bucket,
        (
          a_key,
          (
            3,
            some (record held {
              entry = some (record {
                key = a_key;
                value = b'x' ∷ [];
                bucket = a_bucket;
                meta = Tx.new_meta a_tx a_bucket a_key (b'x' ∷ []) 0 1 9 0;
              });
            }),
          )
              ∷ [],
        )
            ∷ [],
      )
      ∷ [];
}

has_a_key : tx_s_has_key a_bucket a_key readable ≡ (ok true, readable)
unfolding tx_s_has_key TxSets.check_tx_is_closed TxSets.bucket_set Maps.lookup bytes_eq
    Sets.s_has_key
has_a_key = refl

tx_s_members_fails_example :
    is_ok (tx_s_members (λ file_id. none) a_bucket a_key readable).0 ≡ false
tx_s_members_fails_example = tx_s_members_fails (λ file_id. none) a_bucket a_key readable
