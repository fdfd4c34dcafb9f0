-- ===== src/Records.antt =====
-- record.go, the constants of db.go and options.go, and `getNewKey` of tx_bptree.go.
use nutsdb.Prelude.{
  ℕ, ◌+◌, ◌%◌, ◌^◌, Bool, true, false, ◌&&◌, ◌||◌, not, Option, some, ◌++◌, ltb, ◌==◌,
}
use nutsdb.Prelude.Words.{Bytes}
use nutsdb.Entries.{Entry, Hint}

pub data EntryIdxMode : Type 0 where
  hint_key_val_and_ram hint_key_and_ram hint_bpt_sparse : EntryIdxMode

abbrev pub is_sparse : EntryIdxMode → Bool
is_sparse hint_key_val_and_ram = false
is_sparse hint_key_and_ram = false
is_sparse hint_bpt_sparse = true

abbrev pub keeps_values : EntryIdxMode → Bool
keeps_values hint_key_val_and_ram = true
keeps_values hint_key_and_ram = false
keeps_values hint_bpt_sparse = false

abbrev pub un_committed : ℕ
un_committed = 0

abbrev pub committed : ℕ
committed = 1

-- `DataDeleteFlag`, `DataSetFlag` and the flags by which a bucket is deleted.
abbrev pub data_delete_flag : ℕ
data_delete_flag = 0

abbrev pub data_set_flag : ℕ
data_set_flag = 1

abbrev pub data_set_bucket_delete_flag : ℕ
data_set_bucket_delete_flag = 14

abbrev pub data_sorted_set_bucket_delete_flag : ℕ
data_sorted_set_bucket_delete_flag = 15

abbrev pub data_bp_tree_bucket_delete_flag : ℕ
data_bp_tree_bucket_delete_flag = 16

abbrev pub data_list_bucket_delete_flag : ℕ
data_list_bucket_delete_flag = 17

abbrev pub data_structure_set : ℕ
data_structure_set = 0

abbrev pub data_structure_sorted_set : ℕ
data_structure_sorted_set = 1

abbrev pub data_structure_bp_tree : ℕ
data_structure_bp_tree = 2

abbrev pub data_structure_list : ℕ
data_structure_list = 3

abbrev pub data_structure_none : ℕ
data_structure_none = 4

-- A record as the indexes hold it: its hint or its entry may be nil.
pub record Record : Type 0 where
  pub hint : Option Hint
  pub entry : Option Entry
  pub bucket : Bytes

-- A record that a scan of the data files makes, which always has its hint.
pub record ScanRecord : Type 0 where
  pub hint : Hint
  pub entry : Option Entry
  pub bucket : Bytes

abbrev pub to_record : ScanRecord → Record
to_record r = record { hint = some r.hint; entry = r.entry; bucket = r.bucket }

-- `IsExpired`, at the clock's reading `now`: the sum is one of `uint64`.
unfoldable pub is_expired : ℕ → ℕ → ℕ → Bool
is_expired now ttl timestamp = not (ltb 0 ttl && ltb now ((ttl + timestamp) % 2 ^ 64) || ttl == 0)

-- `getNewKey`
unfoldable pub get_new_key : Bytes → Bytes → Bytes
get_new_key bucket key = (bucket ++ key) ++ bucket
