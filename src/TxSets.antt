-- ===== src/TxSets.antt =====
-- tx_set.go: the transaction's operations on sets, over the index of set.go, with `getValueByRecord`
-- and `getEntryByHint` of db.go. What `getDataFile` opens for a file ID is an argument, and so are
-- the clock, read once in a call, and the entry that an iteration of a map meets first.
pub mod News
pub mod Added
pub mod Replays
pub mod Reads
use nutsdb.Prelude.{
  ℕ, ◌%◌, Bool, true, false, not, Option, none, some, List, [], ◌∷◌, ◌++◌, ◌==◌, if◌then◌else◌,
  get_elem?, Outcome, ok, err, panic,
}
use nutsdb.Prelude.Exec
use nutsdb.Prelude.Exec.{Exec, ◌>>=◌, ◌>>◌, pure, fail, gets}
use nutsdb.Prelude.Maps
use nutsdb.Prelude.Maps.{Map, bytes_key, nat_key, values, count, select, has}
use nutsdb.Prelude.Words.{Bytes}
use nutsdb.Entries.{Entry, Hint, payload_size}
use nutsdb.DataFile.{RwManager, ReadError, read_record}
use nutsdb.Records.{Record, data_set_flag, data_delete_flag, data_structure_set}
use nutsdb.Sets.{
  SetError, Slice, bytes_of, get_fnv32, SetStore, or_empty, members, s_add, s_rem, s_has_key,
  s_card, s_diff, s_is_member, s_are_members, s_members, s_move, s_union,
}
use nutsdb.Tx.{Tx, TxError, tx_closed, put}

pub data SetTxError : Type 0 where
  bucket_not_found err_bucket nil_record open_failed : SetTxError
  bucket_and_key not_found_key_in_bucket : Bytes → Bytes → SetTxError
  tx_failed : TxError → SetTxError
  set_failed : SetError → SetTxError
  read_failed : ReadError → SetTxError

-- `Persistent`
abbrev pub persistent : ℕ
persistent = 0

-- `filter`: the hashes that `sPut` passes over.
abbrev pub Filter : Type 0
Filter = Map ℕ (Unit {0})

module _ {R : Type 0} where
  -- `for hash := range set.M[string(key)] { filter[hash] = struct{}{} }`
  unfoldable pub add_hashes : Map ℕ R → Filter → Filter
  add_hashes [] filter = filter
  add_hashes ((hash, r) ∷ m) filter = add_hashes m (Maps.insert hash tt filter)

  -- `set.M[key]` of the bucket's set, empty where the bucket or the key is missing.
  abbrev pub in_bucket : Option (SetStore R) → Bytes → Map ℕ R
  in_bucket none key = []
  in_bucket (some s) key = members key s

-- The loop of `sPut` for `DataSetFlag`.
unfoldable pub put_new : ℕ → Bytes → Bytes → Filter → List Slice → Exec Tx TxError (Unit {0})
put_new now bucket key filter [] tx = (ok tt, tx)
put_new now bucket key filter (v ∷ vs) tx = elim (Maps.lookup (get_fnv32 v) filter) [
  | some u ↦ put_new now bucket key filter vs tx
  | none ↦
      (do
        put bucket key (bytes_of v) persistent data_set_flag now data_structure_set
        put_new now bucket key (Maps.insert (get_fnv32 v) tt filter) vs)
        tx
]

-- The loop of `sPut` for any other flag.
unfoldable pub put_each : ℕ → Bytes → Bytes → ℕ → List Slice → Exec Tx TxError (Unit {0})
put_each now bucket key flag [] = pure tt
put_each now bucket key flag (v ∷ vs) = do
  put bucket key (bytes_of v) persistent flag now data_structure_set
  put_each now bucket key flag vs

module _ {R : Type 0} where
  -- `sPut`: to read the index through the field `db` panics where it is nil.
  unfoldable pub s_put :
      Map Bytes (SetStore R) → ℕ → Bytes → Bytes → ℕ → List Slice → Exec Tx TxError (Unit {0})
  s_put set_idx now bucket key flag vs tx =
      if flag == data_set_flag
      then (if tx.has_db
          then put_new now bucket key (add_hashes (in_bucket (Maps.lookup bucket set_idx) key) [])
              vs tx
          else (panic, tx))
      else put_each now bucket key flag vs tx

  unfoldable pub tx_s_add :
      Map Bytes (SetStore R) → ℕ → Bytes → Bytes → List Slice → Exec Tx TxError (Unit {0})
  tx_s_add set_idx now bucket key items = s_put set_idx now bucket key data_set_flag items

  unfoldable pub tx_s_rem :
      Map Bytes (SetStore R) → ℕ → Bytes → Bytes → List Slice → Exec Tx TxError (Unit {0})
  tx_s_rem set_idx now bucket key items = s_put set_idx now bucket key data_delete_flag items

-- A transaction and the index of the sets; a record in it may be nil.
pub record SetTx : Type 0 where
  pub tx : Tx
  pub set_idx : Map Bytes (SetStore (Option Record))

abbrev pub Method : Type 0 → Type 0
Method A = Exec SetTx SetTxError A

-- `checkTxIsClosed`
unfoldable pub check_tx_is_closed : Method (Unit {0})
check_tx_is_closed st = if st.tx.has_db then (ok tt, st) else (err (tx_failed tx_closed), st)

-- `set, ok := tx.db.SetIdx[bucket]`, and the error where it is missing.
unfoldable pub bucket_set : Bytes → SetTxError → Method (SetStore (Option Record))
bucket_set bucket missing st = elim (Maps.lookup bucket st.set_idx) [
  | none ↦ (err missing, st)
  | some s ↦ (ok s, st)
]

-- A method of the bucket's set; the index holds a pointer to the set, so what it writes stays.
abbrev pub method_result :
    {A : Type 0} → Bytes → Outcome SetError A × SetStore (Option Record) → Method A
method_result bucket (ok a, s) st = (ok a, record st { set_idx = Maps.insert bucket s st.set_idx })
method_result bucket (err x, s) st =
    (err (set_failed x), record st { set_idx = Maps.insert bucket s st.set_idx })
method_result bucket (panic, s) st =
    (panic, record st { set_idx = Maps.insert bucket s st.set_idx })

abbrev pub on_set :
    {A : Type 0} → Bytes → SetTxError → Exec (SetStore (Option Record)) SetError A → Method A
on_set bucket missing f = bucket_set bucket missing >>= λ s. method_result bucket (f s)

-- A method of the transaction.
abbrev tx_result : {A : Type 0} → Outcome TxError A × Tx → Method A
tx_result (ok a, tx) st = (ok a, record st { tx = tx })
tx_result (err x, tx) st = (err (tx_failed x), record st { tx = tx })
tx_result (panic, tx) st = (panic, record st { tx = tx })

abbrev require_key : Bool → SetTxError → Method (Unit {0})
require_key true x = pure tt
require_key false x = fail x

-- The entry of a record; an entry that is nil without an error has no value to read.
abbrev value_of : Outcome ReadError (Option Entry) → Outcome SetTxError Bytes
value_of (ok none) = panic
value_of (ok (some e)) = ok e.value
value_of (err x) = err (read_failed x)
value_of panic = panic

module _ (get_data_file : ℕ → Option RwManager) where
  -- `e, err := getEntryByHint(h)` and `e.Value`
  unfoldable pub value_by_hint : Hint → Outcome SetTxError Bytes
  value_by_hint h = elim (get_data_file h.file_id) [
    | none ↦ err open_failed
    | some rw_manager ↦ value_of (read_record rw_manager h.data_pos (payload_size h.meta))
  ]

  abbrev value_by : Option Hint → Option Entry → Outcome SetTxError Bytes
  value_by h (some e) = ok e.value
  value_by none none = panic
  value_by (some h) none = value_by_hint h

  -- `getValueByRecord`
  unfoldable pub get_value_by_record : Option Record → Outcome SetTxError Bytes
  get_value_by_record none = err nil_record
  get_value_by_record (some r) = value_by r.hint r.entry

  abbrev pub read_value : Option Record → Method Bytes
  read_value r st = (get_value_by_record r, st)

  -- The loop that reads the value of every record.
  unfoldable pub read_values : List (Option Record) → Method (List Bytes)
  read_values [] = pure []
  read_values (r ∷ rs) = do value ← read_value r; rest ← read_values rs; pure (value ∷ rest)

  unfoldable pub tx_s_members : Bytes → Bytes → Method (List Bytes)
  tx_s_members bucket key = do
    check_tx_is_closed
    items ← on_set bucket bucket_not_found (s_members key)
    read_values items
    fail bucket_not_found

  -- The body of the loop of `SPop`, for the entry that it meets first.
  abbrev pop_first : ℕ → Bytes → Bytes → Option (ℕ × Option Record) → Method Bytes
  pop_first now bucket key none = fail bucket_not_found
  pop_first now bucket key (some (hash, r)) = do
    value ← read_value r
    λ st. tx_result (s_put st.set_idx now bucket key data_delete_flag (some value ∷ []) st.tx) st
    pure value

  unfoldable pub tx_s_pop : ℕ → ℕ → Bytes → Bytes → Method Bytes
  tx_s_pop now pick bucket key = do
    check_tx_is_closed
    s ← bucket_set bucket bucket_not_found
    pop_first now bucket key (get_elem? (members key s) (pick % count (members key s)))

  unfoldable pub tx_s_diff_by_one_bucket : Bytes → Bytes → Bytes → Method (List Bytes)
  tx_s_diff_by_one_bucket bucket key1 key2 = do
    check_tx_is_closed
    items ← on_set bucket bucket_not_found (s_diff key1 key2)
    read_values items

  unfoldable pub tx_s_diff_by_two_buckets : Bytes → Bytes → Bytes → Bytes → Method (List Bytes)
  tx_s_diff_by_two_buckets bucket1 key1 bucket2 key2 = do
    check_tx_is_closed
    set1 ← bucket_set bucket1 (bucket_and_key bucket1 key1)
    set2 ← bucket_set bucket2 (bucket_and_key bucket2 key2)
    read_values (values (select (λ h. not (has h (members key2 set2))) (members key1 set1)))

  unfoldable pub tx_s_union_by_one_bucket : Bytes → Bytes → Bytes → Method (List Bytes)
  tx_s_union_by_one_bucket bucket key1 key2 = do
    check_tx_is_closed
    items ← on_set bucket err_bucket (s_union key1 key2)
    read_values items

  unfoldable pub tx_s_union_by_two_buckets : Bytes → Bytes → Bytes → Bytes → Method (List Bytes)
  tx_s_union_by_two_buckets bucket1 key1 bucket2 key2 = do
    check_tx_is_closed
    set1 ← bucket_set bucket1 (bucket_and_key bucket1 key1)
    set2 ← bucket_set bucket2 (bucket_and_key bucket2 key1)
    require_key (s_has_key key1 set1) (not_found_key_in_bucket bucket1 key1)
    require_key (s_has_key key2 set2) (not_found_key_in_bucket bucket2 key2)
    firsts ← read_values (values (members key1 set1))
    others ←
        read_values (values (select (λ h. not (has h (members key1 set1))) (members key2 set2)))
    pure (firsts ++ others)

unfoldable pub tx_s_are_members : Bytes → Bytes → List Slice → Method Bool
tx_s_are_members bucket key items = do
  check_tx_is_closed
  on_set bucket bucket_not_found (s_are_members key items)

unfoldable pub tx_s_is_member : Bytes → Bytes → Slice → Method Bool
tx_s_is_member bucket key item = do
  check_tx_is_closed
  on_set bucket bucket_not_found (s_is_member key item)

unfoldable pub tx_s_has_key : Bytes → Bytes → Method Bool
tx_s_has_key bucket key = do
  check_tx_is_closed
  s ← bucket_set bucket bucket_not_found
  pure (s_has_key key s)

unfoldable pub tx_s_card : Bytes → Bytes → Method ℕ
tx_s_card bucket key = do
  check_tx_is_closed
  s ← bucket_set bucket bucket_not_found
  pure (s_card key s)

unfoldable pub tx_s_move_by_one_bucket : Bytes → Bytes → Bytes → Slice → Method Bool
tx_s_move_by_one_bucket bucket key1 key2 item = do
  check_tx_is_closed
  on_set bucket err_bucket (s_move key1 key2 item)

-- `if r, ok := set2.M[string(key2)][hash]; !ok { err := set2.SAdd(…, []*Record{r}) }`: `r` is nil.
unfoldable pub add_nil : Bytes → Bytes → Slice → SetStore (Option Record) → Method (Unit {0})
add_nil bucket2 key2 item set2 =
    if has (get_fnv32 item) (members key2 set2)
    then pure tt
    else method_result bucket2 (s_add key2 (item ∷ []) (none ∷ []) set2)

unfoldable pub tx_s_move_by_two_buckets : Bytes → Bytes → Bytes → Bytes → Slice → Method Bool
tx_s_move_by_two_buckets bucket1 key1 bucket2 key2 item = do
  check_tx_is_closed
  set1 ← bucket_set bucket1 (bucket_and_key bucket1 key1)
  set2 ← bucket_set bucket2 (bucket_and_key bucket2 key1)
  require_key (s_has_key key1 set1) (not_found_key_in_bucket bucket1 key1)
  require_key (s_has_key key2 set2) (not_found_key_in_bucket bucket2 key2)
  add_nil bucket2 key2 item set2
  on_set bucket1 bucket_not_found (s_rem key1 (item ∷ []))
  pure true
