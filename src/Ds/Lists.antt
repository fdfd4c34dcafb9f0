-- ===== src/Ds/Lists.antt =====
-- ds/list/list.go: lists of byte strings under string keys, each with an optional time to live.
-- Every method takes the clock's reading, `now`, which the source takes from `time.Now().Unix()`.
pub mod State
pub mod Ends
pub mod Range
pub mod Remove
pub mod Indexes
pub mod Local
pub mod Calls
pub mod Expiry
use nutsdb.Prelude.{
  ℕ, ◌+◌, ◌-◌, ◌%◌, ◌^◌, Bool, true, false, ◌&&◌, ◌||◌, Option, none, some, List, [], ◌∷◌, ltb,
  ◌==◌, if◌then◌else◌, length, Outcome, ok, err,
}
use nutsdb.Prelude.Exec
use nutsdb.Prelude.Exec.{Exec, ◌>>=◌, ◌>>◌, pure, fail, gets}
use nutsdb.Prelude.Words.{Bytes}
use nutsdb.Prelude.Maps
use nutsdb.Prelude.Maps.{Map, bytes_key}

pub data ListError : Type 0 where
  list_not_found index_out_of_range count_error min_int start_or_end list_is_empty : ListError

pub record ListStore : Type 0 where
  pub items : Map Bytes (List Bytes)
  pub ttl : Map Bytes ℕ
  pub time_stamp : Map Bytes ℕ

abbrev pub new : ListStore
new = record { items = []; ttl = []; time_stamp = [] }

-- A method on `*List`.
abbrev pub Method : Type 0 → Type 0
Method A = Exec ListStore ListError A

-- A missing key of a Go map reads as the zero value.
abbrev pub or_zero : Option ℕ → ℕ
or_zero none = 0
or_zero (some n) = n

-- The test of `IsExpire`: the sum is one of `uint64`.
abbrev pub is_live : ℕ → ℕ → ℕ → Bool
is_live now ttl timestamp = ltb 0 ttl && ltb now ((ttl + timestamp) % 2 ^ 64) || ttl == 0

-- The three `delete` calls at the end of `IsExpire`.
abbrev pub purge : Bytes → ListStore → ListStore
purge key l = record {
  items = Maps.delete key l.items;
  ttl = Maps.delete key l.ttl;
  time_stamp = Maps.delete key l.time_stamp;
}

unfoldable pub is_expire : ℕ → Bytes → Method Bool
is_expire now key l = elim (Maps.lookup key l.ttl) [
  | none ↦ (ok false, l)
  | some ttl ↦
      if is_live now ttl (or_zero (Maps.lookup key l.time_stamp))
      then (ok false, l)
      else (ok true, purge key l)
]

-- `if l.IsExpire(key) { return …, ErrListNotFound }`, before the rest of a method.
unfoldable pub unless_expired : {A : Type 0} → ℕ → Bytes → Method A → Method A
unless_expired now key rest = do
  gone ← is_expire now key
  if gone then fail list_not_found else rest

-- `if _, ok := l.Items[key]; !ok { return …, ErrListNotFound }`.
abbrev pub or_missing : {A : Type 0} → Option (List Bytes) → (List Bytes → Method A) → Method A
or_missing none rest = fail list_not_found
or_missing (some xs) rest = rest xs

unfoldable pub require : {A : Type 0} → Bytes → (List Bytes → Method A) → Method A
require key rest l = or_missing (Maps.lookup key l.items) rest l

-- `l.Items[key] = xs`.
abbrev pub store : Bytes → List Bytes → ListStore → ListStore
store key xs l = record l { items = Maps.insert key xs l.items }

-- `l.Items[key]`, which reads as an empty slice where the key is missing.
abbrev pub or_nil : Option (List Bytes) → List Bytes
or_nil none = []
or_nil (some xs) = xs

unfoldable pub items_at : Bytes → ListStore → List Bytes
items_at key l = or_nil (Maps.lookup key l.items)

unfoldable pub size : ℕ → Bytes → Method ℕ
size now key = unless_expired now key (require key (λ xs. pure (length xs)))

unfoldable pub is_empty : ℕ → Bytes → Method Bool
is_empty now key = do n ← size now key; if ltb 0 n then pure false else pure true

-- The remaining seconds, as a `uint32` of a `uint64` difference.
unfoldable pub get_list_ttl : ℕ → Bytes → Method ℕ
get_list_ttl now key = unless_expired now key λ l.
    let ttl = or_zero (Maps.lookup key l.ttl) in
    let timestamp = or_zero (Maps.lookup key l.time_stamp) in
    if ttl == 0 || timestamp == 0
    then (ok 0, l)
    else (ok ((timestamp + ttl + 2 ^ 64 - now) % 2 ^ 64 % 2 ^ 32), l)
