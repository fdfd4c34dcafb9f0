-- ===== src/Sets.antt =====
-- set.go: sets of records under string keys; a member is stored under the FNV-1a hash of its value.
-- Records are of any type: the set never looks into one.
pub mod Members
pub mod Algebra
pub mod Moves
use nutsdb.Prelude.{
  ℕ, ◌+◌, ◌%◌, Bool, true, false, not, Option, none, some, List, [], ◌∷◌, ◌++◌, ◌==◌, if◌then◌else◌,
  get_elem?, ok, err, panic,
}
use nutsdb.Prelude.Crc.{fnv32a}
use nutsdb.Prelude.Exec
use nutsdb.Prelude.Exec.{Exec, ◌>>=◌, ◌>>◌, pure, fail, modify}
use nutsdb.Prelude.Maps
use nutsdb.Prelude.Maps.{Map, bytes_key, nat_key, values, count, select, has}
use nutsdb.Prelude.Words.{Bytes}

pub data SetError : Type 0 where
  set_not_exist set_member_not_exist member_empty key_not_found : SetError

-- A `[]byte` that may be nil.
abbrev pub Slice : Type 0
Slice = Option Bytes

abbrev pub bytes_of : Slice → Bytes
bytes_of none = []
bytes_of (some bs) = bs

-- `getFnv32`: writes to the hash never fail, and `Reset` leaves nothing behind.
unfoldable pub get_fnv32 : Slice → ℕ
get_fnv32 value = fnv32a (bytes_of value)

-- `Set.M`
abbrev pub SetStore : Type 0 → Type 0
SetStore R = Map Bytes (Map ℕ R)

abbrev pub Method : Type 0 → Type 0 → Type 0
Method R A = Exec (SetStore R) SetError A

-- `len(values) == 0 || values[0] == nil`
abbrev pub is_member_empty : List Slice → Bool
is_member_empty [] = true
is_member_empty (none ∷ vs) = true
is_member_empty (some v ∷ vs) = false

module _ {R : Type 0} where
  -- `s.M[key]`, which reads as an empty map where the key is missing.
  abbrev pub or_empty : Option (Map ℕ R) → Map ℕ R
  or_empty none = []
  or_empty (some m) = m

  unfoldable pub members : Bytes → SetStore R → Map ℕ R
  members key s = or_empty (Maps.lookup key s)

  -- `for i, value := range values { set[hash] = records[i] }`; too few records panic, and what is
  -- written before stays.
  unfoldable pub add_all : List Slice → List R → Exec (Map ℕ R) SetError (Unit {0})
  add_all [] records m = (ok tt, m)
  add_all (v ∷ vs) [] m = (panic, m)
  add_all (v ∷ vs) (r ∷ records) m = add_all vs records (Maps.insert (get_fnv32 v) r m)

  -- A missing set is made first.
  unfoldable pub s_add : Bytes → List Slice → List R → Method R Unit
  s_add key vs records s =
      let (added, set) = add_all vs records (members key s) in (added, Maps.insert key set s)

  unfoldable pub delete_all : List Slice → Map ℕ R → Map ℕ R
  delete_all [] m = m
  delete_all (v ∷ vs) m = delete_all vs (Maps.delete (get_fnv32 v) m)

  unfoldable pub s_rem : Bytes → List Slice → Method R Unit
  s_rem key vs s = elim (Maps.lookup key s) [
    | none ↦ (err key_not_found, s)
    | some set ↦
        if is_member_empty vs
        then (err member_empty, s)
        else (ok tt, Maps.insert key (delete_all vs set) s)
  ]

  unfoldable pub s_has_key : Bytes → SetStore R → Bool
  s_has_key key s = has key s

  -- The loop of `SPop` takes the entry that the runtime's iteration meets first: any, by `pick`.
  abbrev pop_entry : Option (ℕ × R) → Bytes → SetStore R → Option R × SetStore R
  pop_entry none key s = (none, s)
  pop_entry (some (hash, r)) key s = (some r, Maps.insert key (Maps.delete hash (members key s)) s)

  unfoldable pub s_pop : ℕ → Bytes → SetStore R → Option R × SetStore R
  unfolding members
  s_pop pick key s =
      if s_has_key key s
      then pop_entry (get_elem? (members key s) (pick % count (members key s))) key s
      else (none, s)

  unfoldable pub s_card : Bytes → SetStore R → ℕ
  s_card key s = if s_has_key key s then count (members key s) else 0

  -- `!s.SHasKey(key1) || !s.SHasKey(key2)`
  abbrev pub both_keys : Bytes → Bytes → SetStore R → Bool
  both_keys key1 key2 s = if s_has_key key1 s then s_has_key key2 s else false

  unfoldable pub s_diff : Bytes → Bytes → Method R (List R)
  s_diff key1 key2 s =
      if both_keys key1 key2 s
      then (ok (values (select (λ h. not (has h (members key2 s))) (members key1 s))), s)
      else (err set_not_exist, s)

  unfoldable pub s_inter : Bytes → Bytes → Method R (List R)
  s_inter key1 key2 s =
      if both_keys key1 key2 s
      then (ok (values (select (λ h. has h (members key2 s)) (members key1 s))), s)
      else (err set_not_exist, s)

  unfoldable pub s_is_member : Bytes → Slice → Method R Bool
  s_is_member key value s = elim (Maps.lookup key s) [
    | none ↦ (err set_not_exist, s)
    | some set ↦ (ok (has (get_fnv32 value) set), s)
  ]

  unfoldable pub all_members : List Slice → Map ℕ R → Bool
  all_members [] set = true
  all_members (v ∷ vs) set =
      let rest = all_members vs set in if has (get_fnv32 v) set then rest else false

  unfoldable pub s_are_members : Bytes → List Slice → Method R Bool
  s_are_members key vs s = elim (Maps.lookup key s) [
    | none ↦ (err set_not_exist, s)
    | some set ↦ (ok (all_members vs set), s)
  ]

  unfoldable pub s_members : Bytes → Method R (List R)
  s_members key s = elim (Maps.lookup key s) [
    | none ↦ (err set_not_exist, s)
    | some set ↦ (ok (values set), s)
  ]

  -- `if _, ok = set2[hash]; !ok { err = s.SAdd(key2, …) }`
  unfoldable pub add_missing : Bytes → Slice → R → Method R Unit
  add_missing key2 value member s =
      if has (get_fnv32 value) (members key2 s)
      then (ok tt, s)
      else s_add key2 (value ∷ []) (member ∷ []) s

  -- The second half of `SMove`, for the member found in the first set.
  unfoldable pub move_member : Bytes → Bytes → Slice → R → Method R Bool
  move_member key1 key2 value member = do
    add_missing key2 value member
    s_rem key1 (value ∷ [])
    pure true

  unfoldable pub s_move : Bytes → Bytes → Slice → Method R Bool
  s_move key1 key2 value s =
      if both_keys key1 key2 s
      then elim (Maps.lookup (get_fnv32 value) (members key1 s)) [
        | none ↦ (err set_member_not_exist, s)
        | some member ↦ move_member key1 key2 value member s
      ]
      else (err set_not_exist, s)

  unfoldable pub s_union : Bytes → Bytes → Method R (List R)
  s_union key1 key2 s =
      if both_keys key1 key2 s
      then (do
        records ← s_members key1
        pure (records ++ values (select (λ h. not (has h (members key1 s))) (members key2 s))))
          s
      else (err set_not_exist, s)
