-- ===== src/Ds/ByteSets.antt =====
-- ds/set/set.go: sets of byte strings under string keys.
pub mod Moves
pub mod Members
use nutsdb.Prelude.{
  ℕ, ◌%◌, Bool, true, false, not, Option, none, some, List, [], ◌∷◌, ◌++◌, if◌then◌else◌, get_elem?,
  ok, err,
}
use nutsdb.Prelude.Exec.{Exec, ◌>>=◌, ◌>>◌, pure}
use nutsdb.Prelude.Maps
use nutsdb.Prelude.Maps.{Map, bytes_key, count, select, has}
use nutsdb.Prelude.Words.{Bytes}

pub data ByteSetError : Type 0 where
  key_not_found key_not_exist item_empty set1_not_exists set2_not_exists item_not_exists
        set_not_exists key1_not_exists key2_not_exists :
      ByteSetError

-- A `[]byte` that may be nil; `string(nil)` is empty.
abbrev pub Item : Type 0
Item = Option Bytes

abbrev pub string_of : Item → Bytes
string_of none = []
string_of (some bs) = bs

-- `map[string]struct{}`, and `Set.M`.
abbrev pub ByteSet : Type 0
ByteSet = Map Bytes (Unit {0})

abbrev pub ByteSets : Type 0
ByteSets = Map Bytes ByteSet

abbrev pub Method : Type 0 → Type 0
Method A = Exec ByteSets ByteSetError A

abbrev pub or_empty : Option ByteSet → ByteSet
or_empty none = []
or_empty (some m) = m

-- `s.M[key]`, which reads as an empty map where the key is missing.
unfoldable pub items : Bytes → ByteSets → ByteSet
items key s = or_empty (Maps.lookup key s)

-- The keys of a map, in the order of an iteration.
abbrev pub strings : ByteSet → List Bytes
strings [] = []
strings ((k, v) ∷ m) = k ∷ strings m

unfoldable pub add_items : List Item → ByteSet → ByteSet
add_items [] m = m
add_items (i ∷ is) m = add_items is (Maps.insert (string_of i) tt m)

unfoldable pub s_add : Bytes → List Item → Method (Unit {0})
s_add key is s = (ok tt, Maps.insert key (add_items is (items key s)) s)

-- `len(items) == 0 || items[0] == nil`
abbrev pub is_item_empty : List Item → Bool
is_item_empty [] = true
is_item_empty (none ∷ is) = true
is_item_empty (some i ∷ is) = false

unfoldable pub delete_items : List Item → ByteSet → ByteSet
delete_items [] m = m
delete_items (i ∷ is) m = delete_items is (Maps.delete (string_of i) m)

unfoldable pub s_rem : Bytes → List Item → Method (Unit {0})
s_rem key is s = elim (Maps.lookup key s) [
  | none ↦ (err key_not_found, s)
  | some m ↦
      if is_item_empty is
      then (err item_empty, s)
      else (ok tt, Maps.insert key (delete_items is m) s)
]

unfoldable pub s_has_key : Bytes → ByteSets → Bool
s_has_key key s = has key s

abbrev taken : Option (Bytes × Unit {0}) → Bytes → ByteSets → Item × ByteSets
taken none key s = (none, s)
taken (some (i, u)) key s = (some i, Maps.insert key (Maps.delete i (items key s)) s)

-- The iteration of `SPop` meets any entry first, by `pick`.
unfoldable pub s_pop : ℕ → Bytes → ByteSets → Item × ByteSets
unfolding items
s_pop pick key s =
    if s_has_key key s
    then taken (get_elem? (items key s) (pick % count (items key s))) key s
    else (none, s)

unfoldable pub s_card : Bytes → ByteSets → ℕ
s_card key s = if s_has_key key s then count (items key s) else 0

-- `checkKey1AndKey2`
unfoldable pub check_key1_and_key2 : Bytes → Bytes → Method (Unit {0})
check_key1_and_key2 key1 key2 s =
    if s_has_key key1 s
    then (if s_has_key key2 s then (ok tt, s) else (err set2_not_exists, s))
    else (err set1_not_exists, s)

unfoldable pub s_diff : Bytes → Bytes → Method (List Bytes)
s_diff key1 key2 = do
  check_key1_and_key2 key1 key2
  λ s. (ok (strings (select (λ i. not (has i (items key2 s))) (items key1 s))), s)

unfoldable pub s_inter : Bytes → Bytes → Method (List Bytes)
s_inter key1 key2 = do
  check_key1_and_key2 key1 key2
  λ s. (ok (strings (select (λ i. has i (items key2 s)) (items key1 s))), s)

unfoldable pub s_is_member : Bytes → Item → ByteSets → Bool
s_is_member key i s = elim (Maps.lookup key s) [ none ↦ false | some m ↦ has (string_of i) m ]

unfoldable pub all_items : List Item → ByteSet → Bool
all_items [] m = true
all_items (i ∷ is) m = let rest = all_items is m in if has (string_of i) m then rest else false

unfoldable pub s_are_members : Bytes → List Item → Method Bool
s_are_members key is s = elim (Maps.lookup key s) [
  | none ↦ (err key_not_exist, s)
  | some m ↦ if all_items is m then (ok true, s) else (err item_not_exists, s)
]

unfoldable pub s_members : Bytes → Method (List Bytes)
s_members key s = elim (Maps.lookup key s) [
  | none ↦ (err set_not_exists, s)
  | some m ↦ (ok (strings m), s)
]

-- The two calls at the end of `SMove`, whose errors are dropped.
unfoldable pub move_item : Bytes → Bytes → Item → ByteSets → ByteSets
move_item key1 key2 i s =
    let added = if has (string_of i) (items key2 s) then s else (s_add key2 (i ∷ []) s).1 in
    (s_rem key1 (i ∷ []) added).1

unfoldable pub s_move : Bytes → Bytes → Item → Method Bool
s_move key1 key2 i s =
    if s_has_key key1 s
    then (if s_has_key key2 s then (ok true, move_item key1 key2 i s) else (err key2_not_exists, s))
    else (err key1_not_exists, s)

unfoldable pub s_union : Bytes → Bytes → Method (List Bytes)
s_union key1 key2 = do
  check_key1_and_key2 key1 key2
  λ s. (
    ok (
        strings (items key1 s)
        ++ strings (select (λ i. not (has i (items key1 s))) (items key2 s))),
    s,
  )
