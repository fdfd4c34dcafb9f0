-- ===== src/Ds/Lists/Ends.antt =====
-- ds/list/list.go: pushes, pops and peeks at the two ends.
pub mod PushPop
use nutsdb.Prelude.{
  ℕ, zero, suc, ◌+◌, ◌-◌, Option, none, some, List, [], ◌∷◌, ◌++◌, ltb, if◌then◌else◌, length,
  get_elem?, take, drop, replicate, ok, panic,
}
use nutsdb.Prelude.Exec.{◌>>=◌, ◌>>◌, pure, fail, modify, gets, or_default}
use nutsdb.Prelude.Arrays.{write_all, write_down}
use nutsdb.Prelude.Words.{Bytes}
use nutsdb.Prelude.Maps
use nutsdb.Ds.Lists.{
  ListStore, list_not_found, list_is_empty, Method, unless_expired, require, store, items_at, size,
}

-- An expression that may panic.
abbrev pub or_panic : {A : Type 0} → Option A → Method A
or_panic none l = (panic, l)
or_panic (some a) l = (ok a, l)

-- `l.Items[key][size-1:][0]`
unfoldable pub r_peek : ℕ → Bytes → Method (Bytes × ℕ)
r_peek now key = unless_expired now key (
    require key λ xs. do
      n ← or_default 0 (size now key)
      if ltb 0 n
          then (do item ← or_panic (get_elem? xs (n - 1)); pure (item, n))
          else fail list_not_found)

unfoldable pub r_pop : ℕ → Bytes → Method Bytes
r_pop now key = do
  (item, n) ← r_peek now key
  modify (λ l. store key (take (n - 1) (items_at key l)) l)
  pure item

unfoldable pub r_push : ℕ → Bytes → List Bytes → Method ℕ
r_push now key values =
    unless_expired now key do modify (λ l. store key (items_at key l ++ values) l); size now key

-- The new slice of `LPush`: the old elements behind a gap, then the gap filled backwards.
unfoldable pub push_front : List Bytes → List Bytes → Option (List Bytes)
push_front values xs =
    elim (write_all xs (length values) (replicate (length xs + length values) [])) [
      | none ↦ none
      | some a ↦ write_down values (length values) a
    ]

unfoldable pub l_push : ℕ → Bytes → List Bytes → Method ℕ
l_push now key values = unless_expired now key do
  n ← or_default 0 (size now key)
  xs ← gets (items_at key)
  a ← or_panic (push_front values (take n xs))
  modify (store key a)
  pure (n + length values)

unfoldable pub l_peek : ℕ → Bytes → Method Bytes
l_peek now key = unless_expired now key (
    require key λ xs. do
      n ← or_default 0 (size now key)
      if ltb 0 n then or_panic (get_elem? xs 0) else fail list_not_found)

-- `if l.Items[key] != nil { … }`: a slice that `LPeek` found not empty is not nil.
unfoldable pub unless_nil : List Bytes → Method (Unit {0}) → Method (Unit {0})
unless_nil [] rest = fail list_is_empty
unless_nil (x ∷ xs) rest = rest

unfoldable pub l_pop : ℕ → Bytes → Method Bytes
unfolding unless_nil
l_pop now key = unless_expired now key do
  item ← l_peek now key
  xs ← gets (items_at key)
  unless_nil xs (modify (store key (drop 1 xs)))
  pure item
