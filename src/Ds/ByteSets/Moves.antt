-- ===== src/Ds/ByteSets/Moves.antt =====
-- What `SMove` of ds/set/set.go does to every set.
use nutsdb.Prelude.{
  ◌≡◌, refl, true, false, some, [], ◌∷◌, arith, if◌then◌else◌, inl, inr, Option-cases, ok,
}
use nutsdb.Prelude.Maps
use nutsdb.Prelude.Maps.{bytes_key, has, lookup-insert, lookup-insert_self, lookup-delete}
use nutsdb.Prelude.Words.{Bytes}
use nutsdb.Ds.ByteSets.{
  ByteSet, ByteSets, items, s_add, add_items, s_rem, delete_items, s_has_key, move_item, s_move,
}

items-insert :
    (key j : Bytes) (m : ByteSet) (s : ByteSets)
    → items j (Maps.insert key m s) ≡ (if bytes_key.same key j then m else items j s)
unfolding items
items-insert key j m s = ground (arith, lookup-insert key j m s)

-- The sets once the item stands in the second one.
abbrev with_item : Bytes → Bytes → ByteSets → ByteSets
with_item key2 v s =
    if has v (items key2 s) then s else Maps.insert key2 (Maps.insert v tt (items key2 s)) s

has-with_item :
    (key2 v j k : Bytes) (s : ByteSets)
    → has k (items j (with_item key2 v s)) ≡ (
        if bytes_key.same key2 j
        then (if bytes_key.same v k then true else has k (items j s))
        else has k (items j s))
has-with_item key2 v j k s = ground (
  arith,
  items-insert key2 j (Maps.insert v tt (items key2 s)) s,
  lookup-insert v k tt (items key2 s),
  bytes_key.same_iff key2 j,
  bytes_key.same_iff v k,
)

s_has_key-with_item :
    (key1 key2 v : Bytes) (s : ByteSets)
    → s_has_key key1 s ≡ true
    → s_has_key key1 (with_item key2 v s) ≡ true
unfolding s_has_key
s_has_key-with_item key1 key2 v s h =
    ground (arith, lookup-insert key2 key1 (Maps.insert v tt (items key2 s)) s)

s_rem-deletes :
    (key v : Bytes) (s : ByteSets)
    → s_has_key key s ≡ true
    → (s_rem key (some v ∷ []) s).1 ≡ Maps.insert key (Maps.delete v (items key s)) s
unfolding s_rem delete_items items
s_rem-deletes key v s h = elim (Option-cases (Maps.lookup key s)) [
  | inl missing ↦ absurd (unfold s_has_key in ground (arith, missing))
  | inr (m, found) ↦ rw (found, s_rem) refl
]

move_item-stores :
    (key1 key2 v : Bytes) (s : ByteSets)
    → s_has_key key1 s ≡ true
    → move_item key1 key2 (some v) s
      ≡ Maps.insert key1 (Maps.delete v (items key1 (with_item key2 v s))) (with_item key2 v s)
unfolding move_item s_add add_items
move_item-stores key1 key2 v s h =
    s_rem-deletes key1 v (with_item key2 v s) (s_has_key-with_item key1 key2 v s h)

-- `SMove` in the package ds/set of an item that is not nil succeeds where both sets exist, also if
-- the first set does not have the item. Then the first set does not have it, the second has it
-- unless it is the first, and all else is as it was.
pub s_move-has :
    (key1 key2 v : Bytes) (s : ByteSets)
    → s_has_key key1 s ≡ true
    → s_has_key key2 s ≡ true
    → (t : ByteSets) × (s_move key1 key2 (some v) s ≡ (ok true, t))
      × ((j k : Bytes)
          → has k (items j t) ≡ (
              if bytes_key.same v k
              then (if bytes_key.same key1 j
                  then false
                  else if bytes_key.same key2 j
                  then true
                  else has k (items j s))
              else has k (items j s)))
unfolding s_move
s_move-has key1 key2 v s h1 h2 =
    let s' = with_item key2 v s in
    (
      move_item key1 key2 (some v) s,
      rw (h1, h2) refl,
      λ j k. rw (move_item-stores key1 key2 v s h1) (
          ground (
            arith,
            items-insert key1 j (Maps.delete v (items key1 s')) s',
            lookup-delete v k (items key1 s'),
            has-with_item key2 v j k s,
            has-with_item key2 v key1 k s,
            bytes_key.same_iff key1 j,
            bytes_key.same_iff v k,
          )),
    )
