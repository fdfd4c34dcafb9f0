-- ===== src/Ds/ByteSets/Members.antt =====
-- What `SAdd` and `SRem` of ds/set/set.go do to the members of a set.
use nutsdb.Prelude.{◌≡◌, refl, Bool, true, false, some, List, [], ◌∷◌, arith, if◌then◌else◌, ok}
use nutsdb.Prelude.Maps
use nutsdb.Prelude.Maps.{bytes_key, has, lookup-insert, lookup-insert_self, lookup-delete}
use nutsdb.Prelude.Words.{Bytes}
use nutsdb.Ds.ByteSets.{
  Item, string_of, ByteSet, ByteSets, items, s_add, add_items, s_rem, delete_items, s_is_member,
}

-- Whether one of the items is the string.
unfoldable pub names : List Item → Bytes → Bool
names [] k = false
names (i ∷ is) k = let rest = names is k in if bytes_key.same (string_of i) k then true else rest

has-add_items :
    (is : List Item) (k : Bytes) (m : ByteSet)
    → has k (add_items is m) ≡ (if names is k then true else has k m)
unfolding add_items names
has-add_items [] k m = refl
has-add_items (i ∷ is) k m =
    ground (
      arith,
      has-add_items is k (Maps.insert (string_of i) tt m),
      lookup-insert (string_of i) k tt m,
    )

has-delete_items :
    (is : List Item) (k : Bytes) (m : ByteSet)
    → has k (delete_items is m) ≡ (if names is k then false else has k m)
unfolding delete_items names
has-delete_items [] k m = refl
has-delete_items (i ∷ is) k m =
    ground
      (arith, has-delete_items is k (Maps.delete (string_of i) m), lookup-delete (string_of i) k m)

s_is_member-insert :
    (key : Bytes) (m : ByteSet) (i : Item) (s : ByteSets)
    → s_is_member key i (Maps.insert key m s) ≡ has (string_of i) m
unfolding s_is_member
s_is_member-insert key m i s = rw (lookup-insert_self key m s, s_is_member) refl

-- In the package ds/set, `SAdd` of items succeeds, and `SIsMember` then finds an item exactly if it
-- is one of them or was in the set; `SRem` after it of items of which the first is not nil
-- succeeds, and `SIsMember` then finds an item exactly if it did before and the item is none of
-- them.
pub s_is_member-s_add-s_rem :
    (key v : Bytes) (added : List Item) (removed : List Item) (s : ByteSets)
    → (t : ByteSets) × (u : ByteSets) × (s_add key added s ≡ (ok tt, t))
      × (s_rem key (some v ∷ removed) t ≡ (ok tt, u))
      × ((i : Item)
          → s_is_member key i t
            ≡ (if names added (string_of i) then true else has (string_of i) (items key s)))
      × ((i : Item)
          → s_is_member key i u
            ≡ (if names (some v ∷ removed) (string_of i) then false else s_is_member key i t))
unfolding s_add s_rem
s_is_member-s_add-s_rem key v added removed s =
    let m = add_items added (items key s) in
    let t = Maps.insert key m s in
    let n = delete_items (some v ∷ removed) m in
    (
      t,
      Maps.insert key n t,
      refl,
      rw (lookup-insert_self key m s, s_rem) refl,
      λ i. rw (s_is_member-insert key m i s) (has-add_items added (string_of i) (items key s)),
      λ i.
          rw (s_is_member-insert key n i t, s_is_member-insert key m i s)
            (has-delete_items (some v ∷ removed) (string_of i) m),
    )
