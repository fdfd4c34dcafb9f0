-- ===== src/Tests/ByteSets.antt =====
-- Tests of ds/set/set.go.
use nutsdb.Prelude.{◌≡◌, refl, true, false, none, some, [], ◌∷◌, ok, if◌then◌else◌}
use nutsdb.Prelude.Maps
use nutsdb.Prelude.Maps.{bytes_key, has}
use nutsdb.Prelude.Words.{Bytes, bytes_eq}
use nutsdb.Ds.ByteSets.{
  Item, string_of, ByteSets, items, s_add, s_rem, s_has_key, s_is_member, s_pop, s_move, s_diff,
  check_key1_and_key2,
}
use nutsdb.Ds.ByteSets.Moves.{s_move-has}
use nutsdb.Ds.ByteSets.Members.{names, s_is_member-s_add-s_rem}

abbrev key_a : Bytes
key_a = b'a' ∷ []

abbrev key_b : Bytes
key_b = b'b' ∷ []

abbrev x : Bytes
x = b'x' ∷ []

abbrev y : Bytes
y = b'y' ∷ []

abbrev stored : ByteSets
stored = (key_a, (x, tt) ∷ (y, tt) ∷ []) ∷ (key_b, (y, tt) ∷ []) ∷ []

has-a : s_has_key key_a stored ≡ true
unfolding s_has_key Maps.lookup bytes_eq
has-a = refl

has-b : s_has_key key_b stored ≡ true
unfolding s_has_key Maps.lookup bytes_eq
has-b = refl

difference : s_diff key_a key_b stored ≡ (ok (x ∷ []), stored)
unfolding s_diff check_key1_and_key2 s_has_key items Maps.lookup Maps.select bytes_eq
difference = refl

popped : (s_pop 1 key_a stored).0 ≡ some y
unfolding s_pop s_has_key items Maps.lookup bytes_eq
popped = refl

s_move-has_example :
    (t : ByteSets) × (s_move key_a key_b (some x) stored ≡ (ok true, t))
    × ((j k : Bytes)
        → has k (items j t) ≡ (
            if bytes_key.same x k
            then (if bytes_key.same key_a j
                then false
                else if bytes_key.same key_b j
                then true
                else has k (items j stored))
            else has k (items j stored)))
s_move-has_example = s_move-has key_a key_b x stored has-a has-b

s_is_member-s_add-s_rem_example :
    (t : ByteSets) × (u : ByteSets) × (s_add key_a (none ∷ some y ∷ []) stored ≡ (ok tt, t))
    × (s_rem key_a (some x ∷ []) t ≡ (ok tt, u))
    × ((i : Item)
        → s_is_member key_a i t ≡ (
            if names (none ∷ some y ∷ []) (string_of i)
            then true
            else has (string_of i) (items key_a stored)))
    × ((i : Item)
        → s_is_member key_a i u
          ≡ (if names (some x ∷ []) (string_of i) then false else s_is_member key_a i t))
s_is_member-s_add-s_rem_example = s_is_member-s_add-s_rem key_a x (none ∷ some y ∷ []) [] stored
