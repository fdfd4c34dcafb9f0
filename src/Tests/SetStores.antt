-- ===== src/Tests/SetStores.antt =====
-- Tests of set.go, with numbers as records.
use nutsdb.Prelude.{
  ℕ, ◌+◌, ◌≡◌, refl, true, false, none, some, [], ◌∷◌, arith, ok, if◌then◌else◌, ◌==◌,
}
use nutsdb.Prelude.Crc.{fnv32a}
use nutsdb.Prelude.Maps
use nutsdb.Prelude.Maps.{Map, bytes_key, nat_key, has, values, IsDistinct, select}
use nutsdb.Prelude.Words.{Bytes, bytes_eq}
use nutsdb.Sets.{
  get_fnv32, SetStore, members, s_add, s_rem, s_has_key, s_pop, s_card, both_keys, s_is_member,
  s_are_members, s_move, s_union, Slice,
}
use nutsdb.Sets.Members.{hashes, s_are_members-s_add, s_is_member-s_rem, s_pop-member}
use nutsdb.Sets.Moves.{moved, s_move-moved}
use nutsdb.Sets.Algebra.{s_union-values}

abbrev key_a : Bytes
key_a = b'a' ∷ []

abbrev key_b : Bytes
key_b = b'b' ∷ []

abbrev x : Slice
x = some (b'x' ∷ [])

abbrev hash_x : ℕ
hash_x = get_fnv32 x

-- Under `a` the members of hash 3 and of `x`'s hash, under `b` the member of hash 3.
abbrev stored : SetStore ℕ
stored = (key_a, (3, 30) ∷ (hash_x, 40) ∷ []) ∷ (key_b, (3, 50) ∷ []) ∷ []

members-a : members key_a stored ≡ (3, 30) ∷ (hash_x, 40) ∷ []
unfolding members Maps.lookup bytes_eq
members-a = refl

a-IsDistinct : IsDistinct (members key_a stored)
unfolding members Maps.lookup bytes_eq get_fnv32 fnv32a
a-IsDistinct = (refl, (refl, tt))

b-IsDistinct : IsDistinct (members key_b stored)
unfolding members Maps.lookup bytes_eq get_fnv32 fnv32a
b-IsDistinct = (refl, tt)

has-a : s_has_key key_a stored ≡ true
unfolding s_has_key Maps.lookup bytes_eq
has-a = refl

both_stored : both_keys key_a key_b stored ≡ true
unfolding s_has_key Maps.lookup bytes_eq
both_stored = refl

card-a : s_card key_a stored ≡ 2
unfolding s_card s_has_key members Maps.lookup bytes_eq
card-a = refl

found_x : Maps.lookup hash_x (members key_a stored) ≡ some 40
unfolding members Maps.lookup bytes_eq get_fnv32 fnv32a
found_x = refl

s_are_members-s_add_example :
    (t : SetStore ℕ) × (s_add key_b (x ∷ []) (60 ∷ []) stored ≡ (ok tt, t))
    × (s_are_members key_b (x ∷ []) t ≡ (ok true, t))
    × ((w : Slice)
        → s_is_member key_b w t ≡ (
          ok (
              if hashes (x ∷ []) (get_fnv32 w)
              then true
              else has (get_fnv32 w) (members key_b stored)),
          t,
        ))
s_are_members-s_add_example = s_are_members-s_add key_b (x ∷ []) (60 ∷ []) stored refl

s_is_member-s_rem_example :
    (t : SetStore ℕ) × (s_rem key_a (x ∷ []) stored ≡ (ok tt, t))
    × ((w : Slice)
        → s_is_member key_a w t ≡ (
          ok (
              if hashes (x ∷ []) (get_fnv32 w)
              then false
              else has (get_fnv32 w) (members key_a stored)),
          t,
        ))
s_is_member-s_rem_example = s_is_member-s_rem key_a (b'x' ∷ []) [] stored has-a

s_pop-member_example :
    (hash : ℕ) × (r : ℕ) × (t : SetStore ℕ) × (s_pop 5 key_a stored ≡ (some r, t))
    × (Maps.lookup hash (members key_a stored) ≡ some r)
    × ((h : ℕ)
        → Maps.lookup h (members key_a t)
          ≡ (if hash == h then none else Maps.lookup h (members key_a stored)))
    × (s_card key_a t + 1 ≡ s_card key_a stored)
s_pop-member_example = s_pop-member 5 key_a stored a-IsDistinct (omega (arith, card-a))

s_move-moved_example :
    (t : SetStore ℕ) × (s_move key_a key_b x stored ≡ (ok true, t))
    × ((j : Bytes) (h : ℕ) → Maps.lookup h (members j t) ≡ moved key_a key_b hash_x 40 stored j h)
s_move-moved_example = s_move-moved key_a key_b (b'x' ∷ []) 40 stored both_stored found_x

s_union-values_example :
    (d : Map ℕ ℕ) × (s_union key_a key_b stored ≡ (ok (values d), stored))
    × IsDistinct d
    × ((h : ℕ)
        → Maps.lookup h d ≡ (
            if has h (members key_a stored)
            then Maps.lookup h (members key_a stored)
            else Maps.lookup h (members key_b stored)))
s_union-values_example = s_union-values key_a key_b stored both_stored a-IsDistinct b-IsDistinct
