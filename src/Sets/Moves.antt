-- ===== src/Sets/Moves.antt =====
-- What `SMove` of set.go does to every set.
use nutsdb.Prelude.{
  ℕ, ◌≡◌, refl, ◌∙◌, true, Option, none, some, [], ◌∷◌, arith, ◌==◌, if◌then◌else◌, inl, inr,
  Bool-cases, Option-cases, ok,
}
use nutsdb.Prelude.Maps
use nutsdb.Prelude.Maps.{
  Map, bytes_key, nat_key, has, lookup-insert, lookup-insert_self, lookup-delete,
}
use nutsdb.Prelude.Words.{Bytes}
use nutsdb.Sets.{
  get_fnv32, SetStore, members, add_all, s_add, add_missing, delete_all, s_rem, s_has_key,
  both_keys, move_member, s_move,
}
use nutsdb.Sets.Members.{members-insert}

module _ {R : Type 0} where
  -- The store once the member stands in the second set.
  abbrev with_member : Bytes → ℕ → R → SetStore R → SetStore R
  with_member key2 hash member s =
      if has hash (members key2 s)
      then s
      else Maps.insert key2 (Maps.insert hash member (members key2 s)) s

  -- What a set holds under a hash once a member has moved from `key1` to `key2`.
  abbrev pub moved : Bytes → Bytes → ℕ → R → SetStore R → Bytes → ℕ → Option R
  moved key1 key2 hash member s j h =
      if bytes_key.same key1 j
      then (if hash == h then none else Maps.lookup h (members j s))
      else if bytes_key.same key2 j
      then (if hash == h
          then (if has hash (members key2 s)
              then Maps.lookup hash (members key2 s)
              else some member)
          else Maps.lookup h (members j s))
      else Maps.lookup h (members j s)

  lookup-with_member :
      (key2 j : Bytes) (hash h : ℕ) (member : R) (s : SetStore R)
      → Maps.lookup h (members j (with_member key2 hash member s)) ≡ (
          if bytes_key.same key2 j
          then (if hash == h
              then (if has hash (members key2 s)
                  then Maps.lookup hash (members key2 s)
                  else some member)
              else Maps.lookup h (members j s))
          else Maps.lookup h (members j s))
  lookup-with_member key2 j hash h member s = ground (
    arith,
    members-insert key2 j (Maps.insert hash member (members key2 s)) s,
    lookup-insert hash h member (members key2 s),
    bytes_key.same_iff key2 j,
  )

  s_has_key-with_member :
      (key1 key2 : Bytes) (hash : ℕ) (member : R) (s : SetStore R)
      → s_has_key key1 s ≡ true
      → s_has_key key1 (with_member key2 hash member s) ≡ true
  unfolding s_has_key
  s_has_key-with_member key1 key2 hash member s h =
      ground (arith, lookup-insert key2 key1 (Maps.insert hash member (members key2 s)) s)

  add_missing-with_member :
      (key2 v : Bytes) (member : R) (s : SetStore R)
      → add_missing key2 (some v) member s ≡ (ok tt, with_member key2 (get_fnv32 (some v)) member s)
  unfolding add_missing s_add add_all
  add_missing-with_member key2 v member s =
      elim (Bool-cases (has (get_fnv32 (some v)) (members key2 s))) [
        | inl there ↦ rw there refl
        | inr away ↦ rw away refl
      ]

  s_rem-deletes :
      (key v : Bytes) (s : SetStore R)
      → s_has_key key s ≡ true
      → s_rem key (some v ∷ []) s
        ≡ (ok tt, Maps.insert key (Maps.delete (get_fnv32 (some v)) (members key s)) s)
  unfolding s_rem delete_all members
  s_rem-deletes key v s h = elim (Option-cases (Maps.lookup key s)) [
    | inl missing ↦ absurd (unfold s_has_key in ground (arith, missing))
    | inr (set, found) ↦ rw (found, s_rem) refl
  ]

  move_member-stores :
      (key1 key2 v : Bytes) (member : R) (s : SetStore R)
      → s_has_key key1 s ≡ true
      → move_member key1 key2 (some v) member s ≡ (
        ok true,
        Maps.insert key1
            (Maps.delete
              (get_fnv32 (some v))
              (members key1 (with_member key2 (get_fnv32 (some v)) member s)))
            (with_member key2 (get_fnv32 (some v)) member s),
      )
  unfolding move_member
  move_member-stores key1 key2 v member s h = rw (add_missing-with_member key2 v member s) (
      rw
        (s_rem-deletes key1 v (with_member key2 (get_fnv32 (some v)) member s)
          (s_has_key-with_member key1 key2 (get_fnv32 (some v)) member s h))
        refl)

  s_move-found :
      (key1 key2 v : Bytes) (member : R) (s : SetStore R)
      → both_keys key1 key2 s ≡ true
      → Maps.lookup (get_fnv32 (some v)) (members key1 s) ≡ some member
      → s_move key1 key2 (some v) s ≡ move_member key1 key2 (some v) member s
  unfolding s_move
  s_move-found key1 key2 v member s both found = rw both (rw (found, s_move) refl)

  -- `SMove` of a value that is not nil, where both sets exist and the first has the value's hash,
  -- succeeds, and leaves every set as `moved` says: with two different keys the second set has the
  -- member, its own if it had one, and the first has lost it; with one key twice the member is
  -- gone; all else stays.
  pub s_move-moved :
      (key1 key2 v : Bytes) (member : R) (s : SetStore R)
      → both_keys key1 key2 s ≡ true
      → Maps.lookup (get_fnv32 (some v)) (members key1 s) ≡ some member
      → (t : SetStore R) × (s_move key1 key2 (some v) s ≡ (ok true, t))
        × ((j : Bytes) (h : ℕ)
            → Maps.lookup h (members j t) ≡ moved key1 key2 (get_fnv32 (some v)) member s j h)
  s_move-moved key1 key2 v member s both found =
      let hash = get_fnv32 (some v) in
      let s' = with_member key2 hash member s in
      (
        Maps.insert key1 (Maps.delete hash (members key1 s')) s',
        s_move-found key1 key2 v member s both found
            ∙ move_member-stores key1 key2 v member s (ground (arith, both)),
        λ j h. ground (
          arith,
          members-insert key1 j (Maps.delete hash (members key1 s')) s',
          lookup-delete hash h (members key1 s'),
          lookup-with_member key2 j hash h member s,
          lookup-with_member key2 key1 hash h member s,
          bytes_key.same_iff key1 j,
        ),
      )
