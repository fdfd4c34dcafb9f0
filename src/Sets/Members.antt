-- ===== src/Sets/Members.antt =====
-- What `SAdd`, `SRem`, `SPop` and `SMove` of set.go do to the members of a set.
use nutsdb.Prelude.{
  ℕ, zero, suc, ◌+◌, ◌%◌, ◌<◌, ◌≡◌, refl, ap, Bool, true, false, none, some, List, [], ◌∷◌, arith,
  ◌==◌, if◌then◌else◌, inl, inr, Bool-cases, Option-cases, length, get_elem?, ok,
}
use nutsdb.Prelude.Maps
use nutsdb.Prelude.Maps.{
  Map, bytes_key, nat_key, count, has, IsDistinct, lookup-insert, lookup-insert_self, lookup-delete,
  lookup-delete_self, insert-IsDistinct, delete-IsDistinct,
}
use nutsdb.Prelude.Words.{Bytes}
use nutsdb.Sets.{
  Slice, get_fnv32, SetStore, members, add_all, s_add, delete_all, s_rem, s_has_key, s_pop, s_card,
  s_is_member, all_members, s_are_members,
}

-- Whether one of the values has the hash.
unfoldable pub hashes : List Slice → ℕ → Bool
hashes [] h = false
hashes (v ∷ vs) h = let rest = hashes vs h in if get_fnv32 v == h then true else rest

module _ {R : Type 0} where
  pub members-insert :
      (key j : Bytes) (m : Map ℕ R) (s : SetStore R)
      → members j (Maps.insert key m s) ≡ (if bytes_key.same key j then m else members j s)
  unfolding members
  members-insert key j m s = ground (arith, lookup-insert key j m s)

  pub members-insert_self :
      (key : Bytes) (m : Map ℕ R) (s : SetStore R) → members key (Maps.insert key m s) ≡ m
  unfolding members
  members-insert_self key m s = ground (arith, lookup-insert_self key m s)

  pub lookup-delete_all :
      (vs : List Slice) (h : ℕ) (m : Map ℕ R)
      → Maps.lookup h (delete_all vs m) ≡ (if hashes vs h then none else Maps.lookup h m)
  unfolding delete_all hashes
  lookup-delete_all [] h m = refl
  lookup-delete_all (v ∷ vs) h m =
      ground (
        arith,
        lookup-delete_all vs h (Maps.delete (get_fnv32 v) m),
        lookup-delete (get_fnv32 v) h m,
      )

  has-delete_all :
      (vs : List Slice) (h : ℕ) (m : Map ℕ R)
      → has h (delete_all vs m) ≡ (if hashes vs h then false else has h m)
  has-delete_all vs h m = ground (arith, lookup-delete_all vs h m)

  -- After `SAdd` the set holds the values, and what it held before.
  add_all-has :
      (vs : List Slice) (records : List R) (m : Map ℕ R)
      → length records ≡ length vs
      → (m' : Map ℕ R) × (add_all vs records m ≡ (ok tt, m'))
        × ((h : ℕ) → has h m' ≡ (if hashes vs h then true else has h m))
  unfolding add_all hashes
  add_all-has [] records m e = (m, refl, λ h. refl)
  add_all-has (v ∷ vs) [] m e = absurd (omega arith)
  add_all-has (v ∷ vs) (r ∷ records) m e =
      let (m', added, holds) =
        add_all-has vs records (Maps.insert (get_fnv32 v) r m) (omega arith) in
      (m', added, λ h. ground (arith, holds h, lookup-insert (get_fnv32 v) h r m))

  all_members-hashes :
      (vs ws : List Slice) (m : Map ℕ R)
      → ((h : ℕ) → hashes ws h ≡ true → has h m ≡ true)
      → ((h : ℕ) → hashes vs h ≡ true → hashes ws h ≡ true)
      → all_members vs m ≡ true
  unfolding all_members hashes
  all_members-hashes [] ws m h i = refl
  all_members-hashes (v ∷ vs) ws m h i =
      let found : has (get_fnv32 v) m ≡ true = h (get_fnv32 v) (i (get_fnv32 v) (ground arith)) in
      rw found (all_members-hashes vs ws m h (λ j p. i j (ground arith)))

  -- After `SAdd` of values with as many records, `SAreMembers` finds all of them, and `SIsMember`
  -- finds a value exactly if one of them, or a member from before, has its hash.
  pub s_are_members-s_add :
      (key : Bytes) (vs : List Slice) (records : List R) (s : SetStore R)
      → length records ≡ length vs
      → (t : SetStore R) × (s_add key vs records s ≡ (ok tt, t))
        × (s_are_members key vs t ≡ (ok true, t))
        × ((w : Slice)
            → s_is_member key w t ≡ (
              ok (if hashes vs (get_fnv32 w) then true else has (get_fnv32 w) (members key s)),
              t,
            ))
  unfolding s_add s_are_members s_is_member
  s_are_members-s_add key vs records s e =
      let (m', added, holds) = add_all-has vs records (members key s) e in
      (
        Maps.insert key m' s,
        rw (added, s_add) refl,
        rw (lookup-insert_self key m' s, s_are_members)
            (ap (λ b. (ok b, Maps.insert key m' s))
              (all_members-hashes vs vs m' (λ h p. ground (arith, holds h)) (λ h p. p))),
        λ w.
            rw (lookup-insert_self key m' s, s_is_member)
              (ap (λ b. (ok b, Maps.insert key m' s)) (holds (get_fnv32 w))),
      )

  -- `SRem` from a set that exists of values of which the first is not nil succeeds, and then
  -- `SIsMember` finds a value exactly if it did before and none of them has its hash.
  pub s_is_member-s_rem :
      (key : Bytes) (v : Bytes) (vs : List Slice) (s : SetStore R)
      → s_has_key key s ≡ true
      → (t : SetStore R) × (s_rem key (some v ∷ vs) s ≡ (ok tt, t))
        × ((w : Slice)
            → s_is_member key w t ≡ (
              ok (
                  if hashes (some v ∷ vs) (get_fnv32 w)
                  then false
                  else has (get_fnv32 w) (members key s)),
              t,
            ))
  unfolding s_rem s_is_member members
  s_is_member-s_rem key v vs s present = elim (Option-cases (Maps.lookup key s)) [
    | inl missing ↦ absurd (unfold s_has_key in ground (arith, missing))
    | inr (set, found) ↦
        let set' = delete_all (some v ∷ vs) set in
        (
          Maps.insert key set' s,
          rw (found, s_rem) refl,
          λ w.
              rw (lookup-insert_self key set' s, s_is_member)
                (rw (found, members)
                  (ap (λ b. (ok b, Maps.insert key set' s))
                    (has-delete_all (some v ∷ vs) (get_fnv32 w) set))),
        )
  ]

  get_elem?-in_range : (i : ℕ) (m : Map ℕ R) → i < count m → (x : ℕ × R) × (get_elem? m i ≡ some x)
  get_elem?-in_range i [] h = absurd (omega arith)
  get_elem?-in_range zero ((k, r) ∷ m) h = ((k, r), refl)
  get_elem?-in_range (suc i) ((k, r) ∷ m) h = get_elem?-in_range i m (omega arith)

  lookup-get_elem? :
      (i : ℕ) (m : Map ℕ R) (hash : ℕ) (r : R)
      → IsDistinct m
      → get_elem? m i ≡ some (hash, r)
      → Maps.lookup hash m ≡ some r
  unfolding Maps.lookup
  lookup-get_elem? i [] hash r d h = cc
  lookup-get_elem? zero ((k, u) ∷ m) hash r d h = ground arith
  lookup-get_elem? (suc i) ((k, u) ∷ m) hash r d h =
      ground (arith, d.0, lookup-get_elem? i m hash r d.1 h)

  count-delete_absent :
      (hash : ℕ) (m : Map ℕ R) → Maps.lookup hash m ≡ none → Maps.delete hash m ≡ m
  unfolding Maps.lookup Maps.delete
  count-delete_absent hash [] h = refl
  count-delete_absent hash ((k, u) ∷ m) h = ground (arith, count-delete_absent hash m)

  count-delete :
      (hash : ℕ) (r : R) (m : Map ℕ R)
      → IsDistinct m
      → Maps.lookup hash m ≡ some r
      → count (Maps.delete hash m) + 1 ≡ count m
  unfolding Maps.lookup Maps.delete
  count-delete hash r [] d h = cc
  count-delete hash r ((k, u) ∷ m) d h =
      ground (arith, count-delete hash r m d.1, count-delete_absent hash m, d.0)

  pop_choice :
      (pick : ℕ) (m : Map ℕ R)
      → 0 < count m
      → IsDistinct m
      → (hash : ℕ) × (r : R) × (get_elem? m (pick % count m) ≡ some (hash, r))
        × (Maps.lookup hash m ≡ some r)
  pop_choice pick m h d =
      let (x, e) = get_elem?-in_range (pick % count m) m (omega arith) in
      (x.0, x.1, e, lookup-get_elem? (pick % count m) m x.0 x.1 d e)

  s_card-count :
      (key : Bytes) (s : SetStore R)
      → s_has_key key s ≡ true
      → 0 < s_card key s
      → 0 < count (members key s)
  unfolding s_card
  s_card-count key s present h = ground (arith, present)

  s_pop-chosen :
      (pick : ℕ) (key : Bytes) (s : SetStore R) (hash : ℕ) (r : R)
      → s_has_key key s ≡ true
      → get_elem? (members key s) (pick % count (members key s)) ≡ some (hash, r)
      → s_pop pick key s ≡ (some r, Maps.insert key (Maps.delete hash (members key s)) s)
  unfolding s_pop
  s_pop-chosen pick key s hash r present chosen = rw (present, s_pop) (rw chosen refl)

  s_card-delete :
      (key : Bytes) (hash : ℕ) (r : R) (s : SetStore R)
      → s_has_key key s ≡ true
      → IsDistinct (members key s)
      → Maps.lookup hash (members key s) ≡ some r
      → s_card key (Maps.insert key (Maps.delete hash (members key s)) s) + 1 ≡ s_card key s
  unfolding s_card s_has_key
  s_card-delete key hash r s present d found = ground (
    arith,
    present,
    lookup-insert_self key (Maps.delete hash (members key s)) s,
    members-insert_self key (Maps.delete hash (members key s)) s,
    count-delete hash r (members key s) d found,
  )

  -- Where the set holds each hash once, and whatever entry the iteration meets first, `SPop` from
  -- the set, if it is not empty, returns one member and takes out that one and no other, and
  -- `SCard` is one less.
  pub s_pop-member :
      (pick : ℕ) (key : Bytes) (s : SetStore R)
      → IsDistinct (members key s)
      → 0 < s_card key s
      → (hash : ℕ) × (r : R) × (t : SetStore R) × (s_pop pick key s ≡ (some r, t))
        × (Maps.lookup hash (members key s) ≡ some r)
        × ((h : ℕ)
            → Maps.lookup h (members key t)
              ≡ (if hash == h then none else Maps.lookup h (members key s)))
        × (s_card key t + 1 ≡ s_card key s)
  s_pop-member pick key s d h = elim (Bool-cases (s_has_key key s)) [
    | inl present ↦
        let (hash, r, chosen, found) =
          pop_choice pick (members key s) (s_card-count key s present h) d in
        let t = Maps.insert key (Maps.delete hash (members key s)) s in
        let held : members key t ≡ Maps.delete hash (members key s) =
          members-insert_self key (Maps.delete hash (members key s)) s in
        (
          hash,
          r,
          t,
          s_pop-chosen pick key s hash r present chosen,
          found,
          λ h. rw held (lookup-delete hash h (members key s)),
          s_card-delete key hash r s present d found,
        )
    | inr missing ↦ absurd (unfold s_card in ground (arith, missing))
  ]
