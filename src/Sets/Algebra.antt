-- ===== src/Sets/Algebra.antt =====
-- The records that `SDiff`, `SInter` and `SUnion` of set.go return, as maps from hashes.
use nutsdb.Prelude.{
  ℕ, ◌≡◌, refl, ap, sym, true, not, none, ◌++◌, arith, if◌then◌else◌, inl, inr, Option-cases, ok,
}
use nutsdb.Prelude.Maps
use nutsdb.Prelude.Maps.{
  Map, bytes_key, nat_key, values, select, has, IsDistinct, lookup-select, select-IsDistinct,
  lookup-append, append-IsDistinct, values-append,
}
use nutsdb.Prelude.Words.{Bytes}
use nutsdb.Sets.{SetStore, members, both_keys, s_has_key, s_members, s_diff, s_inter, s_union}

module _ {R : Type 0} where
  -- `SDiff` of two sets that exist, of which the first holds each hash once, returns the records of
  -- the first set whose hash the second has not, each once.
  pub s_diff-values :
      (key1 key2 : Bytes) (s : SetStore R)
      → both_keys key1 key2 s ≡ true
      → IsDistinct (members key1 s)
      → (d : Map ℕ R) × (s_diff key1 key2 s ≡ (ok (values d), s))
        × IsDistinct d
        × ((h : ℕ)
            → Maps.lookup h d
              ≡ (if has h (members key2 s) then none else Maps.lookup h (members key1 s)))
  unfolding s_diff
  s_diff-values key1 key2 s both d1 =
      let p = λ (h : ℕ). not (has h (members key2 s)) in
      (
        select p (members key1 s),
        rw both refl,
        select-IsDistinct p (members key1 s) d1,
        λ h. ground (arith, lookup-select p h (members key1 s)),
      )

  -- `SInter` of two sets that exist, of which the first holds each hash once, returns the records
  -- of the first set whose hash the second has too, each once.
  pub s_inter-values :
      (key1 key2 : Bytes) (s : SetStore R)
      → both_keys key1 key2 s ≡ true
      → IsDistinct (members key1 s)
      → (d : Map ℕ R) × (s_inter key1 key2 s ≡ (ok (values d), s))
        × IsDistinct d
        × ((h : ℕ)
            → Maps.lookup h d
              ≡ (if has h (members key2 s) then Maps.lookup h (members key1 s) else none))
  unfolding s_inter
  s_inter-values key1 key2 s both d1 =
      let p = λ (h : ℕ). has h (members key2 s) in
      (
        select p (members key1 s),
        rw both refl,
        select-IsDistinct p (members key1 s) d1,
        λ h. ground (arith, lookup-select p h (members key1 s)),
      )

  s_members-values :
      (key : Bytes) (s : SetStore R)
      → s_has_key key s ≡ true
      → s_members key s ≡ (ok (values (members key s)), s)
  unfolding s_members members
  s_members-values key s h = elim (Option-cases (Maps.lookup key s)) [
    | inl missing ↦ absurd (unfold s_has_key in ground (arith, missing))
    | inr (set, found) ↦ rw (found, s_members) refl
  ]

  -- `SUnion` of two sets that exist and hold each hash once returns the records of the first set,
  -- and those of the second under other hashes, each once.
  pub s_union-values :
      (key1 key2 : Bytes) (s : SetStore R)
      → both_keys key1 key2 s ≡ true
      → IsDistinct (members key1 s)
      → IsDistinct (members key2 s)
      → (d : Map ℕ R) × (s_union key1 key2 s ≡ (ok (values d), s))
        × IsDistinct d
        × ((h : ℕ)
            → Maps.lookup h d ≡ (
                if has h (members key1 s)
                then Maps.lookup h (members key1 s)
                else Maps.lookup h (members key2 s)))
  unfolding s_union
  s_union-values key1 key2 s both d1 d2 =
      let p = λ (h : ℕ). not (has h (members key1 s)) in
      let rest = select p (members key2 s) in
      (
        members key1 s ++ rest,
        rw both (
            rw (s_members-values key1 s (ground (arith, both)))
              (ap (λ v. (ok v, s)) (sym (values-append (members key1 s) rest)))),
        append-IsDistinct (members key1 s) rest d1 (select-IsDistinct p (members key2 s) d2)
            (λ h taken. ground (arith, lookup-select p h (members key2 s))),
        λ h.
            ground
              (arith, lookup-append h (members key1 s) rest, lookup-select p h (members key2 s)),
      )
