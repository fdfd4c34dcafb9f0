-- ===== src/Prelude/Maps.antt =====
-- Go's maps as association lists, for any type of keys with an equality test.
use Prim.Native.Nat.{ℕ, suc}
use mathlib.Core.Path.{◌≡◌, refl, ap}
use mathlib.Core.Logic.{◌↔◌, inl, inr}
use mathlib.Core.Bool.{Bool, true, false}
use mathlib.Core.Option.{Option, none, some}
use mathlib.Core.List.{List, [], ◌∷◌, ◌++◌}
use native.Mathlib.Omega.{arith}
use nutsdb.Prelude.Tests.{◌==◌ as nat_beq, ==_iff, if◌then◌else◌, Bool-cases}
use nutsdb.Prelude.Words.{Bytes, bytes_eq, bytes_eq_iff}

-- A type of keys: the test by which a Go map tells them apart.
pub record Key {ℓ} (K : Type ℓ) : Type ℓ where
  pub same : K → K → Bool
  pub same_iff : (j k : K) → (same j k ≡ true) ↔ (j ≡ k)

instance abbrev pub bytes_key : Key Bytes
bytes_key = record { same = bytes_eq; same_iff = bytes_eq_iff }

instance abbrev pub nat_key : Key ℕ
nat_key = record { same = nat_beq; same_iff = ==_iff }

infix 50 ◌==◌
abbrev pub ◌==◌ {ℓ} : {K : Type ℓ} ⦃key : Key K⦄ → K → K → Bool
◌==◌ ⦃key⦄ j k = key.same j k

abbrev pub Map {ℓ κ} : Type ℓ → Type κ → Type (ℓ ⊔ κ)
Map K V = List (K × V)

module _ {ℓ κ} {K : Type ℓ} {V : Type κ} ⦃key : Key K⦄ where
  -- `v, ok := m[k]`
  unfoldable pub lookup : K → Map K V → Option V
  lookup k [] = none
  lookup k ((other, v) ∷ m) = if other == k then some v else lookup k m

  -- `m[k] = v`
  unfoldable pub insert : K → V → Map K V → Map K V
  insert k v [] = (k, v) ∷ []
  insert k v ((other, old) ∷ m) = if other == k then (k, v) ∷ m else (other, old) ∷ insert k v m

  -- `delete(m, k)`
  unfoldable pub delete : K → Map K V → Map K V
  delete k [] = []
  delete k ((other, v) ∷ m) =
      let rest = delete k m in if other == k then rest else (other, v) ∷ rest

  -- No key occurs twice.
  abbrev pub IsDistinct : Map K V → Type κ
  IsDistinct [] = Unit
  IsDistinct ((k, v) ∷ m) = (lookup k m ≡ none) × IsDistinct m

  pub lookup-insert :
      (k other : K) (v : V) (m : Map K V)
      → lookup other (insert k v m) ≡ (if k == other then some v else lookup other m)
  unfolding lookup insert
  lookup-insert k other v [] = refl
  lookup-insert k other v ((first, old) ∷ m) = ground (
    arith,
    key.same_iff k other,
    key.same_iff first k,
    key.same_iff first other,
    lookup-insert k other v m,
  )

  pub lookup-delete :
      (k other : K) (m : Map K V)
      → lookup other (delete k m) ≡ (if k == other then none else lookup other m)
  unfolding lookup delete
  lookup-delete k other [] = ground arith
  lookup-delete k other ((first, old) ∷ m) = ground (
    arith,
    key.same_iff k other,
    key.same_iff first k,
    key.same_iff first other,
    lookup-delete k other m,
  )

  pub lookup-insert_self : (k : K) (v : V) (m : Map K V) → lookup k (insert k v m) ≡ some v
  lookup-insert_self k v m = ground (arith, lookup-insert k k v m, key.same_iff k k)

  pub lookup-delete_self : (k : K) (m : Map K V) → lookup k (delete k m) ≡ none
  lookup-delete_self k m = ground (arith, lookup-delete k k m, key.same_iff k k)

  pub insert-IsDistinct : (k : K) (v : V) (m : Map K V) → IsDistinct m → IsDistinct (insert k v m)
  unfolding lookup insert
  insert-IsDistinct k v [] d = (refl, tt)
  insert-IsDistinct k v ((j, w) ∷ m) d = elim (Bool-cases (j == k)) [
    | inl same ↦ rw same (rw (← (key.same_iff j k).0 same) d.0, d.1)
    | inr other ↦ rw other (
      ground (arith, lookup-insert k j v m, key.same_iff j k, key.same_iff k j, d.0),
      insert-IsDistinct k v m d.1,
    )
  ]

  pub delete-IsDistinct : (k : K) (m : Map K V) → IsDistinct m → IsDistinct (delete k m)
  unfolding lookup delete
  delete-IsDistinct k [] d = tt
  delete-IsDistinct k ((j, w) ∷ m) d = elim (Bool-cases (j == k)) [
    | inl same ↦ rw same (delete-IsDistinct k m d.1)
    | inr other ↦ rw other (ground (arith, lookup-delete k j m, d.0), delete-IsDistinct k m d.1)
  ]

  -- Writing the value that a key has changes nothing.
  pub insert-lookup : (k : K) (v : V) (m : Map K V) → lookup k m ≡ some v → insert k v m ≡ m
  unfolding lookup insert
  insert-lookup k v [] h = cc
  insert-lookup k v ((j, w) ∷ m) h = ground (arith, key.same_iff j k, insert-lookup k v m)

  -- The later of two writes of a key counts.
  pub insert-insert : (k : K) (v w : V) (m : Map K V) → insert k v (insert k w m) ≡ insert k v m
  unfolding insert
  insert-insert k v w [] = ground (arith, key.same_iff k k)
  insert-insert k v w ((j, u) ∷ m) =
      ground (arith, key.same_iff j k, key.same_iff k k, insert-insert k v w m)

module _ {ℓ κ} {K : Type ℓ} {V : Type κ} where
  -- The values in the order of the entries.
  abbrev pub values : Map K V → List V
  values [] = []
  values ((k, v) ∷ m) = v ∷ values m

  -- `len(m)`
  abbrev pub count : Map K V → ℕ
  count [] = 0
  count ((k, v) ∷ m) = suc (count m)

  -- The entries whose key passes a test, as a `range` loop collects them.
  unfoldable pub select : (K → Bool) → Map K V → Map K V
  select p [] = []
  select p ((k, v) ∷ m) = let rest = select p m in if p k then (k, v) ∷ rest else rest

module _ {ℓ κ} {K : Type ℓ} {V : Type κ} ⦃key : Key K⦄ where
  -- `_, ok := m[k]`
  abbrev pub has : K → Map K V → Bool
  has k m = elim (lookup k m) [ none ↦ false | some v ↦ true ]

  pub lookup-select :
      (p : K → Bool) (k : K) (m : Map K V)
      → lookup k (select p m) ≡ (if p k then lookup k m else none)
  unfolding lookup select
  lookup-select p k [] = ground arith
  lookup-select p k ((j, v) ∷ m) = elim (Bool-cases (j == k)) [
    | inl same ↦
        let jk = (key.same_iff j k).0 same in
        rw jk (ground (arith, lookup-select p k m, key.same_iff k k))
    | inr other ↦ ground (arith, lookup-select p k m)
  ]

  pub select-IsDistinct : (p : K → Bool) (m : Map K V) → IsDistinct m → IsDistinct (select p m)
  unfolding select
  select-IsDistinct p [] d = tt
  select-IsDistinct p ((j, v) ∷ m) d = elim (Bool-cases (p j)) [
    | inl taken ↦ rw taken (ground (arith, lookup-select p j m, d.0), select-IsDistinct p m d.1)
    | inr left ↦ rw left (select-IsDistinct p m d.1)
  ]

  pub lookup-append :
      (k : K) (m n : Map K V) → lookup k (m ++ n) ≡ (if has k m then lookup k m else lookup k n)
  unfolding lookup
  lookup-append k [] n = refl
  lookup-append k ((j, v) ∷ m) n = ground (arith, lookup-append k m n)

  -- Two maps with no key in common.
  pub append-IsDistinct :
      (m n : Map K V)
      → IsDistinct m
      → IsDistinct n
      → ((k : K) → has k m ≡ true → lookup k n ≡ none)
      → IsDistinct (m ++ n)
  unfolding lookup
  append-IsDistinct [] n dm dn apart = dn
  append-IsDistinct ((j, v) ∷ m) n dm dn apart = (
    ground (arith, lookup-append j m n, dm.0, apart j (ground (arith, key.same_iff j j))),
    append-IsDistinct m n dm.1 dn (λ k h. apart k (ground arith)),
  )

  pub values-append : (m n : Map K V) → values (m ++ n) ≡ values m ++ values n
  values-append [] n = refl
  values-append ((k, v) ∷ m) n = ap (◌∷◌ v) (values-append m n)
