-- ===== src/Ds/Lists/Indexes.antt =====
-- ds/list/list.go: `LRemByIndex` and `LRemByIndexPreCheck`.
pub mod Keep
pub mod Loop
pub mod Unnamed
use nutsdb.Prelude.{
  ℕ, zero, suc, ◌+◌, ◌-◌, Bool, true, false, Option, none, some, List, [], ◌∷◌, ◌++◌, leb, ◌==◌,
  if◌then◌else◌, length, take, drop, ◌⊎◌, inl, inr, ok, panic,
}
use nutsdb.Prelude.Int.{ℤ, pos, negsuc}
use nutsdb.Prelude.Exec.{pure}
use nutsdb.Prelude.Words.{Bytes}
use nutsdb.Ds.Lists.{Method, unless_expired, require, store}

-- `index == preIndex`
abbrev pub is_previous : ℕ → Option ℕ → Bool
is_previous index none = false
is_previous index (some p) = index == p

module _ {ℓ} {A : Type ℓ} where
  -- `append(item[dst:dst], item[from:to]...)`, which copies within the array of `item`, for
  -- `dst` at most `from` and `to` at most the length.
  unfoldable pub move : List A → ℕ → ℕ → ℕ → Option (List A)
  move item dst from to =
      if leb from to
      then some
          (take dst item ++ (take (to - from) (drop from item) ++ drop (dst + (to - from)) item))
      else none

  -- `if preIndex != -1 { …; removedNum++ }`; `none` is the -1 of `preIndex`.
  unfoldable pub close_gap : Option ℕ → ℕ → ℕ → List A → Option (ℕ × List A)
  close_gap none removed index item = some (removed, item)
  close_gap (some p) removed index item = elim (move item (p - removed) (suc p) index) [
    | none ↦ none
    | some item' ↦ some (suc removed, item')
  ]

  -- The slice as a panic leaves it, or the variables after the loop.
  unfoldable pub remove_loop : List ℤ → Option ℕ → ℕ → List A → List A ⊎ (Option ℕ × ℕ × List A)
  remove_loop [] previous removed item = inr (previous, removed, item)
  remove_loop (negsuc i ∷ indexes) previous removed item = remove_loop indexes previous removed item
  remove_loop (pos i ∷ indexes) previous removed item = elim (is_previous i previous) [
    | true ↦ remove_loop indexes previous removed item
    | false ↦ elim (leb (length item) i) [
      | true ↦ inr (previous, removed, item)
      | false ↦ elim (close_gap previous removed i item) [
        | none ↦ inl item
        | some (removed', item') ↦ remove_loop indexes (some i) removed' item'
      ]
    ]
  ]

  -- After the loop; the slice expression panics if `preIndex` is still -1.
  unfoldable pub finish : Option ℕ → ℕ → List A → Option (ℕ × List A)
  finish none removed item = none
  finish (some p) removed item = elim (move item (p - removed) (suc p) (length item)) [
    | none ↦ none
    | some item' ↦ some (suc removed, take (length item - suc removed) item')
  ]

  abbrev pub or_left : List A → Option (ℕ × List A) → List A ⊎ (ℕ × List A)
  or_left item none = inl item
  or_left item (some y) = inr y

  unfoldable pub remove_indexes : List ℤ → List A → List A ⊎ (ℕ × List A)
  remove_indexes indexes item = elim (remove_loop indexes none 0 item) [
    | inl item' ↦ inl item'
    | inr (previous, removed, item') ↦ or_left item' (finish previous removed item')
  ]

-- `len(indexes) == 0 || len(item) == 0`
abbrev pub nothing_to_do {ℓ κ} : {A : Type ℓ} {B : Type κ} → List A → List B → Bool
nothing_to_do [] ys = true
nothing_to_do (x ∷ xs) [] = true
nothing_to_do (x ∷ xs) (y ∷ ys) = false

-- The elements are moved within the array of `l.Items[key]`, also where the next move panics.
abbrev pub store_removed : Bytes → List Bytes ⊎ (ℕ × List Bytes) → Method ℕ
store_removed key (inl item) l = (panic, store key item l)
store_removed key (inr (removed, item)) l = (ok removed, store key item l)

unfoldable pub l_rem_by_index : ℕ → Bytes → List ℤ → Method ℕ
l_rem_by_index now key indexes = unless_expired now key (
    require key λ xs.
      if nothing_to_do indexes xs then pure 0 else store_removed key (remove_indexes indexes xs))

unfoldable pub count_indexes : List ℤ → Option ℕ → ℕ → ℕ → ℕ
count_indexes [] previous removed size = removed
count_indexes (negsuc i ∷ indexes) previous removed size =
    count_indexes indexes previous removed size
count_indexes (pos i ∷ indexes) previous removed size = elim (is_previous i previous) [
  | true ↦ count_indexes indexes previous removed size
  | false ↦ elim (leb size i) [
    | true ↦ removed
    | false ↦ count_indexes indexes (some i) (suc removed) size
  ]
]

unfoldable pub l_rem_by_index_pre_check : ℕ → Bytes → List ℤ → Method ℕ
l_rem_by_index_pre_check now key indexes = unless_expired now key (
    require key λ xs.
      if nothing_to_do indexes xs then pure 0 else pure (count_indexes indexes none 0 (length xs)))
