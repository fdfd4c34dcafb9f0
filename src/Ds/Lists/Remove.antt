-- ===== src/Ds/Lists/Remove.antt =====
-- ds/list/list.go: `LRem` and `LRemNum`, which remove elements equal to a value.
pub mod Loops
pub mod Reverse
pub mod Counts
use nutsdb.Prelude.{
  ℕ, zero, suc, ◌+◌, ◌-◌, ◌/◌, ◌^◌, Bool, ◌&&◌, Option, none, some, List, [], ◌∷◌, reverse, ltb,
  ◌==◌, if◌then◌else◌, length, get_elem?, set, replicate,
}
use nutsdb.Prelude.Int.{ℤ, pos, negsuc}
use nutsdb.Prelude.Exec.{◌>>=◌, ◌>>◌, pure, fail, modify, or_default}
use nutsdb.Prelude.Arrays.{write}
use nutsdb.Prelude.Words.{Bytes, bytes_eq}
use nutsdb.Ds.Lists.{Method, count_error, min_int, unless_expired, require, store, size}
use nutsdb.Ds.Lists.Ends.{or_panic}

-- The loop of `LRemNum`, which stops when a positive `count` is reached.
unfoldable pub count_loop : ℕ → Bytes → ℕ → List Bytes → ℕ
count_loop count value removed [] = removed
count_loop count value removed (v ∷ vs) =
    let rest = count_loop count value (if bytes_eq v value then suc removed else removed) vs in
    if ltb 0 count && removed == count then removed else rest

-- The checks of `LRemNum` on a count, and its absolute value. The least `int` has no negation.
unfoldable pub checked_count : ℤ → ℕ → Method ℕ
checked_count (pos n) size = if ltb size n then fail count_error else pure n
checked_count (negsuc n) size = if n == 2 ^ 63 - 1 then fail min_int else pure (suc n)

unfoldable pub l_rem_num : ℕ → Bytes → ℤ → Bytes → Method ℕ
l_rem_num now key count value = unless_expired now key (
    require key λ xs. do
      n ← or_default 0 (size now key)
      limit ← checked_count count n
      pure (count_loop limit value 0 xs))

-- The loops of `LRem`: an element is dropped or written at `idx`.
unfoldable pub keep_loop : ℕ → Bytes → ℕ → ℕ → List Bytes → List Bytes → Option (ℕ × List Bytes)
keep_loop count value removed idx [] kept = some (removed, kept)
keep_loop count value removed idx (v ∷ vs) kept = elim (ltb removed count && bytes_eq v value) [
  | Bool.true ↦ keep_loop count value (suc removed) idx vs kept
  | Bool.false ↦ elim (write kept idx v) [
    | none ↦ none
    | some kept' ↦ keep_loop count value removed (suc idx) vs kept'
  ]
]

-- `a[i], a[j] = a[j], a[i]`
unfoldable pub swap {ℓ} : {A : Type ℓ} → ℕ → ℕ → List A → Option (List A)
swap i j a = elim (get_elem? a i) [
  | none ↦ none
  | some x ↦ elim (get_elem? a j) [ none ↦ none | some y ↦ some (set (set a i y) j x) ]
]

-- `for ; i < n/2; i++ { a[i], a[n-i-1] = a[n-i-1], a[i] }`, over the rounds left.
unfoldable pub swap_loop {ℓ} : {A : Type ℓ} → ℕ → ℕ → ℕ → List A → Option (List A)
swap_loop zero i n a = some a
swap_loop (suc rounds) i n a = elim (swap i (n - i - 1) a) [
  | none ↦ none
  | some b ↦ swap_loop rounds (suc i) n b
]

unfoldable pub reverse_in_place {ℓ} : {A : Type ℓ} → List A → Option (List A)
reverse_in_place a = swap_loop (length a / 2) 0 (length a) a

-- The new slice of `LRem` and the number removed, for `need` elements to remove.
unfoldable pub remove_from : ℤ → ℕ → Bytes → List Bytes → Option (ℕ × List Bytes)
remove_from (pos n) need value xs =
    keep_loop (if n == 0 then need else n) value 0 0 xs (replicate (length xs - need) [])
remove_from (negsuc n) need value xs =
    elim (keep_loop (suc n) value 0 0 (reverse xs) (replicate (length xs - need) [])) [
      | none ↦ none
      | some (removed, kept) ↦ elim (reverse_in_place kept) [
        | none ↦ none
        | some kept' ↦ some (removed, kept')
      ]
    ]

unfoldable pub l_rem : ℕ → Bytes → ℤ → Bytes → Method ℕ
l_rem now key count value = unless_expired now key (
    require key λ xs. do
      need ← l_rem_num now key count value
      if need == 0 then pure 0 else do
        (removed, kept) ← or_panic (remove_from count need value xs)
        modify (store key kept)
        pure removed)
