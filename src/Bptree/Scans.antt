-- ===== src/Bptree/Scans.antt =====
-- The scans of bptree.go. Each walks the chain of leaves from the one that `FindLeaf` returns, and
-- the loop over the keys of a leaf ends the walk when it clears `scanFlag`. The counts `offsetNum`
-- and `limitNum` are natural numbers: a negative one acts like 0.
use nutsdb.Prelude.{
  ℕ, zero, suc, ◌+◌, ◌==◌, Bool, true, false, ◌&&◌, not, Option, none, some, List, [], ◌∷◌, ◌++◌,
  map, if◌then◌else◌, ltb, length, Outcome, ok, err,
}
use nutsdb.Prelude.Words.{Bytes}
use nutsdb.Prelude.Compare.{below, has_prefix, trim_prefix}
use nutsdb.Records.{Record}
use nutsdb.Bptree.{Pairs, BpTree, pairs_of, find_leaf_from}

pub data ScanError : Type 0 where
  start_key scans_no_result no_prefix prefix_search_scans_no_result bad_regexp : ScanError

-- `FindLeaf`, `none` for nil.
unfoldable pub find_leaf : ℕ → BpTree → Bytes → Option ℕ
find_leaf fuel t key = elim t.root [ none ↦ none | some p ↦ find_leaf_from fuel t p key ]

-- The loop that skips the keys of the first leaf below `start`.
unfoldable pub skip_below : Bytes → Pairs → Pairs
skip_below start [] = []
skip_below start ((k, r) ∷ kvs) =
    let rest = skip_below start kvs in if below k start then rest else (k, r) ∷ kvs

module _ {S : Type 0} (body : S → Bytes × Record → S × Bool) where
  -- The loop over the pairs of a leaf; the flag is `scanFlag`.
  unfoldable pub leaf_loop : S → Pairs → S × Bool
  leaf_loop s [] = (s, true)
  leaf_loop s (x ∷ xs) =
      let after = body s x in let rest = leaf_loop after.0 xs in if after.1 then rest else after

  -- The loop over the leaves, from the pairs of the leaf at hand; `none` when the fuel runs out.
  unfoldable pub walk : ℕ → BpTree → S → Pairs → ℕ → Option S
  unfolding leaf_loop
  walk zero t s kvs p = none
  walk (suc n) t s kvs p =
      let after = leaf_loop s kvs in
      let rest : Option S = elim (t.next p) [
        | none ↦ some after.0
        | some q ↦ walk n t after.0 (pairs_of (t.content q)) q
      ] in
      if after.1 then rest else some after.0

abbrev pub all_step : Pairs → Bytes × Record → Pairs × Bool
all_step found x = (found ++ x ∷ [], true)

-- `getAll`
unfoldable pub get_all : BpTree → Option Pairs
unfolding find_leaf walk
get_all t = elim (find_leaf t.last_address t t.first_key) [
  | none ↦ some []
  | some p ↦ walk all_step t.last_address t [] (pairs_of (t.content p)) p
]

abbrev pub range_step : Bytes → Pairs → Bytes × Record → Pairs × Bool
range_step end found (k, r) = if below end k then (found, false) else (found ++ (k, r) ∷ [], true)

-- `FindRange` without the function `f`.
unfoldable pub find_range : Bytes → Bytes → BpTree → Option Pairs
unfolding find_leaf walk skip_below
find_range start end t = elim (find_leaf t.last_address t start) [
  | none ↦ some []
  | some p ↦ walk (range_step end) t.last_address t [] (skip_below start (pairs_of (t.content p))) p
]

-- `getRecordWrapper`
unfoldable pub get_record_wrapper : Pairs → Outcome ScanError (List Record)
get_record_wrapper [] = err scans_no_result
get_record_wrapper (x ∷ xs) = ok (map (λ p. p.1) (x ∷ xs))

abbrev pub wrapped : Option Pairs → Option (Outcome ScanError (List Record))
wrapped none = none
wrapped (some found) = some (get_record_wrapper found)

-- `All`
unfoldable pub all : BpTree → Option (Outcome ScanError (List Record))
unfolding get_all get_record_wrapper
all t = wrapped (get_all t)

-- `Range`
unfoldable pub range : Bytes → Bytes → BpTree → Option (Outcome ScanError (List Record))
unfolding find_range get_record_wrapper
range start end t =
    if below end start then some (err start_key) else wrapped (find_range start end t)

-- The pairs found, and `coff`.
abbrev pub prefix_step : Bytes → ℕ → ℕ → Pairs × ℕ → Bytes × Record → (Pairs × ℕ) × Bool
prefix_step prefix offset limit (found, coff) (k, r) =
    if not (has_prefix k prefix)
    then ((found, coff), false)
    else if ltb coff offset
    then ((found, coff + 1), true)
    else ((found ++ (k, r) ∷ [], coff), not (ltb 0 limit && length (found ++ (k, r) ∷ []) == limit))

abbrev pub search_step :
    (Bytes → Bool) → Bytes → ℕ → ℕ → Pairs × ℕ → Bytes × Record → (Pairs × ℕ) × Bool
search_step matches prefix offset limit (found, coff) (k, r) =
    if not (has_prefix k prefix)
    then ((found, coff), false)
    else if ltb coff offset
    then ((found, coff + 1), true)
    else if not (matches (trim_prefix k prefix))
    then ((found, coff), true)
    else ((found ++ (k, r) ∷ [], coff), not (ltb 0 limit && length (found ++ (k, r) ∷ []) == limit))

abbrev pub scanned : Option (Pairs × ℕ) → Option (Outcome ScanError (List Record) × ℕ)
scanned none = none
scanned (some (found, coff)) = some (get_record_wrapper found, coff)

-- `PrefixScan`, its result beside `off`.
unfoldable pub prefix_scan : Bytes → ℕ → ℕ → BpTree → Option (Outcome ScanError (List Record) × ℕ)
unfolding find_leaf walk skip_below get_record_wrapper
prefix_scan prefix offset limit t = elim (find_leaf t.last_address t prefix) [
  | none ↦ some (err no_prefix, 0)
  | some p ↦ scanned (
      walk (prefix_step prefix offset limit) t.last_address t ([], 0)
        (skip_below prefix (pairs_of (t.content p))) p)
]

-- `PrefixSearchScan`; `compile` is `regexp.Compile` with `Match`.
unfoldable pub prefix_search_scan :
    (Bytes → Option (Bytes → Bool))
    → Bytes
    → Bytes
    → ℕ
    → ℕ
    → BpTree
    → Option (Outcome ScanError (List Record) × ℕ)
unfolding find_leaf walk skip_below get_record_wrapper
prefix_search_scan compile prefix reg offset limit t = elim (compile reg) [
  | none ↦ some (err bad_regexp, 0)
  | some matches ↦ elim (find_leaf t.last_address t prefix) [
    | none ↦ some (err prefix_search_scans_no_result, 0)
    | some p ↦ scanned (
        walk (search_step matches prefix offset limit) t.last_address t ([], 0)
          (skip_below prefix (pairs_of (t.content p))) p)
  ]
]
