-- ===== src/Bptree/Ranges.antt =====
-- What the scans return, as selections from the list that the tree stands for.
use nutsdb.Prelude.{
  ◌≡◌, refl, sym, ap, ◌∙◌, Bool, true, false, ◌&&◌, not, none, some, [], ◌∷◌, ◌++◌, inl, inr,
  if◌then◌else◌, arith, Bool-cases, err,
}
use mathlib.Core.List.{append_assoc, append-nil}
use nutsdb.Prelude.Words.{Bytes}
use nutsdb.Prelude.Compare.{below, below_trans}
use nutsdb.Bptree.{Pairs, BpTree, pairs_of}
use nutsdb.Bptree.Shapes.{flatten}
use nutsdb.Bptree.Sorted.{All, IsSorted, All-imp}
use nutsdb.Bptree.Ordered.{flatten-IsSorted}
use nutsdb.Bptree.Models.{Models}
use nutsdb.Bptree.Scans.{
  ScanError, find_leaf, leaf_loop, walk, skip_below, range_step, find_range, range,
  get_record_wrapper,
}
use nutsdb.Bptree.Walks.{walk_from}

-- The pairs whose key passes a test, in their order.
abbrev pub select : (Bytes → Bool) → Pairs → Pairs
select p [] = []
select p ((k, r) ∷ kvs) = if p k then (k, r) ∷ select p kvs else select p kvs

pub select_none : (p : Bytes → Bool) (kvs : Pairs) → All (λ k. p k ≡ false) kvs → select p kvs ≡ []
select_none p [] a = refl
select_none p ((k, r) ∷ kvs) a = rw (a.0) (select_none p kvs a.1)

select-All : (p : Bytes → Bool) (kvs : Pairs) → All (λ k. p k ≡ true) kvs → select p kvs ≡ kvs
select-All p [] a = refl
select-All p ((k, r) ∷ kvs) a = rw (a.0) (ap (◌∷◌ (k, r)) (select-All p kvs a.1))

pub select-select :
    (p q : Bytes → Bool) (kvs : Pairs) → select p (select q kvs) ≡ select (λ k. q k && p k) kvs
select-select p q [] = refl
select-select p q ((k, r) ∷ kvs) = elim (Bool-cases (q k)) [
  | inl e ↦ elim (Bool-cases (p k)) [
    | inl f ↦ rw (e, f) (ap (◌∷◌ (k, r)) (select-select p q kvs))
    | inr f ↦ rw (e, f) (select-select p q kvs)
  ]
  | inr e ↦ rw e (select-select p q kvs)
]

All-select :
    (P : Bytes → Type 0) (p : Bytes → Bool) (kvs : Pairs) → All P kvs → All P (select p kvs)
All-select P p [] a = tt
All-select P p ((k, r) ∷ kvs) a = elim (Bool-cases (p k)) [
  | inl e ↦ rw e (a.0, All-select P p kvs a.1)
  | inr e ↦ rw e (All-select P p kvs a.1)
]

pub select-IsSorted : (p : Bytes → Bool) (kvs : Pairs) → IsSorted kvs → IsSorted (select p kvs)
select-IsSorted p [] s = tt
select-IsSorted p ((k, r) ∷ kvs) s = elim (Bool-cases (p k)) [
  | inl e ↦ rw e (All-select _ p kvs s.0, select-IsSorted p kvs s.1)
  | inr e ↦ rw e (select-IsSorted p kvs s.1)
]

abbrev pub from : Bytes → Bytes → Bool
from start k = not (below k start)

abbrev pub up_to : Bytes → Bytes → Bool
up_to end k = not (below end k)

-- In a sorted list, what is skipped is all below `start`.
pub skip_below_lem :
    (start : Bytes) (kvs : Pairs) → IsSorted kvs → skip_below start kvs ≡ select (from start) kvs
unfolding skip_below
skip_below_lem start [] s = refl
skip_below_lem start ((k, r) ∷ kvs) s = elim (Bool-cases (below k start)) [
  | inl e ↦ rw e (skip_below_lem start kvs s.1)
  | inr e ↦ rw e (
      ap (◌∷◌ (k, r)) (
        sym (
          select-All (from start) kvs
            (All-imp _ _ (λ x h. ground (arith, below_trans k x start, e)) kvs s.0))))
]

range_loop :
    (end : Bytes) (found kvs : Pairs)
    → IsSorted kvs
    → (leaf_loop (range_step end) found kvs).0 ≡ found ++ select (up_to end) kvs
unfolding leaf_loop
range_loop end found [] s = sym (append-nil found)
range_loop end found ((k, r) ∷ kvs) s = elim (Bool-cases (below end k)) [
  | inl e ↦ rw e (
      sym (append-nil found)
      ∙ ap (λ t. found ++ t)
          (sym (
            select_none (up_to end) kvs
              (All-imp _ _ (λ x h. ground (arith, below_trans end k x)) kvs s.0))))
  | inr e ↦ rw e (
      range_loop end (found ++ (k, r) ∷ []) kvs s.1
      ∙ append_assoc found ((k, r) ∷ []) (select (up_to end) kvs))
]

pub nil_leaf : (t : BpTree) (key : Bytes) → t.root ≡ none → find_leaf t.last_address t key ≡ none
unfolding find_leaf
nil_leaf t key e = rw (e, find_leaf) refl

-- `FindRange` finds the pairs from `start` to `end`.
find_range_refines :
    (t : BpTree) (kvs : Pairs) (start end : Bytes)
    → Models t kvs
    → find_range start end t ≡ some (select (λ k. from start k && up_to end k) kvs)
unfolding find_range
find_range_refines t kvs start end (inl m) =
    ap
      (λ o. elim o [
        | none ↦ some []
        | some p ↦
            walk (range_step end) t.last_address t [] (skip_below start (pairs_of (t.content p))) p
      ])
      (nil_leaf t start m.0)
    ∙ ap (λ xs. some (select (λ k. from start k && up_to end k) xs)) (sym m.2)
find_range_refines t kvs start end (inr (s, h, e)) =
    let walk' = walk_from (range_step end) t s start [] h in
    let sorted = (flatten-IsSorted none none s h.ordered).1 in
    ap
      (λ o. elim o [
        | none ↦ some []
        | some p ↦
            walk (range_step end) t.last_address t [] (skip_below start (pairs_of (t.content p))) p
      ])
      walk'.0
    ∙ walk'.1
    ∙ ap (λ xs. some (leaf_loop (range_step end) [] xs).0) (skip_below_lem start (flatten s) sorted)
    ∙ ap (λ xs. some xs)
        (range_loop end [] (select (from start) (flatten s))
          (select-IsSorted (from start) (flatten s) sorted))
    ∙ ap (λ xs. some xs) (select-select (up_to end) (from start) (flatten s))
    ∙ ap (λ xs. some (select (λ k. from start k && up_to end k) xs)) e

-- On a tree that stands for a list, `Range` gives `ErrStartKey` where the start is behind the end,
-- and else the records of the list from start to end in their order, or `ErrScansNoResult` where
-- there are none.
pub range_refines :
    (t : BpTree) (kvs : Pairs) (start end : Bytes)
    → Models t kvs
    → range start end t
      ≡ some (
          if below end start
          then err ScanError.start_key
          else get_record_wrapper (select (λ k. from start k && up_to end k) kvs))
unfolding range
range_refines t kvs start end m = elim (Bool-cases (below end start)) [
  | inl e ↦ rw e refl
  | inr e ↦ rw (e, find_range_refines t kvs start end m) refl
]
