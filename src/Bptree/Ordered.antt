-- ===== src/Bptree/Ordered.antt =====
-- The order that a search in the tree relies on, and that the insertion of a key keeps it.
use nutsdb.Prelude.{
  ℕ, zero, suc, ◌<◌, ◌≡◌, refl, sym, ap, ◌∙◌, true, false, Option, none, some, [], ◌∷◌, ◌++◌, ltb,
  length, take, drop, arith, Bool-cases, inl, inr,
}
use mathlib.Core.List.{append_assoc}
use nutsdb.Prelude.Words.{Bytes}
use nutsdb.Prelude.Compare.{below, not-below, below_asym}
use nutsdb.Records.{Record}
use nutsdb.Bptree.{Pairs, insert_pair, find_in, key_at}
use nutsdb.Bptree.Shapes.{Shape, leaf, inner, Branches, one, more, keys, flatten, flatten_all}
use nutsdb.Bptree.Sorted.{
  Within, Between, Within-Between, Between-left, Between-right, All, IsSorted, All-imp, All-append,
  Within-left, Within-right, IsSorted-append, find_in-append, insert_pair_before, insert_pair_after,
  All-insert_pair, insert_pair-IsSorted,
}
use nutsdb.Bptree.Growth.{
  Growth, done, split, Cut, whole, parts, put_before, cut, halve, grown_node, grown_leaf,
  as_branches, before_branches, grow, grow_all,
}

-- Every key stands between the keys of the inner nodes beside it, and the leaves are sorted.
abbrev mutual
  pub IsOrdered : Option Bytes → Option Bytes → Shape → Type 0
  IsOrdered lo hi (leaf p kvs) = All (Within lo hi) kvs × IsSorted kvs
  IsOrdered lo hi (inner p bs) = AreOrdered lo hi bs

  pub AreOrdered : Option Bytes → Option Bytes → Branches → Type 0
  AreOrdered lo hi (one s) = IsOrdered lo hi s
  AreOrdered lo hi (more s k bs) =
      IsOrdered lo (some k) s × Between lo hi k × AreOrdered (some k) hi bs

abbrev FlatOrdered : Option Bytes → Option Bytes → Pairs → Type 0
FlatOrdered lo hi kvs = All (Within lo hi) kvs × IsSorted kvs

join_flat :
    (lo hi : Option Bytes) (k : Bytes) (xs ys : Pairs)
    → Between lo hi k
    → FlatOrdered lo (some k) xs
    → FlatOrdered (some k) hi ys
    → FlatOrdered lo hi (xs ++ ys)
join_flat lo hi k xs ys w a b = (
  All-append _ xs ys (All-imp _ _ (λ x. Within-left lo hi k x w) xs a.0)
      (All-imp _ _ (λ x. Within-right lo hi k x w) ys b.0),
  IsSorted-append k xs ys a.1 b.1 (All-imp _ _ (λ x v. v.1) xs a.0)
      (All-imp _ _ (λ x v. v.0) ys b.0),
)

-- What the tree holds is sorted.
mutual
  unfolding flatten

  flat : (lo hi : Option Bytes) (s : Shape) → IsOrdered lo hi s → FlatOrdered lo hi (flatten s)
  flat lo hi (leaf p kvs) o = o
  flat lo hi (inner p bs) o = flat_all lo hi bs o

  flat_all :
      (lo hi : Option Bytes) (bs : Branches)
      → AreOrdered lo hi bs
      → FlatOrdered lo hi (flatten_all bs)
  flat_all lo hi (one s) o = flat lo hi s o
  flat_all lo hi (more s k bs) o =
      join_flat lo hi k (flatten s) (flatten_all bs) o.1 (flat lo (some k) s o.0)
        (flat_all (some k) hi bs o.2)

pub flatten-IsSorted :
    (lo hi : Option Bytes) (s : Shape)
    → IsOrdered lo hi s
    → All (Within lo hi) (flatten s) × IsSorted (flatten s)
flatten-IsSorted lo hi s o = flat lo hi s o

pub low_side :
    (lo : Option Bytes) (k : Bytes) (s : Shape)
    → IsOrdered lo (some k) s
    → All (λ x. below x k ≡ true) (flatten s)
low_side lo k s o = All-imp _ _ (λ x v. v.1) (flatten s) (flat lo (some k) s o).0

pub high_side :
    (hi : Option Bytes) (k : Bytes) (bs : Branches)
    → AreOrdered (some k) hi bs
    → All (λ x. below x k ≡ false) (flatten_all bs)
high_side hi k bs o = All-imp _ _ (λ x v. v.0) (flatten_all bs) (flat_all (some k) hi bs o).0

-- A sorted list parted at an index of it.
All-key_at :
    (P : Bytes → Type 0) (n : ℕ) (xs : Pairs) → All P xs → n < length xs → P (key_at (drop n xs))
All-key_at P n [] a h = absurd (omega arith)
All-key_at P zero ((x, r) ∷ xs) a h = a.0
All-key_at P (suc n) ((x, r) ∷ xs) a h = All-key_at P n xs a.1 (omega arith)

part_sorted :
    (lo hi : Option Bytes) (n : ℕ) (xs : Pairs)
    → n < length xs
    → FlatOrdered lo hi xs
    → FlatOrdered lo (some (key_at (drop n xs))) (take n xs)
      × Within lo hi (key_at (drop n xs))
      × FlatOrdered (some (key_at (drop n xs))) hi (drop n xs)
part_sorted lo hi n [] h o = absurd (omega arith)
part_sorted lo hi zero ((x, r) ∷ xs) h o =
    ((tt, tt), o.0.0, (((not-below x, o.0.0.1), upper lo hi x xs o.1.0 o.0.1), o.1))
  where
    upper :
        (lo hi : Option Bytes) (x : Bytes) (xs : Pairs)
        → All (λ y. below x y ≡ true) xs
        → All (Within lo hi) xs
        → All (Within (some x) hi) xs
    upper lo hi x [] a b = tt
    upper lo hi x ((y, s) ∷ xs) a b = ((below_asym x y a.0, b.0.1), upper lo hi x xs a.1 b.1)
part_sorted lo hi (suc n) ((x, r) ∷ xs) h o =
    let rest = part_sorted lo hi n xs (omega arith) (o.0.1, o.1.1) in
    let above = All-key_at (λ y. below x y ≡ true) n xs o.1.0 (omega arith) in
    ((((o.0.0.0, above), rest.0.0), (first n xs o.1.0, rest.0.1)), rest.1, rest.2)
  where
    first :
        (n : ℕ) (xs : Pairs)
        → All (λ y. below x y ≡ true) xs
        → All (λ y. below x y ≡ true) (take n xs)
    first zero xs a = tt
    first (suc n) [] a = tt
    first (suc n) ((y, s) ∷ xs) a = (a.0, first n xs a.1)

take-drop : (n : ℕ) (xs : Pairs) → take n xs ++ drop n xs ≡ xs
take-drop zero xs = refl
take-drop (suc n) [] = refl
take-drop (suc n) (x ∷ xs) = ap (◌∷◌ x) (take-drop n xs)

-- The branches on the two sides of a cut.
abbrev CutOrdered : Option Bytes → Option Bytes → Pairs → Cut → Type 0
CutOrdered lo hi kvs (whole bs) = AreOrdered lo hi bs × (flatten_all bs ≡ kvs)
CutOrdered lo hi kvs (parts l k r) =
    AreOrdered lo (some k) l
    × Between lo hi k
    × AreOrdered (some k) hi r
    × (flatten_all l ++ flatten_all r ≡ kvs)

put_before-CutOrdered :
    (lo hi : Option Bytes) (kvs : Pairs) (s : Shape) (k : Bytes) (c : Cut)
    → IsOrdered lo (some k) s
    → Between lo hi k
    → CutOrdered (some k) hi kvs c
    → CutOrdered lo hi (flatten s ++ kvs) (put_before s k c)
unfolding flatten
put_before-CutOrdered lo hi kvs s k (whole bs) o w c = ((o, w, c.0), ap (λ t. flatten s ++ t) c.1)
put_before-CutOrdered lo hi kvs s k (parts l m r) o w c = (
  (o, (w.0, c.1.0), c.0),
  Between-right lo hi k m w c.1,
  c.2,
  append_assoc (flatten s) (flatten_all l) (flatten_all r) ∙ ap (λ t. flatten s ++ t) c.3,
)

cut-CutOrdered :
    (i : ℕ) (lo hi : Option Bytes) (bs : Branches)
    → AreOrdered lo hi bs
    → CutOrdered lo hi (flatten_all bs) (cut i bs)
unfolding cut flatten
cut-CutOrdered i lo hi (one s) o = (o, refl)
cut-CutOrdered zero lo hi (more s k bs) o = (o.0, o.1, o.2, refl)
cut-CutOrdered (suc i) lo hi (more s k bs) o =
    put_before-CutOrdered lo hi (flatten_all bs) s k (cut i bs) o.0 o.1
      (cut-CutOrdered i (some k) hi bs o.2)

-- A growth whose keys are in order, and that holds what is given.
abbrev pub Grown : Option Bytes → Option Bytes → Pairs → Growth → Type 0
Grown lo hi kvs (done s) = IsOrdered lo hi s × (flatten s ≡ kvs)
Grown lo hi kvs (split l k r) =
    IsOrdered lo (some k) l
    × Between lo hi k
    × IsOrdered (some k) hi r
    × (flatten l ++ flatten r ≡ kvs)

halve-Grown :
    (fresh p : ℕ) (lo hi : Option Bytes) (kvs : Pairs) (c : Cut)
    → CutOrdered lo hi kvs c
    → Grown lo hi kvs (halve fresh p c)
unfolding flatten
halve-Grown fresh p lo hi kvs (whole bs) c = c
halve-Grown fresh p lo hi kvs (parts l k r) c = c

grown_node-Grown :
    (fresh p : ℕ) (lo hi : Option Bytes) (bs : Branches)
    → AreOrdered lo hi bs
    → Grown lo hi (flatten_all bs) (grown_node fresh p bs)
unfolding grown_node flatten
grown_node-Grown fresh p lo hi bs o = elim (Bool-cases (ltb (length (keys bs)) 8)) [
  | inl e ↦ rw e (o, refl)
  | inr e ↦
      rw e (halve-Grown fresh p lo hi (flatten_all bs) (cut 4 bs) (cut-CutOrdered 4 lo hi bs o))
]

grown_leaf-Grown :
    (fresh p : ℕ) (lo hi : Option Bytes) (kvs : Pairs)
    → FlatOrdered lo hi kvs
    → Grown lo hi kvs (grown_leaf fresh p kvs)
unfolding grown_leaf flatten
grown_leaf-Grown fresh p lo hi kvs o = elim (Bool-cases (ltb (length kvs) 8)) [
  | inl e ↦ rw e (o, refl)
  | inr e ↦
      let (l, w, r) = part_sorted lo hi 4 kvs (ground arith) o in
      rw e (l, Within-Between lo hi _ w, r, take-drop 4 kvs)
]

-- A growth put back among the branches.
as_branches-AreOrdered :
    (lo hi : Option Bytes) (kvs : Pairs) (g : Growth)
    → Grown lo hi kvs g
    → AreOrdered lo hi (as_branches g) × (flatten_all (as_branches g) ≡ kvs)
unfolding flatten
as_branches-AreOrdered lo hi kvs (done s) o = o
as_branches-AreOrdered lo hi kvs (split l k r) o = ((o.0, o.1, o.2), o.3)

before_branches-AreOrdered :
    (lo hi : Option Bytes) (kvs : Pairs) (k : Bytes) (bs : Branches) (g : Growth)
    → Grown lo (some k) kvs g
    → Between lo hi k
    → AreOrdered (some k) hi bs
    → AreOrdered lo hi (before_branches g k bs)
      × (flatten_all (before_branches g k bs) ≡ kvs ++ flatten_all bs)
unfolding flatten
before_branches-AreOrdered lo hi kvs k bs (done s) o w b =
    ((o.0, w, b), ap (λ t. t ++ flatten_all bs) o.1)
before_branches-AreOrdered lo hi kvs k bs (split l m r) o w b = (
  (o.0, Between-left lo hi k m w o.1, (o.2, (o.1.1, w.1), b)),
  sym (append_assoc (flatten l) (flatten r) (flatten_all bs)) ∙ ap (λ t. t ++ flatten_all bs) o.3,
)

absent_left : (key : Bytes) (xs ys : Pairs) → find_in key (xs ++ ys) ≡ none → find_in key xs ≡ none
absent_left key xs ys h = ground (arith, find_in-append key xs ys)

absent_right : (key : Bytes) (xs ys : Pairs) → find_in key (xs ++ ys) ≡ none → find_in key ys ≡ none
absent_right key xs ys h = ground (arith, find_in-append key xs ys)

-- `lo ≤ key` moves into the branch on the right.
mutual
  unfolding grow flatten

  grow_ordered :
      (fresh : ℕ) (key : Bytes) (r : Record) (lo hi : Option Bytes) (s : Shape)
      → Within lo hi key
      → IsOrdered lo hi s
      → find_in key (flatten s) ≡ none
      → Grown lo hi (insert_pair key r (flatten s)) (grow fresh key r s).0
  grow_ordered fresh key r lo hi (leaf p kvs) w o n =
      grown_leaf-Grown fresh p lo hi (insert_pair key r kvs)
        (All-insert_pair _ key r kvs w o.0, insert_pair-IsSorted key r kvs n o.1)
  grow_ordered fresh key r lo hi (inner p bs) w o n =
      let inside = grow_all_ordered fresh key r lo hi bs w o n in
      let (bs', fresh') = grow_all fresh key r bs in
      rw (← inside.1) (grown_node-Grown fresh' p lo hi bs' inside.0)

  grow_all_ordered :
      (fresh : ℕ) (key : Bytes) (r : Record) (lo hi : Option Bytes) (bs : Branches)
      → Within lo hi key
      → AreOrdered lo hi bs
      → find_in key (flatten_all bs) ≡ none
      → AreOrdered lo hi (grow_all fresh key r bs).0
        × (flatten_all (grow_all fresh key r bs).0 ≡ insert_pair key r (flatten_all bs))
  grow_all_ordered fresh key r lo hi (one s) w o n =
      as_branches-AreOrdered lo hi _ (grow fresh key r s).0 (grow_ordered fresh key r lo hi s w o n)
  grow_all_ordered fresh key r lo hi (more s k bs) w o n = elim (Bool-cases (below key k)) [
    | inl e ↦
        rw (e, insert_pair_before key k r (flatten s) (flatten_all bs) e (high_side hi k bs o.2))
          (before_branches-AreOrdered lo hi _ k bs (grow fresh key r s).0
            (grow_ordered fresh key r lo (some k) s (w.0, e) o.0
              (absent_left key (flatten s) (flatten_all bs) n))
            o.1 o.2)
    | inr e ↦
        let right =
          grow_all_ordered fresh key r (some k) hi bs (e, w.1) o.2
            (absent_right key (flatten s) (flatten_all bs) n) in
        rw (e, insert_pair_after key k r (flatten s) (flatten_all bs) e (low_side lo k s o.0))
          ((o.0, o.1, right.0), ap (λ t. flatten s ++ t) right.1)
  ]

-- What an insertion makes of an ordered tree is ordered, and holds the pair at its place.
pub grow-Grown :
    (fresh : ℕ) (key : Bytes) (r : Record) (s : Shape)
    → IsOrdered none none s
    → find_in key (flatten s) ≡ none
    → Grown none none (insert_pair key r (flatten s)) (grow fresh key r s).0
grow-Grown fresh key r s o n = grow_ordered fresh key r none none s (tt, tt) o n
