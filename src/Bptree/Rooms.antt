-- ===== src/Bptree/Rooms.antt =====
-- No node is too full after an insertion, and each split adds one node.
use nutsdb.Prelude.{
  ℕ, zero, suc, ◌+◌, ◌*◌, ◌≤◌, ◌<◌, ◌≡◌, refl, ap, List, [], ◌∷◌, ltb, some, length, get_elem?,
  take, drop, length-drop, length-take_of_le, arith, Bool-cases, inl, inr,
}
use nutsdb.Prelude.Words.{Bytes}
use nutsdb.Prelude.Compare.{below}
use nutsdb.Records.{Record}
use nutsdb.Bptree.{Pairs, insert_pair, binary_node_size}
use nutsdb.Bptree.Shapes.{
  Shape, leaf, inner, Branches, one, more, keys, addr, addrs, size, size_all,
}
use nutsdb.Bptree.Heights.{Fits, FitAll, GrowthFits}
use nutsdb.Bptree.Growth.{
  Growth, done, split, Cut, whole, parts, put_before, cut, halve, grown_node, grown_leaf,
  next_fresh, as_branches, before_branches, grow, grow_all,
}

-- What a cut makes of the keys and of the addresses.
abbrev pub CutLists : ℕ → List Bytes → List ℕ → Cut → Type 0
CutLists i ks cs (whole bs) = ⊥
CutLists i ks cs (parts l k r) =
    (keys l ≡ take i ks)
    × (get_elem? ks i ≡ some k)
    × (keys r ≡ drop (suc i) ks)
    × (addrs l ≡ take (suc i) cs)
    × (addrs r ≡ drop (suc i) cs)

put_before-CutLists :
    (i : ℕ) (ks : List Bytes) (cs : List ℕ) (s : Shape) (k : Bytes) (c : Cut)
    → CutLists i ks cs c
    → CutLists (suc i) (k ∷ ks) (addr s ∷ cs) (put_before s k c)
put_before-CutLists i ks cs s k (whole bs) h = h
put_before-CutLists i ks cs s k (parts l m r) h =
    (ap (◌∷◌ k) h.0, h.1, h.2, ap (◌∷◌ (addr s)) h.3, h.4)

pub cut-CutLists :
    (i : ℕ) (bs : Branches) → i < length (keys bs) → CutLists i (keys bs) (addrs bs) (cut i bs)
unfolding cut
cut-CutLists i (one s) h = absurd (omega arith)
cut-CutLists zero (more s k bs) h = (refl, refl, refl, refl, refl)
cut-CutLists (suc i) (more s k bs) h =
    put_before-CutLists i (keys bs) (addrs bs) s k (cut i bs) (cut-CutLists i bs (omega arith))

abbrev CutFits : Cut → Type 0
CutFits (whole bs) = FitAll bs
CutFits (parts l k r) = FitAll l × FitAll r

put_before-CutFits :
    (s : Shape) (k : Bytes) (c : Cut) → Fits s → CutFits c → CutFits (put_before s k c)
put_before-CutFits s k (whole bs) h g = (h, g)
put_before-CutFits s k (parts l m r) h g = ((h, g.0), g.1)

cut-CutFits : (i : ℕ) (bs : Branches) → FitAll bs → CutFits (cut i bs)
unfolding cut
cut-CutFits i (one s) h = h
cut-CutFits zero (more s k bs) h = h
cut-CutFits (suc i) (more s k bs) h = put_before-CutFits s k (cut i bs) h.0 (cut-CutFits i bs h.1)

halve-GrowthFits :
    (fresh p : ℕ) (ks : List Bytes) (cs : List ℕ) (c : Cut)
    → length ks ≡ 8
    → CutLists 4 ks cs c
    → CutFits c
    → GrowthFits (halve fresh p c)
halve-GrowthFits fresh p ks cs (whole bs) e l f = absurd l
halve-GrowthFits fresh p ks cs (parts l k r) e h f = (
  (omega (arith, ap length h.0, length-take_of_le 4 ks (omega arith)), f.0),
  (omega (arith, ap length h.2, length-drop 5 ks), f.1),
)

grown_node-GrowthFits :
    (fresh p : ℕ) (bs : Branches)
    → length (keys bs) ≤ 8
    → FitAll bs
    → GrowthFits (grown_node fresh p bs)
unfolding grown_node
grown_node-GrowthFits fresh p bs h f = elim (Bool-cases (ltb (length (keys bs)) 8)) [
  | inl e ↦ rw e (ground arith, f)
  | inr e ↦ rw e (
      halve-GrowthFits fresh p (keys bs) (addrs bs) (cut 4 bs) (ground arith)
        (cut-CutLists 4 bs (ground arith)) (cut-CutFits 4 bs f))
]

pub length-insert_pair :
    (key : Bytes) (r : Record) (kvs : Pairs) → length (insert_pair key r kvs) ≡ suc (length kvs)
unfolding insert_pair
length-insert_pair key r [] = refl
length-insert_pair key r ((k, s) ∷ kvs) = ground (arith, length-insert_pair key r kvs)

grown_leaf-GrowthFits :
    (fresh p : ℕ) (kvs : Pairs) → length kvs ≤ 8 → GrowthFits (grown_leaf fresh p kvs)
unfolding grown_leaf
grown_leaf-GrowthFits fresh p kvs h = elim (Bool-cases (ltb (length kvs) 8)) [
  | inl e ↦ rw e (ground arith)
  | inr e ↦
      rw e (omega (arith, length-take_of_le 4 kvs (ground arith)), omega (arith, length-drop 4 kvs))
]

as_branches-fits :
    (g : Growth) → GrowthFits g → FitAll (as_branches g) × (length (keys (as_branches g)) ≤ 1)
as_branches-fits (done s) f = (f, omega arith)
as_branches-fits (split l k r) f = (f, omega arith)

before_branches-fits :
    (g : Growth) (k : Bytes) (bs : Branches)
    → GrowthFits g
    → FitAll bs
    → FitAll (before_branches g k bs)
      × (length (keys (before_branches g k bs)) ≤ length (keys bs) + 2)
before_branches-fits (done s) k bs f b = ((f, b), omega arith)
before_branches-fits (split l m r) k bs f b = ((f.0, (f.1, b)), omega arith)

mutual
  unfolding grow

  grow-Fits :
      (fresh : ℕ) (key : Bytes) (r : Record) (s : Shape)
      → Fits s
      → GrowthFits (grow fresh key r s).0
  grow-Fits fresh key r (leaf p kvs) f =
      grown_leaf-GrowthFits fresh p (insert_pair key r kvs)
        (omega (arith, length-insert_pair key r kvs))
  grow-Fits fresh key r (inner p bs) f =
      let (bs', fresh') = grow_all fresh key r bs in
      let inside = grow_all_fits fresh key r bs f.1 in
      let room : length (keys bs) ≤ 7 = f.0 in
      let top : length (keys bs') ≤ length (keys bs) + 1 = inside.1 in
      grown_node-GrowthFits fresh' p bs' (omega arith) inside.0

  grow_all_fits :
      (fresh : ℕ) (key : Bytes) (r : Record) (bs : Branches)
      → FitAll bs
      → FitAll (grow_all fresh key r bs).0
        × (length (keys (grow_all fresh key r bs).0) ≤ length (keys bs) + 1)
  grow_all_fits fresh key r (one s) f =
      as_branches-fits (grow fresh key r s).0 (grow-Fits fresh key r s f)
  grow_all_fits fresh key r (more s k bs) f = elim (Bool-cases (below key k)) [
    | inl e ↦
        let first =
          before_branches-fits (grow fresh key r s).0 k bs (grow-Fits fresh key r s f.0) f.1 in
        rw e (first.0, omega (arith, first.1))
    | inr e ↦
        let rest = grow_all_fits fresh key r bs f.1 in rw e ((f.0, rest.0), omega (arith, rest.1))
  ]

pub grow-GrowthFits :
    (fresh : ℕ) (key : Bytes) (r : Record) (s : Shape) → Fits s → GrowthFits (grow fresh key r s).0
grow-GrowthFits fresh key r s f = grow-Fits fresh key r s f

pub grow_all-fits :
    (fresh : ℕ) (key : Bytes) (r : Record) (bs : Branches)
    → FitAll bs
    → FitAll (grow_all fresh key r bs).0
      × (length (keys (grow_all fresh key r bs).0) ≤ length (keys bs) + 1)
grow_all-fits fresh key r bs f = grow_all_fits fresh key r bs f

-- The number of nodes, by which the next address grows.
abbrev pub growth_size : Growth → ℕ
growth_size (done s) = size s
growth_size (split l k r) = size l + size r

abbrev cut_size : Cut → ℕ
cut_size (whole bs) = size_all bs
cut_size (parts l k r) = size_all l + size_all r

cut_size-put_before :
    (s : Shape) (k : Bytes) (c : Cut) → cut_size (put_before s k c) ≡ size s + cut_size c
unfolding size
cut_size-put_before s k (whole bs) = refl
cut_size-put_before s k (parts l m r) = omega arith

cut_size-cut : (i : ℕ) (bs : Branches) → cut_size (cut i bs) ≡ size_all bs
unfolding cut size
cut_size-cut i (one s) = refl
cut_size-cut zero (more s k bs) = refl
cut_size-cut (suc i) (more s k bs) =
    omega (arith, cut_size-put_before s k (cut i bs), cut_size-cut i bs)

halve_size :
    (fresh p : ℕ) (c : Cut)
    → growth_size (halve fresh p c) * binary_node_size + fresh
      ≡ suc (cut_size c) * binary_node_size + next_fresh fresh (halve fresh p c)
unfolding size
halve_size fresh p (whole bs) = omega arith
halve_size fresh p (parts l k r) = omega arith

grown_node_size :
    (fresh p : ℕ) (bs : Branches)
    → growth_size (grown_node fresh p bs) * binary_node_size + fresh
      ≡ suc (size_all bs) * binary_node_size + next_fresh fresh (grown_node fresh p bs)
unfolding grown_node size
grown_node_size fresh p bs = elim (Bool-cases (ltb (length (keys bs)) 8)) [
  | inl e ↦ rw e refl
  | inr e ↦ rw e (omega (arith, halve_size fresh p (cut 4 bs), cut_size-cut 4 bs))
]

grown_leaf_size :
    (fresh p : ℕ) (kvs : Pairs)
    → growth_size (grown_leaf fresh p kvs) * binary_node_size + fresh
      ≡ binary_node_size + next_fresh fresh (grown_leaf fresh p kvs)
unfolding grown_leaf size
grown_leaf_size fresh p kvs = elim (Bool-cases (ltb (length kvs) 8)) [
  | inl e ↦ rw e (omega arith)
  | inr e ↦ rw e (omega arith)
]

size-as_branches : (g : Growth) → size_all (as_branches g) ≡ growth_size g
unfolding size
size-as_branches (done s) = refl
size-as_branches (split l k r) = refl

size-before_branches :
    (g : Growth) (k : Bytes) (bs : Branches)
    → size_all (before_branches g k bs) ≡ growth_size g + size_all bs
unfolding size
size-before_branches (done s) k bs = refl
size-before_branches (split l m r) k bs = omega arith

mutual
  unfolding grow size

  grow_size :
      (fresh : ℕ) (key : Bytes) (r : Record) (s : Shape)
      → growth_size (grow fresh key r s).0 * binary_node_size + fresh
        ≡ size s * binary_node_size + (grow fresh key r s).1
  grow_size fresh key r (leaf p kvs) =
      omega (arith, grown_leaf_size fresh p (insert_pair key r kvs))
  grow_size fresh key r (inner p bs) =
      let (bs', fresh') = grow_all fresh key r bs in
      let inside : size_all bs' * binary_node_size + fresh
          ≡ size_all bs * binary_node_size + fresh' =
        grow_all_size fresh key r bs in
      omega (arith, grown_node_size fresh' p bs')

  grow_all_size :
      (fresh : ℕ) (key : Bytes) (r : Record) (bs : Branches)
      → size_all (grow_all fresh key r bs).0 * binary_node_size + fresh
        ≡ size_all bs * binary_node_size + (grow_all fresh key r bs).1
  grow_all_size fresh key r (one s) =
      omega (arith, grow_size fresh key r s, size-as_branches (grow fresh key r s).0)
  grow_all_size fresh key r (more s k bs) = elim (Bool-cases (below key k)) [
    | inl e ↦
        rw e
          (omega (arith, grow_size fresh key r s, size-before_branches (grow fresh key r s).0 k bs))
    | inr e ↦ rw e (omega (arith, grow_all_size fresh key r bs))
  ]

pub growth_size-grow :
    (fresh : ℕ) (key : Bytes) (r : Record) (s : Shape)
    → growth_size (grow fresh key r s).0 * binary_node_size + fresh
      ≡ size s * binary_node_size + (grow fresh key r s).1
growth_size-grow fresh key r s = grow_size fresh key r s
