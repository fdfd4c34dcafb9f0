-- ===== src/Bptree/Heights.antt =====
-- The height and the size of the tree after an insertion: it stays balanced, and no node is too
-- full.
use nutsdb.Prelude.{ℕ, zero, suc, ◌≤◌, refl, ltb, length, Bool-cases, inl, inr}
use nutsdb.Prelude.Words.{Bytes}
use nutsdb.Prelude.Compare.{below}
use nutsdb.Records.{Record}
use nutsdb.Bptree.{Pairs, insert_pair}
use nutsdb.Bptree.Shapes.{Shape, leaf, inner, Branches, one, more, keys, HasHeight, HaveHeight}
use nutsdb.Bptree.Growth.{
  Growth, done, split, Cut, whole, parts, put_before, cut, halve, grown_node, grown_leaf,
  as_branches, before_branches, grow, grow_all,
}

-- No node holds more than `order - 1` keys.
abbrev mutual
  pub Fits : Shape → Type 0
  Fits (leaf p kvs) = length kvs ≤ 7
  Fits (inner p bs) = (length (keys bs) ≤ 7) × FitAll bs

  pub FitAll : Branches → Type 0
  FitAll (one s) = Fits s
  FitAll (more s k bs) = Fits s × FitAll bs

abbrev pub GrowthFits : Growth → Type 0
GrowthFits (done s) = Fits s
GrowthFits (split l k r) = Fits l × Fits r

abbrev pub GrowthHeight : ℕ → Growth → Type 0
GrowthHeight n (done s) = HasHeight n s
GrowthHeight n (split l k r) = HasHeight n l × HasHeight n r

abbrev CutHeight : ℕ → Cut → Type 0
CutHeight n (whole bs) = HaveHeight n bs
CutHeight n (parts l k r) = HaveHeight n l × HaveHeight n r

put_before-CutHeight :
    (n : ℕ) (s : Shape) (k : Bytes) (c : Cut)
    → HasHeight n s
    → CutHeight n c
    → CutHeight n (put_before s k c)
put_before-CutHeight n s k (whole bs) h g = (h, g)
put_before-CutHeight n s k (parts l m r) h g = ((h, g.0), g.1)

cut-CutHeight : (i n : ℕ) (bs : Branches) → HaveHeight n bs → CutHeight n (cut i bs)
unfolding cut
cut-CutHeight i n (one s) h = h
cut-CutHeight zero n (more s k bs) h = h
cut-CutHeight (suc i) n (more s k bs) h =
    put_before-CutHeight n s k (cut i bs) h.0 (cut-CutHeight i n bs h.1)

halve-GrowthHeight :
    (fresh p n : ℕ) (c : Cut) → CutHeight n c → GrowthHeight (suc n) (halve fresh p c)
halve-GrowthHeight fresh p n (whole bs) h = (n, refl, h)
halve-GrowthHeight fresh p n (parts l k r) h = ((n, refl, h.0), (n, refl, h.1))

grown_node-GrowthHeight :
    (fresh p n : ℕ) (bs : Branches) → HaveHeight n bs → GrowthHeight (suc n) (grown_node fresh p bs)
unfolding grown_node
grown_node-GrowthHeight fresh p n bs h = elim (Bool-cases (ltb (length (keys bs)) 8)) [
  | inl e ↦ rw e (n, refl, h)
  | inr e ↦ rw e (halve-GrowthHeight fresh p n (cut 4 bs) (cut-CutHeight 4 n bs h))
]

grown_leaf-GrowthHeight : (fresh p : ℕ) (kvs : Pairs) → GrowthHeight 0 (grown_leaf fresh p kvs)
unfolding grown_leaf
grown_leaf-GrowthHeight fresh p kvs = elim (Bool-cases (ltb (length kvs) 8)) [
  | inl e ↦ rw e refl
  | inr e ↦ rw e (refl, refl)
]

as_branches-HaveHeight : (n : ℕ) (g : Growth) → GrowthHeight n g → HaveHeight n (as_branches g)
as_branches-HaveHeight n (done s) h = h
as_branches-HaveHeight n (split l k r) h = h

before_branches-HaveHeight :
    (n : ℕ) (g : Growth) (k : Bytes) (bs : Branches)
    → GrowthHeight n g
    → HaveHeight n bs
    → HaveHeight n (before_branches g k bs)
before_branches-HaveHeight n (done s) k bs h b = (h, b)
before_branches-HaveHeight n (split l m r) k bs h b = (h.0, (h.1, b))

mutual
  unfolding grow

  grow_height :
      (fresh n : ℕ) (key : Bytes) (r : Record) (s : Shape)
      → HasHeight n s
      → GrowthHeight n (grow fresh key r s).0
  grow_height fresh n key r (leaf p kvs) h =
      rw h (grown_leaf-GrowthHeight fresh p (insert_pair key r kvs))
  grow_height fresh n key r (inner p bs) h =
      let (bs', fresh') = grow_all fresh key r bs in
      rw h.1 (grown_node-GrowthHeight fresh' p h.0 bs' (grow_all_height fresh h.0 key r bs h.2))

  grow_all_height :
      (fresh n : ℕ) (key : Bytes) (r : Record) (bs : Branches)
      → HaveHeight n bs
      → HaveHeight n (grow_all fresh key r bs).0
  grow_all_height fresh n key r (one s) h =
      as_branches-HaveHeight n (grow fresh key r s).0 (grow_height fresh n key r s h)
  grow_all_height fresh n key r (more s k bs) h = elim (Bool-cases (below key k)) [
    | inl e ↦ rw e (
        before_branches-HaveHeight n (grow fresh key r s).0 k bs (grow_height fresh n key r s h.0)
          h.1)
    | inr e ↦ rw e (h.0, grow_all_height fresh n key r bs h.1)
  ]

-- A split node and its new neighbour are of one height.
pub grow-GrowthHeight :
    (fresh n : ℕ) (key : Bytes) (r : Record) (s : Shape)
    → HasHeight n s
    → GrowthHeight n (grow fresh key r s).0
grow-GrowthHeight fresh n key r s h = grow_height fresh n key r s h

pub grow_all-HaveHeight :
    (fresh n : ℕ) (key : Bytes) (r : Record) (bs : Branches)
    → HaveHeight n bs
    → HaveHeight n (grow_all fresh key r bs).0
grow_all-HaveHeight fresh n key r bs h = grow_all_height fresh n key r bs h
