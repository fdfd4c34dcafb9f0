-- ===== src/Bptree/Chains.antt =====
-- The chain of the leaves after an insertion: a new leaf stands right after the one it was split
-- from, and the rest of the chain is as before.
use nutsdb.Prelude.{
  ℕ, zero, suc, ◌≡◌, refl, sym, ap, ◌∙◌, List, [], ◌∷◌, ◌++◌, inl, inr, if◌then◌else◌, ltb, length,
  Bool-cases,
}
use mathlib.Core.List.{append_assoc, append-nil}
use nutsdb.Prelude.Words.{Bytes}
use nutsdb.Prelude.Compare.{below}
use nutsdb.Records.{Record}
use nutsdb.Bptree.{Pairs, insert_pair}
use nutsdb.Bptree.Shapes.{Shape, leaf, inner, Branches, one, more, keys, leaf_addrs, leaf_addrs_all}
use nutsdb.Bptree.Growth.{
  Growth, done, split, Cut, whole, parts, put_before, cut, halve, grown_node, grown_leaf,
  as_branches, before_branches, grow, grow_all,
}
use nutsdb.Bptree.Inserts.{leaf_addr, leaf_addr_all, leaf_pairs, leaf_pairs_all}

abbrev pub growth_leaves : Growth → List ℕ
growth_leaves (done s) = leaf_addrs s
growth_leaves (split l k r) = leaf_addrs l ++ leaf_addrs r

abbrev cut_leaves : Cut → List ℕ
cut_leaves (whole bs) = leaf_addrs_all bs
cut_leaves (parts l k r) = leaf_addrs_all l ++ leaf_addrs_all r

put_before_leaves :
    (s : Shape) (k : Bytes) (c : Cut) → cut_leaves (put_before s k c) ≡ leaf_addrs s ++ cut_leaves c
put_before_leaves s k (whole bs) = refl
put_before_leaves s k (parts l m r) =
    append_assoc (leaf_addrs s) (leaf_addrs_all l) (leaf_addrs_all r)

cut_leaves-cut : (i : ℕ) (bs : Branches) → cut_leaves (cut i bs) ≡ leaf_addrs_all bs
unfolding cut
cut_leaves-cut i (one s) = refl
cut_leaves-cut zero (more s k bs) = refl
cut_leaves-cut (suc i) (more s k bs) =
    put_before_leaves s k (cut i bs) ∙ ap (λ t. leaf_addrs s ++ t) (cut_leaves-cut i bs)

halve_leaves : (fresh p : ℕ) (c : Cut) → growth_leaves (halve fresh p c) ≡ cut_leaves c
halve_leaves fresh p (whole bs) = refl
halve_leaves fresh p (parts l k r) = refl

grown_node_leaves :
    (fresh p : ℕ) (bs : Branches) → growth_leaves (grown_node fresh p bs) ≡ leaf_addrs_all bs
unfolding grown_node
grown_node_leaves fresh p bs = elim (Bool-cases (ltb (length (keys bs)) 8)) [
  | inl e ↦ rw e
  | inr e ↦ rw e (halve_leaves fresh p (cut 4 bs) ∙ cut_leaves-cut 4 bs)
]

-- The leaf that is split off, if any.
abbrev pub split_off : ℕ → Pairs → List ℕ
split_off fresh kvs = if ltb (length kvs) 8 then [] else fresh ∷ []

grown_leaf_leaves :
    (fresh p : ℕ) (kvs : Pairs) → growth_leaves (grown_leaf fresh p kvs) ≡ p ∷ split_off fresh kvs
unfolding grown_leaf
grown_leaf_leaves fresh p kvs = elim (Bool-cases (ltb (length kvs) 8)) [
  | inl e ↦ rw e
  | inr e ↦ rw e
]

-- Where a leaf stands in the chain, before and after.
pub record Placed (old new : List ℕ) (q : ℕ) (extra : List ℕ) : Type 0 where
  pub pre : List ℕ
  pub post : List ℕ
  pub old_eq : old ≡ pre ++ q ∷ post
  pub new_eq : new ≡ pre ++ q ∷ (extra ++ post)

Placed-before :
    (xs old new : List ℕ) (q : ℕ) (extra : List ℕ)
    → Placed old new q extra
    → Placed (xs ++ old) (xs ++ new) q extra
Placed-before xs old new q extra h = record {
  pre = xs ++ h.pre;
  post = h.post;
  old_eq = ap (λ t. xs ++ t) h.old_eq ∙ sym (append_assoc xs h.pre (q ∷ h.post));
  new_eq = ap (λ t. xs ++ t) h.new_eq ∙ sym (append_assoc xs h.pre (q ∷ (extra ++ h.post)));
}

Placed-after :
    (ys old new : List ℕ) (q : ℕ) (extra : List ℕ)
    → Placed old new q extra
    → Placed (old ++ ys) (new ++ ys) q extra
Placed-after ys old new q extra h = record {
  pre = h.pre;
  post = h.post ++ ys;
  old_eq = ap (λ t. t ++ ys) h.old_eq ∙ append_assoc h.pre (q ∷ h.post) ys;
  new_eq =
      ap (λ t. t ++ ys) h.new_eq
      ∙ append_assoc h.pre (q ∷ (extra ++ h.post)) ys
      ∙ ap (λ t. h.pre ++ q ∷ t) (append_assoc extra h.post ys);
}

as_branches_leaves : (g : Growth) → leaf_addrs_all (as_branches g) ≡ growth_leaves g
as_branches_leaves (done s) = refl
as_branches_leaves (split l k r) = refl

before_branches_leaves :
    (g : Growth) (k : Bytes) (bs : Branches)
    → leaf_addrs_all (before_branches g k bs) ≡ growth_leaves g ++ leaf_addrs_all bs
before_branches_leaves (done s) k bs = refl
before_branches_leaves (split l m r) k bs =
    sym (append_assoc (leaf_addrs l) (leaf_addrs r) (leaf_addrs_all bs))

mutual
  unfolding grow leaf_addr leaf_pairs

  placed :
      (fresh : ℕ) (key : Bytes) (r : Record) (s : Shape)
      → Placed
          (leaf_addrs s)
          (growth_leaves (grow fresh key r s).0)
          (leaf_addr key s)
          (split_off fresh (insert_pair key r (leaf_pairs key s)))
  placed fresh key r (leaf p kvs) = record {
    pre = [];
    post = [];
    old_eq = refl;
    new_eq =
        grown_leaf_leaves fresh p (insert_pair key r kvs)
        ∙ ap (◌∷◌ p) (sym (append-nil (split_off fresh (insert_pair key r kvs))));
  }
  placed fresh key r (inner p bs) =
      let (bs', fresh') = grow_all fresh key r bs in
      rw (grown_node_leaves fresh' p bs') (Placed-all fresh key r bs)

  Placed-all :
      (fresh : ℕ) (key : Bytes) (r : Record) (bs : Branches)
      → Placed
          (leaf_addrs_all bs)
          (leaf_addrs_all (grow_all fresh key r bs).0)
          (leaf_addr_all key bs)
          (split_off fresh (insert_pair key r (leaf_pairs_all key bs)))
  Placed-all fresh key r (one s) =
      rw (as_branches_leaves (grow fresh key r s).0) (placed fresh key r s)
  Placed-all fresh key r (more s k bs) = elim (Bool-cases (below key k)) [
    | inl e ↦
        rw (e, before_branches_leaves (grow fresh key r s).0 k bs)
          (Placed-after (leaf_addrs_all bs) (leaf_addrs s) (growth_leaves (grow fresh key r s).0)
            (leaf_addr key s) (split_off fresh (insert_pair key r (leaf_pairs key s)))
            (placed fresh key r s))
    | inr e ↦ rw e (
        Placed-before (leaf_addrs s) (leaf_addrs_all bs)
          (leaf_addrs_all (grow_all fresh key r bs).0) (leaf_addr_all key bs)
          (split_off fresh (insert_pair key r (leaf_pairs_all key bs))) (Placed-all fresh key r bs))
  ]

pub grow-Placed :
    (fresh : ℕ) (key : Bytes) (r : Record) (s : Shape)
    → Placed
        (leaf_addrs s)
        (growth_leaves (grow fresh key r s).0)
        (leaf_addr key s)
        (split_off fresh (insert_pair key r (leaf_pairs key s)))
grow-Placed fresh key r s = placed fresh key r s
