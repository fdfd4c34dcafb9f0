-- ===== src/Bptree/Leaves.antt =====
-- A walk along the chain of leaves is one loop over what the leaves hold.
use nutsdb.Prelude.{
  ℕ, ◌≤◌, ◌≡◌, refl, sym, ap, ◌∙◌, true, false, Option, some, List, [], ◌∷◌, ◌++◌, inl, inr, length,
  length-append, arith, Bool-cases,
}
use mathlib.Core.List.{append_assoc, append-nil}
use nutsdb.Prelude.Words.{Bytes}
use nutsdb.Prelude.Compare.{below, below_asym, below_of_lt_not}
use nutsdb.Bptree.{Pairs, BpTree, leaf_node}
use nutsdb.Bptree.Shapes.{
  Shape, leaf, inner, Branches, one, more, Represents, RepresentsAll, flatten, flatten_all, size,
  size_all, leaf_addrs, leaf_addrs_all, Linked,
}
use nutsdb.Bptree.Ordered.{IsOrdered, AreOrdered, low_side, high_side}
use nutsdb.Bptree.Sorted.{All, All-imp, All-append}
use nutsdb.Bptree.Inserts.{leaf_addr, leaf_addr_all, leaf_pairs, leaf_pairs_all}

abbrev pub Leaves : Type 0
Leaves = List (ℕ × Pairs)

abbrev mutual
  pub leaves : Shape → Leaves
  leaves (leaf p kvs) = (p, kvs) ∷ []
  leaves (inner p bs) = leaves_all bs

  pub leaves_all : Branches → Leaves
  leaves_all (one s) = leaves s
  leaves_all (more s k bs) = leaves s ++ leaves_all bs

abbrev pub contents : Leaves → Pairs
contents [] = []
contents ((p, kvs) ∷ ls) = kvs ++ contents ls

abbrev pub addrs_of : Leaves → List ℕ
addrs_of [] = []
addrs_of ((p, kvs) ∷ ls) = p ∷ addrs_of ls

-- The memory holds the leaves.
abbrev pub Stored : BpTree → Leaves → Type 0
Stored t [] = Unit
Stored t ((p, kvs) ∷ ls) = (t.content p ≡ leaf_node kvs) × Stored t ls

contents-append : (xs ys : Leaves) → contents (xs ++ ys) ≡ contents xs ++ contents ys
contents-append [] ys = refl
contents-append ((p, kvs) ∷ xs) ys =
    ap (λ t. kvs ++ t) (contents-append xs ys) ∙ sym (append_assoc kvs (contents xs) (contents ys))

addrs_of-append : (xs ys : Leaves) → addrs_of (xs ++ ys) ≡ addrs_of xs ++ addrs_of ys
addrs_of-append [] ys = refl
addrs_of-append ((p, kvs) ∷ xs) ys = ap (◌∷◌ p) (addrs_of-append xs ys)

Stored-append : (t : BpTree) (xs ys : Leaves) → Stored t xs → Stored t ys → Stored t (xs ++ ys)
Stored-append t [] ys a b = b
Stored-append t ((p, kvs) ∷ xs) ys a b = (a.0, Stored-append t xs ys a.1 b)

pub Stored_rest : (t : BpTree) (xs ys : Leaves) → Stored t (xs ++ ys) → Stored t ys
Stored_rest t [] ys a = a
Stored_rest t ((p, kvs) ∷ xs) ys a = Stored_rest t xs ys a.1

pub Linked-rest : (next : ℕ → Option ℕ) (xs ys : List ℕ) → Linked next (xs ++ ys) → Linked next ys
Linked-rest next [] ys l = l
Linked-rest next (x ∷ xs) ys l = Linked-rest next xs ys l.1

mutual
  unfolding flatten size

  flat_leaves : (s : Shape) → contents (leaves s) ≡ flatten s
  flat_leaves (leaf p kvs) = append-nil kvs
  flat_leaves (inner p bs) = flat_leaves_all bs

  flat_leaves_all : (bs : Branches) → contents (leaves_all bs) ≡ flatten_all bs
  flat_leaves_all (one s) = flat_leaves s
  flat_leaves_all (more s k bs) =
      contents-append (leaves s) (leaves_all bs)
      ∙ ap (λ t. t ++ contents (leaves_all bs)) (flat_leaves s)
      ∙ ap (λ t. flatten s ++ t) (flat_leaves_all bs)

mutual
  addr_leaves : (s : Shape) → addrs_of (leaves s) ≡ leaf_addrs s
  addr_leaves (leaf p kvs) = refl
  addr_leaves (inner p bs) = addr_leaves_all bs

  addr_leaves_all : (bs : Branches) → addrs_of (leaves_all bs) ≡ leaf_addrs_all bs
  addr_leaves_all (one s) = addr_leaves s
  addr_leaves_all (more s k bs) =
      addrs_of-append (leaves s) (leaves_all bs)
      ∙ ap (λ t. t ++ addrs_of (leaves_all bs)) (addr_leaves s)
      ∙ ap (λ t. leaf_addrs s ++ t) (addr_leaves_all bs)

mutual
  stored : (t : BpTree) (up : Option ℕ) (s : Shape) → Represents t up s → Stored t (leaves s)
  stored t up (leaf p kvs) r = (r.0, tt)
  stored t up (inner p bs) r = stored_all t (some p) bs r.2

  stored_all :
      (t : BpTree) (up : Option ℕ) (bs : Branches)
      → RepresentsAll t up bs
      → Stored t (leaves_all bs)
  stored_all t up (one s) r = stored t up s r
  stored_all t up (more s k bs) r =
      Stored-append t (leaves s) (leaves_all bs) (stored t up s r.0) (stored_all t up bs r.1)

mutual
  unfolding size

  few_leaves : (s : Shape) → length (leaves s) ≤ size s
  few_leaves (leaf p kvs) = omega arith
  few_leaves (inner p bs) = omega (arith, few_leaves_all bs)

  few_leaves_all : (bs : Branches) → length (leaves_all bs) ≤ size_all bs
  few_leaves_all (one s) = few_leaves s
  few_leaves_all (more s k bs) =
      omega (arith, length-append (leaves s) (leaves_all bs), few_leaves s, few_leaves_all bs)

pub contents-leaves : (s : Shape) → contents (leaves s) ≡ flatten s
contents-leaves s = flat_leaves s

pub addrs_of-leaves : (s : Shape) → addrs_of (leaves s) ≡ leaf_addrs s
addrs_of-leaves s = addr_leaves s

pub leaves-Stored :
    (t : BpTree) (up : Option ℕ) (s : Shape) → Represents t up s → Stored t (leaves s)
leaves-Stored t up s r = stored t up s r

pub length-leaves : (s : Shape) → length (leaves s) ≤ size s
length-leaves s = few_leaves s

-- Where the leaf of a key stands: all before is below the key, and nothing after is.
pub record Located (key : Bytes) (ls : Leaves) (q : ℕ) (kvs : Pairs) : Type 0 where
  pub pre : Leaves
  pub post : Leaves
  pub place : ls ≡ pre ++ (q, kvs) ∷ post
  pub low : All (λ x. below x key ≡ true) (contents pre)
  pub high : All (λ x. below x key ≡ false) (contents post)

mutual
  unfolding leaf_addr leaf_pairs

  located :
      (key : Bytes) (lo hi : Option Bytes) (s : Shape)
      → IsOrdered lo hi s
      → Located key (leaves s) (leaf_addr key s) (leaf_pairs key s)
  located key lo hi (leaf p kvs) o = record {
    pre = [];
    post = [];
    place = refl;
    low = tt;
    high = tt;
  }
  located key lo hi (inner p bs) o = Located-all key lo hi bs o

  Located-all :
      (key : Bytes) (lo hi : Option Bytes) (bs : Branches)
      → AreOrdered lo hi bs
      → Located key (leaves_all bs) (leaf_addr_all key bs) (leaf_pairs_all key bs)
  Located-all key lo hi (one s) o = located key lo hi s o
  Located-all key lo hi (more s k bs) o = elim (Bool-cases (below key k)) [
    | inl e ↦
        let h = located key lo (some k) s o.0 in
        let high : All (λ x. below x key ≡ false) (contents (leaves_all bs)) =
          rw (flat_leaves_all bs) (
            All-imp _ _ (λ x g. below_asym key x (below_of_lt_not key k x e g)) (flatten_all bs)
              (high_side hi k bs o.2)) in
        rw e (record {
          pre = h.pre;
          post = h.post ++ leaves_all bs;
          place =
              ap (λ t. t ++ leaves_all bs) h.place
              ∙ append_assoc h.pre ((leaf_addr key s, leaf_pairs key s) ∷ h.post) (leaves_all bs);
          low = h.low;
          high =
              rw (contents-append h.post (leaves_all bs))
                (All-append _ (contents h.post) (contents (leaves_all bs)) h.high high);
        })
    | inr e ↦
        let h = Located-all key (some k) hi bs o.2 in
        let low : All (λ x. below x key ≡ true) (contents (leaves s)) =
          rw (flat_leaves s)
            (All-imp _ _ (λ x g. below_of_lt_not x k key g e) (flatten s) (low_side lo k s o.0)) in
        rw e (record {
          pre = leaves s ++ h.pre;
          post = h.post;
          place =
              ap (λ t. leaves s ++ t) h.place
              ∙ sym (
                  append_assoc (leaves s) h.pre
                    ((leaf_addr_all key bs, leaf_pairs_all key bs) ∷ h.post));
          low =
              rw (contents-append (leaves s) h.pre)
                (All-append _ (contents (leaves s)) (contents h.pre) low h.low);
          high = h.high;
        })
  ]

pub leaves-Located :
    (key : Bytes) (lo hi : Option Bytes) (s : Shape)
    → IsOrdered lo hi s
    → Located key (leaves s) (leaf_addr key s) (leaf_pairs key s)
leaves-Located key lo hi s o = located key lo hi s o
