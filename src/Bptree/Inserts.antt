-- ===== src/Bptree/Inserts.antt =====
-- `FindLeaf` and the rest of `Insert` on the memory, against the shape of the tree.
use nutsdb.Prelude.{
  ℕ, zero, suc, ◌+◌, ◌<◌, ◌≡◌, refl, ◌∙◌, Option, none, some, List, [], ◌∷◌, ◌++◌, inl, inr,
  if◌then◌else◌, ltb, length, get_elem?, arith, Bool-cases,
}
use nutsdb.Prelude.Words.{Bytes}
use nutsdb.Prelude.Compare.{below}
use nutsdb.Records.{Record}
use nutsdb.Bptree.{
  Pairs, BpTree, leaf_node, inner_node, insert_pair, child_index, find_leaf_from, find_in,
  insert_at_leaf,
}
use nutsdb.Bptree.Shapes.{
  Shape, leaf, inner, Branches, one, more, addr, keys, addrs, In, InAny, IsApart, AreApart,
  HasHeight, HaveHeight, Represents, RepresentsAll, flatten, flatten_all,
}
use nutsdb.Bptree.Growth.{Cut, whole, parts, cut, halve, grown_node, grown_leaf, grow, grow_all}
use nutsdb.Bptree.Heights.{Fits, FitAll}
use nutsdb.Bptree.Addresses.{In-grow_all, grow_all-AreApart, grow_all-le}
use nutsdb.Bptree.Ordered.{IsOrdered, AreOrdered, low_side, high_side}
use nutsdb.Bptree.Sorted.{find_in-append, find_in_above, find_in-below}
use nutsdb.Bptree.Runs.{Runs, leaf-Runs}
use nutsdb.Bptree.Climbs.{
  Around, RunsAll, growth_addr, one-Runs, before-Runs, rest_runs, Around-rest,
}
use nutsdb.Bptree.Nodes.{node-Runs}

-- The leaf that a key belongs to.
unfoldable mutual
  pub leaf_addr : Bytes → Shape → ℕ
  leaf_addr key (leaf p kvs) = p
  leaf_addr key (inner p bs) = leaf_addr_all key bs

  pub leaf_addr_all : Bytes → Branches → ℕ
  leaf_addr_all key (one s) = leaf_addr key s
  leaf_addr_all key (more s k bs) =
      let rest = leaf_addr_all key bs in if below key k then leaf_addr key s else rest

unfoldable mutual
  pub leaf_pairs : Bytes → Shape → Pairs
  leaf_pairs key (leaf p kvs) = kvs
  leaf_pairs key (inner p bs) = leaf_pairs_all key bs

  pub leaf_pairs_all : Bytes → Branches → Pairs
  leaf_pairs_all key (one s) = leaf_pairs key s
  leaf_pairs_all key (more s k bs) =
      let rest = leaf_pairs_all key bs in if below key k then leaf_pairs key s else rest

find_leaf_step :
    (n : ℕ) (t : BpTree) (p : ℕ) (key : Bytes) (ks : List Bytes) (cs : List ℕ)
    → t.content p ≡ inner_node ks cs
    → find_leaf_from (suc n) t p key
      ≡ elim (get_elem? cs (child_index key ks)) [ none ↦ none | some c ↦ find_leaf_from n t c key ]
unfolding find_leaf_from
find_leaf_step n t p key ks cs e = rw (e, find_leaf_from) refl

abbrev descend : ℕ → BpTree → Bytes → Option ℕ → Option ℕ
descend n t key none = none
descend n t key (some c) = find_leaf_from n t c key

find_leaf_descend :
    (n : ℕ) (t : BpTree) (p : ℕ) (key : Bytes) (ks : List Bytes) (cs : List ℕ)
    → t.content p ≡ inner_node ks cs
    → find_leaf_from (suc n) t p key ≡ descend n t key (get_elem? cs (child_index key ks))
find_leaf_descend n t p key ks cs e =
    find_leaf_step n t p key ks cs e ∙ same (get_elem? cs (child_index key ks))
  where
    same :
        (o : Option ℕ)
        → elim o [ none ↦ none | some c ↦ find_leaf_from n t c key ] ≡ descend n t key o
    same none = refl
    same (some c) = refl

leaf_found :
    (t : BpTree) (n p : ℕ) (key : Bytes) (kvs : Pairs)
    → t.content p ≡ leaf_node kvs
    → find_leaf_from (suc n) t p key ≡ some p
unfolding find_leaf_from
leaf_found t n p key kvs e = rw (e, find_leaf_from) refl

-- `FindLeaf` ends at the leaf of the key, which holds its pairs.
mutual
  unfolding child_index leaf_addr

  finds :
      (t : BpTree) (up : Option ℕ) (key : Bytes) (n m : ℕ) (s : Shape)
      → HasHeight m s
      → m < n
      → Represents t up s
      → find_leaf_from n t (addr s) key ≡ some (leaf_addr key s)
  finds t up key zero m s h lt r = absurd (omega arith)
  finds t up key (suc n) m (leaf p kvs) h lt r = leaf_found t n p key kvs r.0
  finds t up key (suc n) m (inner p bs) h lt r =
      find_leaf_descend n t p key (keys bs) (addrs bs) r.0
      ∙ finds_among t (some p) key n h.0 bs h.2 (omega arith) r.2

  finds_among :
      (t : BpTree) (up : Option ℕ) (key : Bytes) (n m : ℕ) (bs : Branches)
      → HaveHeight m bs
      → m < n
      → RepresentsAll t up bs
      → descend n t key (get_elem? (addrs bs) (child_index key (keys bs)))
        ≡ some (leaf_addr_all key bs)
  finds_among t up key n m (one s) h lt r = finds t up key n m s h lt r
  finds_among t up key n m (more s k bs) h lt r = elim (Bool-cases (below key k)) [
    | inl e ↦ rw e (finds t up key n m s h.0 lt r.0)
    | inr e ↦ rw e (finds_among t up key n m bs h.1 lt r.1)
  ]

mutual
  unfolding leaf_addr leaf_pairs

  at_leaf :
      (t : BpTree) (up : Option ℕ) (key : Bytes) (s : Shape)
      → Represents t up s
      → t.content (leaf_addr key s) ≡ leaf_node (leaf_pairs key s)
  at_leaf t up key (leaf p kvs) r = r.0
  at_leaf t up key (inner p bs) r = at_leaf_all t (some p) key bs r.2

  at_leaf_all :
      (t : BpTree) (up : Option ℕ) (key : Bytes) (bs : Branches)
      → RepresentsAll t up bs
      → t.content (leaf_addr_all key bs) ≡ leaf_node (leaf_pairs_all key bs)
  at_leaf_all t up key (one s) r = at_leaf t up key s r
  at_leaf_all t up key (more s k bs) r = elim (Bool-cases (below key k)) [
    | inl e ↦ rw e (at_leaf t up key s r.0)
    | inr e ↦ rw e (at_leaf_all t up key bs r.1)
  ]

-- The leaf holds of the key what the tree does.
mutual
  unfolding leaf_pairs flatten

  leaf_finds :
      (key : Bytes) (lo hi : Option Bytes) (s : Shape)
      → IsOrdered lo hi s
      → find_in key (flatten s) ≡ find_in key (leaf_pairs key s)
  leaf_finds key lo hi (leaf p kvs) o = refl
  leaf_finds key lo hi (inner p bs) o = leaf_finds_all key lo hi bs o

  leaf_finds_all :
      (key : Bytes) (lo hi : Option Bytes) (bs : Branches)
      → AreOrdered lo hi bs
      → find_in key (flatten_all bs) ≡ find_in key (leaf_pairs_all key bs)
  leaf_finds_all key lo hi (one s) o = leaf_finds key lo hi s o
  leaf_finds_all key lo hi (more s k bs) o = elim (Bool-cases (below key k)) [
    | inl e ↦ rw e (
        find_in-append key (flatten s) (flatten_all bs)
        ∙ first (find_in key (flatten s)) (find_in key (flatten_all bs))
            (find_in_above key k (flatten_all bs) e (high_side hi k bs o.2))
        ∙ leaf_finds key lo (some k) s o.0)
    | inr e ↦ rw e (
        find_in-append key (flatten s) (flatten_all bs)
        ∙ second (find_in key (flatten s)) (find_in key (flatten_all bs))
            (find_in-below key k (flatten s) e (low_side lo k s o.0))
        ∙ leaf_finds_all key (some k) hi bs o.2)
  ]
    where
      first : (a b : Option Record) → b ≡ none → elim a [ none ↦ b | some r ↦ some r ] ≡ a
      first none b h = h
      first (some r) b h = refl

      second : (a b : Option Record) → a ≡ none → elim a [ none ↦ b | some r ↦ some r ] ≡ b
      second none b h = refl
      second (some r) b h = cc

pub content-leaf_addr :
    (t : BpTree) (up : Option ℕ) (key : Bytes) (s : Shape)
    → Represents t up s
    → t.content (leaf_addr key s) ≡ leaf_node (leaf_pairs key s)
content-leaf_addr t up key s r = at_leaf t up key s r

pub find_leaf_from_lem :
    (t : BpTree) (up : Option ℕ) (key : Bytes) (n m : ℕ) (s : Shape)
    → HasHeight m s
    → m < n
    → Represents t up s
    → find_leaf_from n t (addr s) key ≡ some (leaf_addr key s)
find_leaf_from_lem t up key n m s h lt r = finds t up key n m s h lt r

pub find_in-flatten :
    (key : Bytes) (lo hi : Option Bytes) (s : Shape)
    → IsOrdered lo hi s
    → find_in key (flatten s) ≡ find_in key (leaf_pairs key s)
find_in-flatten key lo hi s o = leaf_finds key lo hi s o

halve_addr : (fresh p : ℕ) (c : Cut) → growth_addr (halve fresh p c) ≡ p
halve_addr fresh p (whole bs) = refl
halve_addr fresh p (parts l k r) = refl

-- A node that is split stays where it was, and the other part is new.
pub grow-addr :
    (fresh : ℕ) (key : Bytes) (r : Record) (s : Shape) → growth_addr (grow fresh key r s).0 ≡ addr s
unfolding grow grown_leaf grown_node
grow-addr fresh key r (leaf p kvs) = elim (Bool-cases (ltb (length (insert_pair key r kvs)) 8)) [
  | inl e ↦ rw e
  | inr e ↦ rw e
]
grow-addr fresh key r (inner p bs) =
    let (bs', fresh') = grow_all fresh key r bs in
    elim (Bool-cases (ltb (length (keys bs')) 8)) [
      | inl e ↦ rw e
      | inr e ↦ rw e (halve_addr fresh' p (cut 4 bs'))
    ]

mutual
  unfolding grow leaf_addr

  runs :
      (t : BpTree) (up : Option ℕ) (key : Bytes) (r : Record) (n f : ℕ) (s : Shape)
      → HasHeight n s
      → Fits s
      → IsApart s
      → ((a : ℕ) → In a s → a < t.last_address)
      → Represents t up s
      → Runs t up s f
          (insert_at_leaf (f + n) (leaf_addr key s) key r t)
          (grow t.last_address key r s).0
          (grow t.last_address key r s).1
  runs t up key r n f (leaf p kvs) h fits d under rep =
      let same : f + n ≡ f = omega arith in
      rw same (leaf-Runs t up f p kvs key r (under p refl) rep)
  runs t up key r n f (inner p bs) h fits d under rep =
      let same : f + n ≡ suc f + h.0 = (let e = h.1 in omega arith) in
      let (bs', fresh') = grow_all t.last_address key r bs in
      let around : Around t p bs [] [] = record {
        content = rep.0;
        old = under p (inl refl);
        outside = d.0;
        even = refl;
        before = λ a e i. absurd e;
      } in
      let inside : RunsAll t p bs f (insert_at_leaf (suc f + h.0) (leaf_addr_all key bs) key r t)
          bs' fresh' [] [] =
        runs_all t p key r h.0 f bs [] [] h.2 fits.1 d.1 (λ a i. under a (inr i)) rep.2 around in
      rw same (
        node-Runs t up p bs bs' f (insert_at_leaf (suc f + h.0) (leaf_addr_all key bs) key r t)
          fresh'
          (record {
            content = rep.0;
            parent = rep.1;
            old = under p (inl refl);
            rest = grow_all-le t.last_address key r bs;
            outside = d.0;
            outside' = λ i. elim (In-grow_all t.last_address p key r bs i) [
              | inl j ↦ d.0 j
              | inr g ↦ let b = under p (inl refl) in omega arith
            ];
            apart = grow_all-AreApart t.last_address key r bs d.1 (λ a i. under a (inr i));
            under = λ a i. elim (In-grow_all t.last_address a key r bs i) [
              | inl j ↦
                  let b = under a (inr j) in
                  let le = grow_all-le t.last_address key r bs in omega arith
              | inr g ↦ g.1
            ];
            room = fits.0;
            origin = λ a i. elim (In-grow_all t.last_address a key r bs i) [
              | inl j ↦ inl j
              | inr g ↦ inr g.0
            ];
          })
          inside)

  runs_all :
      (t : BpTree) (p : ℕ) (key : Bytes) (r : Record) (n f : ℕ) (bs : Branches) (pk : List Bytes)
      (pc : List ℕ)
      → HaveHeight n bs
      → FitAll bs
      → AreApart bs
      → ((a : ℕ) → InAny a bs → a < t.last_address)
      → RepresentsAll t (some p) bs
      → Around t p bs pk pc
      → RunsAll t p bs f
          (insert_at_leaf (suc f + n) (leaf_addr_all key bs) key r t)
          (grow_all t.last_address key r bs).0
          (grow_all t.last_address key r bs).1
          pk
          pc
  runs_all t p key r n f (one s) pk pc h fits d under rep around =
      one-Runs t p s f (insert_at_leaf (suc f + n) (leaf_addr key s) key r t)
        (grow t.last_address key r s).0 (grow t.last_address key r s).1 pk pc around
        (grow-addr t.last_address key r s) (runs t (some p) key r n (suc f) s h fits d under rep)
  runs_all t p key r n f (more s k bs) pk pc h fits d under rep around =
      elim (Bool-cases (below key k)) [
        | inl e ↦ rw e (
            before-Runs t p s k bs f (insert_at_leaf (suc f + n) (leaf_addr key s) key r t)
              (grow t.last_address key r s).0 (grow t.last_address key r s).1 pk pc around
              (grow-addr t.last_address key r s) under d rep.1
              (runs t (some p) key r n (suc f) s h.0 fits.0 d.0 (λ a i. under a (inl i)) rep.0))
        | inr e ↦ rw e (
            rest_runs t p s k bs f (insert_at_leaf (suc f + n) (leaf_addr_all key bs) key r t)
              (grow_all t.last_address key r bs).0 (grow_all t.last_address key r bs).1 pk pc under
              d rep.0
              (runs_all t p key r n f bs (pk ++ k ∷ []) (pc ++ addr s ∷ []) h.1 fits.1 d.1
                (λ a i. under a (inr i)) rep.1 (Around-rest t p s k bs pk pc d around)))
      ]

pub insert_at_leaf-Runs :
    (t : BpTree) (up : Option ℕ) (key : Bytes) (r : Record) (n f : ℕ) (s : Shape)
    → HasHeight n s
    → Fits s
    → IsApart s
    → ((a : ℕ) → In a s → a < t.last_address)
    → Represents t up s
    → Runs t up s f
        (insert_at_leaf (f + n) (leaf_addr key s) key r t)
        (grow t.last_address key r s).0
        (grow t.last_address key r s).1
insert_at_leaf-Runs t up key r n f s h fits d under rep = runs t up key r n f s h fits d under rep
