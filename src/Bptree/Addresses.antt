-- ===== src/Bptree/Addresses.antt =====
-- The addresses of the nodes after an insertion: the old ones and fresh ones, with no two alike.
use nutsdb.Prelude.{
  ℕ, zero, suc, ◌≤◌, ◌<◌, ◌≡◌, refl, true, false, ◌⊎◌, inl, inr, if◌then◌else◌, ltb, length, arith,
  Bool-cases,
}
use nutsdb.Prelude.Words.{Bytes}
use nutsdb.Prelude.Compare.{below}
use nutsdb.Records.{Record}
use nutsdb.Bptree.{Pairs, insert_pair}
use nutsdb.Bptree.Shapes.{
  Shape, leaf, inner, Branches, one, more, keys, In, InAny, IsApart, AreApart,
}
use nutsdb.Bptree.Growth.{
  Growth, done, split, Cut, whole, parts, put_before, cut, halve, grown_node, grown_leaf,
  next_fresh, as_branches, before_branches, grow, grow_all,
}

-- The addresses of two nodes that were one, and of branches that were cut.
abbrev pub InGrowth : ℕ → Growth → Type 0
InGrowth a (done s) = In a s
InGrowth a (split l k r) = In a l ⊎ In a r

abbrev pub GrowthApart : Growth → Type 0
GrowthApart (done s) = IsApart s
GrowthApart (split l k r) = IsApart l × IsApart r × ((a : ℕ) → In a l → ¬ In a r)

abbrev pub InCut : ℕ → Cut → Type 0
InCut a (whole bs) = InAny a bs
InCut a (parts l k r) = InAny a l ⊎ InAny a r

abbrev pub CutApart : Cut → Type 0
CutApart (whole bs) = AreApart bs
CutApart (parts l k r) = AreApart l × AreApart r × ((a : ℕ) → InAny a l → ¬ InAny a r)

InCut-put_before :
    (a : ℕ) (s : Shape) (k : Bytes) (c : Cut) → InCut a (put_before s k c) → In a s ⊎ InCut a c
InCut-put_before a s k (whole bs) i = i
InCut-put_before a s k (parts l m r) (inl (inl i)) = inl i
InCut-put_before a s k (parts l m r) (inl (inr i)) = inr (inl i)
InCut-put_before a s k (parts l m r) (inr i) = inr (inr i)

pub InCut-cut : (i a : ℕ) (bs : Branches) → InCut a (cut i bs) → InAny a bs
unfolding cut
InCut-cut i a (one s) h = h
InCut-cut zero a (more s k bs) h = h
InCut-cut (suc i) a (more s k bs) h = elim (InCut-put_before a s k (cut i bs) h) [
  | inl e ↦ inl e
  | inr e ↦ inr (InCut-cut i a bs e)
]

put_before-CutApart :
    (s : Shape) (k : Bytes) (c : Cut)
    → IsApart s
    → CutApart c
    → ((a : ℕ) → In a s → ¬ InCut a c)
    → CutApart (put_before s k c)
put_before-CutApart s k (whole bs) p q d = (p, q, d)
put_before-CutApart s k (parts l m r) p q d = ((p, q.0, λ a h g. d a h (inl g)), q.1, apart)
  where
    apart : (a : ℕ) → In a s ⊎ InAny a l → ¬ InAny a r
    apart a (inl h) g = d a h (inr g)
    apart a (inr h) g = q.2 a h g

pub cut-CutApart : (i : ℕ) (bs : Branches) → AreApart bs → CutApart (cut i bs)
unfolding cut
cut-CutApart i (one s) d = d
cut-CutApart zero (more s k bs) d = d
cut-CutApart (suc i) (more s k bs) d =
    put_before-CutApart s k (cut i bs) d.0 (cut-CutApart i bs d.1)
      (λ a h g. d.2 a h (InCut-cut i a bs g))

-- An address from `fresh` on, below `end`.
abbrev IsFresh : ℕ → ℕ → ℕ → Type 0
IsFresh fresh end a = (fresh ≤ a) × (a < end)

InGrowth-halve :
    (fresh p a : ℕ) (c : Cut)
    → InGrowth a (halve fresh p c)
    → (a ≡ p) ⊎ InCut a c ⊎ IsFresh fresh (next_fresh fresh (halve fresh p c)) a
InGrowth-halve fresh p a (whole bs) (inl e) = inl e
InGrowth-halve fresh p a (whole bs) (inr i) = inr (inl i)
InGrowth-halve fresh p a (parts l k r) (inl (inl e)) = inl e
InGrowth-halve fresh p a (parts l k r) (inl (inr i)) = inr (inl (inl i))
InGrowth-halve fresh p a (parts l k r) (inr (inl e)) = inr (inr (omega arith))
InGrowth-halve fresh p a (parts l k r) (inr (inr i)) = inr (inl (inr i))

InGrowth-grown_node :
    (fresh p a : ℕ) (bs : Branches)
    → InGrowth a (grown_node fresh p bs)
    → (a ≡ p) ⊎ InAny a bs ⊎ IsFresh fresh (next_fresh fresh (grown_node fresh p bs)) a
unfolding grown_node
InGrowth-grown_node fresh p a bs =
    elim (ltb (length (keys bs)) 8)
      as (λ b.
        let g = if b then done (inner p bs) else halve fresh p (cut 4 bs) in
        InGrowth a g → (a ≡ p) ⊎ InAny a bs ⊎ IsFresh fresh (next_fresh fresh g) a) [
          | true ↦ λ h. elim h [ inl e ↦ inl e | inr i ↦ inr (inl i) ]
          | false ↦ λ h. elim (InGrowth-halve fresh p a (cut 4 bs) h) [
            | inl e ↦ inl e
            | inr (inl i) ↦ inr (inl (InCut-cut 4 a bs i))
            | inr (inr f) ↦ inr (inr f)
          ]
        ]

halve-GrowthApart :
    (fresh p : ℕ) (c : Cut)
    → CutApart c
    → ¬ InCut p c
    → ¬ InCut fresh c
    → p < fresh
    → GrowthApart (halve fresh p c)
halve-GrowthApart fresh p (whole bs) d np nf h = (np, d)
halve-GrowthApart fresh p (parts l k r) d np nf h =
    ((λ i. np (inl i), d.0), (λ i. nf (inr i), d.1), apart)
  where
    apart : (a : ℕ) → (a ≡ p) ⊎ InAny a l → ¬ ((a ≡ fresh) ⊎ InAny a r)
    apart a (inl e) (inl g) = omega arith
    apart a (inl e) (inr g) = np (inr (rw (← e) g))
    apart a (inr i) (inl g) = nf (inl (rw (← g) i))
    apart a (inr i) (inr g) = d.2 a i g

grown_node-GrowthApart :
    (fresh p : ℕ) (bs : Branches)
    → AreApart bs
    → ¬ InAny p bs
    → ((a : ℕ) → InAny a bs → a < fresh)
    → p < fresh
    → GrowthApart (grown_node fresh p bs)
unfolding grown_node
grown_node-GrowthApart fresh p bs d np under h = elim (Bool-cases (ltb (length (keys bs)) 8)) [
  | inl e ↦ rw e (np, d)
  | inr e ↦ rw e (
      halve-GrowthApart fresh p (cut 4 bs) (cut-CutApart 4 bs d) (λ i. np (InCut-cut 4 p bs i))
        (λ i. let c = under fresh (InCut-cut 4 fresh bs i) in omega arith) h)
]

next_fresh-le : (fresh : ℕ) (g : Growth) → fresh ≤ next_fresh fresh g
next_fresh-le fresh (done s) = omega arith
next_fresh-le fresh (split l k r) = omega arith

mutual
  unfolding grow

  fresh_le : (fresh : ℕ) (key : Bytes) (r : Record) (s : Shape) → fresh ≤ (grow fresh key r s).1
  fresh_le fresh key r (leaf p kvs) =
      next_fresh-le fresh (grown_leaf fresh p (insert_pair key r kvs))
  fresh_le fresh key r (inner p bs) =
      let (bs', fresh') = grow_all fresh key r bs in
      let first : fresh ≤ fresh' = fresh_all_le fresh key r bs in
      omega (arith, next_fresh-le fresh' (grown_node fresh' p bs'))

  fresh_all_le :
      (fresh : ℕ) (key : Bytes) (r : Record) (bs : Branches) → fresh ≤ (grow_all fresh key r bs).1
  fresh_all_le fresh key r (one s) = fresh_le fresh key r s
  fresh_all_le fresh key r (more s k bs) =
      ground (arith, fresh_le fresh key r s, fresh_all_le fresh key r bs)

pub grow-le : (fresh : ℕ) (key : Bytes) (r : Record) (s : Shape) → fresh ≤ (grow fresh key r s).1
grow-le fresh key r s = fresh_le fresh key r s

pub grow_all-le :
    (fresh : ℕ) (key : Bytes) (r : Record) (bs : Branches) → fresh ≤ (grow_all fresh key r bs).1
grow_all-le fresh key r bs = fresh_all_le fresh key r bs

InGrowth-grown_leaf :
    (fresh p a : ℕ) (kvs : Pairs)
    → InGrowth a (grown_leaf fresh p kvs)
    → (a ≡ p) ⊎ IsFresh fresh (next_fresh fresh (grown_leaf fresh p kvs)) a
unfolding grown_leaf
InGrowth-grown_leaf fresh p a kvs = ground arith

InAny-as_branches : (a : ℕ) (g : Growth) → InAny a (as_branches g) → InGrowth a g
InAny-as_branches a (done s) i = i
InAny-as_branches a (split l k r) i = i

InAny-before_branches :
    (a : ℕ) (g : Growth) (k : Bytes) (bs : Branches)
    → InAny a (before_branches g k bs)
    → InGrowth a g ⊎ InAny a bs
InAny-before_branches a (done s) k bs i = i
InAny-before_branches a (split l m r) k bs (inl i) = inl (inl i)
InAny-before_branches a (split l m r) k bs (inr (inl i)) = inl (inr i)
InAny-before_branches a (split l m r) k bs (inr (inr i)) = inr i

mutual
  unfolding grow

  In-grow' :
      (fresh a : ℕ) (key : Bytes) (r : Record) (s : Shape)
      → InGrowth a (grow fresh key r s).0
      → In a s ⊎ IsFresh fresh (grow fresh key r s).1 a
  In-grow' fresh a key r (leaf p kvs) i = InGrowth-grown_leaf fresh p a (insert_pair key r kvs) i
  In-grow' fresh a key r (inner p bs) i =
      let (bs', fresh') = grow_all fresh key r bs in
      let le : fresh ≤ fresh' = fresh_all_le fresh key r bs in
      let up = next_fresh-le fresh' (grown_node fresh' p bs') in
      elim (InGrowth-grown_node fresh' p a bs' i) [
        | inl e ↦ inl (inl e)
        | inr (inl j) ↦ elim (in_grow_all fresh a key r bs j) [
          | inl b ↦ inl (inr b)
          | inr f ↦ inr (omega arith)
        ]
        | inr (inr f) ↦ inr (omega arith)
      ]

  in_grow_all :
      (fresh a : ℕ) (key : Bytes) (r : Record) (bs : Branches)
      → InAny a (grow_all fresh key r bs).0
      → InAny a bs ⊎ IsFresh fresh (grow_all fresh key r bs).1 a
  in_grow_all fresh a key r (one s) i =
      In-grow' fresh a key r s (InAny-as_branches a (grow fresh key r s).0 i)
  in_grow_all fresh a key r (more s k bs) i = elim (Bool-cases (below key k)) [
    | inl e ↦
        let g = (grow fresh key r s).0 in
        let inside : InAny a (before_branches g k bs) = rw e at i in
        rw e (elim (InAny-before_branches a g k bs inside) [
          | inl j ↦ elim (In-grow' fresh a key r s j) [ inl h ↦ inl (inl h) | inr f ↦ inr f ]
          | inr j ↦ inl (inr j)
        ])
    | inr e ↦
        let inside : In a s ⊎ InAny a (grow_all fresh key r bs).0 = rw e at i in
        rw e (elim inside [
          | inl j ↦ inl (inl j)
          | inr j ↦ elim (in_grow_all fresh a key r bs j) [ inl h ↦ inl (inr h) | inr f ↦ inr f ]
        ])
  ]

as_branches-AreApart : (g : Growth) → GrowthApart g → AreApart (as_branches g)
as_branches-AreApart (done s) d = d
as_branches-AreApart (split l k r) d = d

before_branches-AreApart :
    (g : Growth) (k : Bytes) (bs : Branches)
    → GrowthApart g
    → AreApart bs
    → ((a : ℕ) → InGrowth a g → ¬ InAny a bs)
    → AreApart (before_branches g k bs)
before_branches-AreApart (done s) k bs d b h = (d, b, h)
before_branches-AreApart (split l m r) k bs d b h = (d.0, (d.1, b, λ a i. h a (inr i)), apart)
  where
    apart : (a : ℕ) → In a l → ¬ (In a r ⊎ InAny a bs)
    apart a i (inl j) = d.2 a i j
    apart a i (inr j) = h a (inl i) j

grown_leaf-GrowthApart :
    (fresh p : ℕ) (kvs : Pairs) → p < fresh → GrowthApart (grown_leaf fresh p kvs)
unfolding grown_leaf
grown_leaf-GrowthApart fresh p kvs h = elim (Bool-cases (ltb (length kvs) 8)) [
  | inl e ↦ rw e tt
  | inr e ↦ rw e (tt, tt, λ a i j. omega arith)
]

mutual
  unfolding grow

  grow_apart :
      (fresh : ℕ) (key : Bytes) (r : Record) (s : Shape)
      → IsApart s
      → ((a : ℕ) → In a s → a < fresh)
      → GrowthApart (grow fresh key r s).0
  grow_apart fresh key r (leaf p kvs) d under =
      grown_leaf-GrowthApart fresh p (insert_pair key r kvs) (under p refl)
  grow_apart fresh key r (inner p bs) d under =
      let (bs', fresh') = grow_all fresh key r bs in
      let le : fresh ≤ fresh' = fresh_all_le fresh key r bs in
      let old : p < fresh = under p (inl refl) in
      grown_node-GrowthApart fresh' p bs'
        (grow_all_apart fresh key r bs d.1 (λ a i. under a (inr i)))
        (λ i. elim (in_grow_all fresh p key r bs i) [ inl h ↦ d.0 h | inr f ↦ omega arith ])
        (λ a i. elim (in_grow_all fresh a key r bs i) [
          | inl h ↦ let u = under a (inr h) in omega arith
          | inr f ↦ f.1
        ])
        (omega arith)

  grow_all_apart :
      (fresh : ℕ) (key : Bytes) (r : Record) (bs : Branches)
      → AreApart bs
      → ((a : ℕ) → InAny a bs → a < fresh)
      → AreApart (grow_all fresh key r bs).0
  grow_all_apart fresh key r (one s) d under =
      as_branches-AreApart (grow fresh key r s).0 (grow_apart fresh key r s d under)
  grow_all_apart fresh key r (more s k bs) d under = elim (Bool-cases (below key k)) [
    | inl e ↦ rw e (
        before_branches-AreApart (grow fresh key r s).0 k bs
          (grow_apart fresh key r s d.0 (λ a i. under a (inl i))) d.1
          (λ a i j. elim (In-grow' fresh a key r s i) [
            | inl h ↦ d.2 a h j
            | inr f ↦ let u = under a (inr j) in omega arith
          ]))
    | inr e ↦ rw e (
      d.0,
      grow_all_apart fresh key r bs d.1 (λ a i. under a (inr i)),
      λ a i j. elim (in_grow_all fresh a key r bs j) [
        | inl h ↦ d.2 a i h
        | inr f ↦ let u = under a (inl i) in omega arith
      ],
    )
  ]

-- The addresses after an insertion are the old ones and fresh ones.
pub In-grow :
    (fresh a : ℕ) (key : Bytes) (r : Record) (s : Shape)
    → InGrowth a (grow fresh key r s).0
    → In a s ⊎ ((fresh ≤ a) × (a < (grow fresh key r s).1))
In-grow fresh a key r s i = In-grow' fresh a key r s i

pub In-grow_all :
    (fresh a : ℕ) (key : Bytes) (r : Record) (bs : Branches)
    → InAny a (grow_all fresh key r bs).0
    → InAny a bs ⊎ ((fresh ≤ a) × (a < (grow_all fresh key r bs).1))
In-grow_all fresh a key r bs i = in_grow_all fresh a key r bs i

-- No two nodes after an insertion share an address.
pub grow-GrowthApart :
    (fresh : ℕ) (key : Bytes) (r : Record) (s : Shape)
    → IsApart s
    → ((a : ℕ) → In a s → a < fresh)
    → GrowthApart (grow fresh key r s).0
grow-GrowthApart fresh key r s d under = grow_apart fresh key r s d under

pub grow_all-AreApart :
    (fresh : ℕ) (key : Bytes) (r : Record) (bs : Branches)
    → AreApart bs
    → ((a : ℕ) → InAny a bs → a < fresh)
    → AreApart (grow_all fresh key r bs).0
grow_all-AreApart fresh key r bs d under = grow_all_apart fresh key r bs d under
