-- ===== src/Bptree/Models.antt =====
-- The state of a tree in memory, and the sorted list of pairs that it stands for: `Find` reads the
-- list, and `Insert` changes it.
use nutsdb.Prelude.{
  ℕ, suc, ◌+◌, ◌-◌, ◌*◌, ◌<◌, ◌≡◌, ◌≢◌, refl, sym, ap, ◌∙◌, Option, none, some, List, [], ◌∷◌, ◌++◌,
  ◌⊎◌, inl, inr, arith,
}
use nutsdb.Prelude.Words.{Bytes}
use nutsdb.Records.{Record}
use nutsdb.Bptree.{
  Pairs, BpTree, leaf_node, inner_node, write, alloc, insert_pair, find_leaf_from, find_in, find,
  start_new_tree, insert_into_new_root, insert_at_leaf, binary_node_size,
}
use nutsdb.Bptree.Shapes.{
  Shape, leaf, inner, Branches, one, more, addr, In, IsApart, HasHeight, HaveHeight, Represents,
  flatten, size, size_all, leaf_addrs, Linked,
}
use nutsdb.Bptree.Growth.{Growth, done, split, grow}
use nutsdb.Bptree.Heights.{Fits, GrowthFits, GrowthHeight, grow-GrowthHeight}
use nutsdb.Bptree.Rooms.{growth_size, growth_size-grow, grow-GrowthFits}
use nutsdb.Bptree.Addresses.{InGrowth, GrowthApart, In-grow, grow-GrowthApart, grow-le}
use nutsdb.Bptree.Ordered.{IsOrdered, Grown, grow-Grown}
use nutsdb.Bptree.Memory.{
  Elem, addr-In, write_self, write_other, Represents-moved, Represents-parent,
}
use nutsdb.Bptree.Runs.{Framed, Runs}
use nutsdb.Bptree.Chains.{growth_leaves, grow-Placed}
use nutsdb.Bptree.Links.{
  climb_root, Elem-append, leaf_addrs-Distinct, leaf_addrs-In, Linked-same, insert_at_leaf-Linked,
}
use nutsdb.Bptree.Climbs.{growth_addr}
use nutsdb.Bptree.Inserts.{
  leaf_addr, leaf_pairs, content-leaf_addr, find_leaf_from_lem, find_in-flatten, grow-addr,
  insert_at_leaf-Runs,
}

-- The invariant: the nodes make up a tree of one height with no node too full, whose keys are in
-- order, with each node's parent and no two nodes alike, there are no nodes beside it, and each
-- leaf points to the next.
pub record Holds (t : BpTree) (s : Shape) : Type 0 where
  pub root : t.root ≡ some (addr s)
  pub memory : Represents t none s
  pub apart : IsApart s
  pub under : (a : ℕ) → In a s → a < t.last_address
  pub fits : Fits s
  pub height : ℕ
  pub balanced : HasHeight height s
  pub ordered : IsOrdered none none s
  pub counted : size s * binary_node_size ≡ t.last_address
  pub linked : Linked t.next (leaf_addrs s)

-- The tree stands for the list.
abbrev pub Models : BpTree → Pairs → Type 0
Models t kvs =
    ((t.root ≡ none) × (t.last_address ≡ 0) × (kvs ≡ []))
    ⊎ ((s : Shape) × Holds t s × (flatten s ≡ kvs))

mutual
  unfolding size

  low_tree : (n : ℕ) (s : Shape) → HasHeight n s → n < size s
  low_tree n (leaf p kvs) h = omega arith
  low_tree n (inner p bs) h = let b = low_trees h.0 bs h.2 in let e = h.1 in omega arith

  low_trees : (n : ℕ) (bs : Branches) → HaveHeight n bs → n < size_all bs
  low_trees n (one s) h = low_tree n s h
  low_trees n (more s k bs) h = let b = low_tree n s h.0 in omega arith

-- The fuel is enough: there are fewer levels than addresses.
fuel_left : (t : BpTree) (s : Shape) (h : Holds t s) → h.height < t.last_address
fuel_left t s h = omega (arith, low_tree h.height s h.balanced, h.counted)

pub found_leaf :
    (t : BpTree) (s : Shape) (key : Bytes)
    → Holds t s
    → find_leaf_from t.last_address t (addr s) key ≡ some (leaf_addr key s)
found_leaf t s key h =
    find_leaf_from_lem t none key t.last_address h.height s h.balanced (fuel_left t s h) h.memory

find_at :
    (n : ℕ) (t : BpTree) (key : Bytes) (p q : ℕ) (kvs : Pairs)
    → t.root ≡ some p
    → find_leaf_from n t p key ≡ some q
    → t.content q ≡ leaf_node kvs
    → find n t key ≡ find_in key kvs
unfolding find
find_at n t key p q kvs r l c = rw (r, find) (rw (l, find) (rw (c, find) refl))

find_empty : (n : ℕ) (t : BpTree) (key : Bytes) → t.root ≡ none → find n t key ≡ none
unfolding find
find_empty n t key r = rw (r, find) refl

-- `Find` reads the list.
pub find_refines :
    (t : BpTree) (kvs : Pairs) (key : Bytes)
    → Models t kvs
    → find t.last_address t key ≡ find_in key kvs
unfolding find_in
find_refines t kvs key (inl m) = find_empty t.last_address t key m.0 ∙ ap (find_in key) (sym m.2)
find_refines t kvs key (inr (s, h, e)) =
    find_at t.last_address t key (addr s) (leaf_addr key s) (leaf_pairs key s) h.root
      (found_leaf t s key h) (content-leaf_addr t none key s h.memory)
    ∙ sym (find_in-flatten key none none s h.ordered)
    ∙ ap (find_in key) e

-- The tree that `Insert` starts.
pub start_holds :
    (key : Bytes) (r : Record) (t : BpTree)
    → t.last_address ≡ 0
    → Models (start_new_tree key r t) ((key, r) ∷ [])
unfolding start_new_tree alloc flatten size
start_holds key r t e = inr (
  leaf t.last_address ((key, r) ∷ []),
  record {
    root = refl;
    memory = (
      write_self t.content t.last_address (leaf_node ((key, r) ∷ [])),
      write_self t.parent t.last_address none,
    );
    apart = tt;
    under = λ a i. omega arith;
    fits = omega arith;
    height = 0;
    balanced = refl;
    ordered = (((tt, tt), tt), (tt, tt));
    counted = omega arith;
    linked = (write_self t.next t.last_address none, tt);
  },
  refl,
)

-- What the memory holds once a new key is in it, from what the run made of the whole tree.
done-Holds :
    (t u : BpTree) (s s' : Shape) (fresh : ℕ) (kvs : Pairs)
    → (h : Holds t s) → addr s' ≡ addr s
    → Represents u none s'
    → Framed t u (λ a. In a s) fresh
    → IsApart s'
    → ((a : ℕ) → In a s' → a < fresh)
    → Fits s'
    → HasHeight h.height s'
    → IsOrdered none none s' × (flatten s' ≡ kvs)
    → size s' * binary_node_size ≡ fresh
    → Linked u.next (leaf_addrs s')
    → Models u kvs
done-Holds t u s s' fresh kvs h same rep f apart under fits height ordered counted linked = inr (
  s',
  record {
    root = f.root ∙ h.root ∙ ap (λ (a : ℕ). some a) (sym same);
    memory = rep;
    apart = apart;
    under = λ a i. rw f.last (under a i);
    fits = fits;
    height = h.height;
    balanced = height;
    ordered = ordered.0;
    counted = counted ∙ sym f.last;
    linked = linked;
  },
  ordered.1,
)

-- `insertIntoNewRoot` above two trees.
new_root_holds :
    (u : BpTree) (l r : Shape) (k : Bytes) (n : ℕ) (kvs : Pairs)
    → Represents u none l
    → Represents u none r
    → GrowthApart (split l k r)
    → ((a : ℕ) → InGrowth a (split l k r) → a < u.last_address)
    → GrowthFits (split l k r)
    → GrowthHeight n (split l k r)
    → Grown none none kvs (split l k r)
    → growth_size (split l k r) * binary_node_size ≡ u.last_address
    → Linked u.next (growth_leaves (split l k r))
    → Models (insert_into_new_root (addr l) k (addr r) u) kvs
unfolding insert_into_new_root alloc flatten size
new_root_holds u l r k n kvs rl rr apart under fits height ordered counted linked =
    let top = u.last_address in
    let node = inner_node (k ∷ []) (addr l ∷ addr r ∷ []) in
    let v = insert_into_new_root (addr l) k (addr r) u in
    let made = write u.parent top none in
    let left : addr l ≢ top = λ g. (let b = under (addr l) (inl (addr-In l)) in omega arith) in
    let right : addr r ≢ top = λ g. (let b = under (addr r) (inr (addr-In r)) in omega arith) in
    let ne : addr l ≢ addr r = λ g. apart.2 (addr l) (addr-In l) (rw g (addr-In r)) in
    let at : (a : ℕ) → InGrowth a (split l k r) → v.content a ≡ u.content a =
      λ a i. write_other u.content top a node (λ g. (let b = under a i in omega arith)) in
    let kept : (a : ℕ)
        → InGrowth a (split l k r)
        → a ≢ addr l
        → a ≢ addr r
        → v.parent a ≡ u.parent a =
      λ a i x y.
        write_other (write made (addr l) (some top)) (addr r) a (some top) y
        ∙ write_other made (addr l) a (some top) x
        ∙ write_other u.parent top a none (λ g. (let b = under a i in omega arith)) in
    inr (
      inner top (more l k (one r)),
      record {
        root = refl;
        memory = (
          write_self u.content top node,
          write_other (write made (addr l) (some top)) (addr r) top (some top) (λ g. right (sym g))
              ∙ write_other made (addr l) top (some top) (λ g. left (sym g))
              ∙ write_self u.parent top none,
          (
            Represents-moved u v none (some top) l apart.0 (λ a i. at a (inl i))
                (write_other (write made (addr l) (some top)) (addr r) (addr l) (some top) ne
                  ∙ write_self made (addr l) (some top))
                (λ a i x. kept a (inl i) x (λ g. apart.2 a i (rw g (addr-In r)))) rl,
            Represents-moved u v none (some top) r apart.1 (λ a i. at a (inr i))
                (write_self (write made (addr l) (some top)) (addr r) (some top))
                (λ a i y. kept a (inr i) (λ g. apart.2 a (rw g (addr-In l)) i) y) rr,
          ),
        );
        apart = (λ i. (let b = under top i in omega arith), (apart.0, apart.1, apart.2));
        under = λ a i. elim i [ inl g ↦ omega arith | inr j ↦ let b = under a j in omega arith ];
        fits = (omega arith, (fits.0, fits.1));
        height = suc n;
        balanced = (n, refl, height);
        ordered = (ordered.0, ordered.1, ordered.2);
        counted = omega arith;
        linked =
            Linked-same u.next v.next (leaf_addrs l ++ leaf_addrs r)
              (λ a i.
                write_other u.next top a none (λ g. (let b = under a (inside a i) in omega arith)))
              linked;
      },
      ordered.3,
    )
  where
    inside : (a : ℕ) → Elem a (leaf_addrs l ++ leaf_addrs r) → In a l ⊎ In a r
    inside a i = elim (Elem-append a (leaf_addrs l) (leaf_addrs r) i) [
      | inl j ↦ inl (leaf_addrs-In a l j)
      | inr j ↦ inr (leaf_addrs-In a r j)
    ]

-- `insertIntoNewRoot` writes no pointer of a leaf.
root-Linked :
    (u : BpTree) (l : ℕ) (k : Bytes) (r : ℕ) (ps : List ℕ)
    → ((a : ℕ) → Elem a ps → a < u.last_address)
    → Linked (insert_into_new_root l k r u).next ps
    → Linked u.next ps
unfolding insert_into_new_root alloc
root-Linked u l k r ps under h =
    Linked-same (insert_into_new_root l k r u).next u.next ps
      (λ a i.
        sym (write_other u.next u.last_address a none (λ g. (let b = under a i in omega arith))))
      h

Grown-Models :
    (t : BpTree) (s : Shape) (f : ℕ) (run : Option BpTree) (g : Growth) (fresh : ℕ) (kvs : Pairs)
    → (h : Holds t s) → growth_addr g ≡ addr s
    → Runs t none s (suc f) run g fresh
    → GrowthApart g
    → ((a : ℕ) → InGrowth a g → a < fresh)
    → GrowthFits g
    → GrowthHeight h.height g
    → Grown none none kvs g
    → growth_size g * binary_node_size ≡ fresh
    → ((u : BpTree) → run ≡ some u → Linked u.next (growth_leaves g))
    → (u : BpTree) × (run ≡ some u) × Models u kvs
Grown-Models t s f run (done s') fresh kvs h same runs apart under fits height ordered counted lk =
    (
      runs.0,
      runs.1,
      done-Holds t runs.0 s s' fresh kvs h same runs.2 runs.3 apart under fits height ordered
          counted (lk runs.0 runs.1),
    )
Grown-Models t s f run (split l k r) fresh kvs h same runs apart under fits height ordered counted
      lk =
    let u = runs.0 in
    let ended = runs.1 ∙ climb_root f u (addr l) k (addr r) (Represents-parent u none l runs.2) in
    (
      insert_into_new_root (addr l) k (addr r) u,
      ended,
      new_root_holds u l r k h.height kvs runs.2 runs.3 apart
          (λ a i. (let b = under a i in rw runs.4.last b)) fits height ordered
          (counted ∙ sym runs.4.last)
          (root-Linked u (addr l) k (addr r) (leaf_addrs l ++ leaf_addrs r)
            (λ a i. (let b = under a (inside a i) in rw runs.4.last b))
            (lk (insert_into_new_root (addr l) k (addr r) u) ended)),
    )
  where
    inside : (a : ℕ) → Elem a (leaf_addrs l ++ leaf_addrs r) → In a l ⊎ In a r
    inside a i = elim (Elem-append a (leaf_addrs l) (leaf_addrs r) i) [
      | inl j ↦ inl (leaf_addrs-In a l j)
      | inr j ↦ inr (leaf_addrs-In a r j)
    ]

-- The run from the leaf of a new key.
pub new-Models :
    (t : BpTree) (s : Shape) (key : Bytes) (r : Record)
    → Holds t s
    → find_in key (flatten s) ≡ none
    → (u : BpTree) × (insert_at_leaf t.last_address (leaf_addr key s) key r t ≡ some u)
      × Models u (insert_pair key r (flatten s))
new-Models t s key r h n =
    let f = t.last_address - h.height - 1 in
    let fuel : t.last_address ≡ suc f + h.height = (let b = fuel_left t s h in omega arith) in
    let g = grow t.last_address key r s in
    let run =
      insert_at_leaf-Runs t none key r h.height (suc f) s h.balanced h.fits h.apart h.under
        h.memory in
    let (u, e, m) =
      Grown-Models t s f (insert_at_leaf (suc f + h.height) (leaf_addr key s) key r t) g.0 g.1
        (insert_pair key r (flatten s)) h (grow-addr t.last_address key r s) run
        (grow-GrowthApart t.last_address key r s h.apart h.under)
        (λ a i. elim (In-grow t.last_address a key r s i) [
          | inl j ↦ let b = h.under a j in let c = grow-le t.last_address key r s in omega arith
          | inr x ↦ x.1
        ])
        (grow-GrowthFits t.last_address key r s h.fits)
        (grow-GrowthHeight t.last_address h.height key r s h.balanced)
        (grow-Grown t.last_address key r s h.ordered n)
        (omega (arith, growth_size-grow t.last_address key r s, h.counted))
        (λ u run.
          insert_at_leaf-Linked (suc f + h.height) t (leaf_addr key s) (leaf_pairs key s) key r u
            (leaf_addrs s) (growth_leaves g.0) (content-leaf_addr t none key s h.memory) run
            (λ a i. h.under a (leaf_addrs-In a s i)) (leaf_addrs-Distinct s h.apart)
            (grow-Placed t.last_address key r s) h.linked) in
    (u, ap (λ (x : ℕ). insert_at_leaf x (leaf_addr key s) key r t) fuel ∙ e, m)
