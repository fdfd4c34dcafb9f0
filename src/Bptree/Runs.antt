-- ===== src/Bptree/Runs.antt =====
-- The memory after `Insert` has reached a leaf: the writes of the code, from the leaf up to the
-- root, make of each part of the tree what `grow` makes of its shape.
use nutsdb.Prelude.{
  ℕ, suc, ◌+◌, ◌<◌, ◌≡◌, ◌≢◌, refl, ◌∙◌, true, false, Option, some, List, inl, inr, if◌then◌else◌,
  ltb, length, take, drop, arith, Bool-cases,
}
use nutsdb.Prelude.Words.{Bytes}
use nutsdb.Records.{Record}
use nutsdb.Bptree.{
  Pairs, BpTree, leaf_node, inner_node, write, alloc, insert_pair, insert_at, insert_into_leaf,
  insert_into_node, split_node, split_key, left_index, insert_into_parent, link_leaf, key_at,
  split_leaf, insert_at_leaf, get_split_index, binary_node_size,
}
use nutsdb.Bptree.Shapes.{Shape, leaf, addr, In, Represents}
use nutsdb.Bptree.Growth.{Growth, done, split, grown_leaf, next_fresh}
use nutsdb.Bptree.Rooms.{length-insert_pair}
use nutsdb.Bptree.Memory.{Same, write_self, write_other}

-- `u` follows `t`: only addresses of `P` and new ones are written, and `fresh` is the next new one.
pub record Framed (t u : BpTree) (P : ℕ → Type 0) (fresh : ℕ) : Type 0 where
  pub same : (a : ℕ) → a < t.last_address → ¬ P a → Same t u a
  pub last : u.last_address ≡ fresh
  pub root : u.root ≡ t.root

-- What a run makes of the part of the tree at `s`: it ends with the grown part, or it goes on in
-- `insertIntoParent` with the two parts of a split one.
abbrev pub Runs : BpTree → Option ℕ → Shape → ℕ → Option BpTree → Growth → ℕ → Type 0
Runs t up s f run (done s') fresh =
    (u : BpTree) × (run ≡ some u) × Represents u up s' × Framed t u (λ a. In a s) fresh
Runs t up s f run (split l k r) fresh =
    (u : BpTree) × (run ≡ insert_into_parent f u (addr l) k (addr r))
    × Represents u up l
    × Represents u up r
    × Framed t u (λ a. In a s) fresh

-- `insertIntoParent` once it has found the parent and the index.
abbrev pub step : ℕ → BpTree → ℕ → List Bytes → List ℕ → ℕ → Bytes → ℕ → Option BpTree
step f t p ks cs i key right =
    if ltb (length ks) 7
    then some (insert_into_node p ks cs i key right t)
    else insert_into_parent f (split_node p (insert_at i key ks) (insert_at (suc i) right cs) t) p
        (split_key (insert_at i key ks)) t.last_address

pub insert_into_parent-step :
    (f : ℕ) (t : BpTree) (left p : ℕ) (key : Bytes) (right : ℕ) (ks : List Bytes) (cs : List ℕ)
    → t.parent left ≡ some p
    → t.content p ≡ inner_node ks cs
    → insert_into_parent (suc f) t left key right ≡ step f t p ks cs (left_index left cs) key right
unfolding insert_into_parent
insert_into_parent-step f t left p key right ks cs up c =
    rw (up, insert_into_parent) (rw (c, insert_into_parent) refl)

leaf_fits :
    (t : BpTree) (up : Option ℕ) (f p : ℕ) (kvs : Pairs) (key : Bytes) (r : Record)
    → Represents t up (leaf p kvs)
    → Runs t up
        (leaf p kvs)
        f
        (some (insert_into_leaf p kvs key r t))
        (done (leaf p (insert_pair key r kvs)))
        t.last_address
unfolding insert_into_leaf
leaf_fits t up f p kvs key r rep = (
  insert_into_leaf p kvs key r t,
  refl,
  (write_self t.content p (leaf_node (insert_pair key r kvs)), rep.1),
  record {
    same = λ a old n. (write_other t.content p a (leaf_node (insert_pair key r kvs)) n, refl);
    last = refl;
    root = refl;
  },
)

-- The memory in which `splitLeaf` calls `insertIntoParent`.
abbrev pub parted : ℕ → Pairs → BpTree → BpTree
parted p kvs t = link_leaf p t.last_address (
    alloc (leaf_node (drop 4 kvs)) (t.parent p)
      (record t { content = write t.content p (leaf_node (take 4 kvs)) }))

leaf_parted :
    (t : BpTree) (up : Option ℕ) (f p : ℕ) (old new : Pairs)
    → p < t.last_address
    → Represents t up (leaf p old)
    → Runs t up
        (leaf p old)
        f
        (insert_into_parent f (parted p new t) p (key_at (drop 4 new)) t.last_address)
        (split (leaf p (take 4 new)) (key_at (drop 4 new)) (leaf t.last_address (drop 4 new)))
        (t.last_address + binary_node_size)
unfolding alloc link_leaf
leaf_parted t up f p old new lt rep =
    let left = leaf_node (take 4 new) in
    let right = leaf_node (drop 4 new) in
    let apart : p ≢ t.last_address = λ e. omega arith in
    (
      parted p new t,
      refl,
      (
        write_other (write t.content p left) t.last_address p right apart
            ∙ write_self t.content p left,
        write_other t.parent t.last_address p (t.parent p) apart ∙ rep.1,
      ),
      (
        write_self (write t.content p left) t.last_address right,
        write_self t.parent t.last_address (t.parent p) ∙ rep.1,
      ),
      record {
        same = λ a old n.
            (let new : a ≢ t.last_address = λ e. omega arith in
              (
                write_other (write t.content p left) t.last_address a right new
                    ∙ write_other t.content p a left n,
                write_other t.parent t.last_address a (t.parent p) new,
              ));
        last = refl;
        root = refl;
      },
    )

pub insert_at_leaf_eq :
    (t : BpTree) (f p : ℕ) (kvs : Pairs) (key : Bytes) (r : Record)
    → t.content p ≡ leaf_node kvs
    → insert_at_leaf f p key r t ≡ (
        if ltb (length kvs) 7
        then some (insert_into_leaf p kvs key r t)
        else split_leaf f p kvs key r t)
unfolding insert_at_leaf
insert_at_leaf_eq t f p kvs key r e = rw (e, insert_at_leaf) refl

pub split_leaf_eq :
    (t : BpTree) (f p : ℕ) (kvs : Pairs) (key : Bytes) (r : Record)
    → split_leaf f p kvs key r t
      ≡ insert_into_parent f
          (parted p (insert_pair key r kvs) t)
          p
          (key_at (drop 4 (insert_pair key r kvs)))
          t.last_address
unfolding split_leaf get_split_index
split_leaf_eq t f p kvs key r = refl

-- At a leaf.
pub leaf-Runs :
    (t : BpTree) (up : Option ℕ) (f p : ℕ) (kvs : Pairs) (key : Bytes) (r : Record)
    → p < t.last_address
    → Represents t up (leaf p kvs)
    → Runs t up
        (leaf p kvs)
        f
        (insert_at_leaf f p key r t)
        (grown_leaf t.last_address p (insert_pair key r kvs))
        (next_fresh t.last_address (grown_leaf t.last_address p (insert_pair key r kvs)))
unfolding grown_leaf
leaf-Runs t up f p kvs key r old rep = elim (Bool-cases (ltb (length kvs) 7)) [
  | inl e ↦
      let full : ltb (length (insert_pair key r kvs)) 8 ≡ true =
        ground (arith, length-insert_pair key r kvs) in
      rw (insert_at_leaf_eq t f p kvs key r rep.0, e, full) (leaf_fits t up f p kvs key r rep)
  | inr e ↦
      let full : ltb (length (insert_pair key r kvs)) 8 ≡ false =
        ground (arith, length-insert_pair key r kvs) in
      rw (insert_at_leaf_eq t f p kvs key r rep.0, e, full)
        (rw (split_leaf_eq t f p kvs key r)
          (leaf_parted t up f p kvs (insert_pair key r kvs) old rep))
]
