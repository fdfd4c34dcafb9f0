-- ===== src/Bptree/Walks.antt =====
-- The walk of a scan from the leaf of a key, on the list that the tree stands for.
use nutsdb.Prelude.{
  ℕ, zero, suc, ◌<◌, ◌≡◌, refl, sym, ap, ◌∙◌, Bool, true, false, none, some, [], ◌∷◌, ◌++◌, inl,
  inr, if◌then◌else◌, length, length-append, arith, Bool-cases,
}
use mathlib.Core.List.{append_assoc, append-nil}
use nutsdb.Prelude.Words.{Bytes}
use nutsdb.Prelude.Compare.{below}
use nutsdb.Records.{Record}
use nutsdb.Bptree.{Pairs, BpTree, leaf_node, pairs_of, find_leaf_from}
use nutsdb.Bptree.Shapes.{Shape, flatten, Linked}
use nutsdb.Bptree.Sorted.{All}
use nutsdb.Bptree.Inserts.{leaf_addr, leaf_pairs, content-leaf_addr}
use nutsdb.Bptree.Models.{Holds, found_leaf}
use nutsdb.Bptree.Scans.{leaf_loop, walk, skip_below, find_leaf}
use nutsdb.Bptree.Leaves.{
  Leaves, leaves, contents, addrs_of, Stored, Stored_rest, Linked-rest, contents-leaves,
  addrs_of-leaves, leaves-Stored, length-leaves, leaves-Located,
}

module _ {S : Type 0} (body : S → Bytes × Record → S × Bool) where
  pub leaf_loop-append :
      (s : S) (xs ys : Pairs)
      → leaf_loop body s (xs ++ ys) ≡ (
          if (leaf_loop body s xs).1
          then leaf_loop body (leaf_loop body s xs).0 ys
          else leaf_loop body s xs)
  unfolding leaf_loop
  leaf_loop-append s [] ys = refl
  leaf_loop-append s (x ∷ xs) ys = elim (Bool-cases (body s x).1) [
    | inl e ↦ rw e (leaf_loop-append (body s x).0 xs ys)
    | inr e ↦ ground arith
  ]

  walk_stop :
      (n : ℕ) (t : BpTree) (s : S) (kvs : Pairs) (p : ℕ)
      → (leaf_loop body s kvs).1 ≡ false
      → walk body (suc n) t s kvs p ≡ some (leaf_loop body s kvs).0
  unfolding walk
  walk_stop n t s kvs p e = rw e

  walk_end :
      (n : ℕ) (t : BpTree) (s : S) (kvs : Pairs) (p : ℕ)
      → (leaf_loop body s kvs).1 ≡ true
      → t.next p ≡ none
      → walk body (suc n) t s kvs p ≡ some (leaf_loop body s kvs).0
  unfolding walk
  walk_end n t s kvs p e last = rw e (rw last refl)

  walk_next :
      (n : ℕ) (t : BpTree) (s : S) (kvs : Pairs) (p q : ℕ) (xs : Pairs)
      → (leaf_loop body s kvs).1 ≡ true
      → t.next p ≡ some q
      → t.content q ≡ leaf_node xs
      → walk body (suc n) t s kvs p ≡ walk body n t (leaf_loop body s kvs).0 xs q
  unfolding walk
  walk_next n t s kvs p q xs e next c = rw e (rw next (rw c refl))

  go_on :
      (s : S) (xs ys : Pairs)
      → (leaf_loop body s xs).1 ≡ true
      → leaf_loop body (leaf_loop body s xs).0 ys ≡ leaf_loop body s (xs ++ ys)
  go_on s xs ys e = sym (
      leaf_loop-append s xs ys
      ∙ ap (λ b. if b then leaf_loop body (leaf_loop body s xs).0 ys else leaf_loop body s xs) e)

  give_up :
      (s : S) (xs ys : Pairs)
      → (leaf_loop body s xs).1 ≡ false
      → leaf_loop body s xs ≡ leaf_loop body s (xs ++ ys)
  give_up s xs ys e = sym (
      leaf_loop-append s xs ys
      ∙ ap (λ b. if b then leaf_loop body (leaf_loop body s xs).0 ys else leaf_loop body s xs) e)

  -- The walk is the loop over the rest of the first leaf and over all that comes after.
  walk_lem :
      (n : ℕ) (t : BpTree) (s : S) (kvs : Pairs) (p : ℕ) (ls : Leaves)
      → length ls < n
      → Linked t.next (p ∷ addrs_of ls)
      → Stored t ls
      → walk body n t s kvs p ≡ some (leaf_loop body s (kvs ++ contents ls)).0
  walk_lem zero t s kvs p ls lt l st = absurd (omega arith)
  walk_lem (suc n) t s kvs p [] lt l st = elim (Bool-cases (leaf_loop body s kvs).1) [
    | inl e ↦ rw (append-nil kvs) (walk_end n t s kvs p e l.0)
    | inr e ↦ rw (append-nil kvs) (walk_stop n t s kvs p e)
  ]
  walk_lem (suc n) t s kvs p ((q, xs) ∷ ls) lt l st = elim (Bool-cases (leaf_loop body s kvs).1) [
    | inl e ↦
        walk_next n t s kvs p q xs e l.0 st.0
        ∙ walk_lem n t (leaf_loop body s kvs).0 xs q ls (omega arith) l.1 st.1
        ∙ ap (λ (r : S × Bool). some r.0) (go_on s kvs (xs ++ contents ls) e)
    | inr e ↦
        walk_stop n t s kvs p e
        ∙ ap (λ (r : S × Bool). some r.0) (give_up s kvs (xs ++ contents ls) e)
  ]

skip-All :
    (key : Bytes) (xs ys : Pairs)
    → All (λ x. below x key ≡ true) xs
    → skip_below key (xs ++ ys) ≡ skip_below key ys
unfolding skip_below
skip-All key [] ys a = refl
skip-All key ((k, r) ∷ xs) ys a = rw (a.0) (skip-All key xs ys a.1)

skip_none : (key : Bytes) (ys : Pairs) → All (λ x. below x key ≡ false) ys → skip_below key ys ≡ ys
unfolding skip_below
skip_none key [] a = refl
skip_none key ((k, r) ∷ ys) a = rw (a.0) refl

skip_first :
    (key : Bytes) (xs ys : Pairs)
    → All (λ x. below x key ≡ false) ys
    → skip_below key (xs ++ ys) ≡ skip_below key xs ++ ys
unfolding skip_below
skip_first key [] ys a = skip_none key ys a
skip_first key ((k, r) ∷ xs) ys a = elim (Bool-cases (below k key)) [
  | inl e ↦ rw e (skip_first key xs ys a)
  | inr e ↦ rw e
]

find_leaf_lem :
    (t : BpTree) (s : Shape) (key : Bytes)
    → Holds t s
    → find_leaf t.last_address t key ≡ some (leaf_addr key s)
unfolding find_leaf
find_leaf_lem t s key h =
    ap (λ o. elim o [ none ↦ none | some p ↦ find_leaf_from t.last_address t p key ]) h.root
    ∙ found_leaf t s key h

module _ {S : Type 0} (body : S → Bytes × Record → S × Bool) where
  -- From the leaf of a key the walk sees every pair from the key on.
  pub walk_from :
      (t : BpTree) (s : Shape) (key : Bytes) (init : S)
      → Holds t s
      → (find_leaf t.last_address t key ≡ some (leaf_addr key s))
        × (walk body t.last_address t init
              (skip_below key (pairs_of (t.content (leaf_addr key s))))
              (leaf_addr key s)
            ≡ some (leaf_loop body init (skip_below key (flatten s))).0)
  walk_from t s key init h =
      let l = leaves-Located key none none s h.ordered in
      let q = leaf_addr key s in
      let kvs = leaf_pairs key s in
      let chain : Linked t.next (addrs_of (leaves s)) = rw (addrs_of-leaves s) h.linked in
      let here : Linked t.next (q ∷ addrs_of l.post) =
        Linked-rest t.next (addrs_of l.pre) (q ∷ addrs_of l.post)
          (rw (← split l.pre q kvs l.post) (rw l.place at chain)) in
      let stored : Stored t (l.pre ++ (q, kvs) ∷ l.post) =
        rw l.place at (leaves-Stored t none s h.memory) in
      let after = Stored_rest t l.pre ((q, kvs) ∷ l.post) stored in
      let few : length l.post < t.last_address =
        (let a = length-leaves s in
          let b = ap length l.place ∙ length-append l.pre ((q, kvs) ∷ l.post) in
          let c = h.counted in omega arith) in
      let seen : skip_below key (flatten s) ≡ skip_below key kvs ++ contents l.post =
        ap (skip_below key)
          (sym (contents-leaves s) ∙ ap contents l.place ∙ join l.pre q kvs l.post)
        ∙ skip-All key (contents l.pre) (kvs ++ contents l.post) l.low
        ∙ skip_first key kvs (contents l.post) l.high in
      (
        find_leaf_lem t s key h,
        ap (λ c. walk body t.last_address t init (skip_below key (pairs_of c)) q)
              (content-leaf_addr t none key s h.memory)
            ∙ walk_lem body t.last_address t init (skip_below key kvs) q l.post few here after.1
            ∙ ap (λ xs. some (leaf_loop body init xs).0) (sym seen),
      )
    where
      split :
          (pre : Leaves) (q : ℕ) (kvs : Pairs) (post : Leaves)
          → addrs_of (pre ++ (q, kvs) ∷ post) ≡ addrs_of pre ++ q ∷ addrs_of post
      split [] q kvs post = refl
      split ((p, x) ∷ pre) q kvs post = ap (◌∷◌ p) (split pre q kvs post)

      join :
          (pre : Leaves) (q : ℕ) (kvs : Pairs) (post : Leaves)
          → contents (pre ++ (q, kvs) ∷ post) ≡ contents pre ++ (kvs ++ contents post)
      join [] q kvs post = refl
      join ((p, x) ∷ pre) q kvs post =
          ap (λ t. x ++ t) (join pre q kvs post)
          ∙ sym (append_assoc x (contents pre) (kvs ++ contents post))
