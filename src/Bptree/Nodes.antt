-- ===== src/Bptree/Nodes.antt =====
-- An inner node when the run among its branches is over: the node takes one more key, or is split.
use nutsdb.Prelude.{
  ℕ, zero, suc, ◌+◌, ◌≤◌, ◌<◌, ◌≡◌, ◌≢◌, refl, sym, ap, ◌∙◌, true, false, Option, some, List, [],
  ◌∷◌, ◌⊎◌, inl, inr, if◌then◌else◌, ltb, length, get_elem?, take, drop, arith, Bool-cases,
}
use nutsdb.Prelude.Words.{Bytes}
use nutsdb.Bptree.{
  BpTree, Content, inner_node, write, alloc, insert_at, insert_into_node, split_node, split_key,
  get_split_index, insert_into_parent, binary_node_size,
}
use nutsdb.Bptree.Shapes.{
  Shape, inner, Branches, one, more, keys, addrs, InAny, AreApart, Represents, RepresentsAll,
}
use nutsdb.Bptree.Growth.{
  done, split, Cut, whole, parts, put_before, cut, halve, grown_node, next_fresh,
}
use nutsdb.Bptree.Addresses.{InCut, CutApart, InCut-cut, cut-CutApart}
use nutsdb.Bptree.Rooms.{CutLists, cut-CutLists}
use nutsdb.Bptree.Memory.{
  Same, Elem, InAny-Elem, write_self, write_other, set_parents_other, set_parents_child,
  RepresentsAll-Same, RepresentsAll-moved,
}
use nutsdb.Bptree.Runs.{Runs}
use nutsdb.Bptree.Climbs.{Ended, Rising, RunsAll}

-- What is known of the node and of its new branches.
pub record Ready (t : BpTree) (up : Option ℕ) (p : ℕ) (bs bs' : Branches) (fresh : ℕ) : Type 0 where
  pub content : t.content p ≡ inner_node (keys bs) (addrs bs)
  pub parent : t.parent p ≡ up
  pub old : p < t.last_address
  pub rest : t.last_address ≤ fresh
  pub outside : ¬ InAny p bs
  pub outside' : ¬ InAny p bs'
  pub apart : AreApart bs'
  pub under : (a : ℕ) → InAny a bs' → a < fresh
  pub room : length (keys bs) ≤ 7
  pub origin : (a : ℕ) → InAny a bs' → InAny a bs ⊎ (t.last_address ≤ a)

Ended-Runs :
    (t : BpTree) (up : Option ℕ) (p : ℕ) (bs bs' : Branches) (f : ℕ) (run : Option BpTree)
    (fresh : ℕ)
    → Ready t up p bs bs' fresh
    → Ended t p bs run bs' fresh
    → Runs t up (inner p bs) f run (done (inner p bs')) fresh
Ended-Runs t up p bs bs' f run fresh h r = (
  r.after,
  r.run_eq,
  (
    (r.framed.same p h.old h.outside).0
        ∙ h.content
        ∙ sym (ap (λ ks. inner_node ks (addrs bs)) r.keys_eq)
        ∙ sym (ap (inner_node (keys bs')) r.addrs_eq),
    (r.framed.same p h.old h.outside).1 ∙ h.parent,
    r.holds,
  ),
  record {
    same = λ a old n. r.framed.same a old (λ i. n (inr i));
    last = r.framed.last;
    root = r.framed.root;
  },
)

-- The node has room.
room-Runs :
    (t : BpTree) (up : Option ℕ) (p : ℕ) (bs bs' : Branches) (f : ℕ) (run : Option BpTree)
    (fresh : ℕ)
    → Ready t up p bs bs' fresh
    → (r : Rising t p bs f run bs' fresh [] []) → ltb (length (keys bs)) 7 ≡ true
    → Runs t up (inner p bs) f run (done (inner p bs')) fresh
unfolding insert_into_node
room-Runs t up p bs bs' f run fresh h r e =
    let u = r.after in
    let c =
      inner_node (insert_at r.index r.key (keys bs)) (insert_at (suc r.index) r.right (addrs bs)) in
    (
      insert_into_node p (keys bs) (addrs bs) r.index r.key r.right u,
      r.run_eq
          ∙ ap
              (λ b.
                if b
                then some (insert_into_node p (keys bs) (addrs bs) r.index r.key r.right u)
                else insert_into_parent f
                    (split_node p (insert_at r.index r.key (keys bs))
                      (insert_at (suc r.index) r.right (addrs bs)) u)
                    p (split_key (insert_at r.index r.key (keys bs))) u.last_address)
              e,
      (
        write_self u.content p c
            ∙ ap (λ ks. inner_node ks (insert_at (suc r.index) r.right (addrs bs))) r.keys_eq
            ∙ ap (inner_node (keys bs')) r.addrs_eq,
        (r.framed.same p h.old h.outside).1 ∙ h.parent,
        RepresentsAll-Same u (insert_into_node p (keys bs) (addrs bs) r.index r.key r.right u)
            (some p) bs' (λ a i. (write_other u.content p a c (λ g. h.outside' (rw (← g) i)), refl))
            r.holds,
      ),
      record {
        same = λ a old n. (
          write_other u.content p a c (λ g. n (inl g)) ∙ (r.framed.same a old (λ i. n (inr i))).0,
          (r.framed.same a old (λ i. n (inr i))).1,
        );
        last = r.framed.last;
        root = r.framed.root;
      },
    )

-- The two sides of a cut, as the lemmas about a split node need them.
abbrev CutHolds : BpTree → Option ℕ → Cut → Type 0
CutHolds t up (whole bs) = RepresentsAll t up bs
CutHolds t up (parts l k r) = RepresentsAll t up l × RepresentsAll t up r

put_before-CutHolds :
    (t : BpTree) (up : Option ℕ) (s : Shape) (k : Bytes) (c : Cut)
    → Represents t up s
    → CutHolds t up c
    → CutHolds t up (put_before s k c)
put_before-CutHolds t up s k (whole bs) r c = (r, c)
put_before-CutHolds t up s k (parts l m x) r c = ((r, c.0), c.1)

cut-CutHolds :
    (i : ℕ) (t : BpTree) (up : Option ℕ) (bs : Branches)
    → RepresentsAll t up bs
    → CutHolds t up (cut i bs)
unfolding cut
cut-CutHolds i t up (one s) h = h
cut-CutHolds zero t up (more s k bs) h = h
cut-CutHolds (suc i) t up (more s k bs) h =
    put_before-CutHolds t up s k (cut i bs) h.0 (cut-CutHolds i t up bs h.1)

record Halves (u : BpTree) (p : ℕ) (ks : List Bytes) (cs : List ℕ) (l : Branches) (k : Bytes)
    (r : Branches) : Type 0 where
  left_keys : keys l ≡ take 4 ks
  left_addrs : addrs l ≡ take 5 cs
  right_keys : keys r ≡ drop 5 ks
  right_addrs : addrs r ≡ drop 5 cs
  left_holds : RepresentsAll u (some p) l
  right_holds : RepresentsAll u (some p) r
  right_apart : AreApart r
  apart : (a : ℕ) → InAny a l → ¬ InAny a r
  not_left : ¬ InAny p l
  not_right : ¬ InAny p r
  left_under : (a : ℕ) → InAny a l → a < u.last_address
  right_under : (a : ℕ) → InAny a r → a < u.last_address

module _ (u : BpTree) (p : ℕ) (ks : List Bytes) (cs : List ℕ) (l : Branches) (k : Bytes)
    (r : Branches) (h : Halves u p ks cs l k r) (old : p < u.last_address) where
  abbrev fresh : ℕ
  fresh = u.last_address

  abbrev left_node : ℕ → Content
  left_node = write u.content p (inner_node (take 4 ks) (take 5 cs))

  abbrev right_node : Content
  right_node = inner_node (drop 5 ks) (drop 5 cs)

  p_ne : p ≢ fresh
  p_ne e = omega arith

  not_child : (a : ℕ) → ¬ InAny a r → ¬ Elem a (drop 5 cs)
  not_child a n e = n (InAny-Elem a r (rw h.right_addrs e))

  parent_kept :
      (a : ℕ) → a ≢ fresh → ¬ Elem a (drop 5 cs) → (split_node p ks cs u).parent a ≡ u.parent a
  unfolding split_node get_split_index alloc
  parent_kept a n e =
      set_parents_other (drop 5 cs) fresh a (write u.parent fresh (u.parent p)) e
      ∙ write_other u.parent fresh a (u.parent p) n

  content_kept : (a : ℕ) → a ≢ p → a ≢ fresh → (split_node p ks cs u).content a ≡ u.content a
  unfolding split_node get_split_index alloc
  content_kept a n m =
      write_other left_node fresh a right_node m
      ∙ write_other u.content p a (inner_node (take 4 ks) (take 5 cs)) n

  left_half : (up : Option ℕ) → u.parent p ≡ up → Represents (split_node p ks cs u) up (inner p l)
  unfolding split_node get_split_index alloc
  left_half up e = (
    write_other left_node fresh p right_node p_ne
        ∙ write_self u.content p (inner_node (take 4 ks) (take 5 cs))
        ∙ sym (ap (λ xs. inner_node xs (take 5 cs)) h.left_keys)
        ∙ sym (ap (inner_node (keys l)) h.left_addrs),
    parent_kept p p_ne (not_child p h.not_right) ∙ e,
    RepresentsAll-Same u (split_node p ks cs u) (some p) l
        (λ a i.
          (let n : a ≢ fresh = λ g. (let b = h.left_under a i in omega arith) in
            (
              content_kept a (λ g. h.not_left (rw (← g) i)) n,
              parent_kept a n (not_child a (h.apart a i)),
            )))
        h.left_holds,
  )

  right_half :
      (up : Option ℕ) → u.parent p ≡ up → Represents (split_node p ks cs u) up (inner fresh r)
  unfolding split_node get_split_index alloc
  right_half up e = (
    write_self left_node fresh right_node
        ∙ sym (ap (λ xs. inner_node xs (drop 5 cs)) h.right_keys)
        ∙ sym (ap (inner_node (keys r)) h.right_addrs),
    set_parents_other (drop 5 cs) fresh fresh (write u.parent fresh (u.parent p))
          (not_child fresh (λ i. (let b = h.right_under fresh i in omega arith)))
        ∙ write_self u.parent fresh (u.parent p)
        ∙ e,
    RepresentsAll-moved u (split_node p ks cs u) (some p) (some fresh) r h.right_apart
        (λ a i.
          content_kept a (λ g. h.not_right (rw (← g) i))
            (λ g. (let b = h.right_under a i in omega arith)))
        (λ a i.
          set_parents_child (drop 5 cs) fresh a (write u.parent fresh (u.parent p))
            (rw (← h.right_addrs) i))
        (λ a i n.
          parent_kept a (λ g. (let b = h.right_under a i in omega arith))
            (λ j. n (rw h.right_addrs j)))
        h.right_holds,
  )

-- The memory that is neither the node, nor a new one, nor among the branches.
split_node-Same :
    (u : BpTree) (p : ℕ) (ks : List Bytes) (cs : List ℕ) (l : Branches) (k : Bytes) (r : Branches)
    → Halves u p ks cs l k r
    → p < u.last_address
    → (a : ℕ) → a ≢ p
    → a < u.last_address
    → ¬ InAny a r
    → Same u (split_node p ks cs u) a
split_node-Same u p ks cs l k r h old a n lt out =
    let ne : a ≢ u.last_address = λ g. omega arith in
    (
      content_kept u p ks cs l k r h old a n ne,
      parent_kept u p ks cs l k r h old a ne (not_child u p ks cs l k r h old a out),
    )

split_key_eq : (ks : List Bytes) (k : Bytes) → get_elem? ks 4 ≡ some k → split_key ks ≡ k
unfolding split_key get_split_index
split_key_eq ks k e = rw (e, split_key) refl

-- The node is split.
parts_run :
    (t : BpTree) (up : Option ℕ) (p : ℕ) (bs bs' : Branches) (f : ℕ) (run : Option BpTree)
    (fresh : ℕ) (l : Branches) (k : Bytes) (x : Branches)
    → Ready t up p bs bs' fresh
    → (r : Rising t p bs f run bs' fresh [] []) → ltb (length (keys bs)) 7 ≡ false
    → CutLists 4 (keys bs') (addrs bs') (parts l k x)
    → Halves r.after p (keys bs') (addrs bs') l k x
    → ((a : ℕ) → a < t.last_address → ¬ InAny a bs → ¬ InAny a x)
    → Runs t up (inner p bs) f run (split (inner p l) k (inner fresh x)) (fresh + binary_node_size)
unfolding split_node alloc
parts_run t up p bs bs' f run fresh l k x h r e c halves out =
    let u = r.after in
    let last : u.last_address ≡ fresh = r.framed.last in
    let old : p < u.last_address = (let b = h.old in let d = h.rest in omega arith) in
    let up_eq = (r.framed.same p h.old h.outside).1 ∙ h.parent in
    let v = split_node p (keys bs') (addrs bs') u in
    (
      v,
      r.run_eq
          ∙ ap
              (λ b.
                if b
                then some (insert_into_node p (keys bs) (addrs bs) r.index r.key r.right u)
                else insert_into_parent f
                    (split_node p (insert_at r.index r.key (keys bs))
                      (insert_at (suc r.index) r.right (addrs bs)) u)
                    p (split_key (insert_at r.index r.key (keys bs))) u.last_address)
              e
          ∙ ap
              (λ ks.
                insert_into_parent f
                  (split_node p ks (insert_at (suc r.index) r.right (addrs bs)) u) p (split_key ks)
                  u.last_address)
              r.keys_eq
          ∙ ap
              (λ cs.
                insert_into_parent f (split_node p (keys bs') cs u) p (split_key (keys bs'))
                  u.last_address)
              r.addrs_eq
          ∙ ap (λ m. insert_into_parent f v p m u.last_address) (split_key_eq (keys bs') k c.1)
          ∙ ap (λ (a : ℕ). insert_into_parent f v p k a) last,
      left_half u p (keys bs') (addrs bs') l k x halves old up up_eq,
      rw (← last) (right_half u p (keys bs') (addrs bs') l k x halves old up up_eq),
      record {
        same = λ a lt n.
            (let after =
                split_node-Same u p (keys bs') (addrs bs') l k x halves old a (λ g. n (inl g))
                  (let d = h.rest in omega arith) (out a lt (λ i. n (inr i))) in
              let before = r.framed.same a lt (λ i. n (inr i)) in
              (after.0 ∙ before.0, after.1 ∙ before.1));
        last = ap (λ (a : ℕ). a + binary_node_size) last;
        root = r.framed.root;
      },
    )

halve-Runs :
    (t : BpTree) (up : Option ℕ) (p : ℕ) (bs bs' : Branches) (f : ℕ) (run : Option BpTree)
    (fresh : ℕ) (c : Cut)
    → Ready t up p bs bs' fresh
    → (r : Rising t p bs f run bs' fresh [] []) → ltb (length (keys bs)) 7 ≡ false
    → CutLists 4 (keys bs') (addrs bs') c
    → CutApart c
    → CutHolds r.after (some p) c
    → ((a : ℕ) → InCut a c → InAny a bs')
    → Runs t up (inner p bs) f run (halve fresh p c) (next_fresh fresh (halve fresh p c))
halve-Runs t up p bs bs' f run fresh (whole b) h r e lists apart holds inside = absurd lists
halve-Runs t up p bs bs' f run fresh (parts l k x) h r e lists apart holds inside =
    parts_run t up p bs bs' f run fresh l k x h r e lists
      (record {
        left_keys = lists.0;
        left_addrs = lists.3;
        right_keys = lists.2;
        right_addrs = lists.4;
        left_holds = holds.0;
        right_holds = holds.1;
        right_apart = apart.1;
        apart = apart.2;
        not_left = λ i. h.outside' (inside p (inl i));
        not_right = λ i. h.outside' (inside p (inr i));
        left_under = λ a i. rw r.framed.last (h.under a (inside a (inl i)));
        right_under = λ a i. rw r.framed.last (h.under a (inside a (inr i)));
      })
      (λ a lt n i. elim (h.origin a (inside a (inr i))) [ inl j ↦ n j | inr g ↦ omega arith ])

length-insert_at {ℓ} :
    {A : Type ℓ} (i : ℕ) (a : A) (xs : List A) → length (insert_at i a xs) ≡ suc (length xs)
unfolding insert_at
length-insert_at zero a xs = refl
length-insert_at (suc i) a [] = refl
length-insert_at (suc i) a (x ∷ xs) = ap suc (length-insert_at i a xs)

-- What the run makes of the node.
pub node-Runs :
    (t : BpTree) (up : Option ℕ) (p : ℕ) (bs bs' : Branches) (f : ℕ) (run : Option BpTree)
    (fresh : ℕ)
    → Ready t up p bs bs' fresh
    → RunsAll t p bs f run bs' fresh [] []
    → Runs t up
        (inner p bs)
        f
        run
        (grown_node fresh p bs')
        (next_fresh fresh (grown_node fresh p bs'))
unfolding grown_node
node-Runs t up p bs bs' f run fresh h (inl r) =
    let fits : ltb (length (keys bs')) 8 ≡ true =
      (let e = ap length r.keys_eq in let m = h.room in ground arith) in
    rw fits (Ended-Runs t up p bs bs' f run fresh h r)
node-Runs t up p bs bs' f run fresh h (inr r) =
    let grows : length (keys bs') ≡ suc (length (keys bs)) =
      sym (ap length r.keys_eq) ∙ length-insert_at r.index r.key (keys bs) in
    elim (Bool-cases (ltb (length (keys bs)) 7)) [
      | inl e ↦
          let fits : ltb (length (keys bs')) 8 ≡ true = ground arith in
          rw fits (room-Runs t up p bs bs' f run fresh h r e)
      | inr e ↦
          let full : ltb (length (keys bs')) 8 ≡ false = ground arith in
          rw full (
            halve-Runs t up p bs bs' f run fresh (cut 4 bs') h r e
              (cut-CutLists 4 bs' (let m = h.room in ground arith)) (cut-CutApart 4 bs' h.apart)
              (cut-CutHolds 4 r.after (some p) bs' r.holds) (λ a i. InCut-cut 4 a bs' i))
    ]
