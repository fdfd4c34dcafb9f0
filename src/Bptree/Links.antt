-- ===== src/Bptree/Links.antt =====
-- The writes of `Insert` to the pointers between the leaves.
use nutsdb.Prelude.{
  ℕ, zero, suc, ◌+◌, ◌<◌, ◌≡◌, ◌≢◌, refl, sym, ap, ◌∙◌, true, false, Option, none, some, List, [],
  ◌∷◌, ◌++◌, ◌⊎◌, inl, inr, if◌then◌else◌, ltb, length, drop, arith, Bool-cases, Option-cases,
}
use nutsdb.Prelude.Words.{Bytes}
use nutsdb.Records.{Record}
use nutsdb.Bptree.{
  Pairs, BpTree, Content, leaf_node, inner_node, write, alloc, insert_pair, insert_at, split_node,
  split_key, left_index, insert_into_parent, insert_into_leaf, insert_into_node,
  insert_into_new_root, link_leaf, split_leaf, insert_at_leaf, key_at, binary_node_size,
}
use nutsdb.Bptree.Shapes.{
  Shape, leaf, inner, Branches, one, more, In, InAny, IsApart, AreApart, leaf_addrs, leaf_addrs_all,
  head, Linked,
}
use nutsdb.Bptree.Memory.{Elem, write_self, write_other}
use nutsdb.Bptree.Rooms.{length-insert_pair}
use nutsdb.Bptree.Runs.{step, parted, insert_into_parent-step, insert_at_leaf_eq, split_leaf_eq}
use nutsdb.Bptree.Chains.{split_off, Placed}

some_eq : (t u : BpTree) → some t ≡ some u → t ≡ u
some_eq t u h = cc

Content-cases :
    (c : Content)
    → ((kvs : Pairs) × (c ≡ leaf_node kvs))
      ⊎ ((ks : List Bytes) × (cs : List ℕ) × (c ≡ inner_node ks cs))
Content-cases (leaf_node kvs) = inl (kvs, refl)
Content-cases (inner_node ks cs) = inr (ks, cs, refl)

pub climb_root :
    (f : ℕ) (u : BpTree) (l : ℕ) (k : Bytes) (r : ℕ)
    → u.parent l ≡ none
    → insert_into_parent (suc f) u l k r ≡ some (insert_into_new_root l k r u)
unfolding insert_into_parent
climb_root f u l k r e = rw (e, insert_into_parent) refl

climb_leaf :
    (f : ℕ) (t : BpTree) (l p : ℕ) (k : Bytes) (r : ℕ) (kvs : Pairs)
    → t.parent l ≡ some p
    → t.content p ≡ leaf_node kvs
    → insert_into_parent (suc f) t l k r ≡ none
unfolding insert_into_parent
climb_leaf f t l p k r kvs up c = rw (up, insert_into_parent) (rw (c, insert_into_parent) refl)

-- The pointers between the leaves are written only in new nodes on the way up.
climb_next :
    (f : ℕ) (t : BpTree) (l : ℕ) (k : Bytes) (r : ℕ) (u : BpTree)
    → insert_into_parent f t l k r ≡ some u
    → (a : ℕ) → a < t.last_address
    → u.next a ≡ t.next a
unfolding insert_into_new_root insert_into_node split_node alloc
climb_next zero t l k r u run a lt = absurd (let h : none ≡ some u = stop ∙ run in cc)
  where
    stop : none ≡ insert_into_parent 0 t l k r
    stop = unfold insert_into_parent in refl
climb_next (suc f) t l k r u run a lt = elim (Option-cases (t.parent l)) [
  | inl e ↦
      ap (λ v. v.next a)
        (sym (some_eq (insert_into_new_root l k r t) u (sym (climb_root f t l k r e) ∙ run)))
      ∙ write_other t.next t.last_address a none (λ g. omega arith)
  | inr (p, e) ↦ elim (Content-cases (t.content p)) [
    | inl (kvs, c) ↦
        absurd (let h : none ≡ some u = sym (climb_leaf f t l p k r kvs e c) ∙ run in cc)
    | inr (ks, cs, c) ↦
        let i = left_index l cs in
        let run' : step f t p ks cs i k r ≡ some u =
          sym (insert_into_parent-step f t l p k r ks cs e c) ∙ run in
        elim (Bool-cases (ltb (length ks) 7)) [
          | inl x ↦
              let done : some (insert_into_node p ks cs i k r t) ≡ some u = rw x at run' in
              ap (λ v. v.next a) (sym (some_eq (insert_into_node p ks cs i k r t) u done))
          | inr x ↦
              let keys = insert_at i k ks in
              let v = split_node p keys (insert_at (suc i) r cs) t in
              let up : insert_into_parent f v p (split_key keys) t.last_address ≡ some u =
                rw x at run' in
              climb_next f v p (split_key keys) t.last_address u up a (omega arith)
              ∙ write_other t.next t.last_address a none (λ g. omega arith)
        ]
  ]
]

-- After a leaf was split.
parted_next :
    (f : ℕ) (t : BpTree) (p : ℕ) (kvs : Pairs) (k : Bytes) (u : BpTree)
    → p < t.last_address
    → insert_into_parent f (parted p kvs t) p k t.last_address ≡ some u
    → (a : ℕ) → a < t.last_address + binary_node_size
    → u.next a
      ≡ write
          (write (write t.next t.last_address none) t.last_address (t.next p))
          p
          (some t.last_address)
          a
unfolding alloc link_leaf
parted_next f t p kvs k u lt run a h =
    climb_next f (parted p kvs t) p k t.last_address u run a h
    ∙ ap
        (λ o.
          write (write (write t.next t.last_address none) t.last_address o) p (some t.last_address)
            a)
        (write_other t.next t.last_address p none (λ g. omega arith))

abbrev pub Distinct : List ℕ → Type 0
Distinct [] = Unit
Distinct (x ∷ xs) = ¬ Elem x xs × Distinct xs

pub Elem-append : (a : ℕ) (xs ys : List ℕ) → Elem a (xs ++ ys) → Elem a xs ⊎ Elem a ys
Elem-append a [] ys i = inr i
Elem-append a (x ∷ xs) ys (inl e) = inl (inl e)
Elem-append a (x ∷ xs) ys (inr i) = elim (Elem-append a xs ys i) [
  | inl j ↦ inl (inr j)
  | inr j ↦ inr j
]

Elem-middle : (a : ℕ) (xs ys : List ℕ) → Elem a (xs ++ a ∷ ys)
Elem-middle a [] ys = inl refl
Elem-middle a (x ∷ xs) ys = inr (Elem-middle a xs ys)

append-Distinct :
    (xs ys : List ℕ)
    → Distinct xs
    → Distinct ys
    → ((a : ℕ) → Elem a xs → ¬ Elem a ys)
    → Distinct (xs ++ ys)
append-Distinct [] ys dx dy h = dy
append-Distinct (x ∷ xs) ys dx dy h = (
  λ i. elim (Elem-append x xs ys i) [ inl j ↦ dx.0 j | inr j ↦ h x (inl refl) j ],
  append-Distinct xs ys dx.1 dy (λ a i. h a (inr i)),
)

mutual
  leaf_inside : (a : ℕ) (s : Shape) → Elem a (leaf_addrs s) → In a s
  leaf_inside a (leaf p kvs) (inl e) = e
  leaf_inside a (leaf p kvs) (inr e) = elim e [ ]
  leaf_inside a (inner p bs) i = inr (leaf_inside_all a bs i)

  leaf_inside_all : (a : ℕ) (bs : Branches) → Elem a (leaf_addrs_all bs) → InAny a bs
  leaf_inside_all a (one s) i = leaf_inside a s i
  leaf_inside_all a (more s k bs) i = elim (Elem-append a (leaf_addrs s) (leaf_addrs_all bs) i) [
    | inl j ↦ inl (leaf_inside a s j)
    | inr j ↦ inr (leaf_inside_all a bs j)
  ]

mutual
  Distinct-leaves : (s : Shape) → IsApart s → Distinct (leaf_addrs s)
  Distinct-leaves (leaf p kvs) d = (λ i. i, tt)
  Distinct-leaves (inner p bs) d = Distinct-all bs d.1

  Distinct-all : (bs : Branches) → AreApart bs → Distinct (leaf_addrs_all bs)
  Distinct-all (one s) d = Distinct-leaves s d
  Distinct-all (more s k bs) d =
      append-Distinct (leaf_addrs s) (leaf_addrs_all bs) (Distinct-leaves s d.0)
        (Distinct-all bs d.1) (λ a i j. d.2 a (leaf_inside a s i) (leaf_inside_all a bs j))

pub leaf_addrs-Distinct : (s : Shape) → IsApart s → Distinct (leaf_addrs s)
leaf_addrs-Distinct s d = Distinct-leaves s d

pub leaf_addrs-In : (a : ℕ) (s : Shape) → Elem a (leaf_addrs s) → In a s
leaf_addrs-In a s i = leaf_inside a s i

-- The chain reads only the pointers of its leaves.
pub Linked-same :
    (next next' : ℕ → Option ℕ) (ps : List ℕ)
    → ((a : ℕ) → Elem a ps → next' a ≡ next a)
    → Linked next ps
    → Linked next' ps
Linked-same next next' [] h l = tt
Linked-same next next' (p ∷ ps) h l =
    (h p (inl refl) ∙ l.0, Linked-same next next' ps (λ a i. h a (inr i)) l.1)

-- A new leaf after the one at `q`.
Linked-after :
    (next next' : ℕ → Option ℕ) (q fresh : ℕ) (pre post : List ℕ)
    → Distinct (pre ++ q ∷ post)
    → ((a : ℕ) → Elem a (pre ++ q ∷ post) → a ≢ q → next' a ≡ next a)
    → next' q ≡ some fresh
    → next' fresh ≡ next q
    → Linked next (pre ++ q ∷ post)
    → Linked next' (pre ++ q ∷ fresh ∷ post)
Linked-after next next' q fresh [] post d h here after l = (
  here,
  (after ∙ l.0, Linked-same next next' post (λ a i. h a (inr i) (λ e. d.0 (rw (← e) i))) l.1),
)
Linked-after next next' q fresh (x ∷ pre) post d h here after l = (
  h x (inl refl) (λ e. d.0 (rw e (Elem-middle q pre post))) ∙ l.0 ∙ heads pre,
  Linked-after next next' q fresh pre post d.1 (λ a i n. h a (inr i) n) here after l.1,
)
  where
    heads : (xs : List ℕ) → head (xs ++ q ∷ post) ≡ head (xs ++ q ∷ fresh ∷ post)
    heads [] = refl
    heads (x ∷ xs) = refl

-- The run from a leaf links what was split off after it.
pub insert_at_leaf-Linked :
    (f : ℕ) (t : BpTree) (q : ℕ) (kvs : Pairs) (key : Bytes) (r : Record) (u : BpTree)
    (old new : List ℕ)
    → t.content q ≡ leaf_node kvs
    → insert_at_leaf f q key r t ≡ some u
    → ((a : ℕ) → Elem a old → a < t.last_address)
    → Distinct old
    → Placed old new q (split_off t.last_address (insert_pair key r kvs))
    → Linked t.next old
    → Linked u.next new
unfolding insert_into_leaf
insert_at_leaf-Linked f t q kvs key r u old new c run under d h l =
    let fresh = t.last_address in
    let start : (if ltb (length kvs) 7
          then some (insert_into_leaf q kvs key r t)
          else split_leaf f q kvs key r t)
        ≡ some u =
      sym (insert_at_leaf_eq t f q kvs key r c) ∙ run in
    let grows = length-insert_pair key r kvs in
    elim (Bool-cases (ltb (length kvs) 7)) [
      | inl x ↦
          let done : some (insert_into_leaf q kvs key r t) ≡ some u = rw x at start in
          let e = some_eq (insert_into_leaf q kvs key r t) u done in
          let fits : ltb (length (insert_pair key r kvs)) 8 ≡ true = ground arith in
          let same : new ≡ old =
            h.new_eq
            ∙ ap (λ b. h.pre ++ q ∷ ((if b then [] else fresh ∷ []) ++ h.post)) fits
            ∙ sym h.old_eq in
          rw (← e) (rw same l)
      | inr x ↦
          let up : insert_into_parent f (parted q (insert_pair key r kvs) t) q
                (key_at (drop 4 (insert_pair key r kvs))) fresh
              ≡ some u =
            sym (split_leaf_eq t f q kvs key r) ∙ (rw x at start) in
          let full : ltb (length (insert_pair key r kvs)) 8 ≡ false = ground arith in
          let more : new ≡ h.pre ++ q ∷ fresh ∷ h.post =
            h.new_eq ∙ ap (λ b. h.pre ++ q ∷ ((if b then [] else fresh ∷ []) ++ h.post)) full in
          let old_q : q < fresh = under q (rw h.old_eq (Elem-middle q h.pre h.post)) in
          let at =
            parted_next f t q (insert_pair key r kvs) (key_at (drop 4 (insert_pair key r kvs))) u
              old_q up in
          let raw = write t.next fresh none in
          rw more (
            Linked-after t.next u.next q fresh h.pre h.post (rw h.old_eq at d)
              (λ a i n.
                (let lt = under a (rw h.old_eq i) in
                  at a (omega arith)
                  ∙ write_other (write raw fresh (t.next q)) q a (some fresh) n
                  ∙ write_other raw fresh a (t.next q) (λ g. omega arith)
                  ∙ write_other t.next fresh a none (λ g. omega arith)))
              (at q (omega arith) ∙ write_self (write raw fresh (t.next q)) q (some fresh))
              (at fresh (omega arith)
                ∙ write_other (write raw fresh (t.next q)) q fresh (some fresh) (λ g. omega arith)
                ∙ write_self raw fresh (t.next q))
              (rw h.old_eq at l))
    ]
