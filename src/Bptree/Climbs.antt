-- ===== src/Bptree/Climbs.antt =====
-- The run of `Insert` among the branches of an inner node, and in the node once its branches are
-- done.
use nutsdb.Prelude.{
  ℕ, suc, ◌<◌, ◌≡◌, refl, sym, ap, ◌∙◌, Option, some, List, [], ◌∷◌, ◌++◌, ◌⊎◌, inl, inr, length,
  arith,
}
use mathlib.Core.List.{append_assoc}
use nutsdb.Prelude.Words.{Bytes}
use nutsdb.Bptree.{BpTree, inner_node, insert_at, left_index, insert_into_parent}
use nutsdb.Bptree.Shapes.{
  Shape, Branches, one, more, addr, keys, addrs, In, InAny, AreApart, Represents, RepresentsAll,
}
use nutsdb.Bptree.Growth.{Growth, done, split, as_branches, before_branches}
use nutsdb.Bptree.Memory.{
  Elem, addr-In, Represents-Same, RepresentsAll-Same, Represents-parent, left_index-append,
  insert_at-append, insert_at-append_after,
}
use nutsdb.Bptree.Runs.{Framed, Runs, step, insert_into_parent-step}

-- The run has ended among the branches.
pub record Ended (t : BpTree) (p : ℕ) (bs : Branches) (run : Option BpTree) (bs' : Branches)
    (fresh : ℕ) : Type 0 where
  pub after : BpTree
  pub run_eq : run ≡ some after
  pub holds : RepresentsAll after (some p) bs'
  pub keys_eq : keys bs' ≡ keys bs
  pub addrs_eq : addrs bs' ≡ addrs bs
  pub framed : Framed t after (λ a. InAny a bs) fresh

-- The run goes on in the parent, with a key and a pointer to insert among those before and here.
pub record Rising (t : BpTree) (p : ℕ) (bs : Branches) (f : ℕ) (run : Option BpTree)
    (bs' : Branches) (fresh : ℕ) (pk : List Bytes) (pc : List ℕ) : Type 0 where
  pub after : BpTree
  pub index : ℕ
  pub key : Bytes
  pub right : ℕ
  pub run_eq : run ≡ step f after p (pk ++ keys bs) (pc ++ addrs bs) index key right
  pub keys_eq : insert_at index key (pk ++ keys bs) ≡ pk ++ keys bs'
  pub addrs_eq : insert_at (suc index) right (pc ++ addrs bs) ≡ pc ++ addrs bs'
  pub holds : RepresentsAll after (some p) bs'
  pub framed : Framed t after (λ a. InAny a bs) fresh

abbrev pub RunsAll :
    BpTree → ℕ → Branches → ℕ → Option BpTree → Branches → ℕ → List Bytes → List ℕ → Type 0
RunsAll t p bs f run bs' fresh pk pc =
    Ended t p bs run bs' fresh ⊎ Rising t p bs f run bs' fresh pk pc

abbrev pub growth_addr : Growth → ℕ
growth_addr (done s) = addr s
growth_addr (split l k r) = addr l

-- `insertIntoParent` at a child that stands after the pointers `pc`.
rising_step :
    (f : ℕ) (u : BpTree) (p : ℕ) (l : Shape) (a : ℕ) (k : Bytes) (right : ℕ) (ks : List Bytes)
    (pc tc : List ℕ)
    → Represents u (some p) l
    → u.content p ≡ inner_node ks (pc ++ a ∷ tc)
    → addr l ≡ a
    → ¬ Elem a pc
    → insert_into_parent (suc f) u (addr l) k right
      ≡ step f u p ks (pc ++ a ∷ tc) (length pc) k right
rising_step f u p l a k right ks pc tc rep c same n =
    insert_into_parent-step f u (addr l) p k right ks (pc ++ a ∷ tc)
      (Represents-parent u (some p) l rep) c
    ∙ ap (λ (i : ℕ). step f u p ks (pc ++ a ∷ tc) i k right)
        (ap (λ (x : ℕ). left_index x (pc ++ a ∷ tc)) same ∙ left_index-append a pc tc n)

-- What the branches around a node know of it.
pub record Around (t : BpTree) (p : ℕ) (bs : Branches) (pk : List Bytes) (pc : List ℕ)
    : Type 0 where
  pub content : t.content p ≡ inner_node (pk ++ keys bs) (pc ++ addrs bs)
  pub old : p < t.last_address
  pub outside : ¬ InAny p bs
  pub even : length pk ≡ length pc
  pub before : (a : ℕ) → Elem a pc → ¬ InAny a bs

not_before :
    (t : BpTree) (p : ℕ) (bs : Branches) (pk : List Bytes) (pc : List ℕ) (s : Shape)
    → Around t p bs pk pc
    → InAny (addr s) bs
    → ¬ Elem (addr s) pc
not_before t p bs pk pc s h i e = h.before (addr s) e i

pub one-Runs :
    (t : BpTree) (p : ℕ) (s : Shape) (f : ℕ) (run : Option BpTree) (g : Growth) (fresh : ℕ)
    (pk : List Bytes) (pc : List ℕ)
    → Around t p (one s) pk pc
    → growth_addr g ≡ addr s
    → Runs t (some p) s (suc f) run g fresh
    → RunsAll t p (one s) f run (as_branches g) fresh pk pc
one-Runs t p s f run (done s') fresh pk pc h a r = inl (record {
  after = r.0;
  run_eq = r.1;
  holds = r.2;
  keys_eq = refl;
  addrs_eq = ap (λ (x : ℕ). x ∷ []) a;
  framed = r.3;
})
one-Runs t p s f run (split l k x) fresh pk pc h a r = inr (record {
  after = r.0;
  index = length pc;
  key = k;
  right = addr x;
  run_eq =
      r.1
      ∙ rising_step f r.0 p l (addr s) k (addr x) (pk ++ []) pc [] r.2
          ((r.4.same p h.old h.outside).0 ∙ h.content) a
          (not_before t p (one s) pk pc s h (addr-In s));
  keys_eq = rw (← h.even) (insert_at-append k pk []);
  addrs_eq = rw a (insert_at-append_after (addr x) (addr s) pc []);
  holds = (r.2, r.3);
  framed = r.4;
})

-- The node is kept where the first child is all that changes.
widened :
    (t u : BpTree) (s : Shape) (k : Bytes) (bs : Branches) (fresh : ℕ)
    → Framed t u (λ a. In a s) fresh
    → Framed t u (λ a. InAny a (more s k bs)) fresh
widened t u s k bs fresh h = record {
  same = λ a old n. h.same a old (λ i. n (inl i));
  last = h.last;
  root = h.root;
}

kept_bs :
    (t u : BpTree) (up : Option ℕ) (s : Shape) (k : Bytes) (bs : Branches) (fresh : ℕ)
    → ((a : ℕ) → InAny a (more s k bs) → a < t.last_address)
    → AreApart (more s k bs)
    → Framed t u (λ a. In a s) fresh
    → RepresentsAll t up bs
    → RepresentsAll u up bs
kept_bs t u up s k bs fresh under d h r =
    RepresentsAll-Same t u up bs (λ a i. h.same a (under a (inr i)) (λ j. d.2 a j i)) r

pub before-Runs :
    (t : BpTree) (p : ℕ) (s : Shape) (m : Bytes) (bs : Branches) (f : ℕ) (run : Option BpTree)
    (g : Growth) (fresh : ℕ) (pk : List Bytes) (pc : List ℕ)
    → Around t p (more s m bs) pk pc
    → growth_addr g ≡ addr s
    → ((a : ℕ) → InAny a (more s m bs) → a < t.last_address)
    → AreApart (more s m bs)
    → RepresentsAll t (some p) bs
    → Runs t (some p) s (suc f) run g fresh
    → RunsAll t p (more s m bs) f run (before_branches g m bs) fresh pk pc
before-Runs t p s m bs f run (done s') fresh pk pc h a under d rep r = inl (record {
  after = r.0;
  run_eq = r.1;
  holds = (r.2, kept_bs t r.0 (some p) s m bs fresh under d r.3 rep);
  keys_eq = refl;
  addrs_eq = ap (λ (x : ℕ). x ∷ addrs bs) a;
  framed = widened t r.0 s m bs fresh r.3;
})
before-Runs t p s m bs f run (split l k x) fresh pk pc h a under d rep r = inr (record {
  after = r.0;
  index = length pc;
  key = k;
  right = addr x;
  run_eq =
      r.1
      ∙ rising_step f r.0 p l (addr s) k (addr x) (pk ++ m ∷ keys bs) pc (addrs bs) r.2
          ((r.4.same p h.old (λ i. h.outside (inl i))).0 ∙ h.content) a
          (not_before t p (more s m bs) pk pc s h (inl (addr-In s)));
  keys_eq = rw (← h.even) (insert_at-append k pk (m ∷ keys bs));
  addrs_eq = rw a (insert_at-append_after (addr x) (addr s) pc (addrs bs));
  holds = (r.2, (r.3, kept_bs t r.0 (some p) s m bs fresh under d r.4 rep));
  framed = widened t r.0 s m bs fresh r.4;
})

-- The branches after the first are around the node too.
pub Around-rest :
    (t : BpTree) (p : ℕ) (s : Shape) (m : Bytes) (bs : Branches) (pk : List Bytes) (pc : List ℕ)
    → AreApart (more s m bs)
    → Around t p (more s m bs) pk pc
    → Around t p bs (pk ++ m ∷ []) (pc ++ addr s ∷ [])
Around-rest t p s m bs pk pc d h = record {
  content =
      h.content
      ∙ ap (λ ks. inner_node ks (pc ++ addr s ∷ addrs bs))
          (sym (append_assoc pk (m ∷ []) (keys bs)))
      ∙ ap (inner_node ((pk ++ m ∷ []) ++ keys bs))
          (sym (append_assoc pc (addr s ∷ []) (addrs bs)));
  old = h.old;
  outside = λ i. h.outside (inr i);
  even = lengths pk pc h.even;
  before = λ a e i. apart a pc (λ e. h.before a e (inr i)) i e;
}
  where
    lengths :
        (xs : List Bytes) (ys : List ℕ)
        → length xs ≡ length ys
        → length (xs ++ m ∷ []) ≡ length (ys ++ addr s ∷ [])
    lengths [] [] e = refl
    lengths [] (y ∷ ys) e = absurd (omega arith)
    lengths (x ∷ xs) [] e = absurd (omega arith)
    lengths (x ∷ xs) (y ∷ ys) e = ap suc (lengths xs ys (omega arith))

    apart : (a : ℕ) (ys : List ℕ) → ¬ Elem a ys → InAny a bs → ¬ Elem a (ys ++ addr s ∷ [])
    apart a [] n i (inl e) = d.2 (addr s) (addr-In s) (rw (← e) i)
    apart a [] n i (inr e) = absurd e
    apart a (y ∷ ys) n i (inl e) = n (inl e)
    apart a (y ∷ ys) n i (inr e) = apart a ys (λ j. n (inr j)) i e

kept_first :
    (t u : BpTree) (up : Option ℕ) (s : Shape) (m : Bytes) (bs : Branches) (fresh : ℕ)
    → ((a : ℕ) → InAny a (more s m bs) → a < t.last_address)
    → AreApart (more s m bs)
    → Framed t u (λ a. InAny a bs) fresh
    → Represents t up s
    → Represents u up s
kept_first t u up s m bs fresh under d h r =
    Represents-Same t u up s (λ a i. h.same a (under a (inl i)) (d.2 a i)) r

widened_rest :
    (t u : BpTree) (s : Shape) (k : Bytes) (bs : Branches) (fresh : ℕ)
    → Framed t u (λ a. InAny a bs) fresh
    → Framed t u (λ a. InAny a (more s k bs)) fresh
widened_rest t u s k bs fresh h = record {
  same = λ a old n. h.same a old (λ i. n (inr i));
  last = h.last;
  root = h.root;
}

-- A run among the branches after the first.
pub rest_runs :
    (t : BpTree) (p : ℕ) (s : Shape) (m : Bytes) (bs : Branches) (f : ℕ) (run : Option BpTree)
    (bs' : Branches) (fresh : ℕ) (pk : List Bytes) (pc : List ℕ)
    → ((a : ℕ) → InAny a (more s m bs) → a < t.last_address)
    → AreApart (more s m bs)
    → Represents t (some p) s
    → RunsAll t p bs f run bs' fresh (pk ++ m ∷ []) (pc ++ addr s ∷ [])
    → RunsAll t p (more s m bs) f run (more s m bs') fresh pk pc
rest_runs t p s m bs f run bs' fresh pk pc under d rep (inl r) = inl (record {
  after = r.after;
  run_eq = r.run_eq;
  holds = (kept_first t r.after (some p) s m bs fresh under d r.framed rep, r.holds);
  keys_eq = ap (◌∷◌ m) r.keys_eq;
  addrs_eq = ap (◌∷◌ (addr s)) r.addrs_eq;
  framed = widened_rest t r.after s m bs fresh r.framed;
})
rest_runs t p s m bs f run bs' fresh pk pc under d rep (inr r) =
    let ka = append_assoc pk (m ∷ []) (keys bs) in
    let kb = append_assoc pk (m ∷ []) (keys bs') in
    let ca = append_assoc pc (addr s ∷ []) (addrs bs) in
    let cb = append_assoc pc (addr s ∷ []) (addrs bs') in
    inr (record {
      after = r.after;
      index = r.index;
      key = r.key;
      right = r.right;
      run_eq =
          r.run_eq
          ∙ ap (λ ks. step f r.after p ks ((pc ++ addr s ∷ []) ++ addrs bs) r.index r.key r.right)
              ka
          ∙ ap (λ cs. step f r.after p (pk ++ m ∷ keys bs) cs r.index r.key r.right) ca;
      keys_eq = sym (ap (insert_at r.index r.key) ka) ∙ r.keys_eq ∙ kb;
      addrs_eq = sym (ap (insert_at (suc r.index) r.right) ca) ∙ r.addrs_eq ∙ cb;
      holds = (kept_first t r.after (some p) s m bs fresh under d r.framed rep, r.holds);
      framed = widened_rest t r.after s m bs fresh r.framed;
    })
