-- ===== src/Bptree/Memory.antt =====
-- What the memory still holds after writes to some addresses.
use nutsdb.Prelude.{
  ℕ, suc, ◌≡◌, ◌≢◌, ◌==◌, ==_iff, refl, ap, ◌∙◌, Option, some, List, [], ◌∷◌, ◌++◌, ◌⊎◌, inl, inr,
  length, arith, Bool-cases,
}
use nutsdb.Bptree.{BpTree, write, set_parents, left_index, insert_at}
use nutsdb.Bptree.Shapes.{
  Shape, leaf, inner, Branches, one, more, addr, addrs, In, InAny, IsApart, AreApart, Represents,
  RepresentsAll,
}

-- The node at an address keeps its contents and its parent.
abbrev pub Same : BpTree → BpTree → ℕ → Type 0
Same t u a = (u.content a ≡ t.content a) × (u.parent a ≡ t.parent a)

abbrev pub Elem : ℕ → List ℕ → Type 0
Elem a [] = ⊥
Elem a (c ∷ cs) = (a ≡ c) ⊎ Elem a cs

pub addr-In : (s : Shape) → In (addr s) s
addr-In (leaf p kvs) = refl
addr-In (inner p bs) = inl refl

pub InAny-Elem : (a : ℕ) (bs : Branches) → Elem a (addrs bs) → InAny a bs
InAny-Elem a (one s) (inl e) = rw e (addr-In s)
InAny-Elem a (one s) (inr i) = elim i [ ]
InAny-Elem a (more s k bs) (inl e) = inl (rw e (addr-In s))
InAny-Elem a (more s k bs) (inr i) = inr (InAny-Elem a bs i)

pub write_self {ℓ} : {A : Type ℓ} (f : ℕ → A) (p : ℕ) (a : A) → write f p a p ≡ a
unfolding write
write_self f p a = ground (arith, ==_iff p p)

pub write_other {ℓ} : {A : Type ℓ} (f : ℕ → A) (p q : ℕ) (a : A) → q ≢ p → write f p a q ≡ f q
unfolding write
write_other f p q a n = elim (Bool-cases (q == p)) [
  | inl e ↦ absurd (n ((==_iff q p).0 e))
  | inr e ↦ rw e
]

pub set_parents_other :
    (cs : List ℕ) (p a : ℕ) (f : ℕ → Option ℕ) → ¬ Elem a cs → set_parents cs p f a ≡ f a
unfolding set_parents
set_parents_other [] p a f n = refl
set_parents_other (c ∷ cs) p a f n =
    set_parents_other cs p a (write f c (some p)) (λ i. n (inr i))
    ∙ write_other f c a (some p) (λ e. n (inl e))

set_parents_kept :
    (cs : List ℕ) (p a : ℕ) (f : ℕ → Option ℕ) → f a ≡ some p → set_parents cs p f a ≡ some p
unfolding set_parents
set_parents_kept [] p a f h = h
set_parents_kept (c ∷ cs) p a f h = set_parents_kept cs p a (write f c (some p)) kept
  where
    kept : write f c (some p) a ≡ some p
    kept = elim (Bool-cases (a == c)) [
      | inl e ↦ let same = (==_iff a c).0 e in rw same (write_self f c (some p))
      | inr e ↦ write_other f c a (some p) (λ g. ground (arith, ==_iff a c)) ∙ h
    ]

pub set_parents_child :
    (cs : List ℕ) (p a : ℕ) (f : ℕ → Option ℕ) → Elem a cs → set_parents cs p f a ≡ some p
unfolding set_parents
set_parents_child [] p a f i = elim i [ ]
set_parents_child (c ∷ cs) p a f (inl e) =
    set_parents_kept cs p a (write f c (some p)) (rw e (write_self f c (some p)))
set_parents_child (c ∷ cs) p a f (inr i) = set_parents_child cs p a (write f c (some p)) i

mutual
  Same-Represents :
      (t u : BpTree) (up : Option ℕ) (s : Shape)
      → ((a : ℕ) → In a s → Same t u a)
      → Represents t up s
      → Represents u up s
  Same-Represents t u up (leaf p kvs) h r = ((h p refl).0 ∙ r.0, (h p refl).1 ∙ r.1)
  Same-Represents t u up (inner p bs) h r = (
    (h p (inl refl)).0 ∙ r.0,
    (h p (inl refl)).1 ∙ r.1,
    Same-RepresentsAll t u (some p) bs (λ a i. h a (inr i)) r.2,
  )

  Same-RepresentsAll :
      (t u : BpTree) (up : Option ℕ) (bs : Branches)
      → ((a : ℕ) → InAny a bs → Same t u a)
      → RepresentsAll t up bs
      → RepresentsAll u up bs
  Same-RepresentsAll t u up (one s) h r = Same-Represents t u up s h r
  Same-RepresentsAll t u up (more s k bs) h r = (
    Same-Represents t u up s (λ a i. h a (inl i)) r.0,
    Same-RepresentsAll t u up bs (λ a i. h a (inr i)) r.1,
  )

-- A part of the tree whose nodes are kept is kept.
pub Represents-Same :
    (t u : BpTree) (up : Option ℕ) (s : Shape)
    → ((a : ℕ) → In a s → Same t u a)
    → Represents t up s
    → Represents u up s
Represents-Same t u up s h r = Same-Represents t u up s h r

pub RepresentsAll-Same :
    (t u : BpTree) (up : Option ℕ) (bs : Branches)
    → ((a : ℕ) → InAny a bs → Same t u a)
    → RepresentsAll t up bs
    → RepresentsAll u up bs
RepresentsAll-Same t u up bs h r = Same-RepresentsAll t u up bs h r

-- A part of the tree that moves to another parent.
pub Represents-moved :
    (t u : BpTree) (up new : Option ℕ) (s : Shape)
    → IsApart s
    → ((a : ℕ) → In a s → u.content a ≡ t.content a)
    → u.parent (addr s) ≡ new
    → ((a : ℕ) → In a s → a ≢ addr s → u.parent a ≡ t.parent a)
    → Represents t up s
    → Represents u new s
Represents-moved t u up new (leaf p kvs) d c root h r = (c p refl ∙ r.0, root)
Represents-moved t u up new (inner p bs) d c root h r = (
  c p (inl refl) ∙ r.0,
  root,
  RepresentsAll-Same t u (some p) bs (λ a i. (c a (inr i), h a (inr i) (λ e. d.0 (rw (← e) i))))
      r.2,
)

pub RepresentsAll-moved :
    (t u : BpTree) (up new : Option ℕ) (bs : Branches)
    → AreApart bs
    → ((a : ℕ) → InAny a bs → u.content a ≡ t.content a)
    → ((a : ℕ) → Elem a (addrs bs) → u.parent a ≡ new)
    → ((a : ℕ) → InAny a bs → ¬ Elem a (addrs bs) → u.parent a ≡ t.parent a)
    → RepresentsAll t up bs
    → RepresentsAll u new bs
RepresentsAll-moved t u up new (one s) d c roots h r =
    Represents-moved t u up new s d c (roots (addr s) (inl refl))
      (λ a i n. h a i (λ e. elim e [ inl g ↦ n g | inr g ↦ absurd g ])) r
RepresentsAll-moved t u up new (more s k bs) d c roots h r = (
  Represents-moved t u up new s d.0 (λ a i. c a (inl i)) (roots (addr s) (inl refl))
      (λ a i n. h a (inl i) (λ e. elim e [ inl g ↦ n g | inr g ↦ d.2 a i (InAny-Elem a bs g) ]))
      r.0,
  RepresentsAll-moved t u up new bs d.1 (λ a i. c a (inr i)) (λ a i. roots a (inr i))
      (λ a i n.
        h a (inr i) (λ e. elim e [ inl g ↦ d.2 (addr s) (addr-In s) (rw (← g) i) | inr g ↦ n g ]))
      r.1,
)

pub Represents-parent :
    (t : BpTree) (up : Option ℕ) (s : Shape) → Represents t up s → t.parent (addr s) ≡ up
Represents-parent t up (leaf p kvs) r = r.1
Represents-parent t up (inner p bs) r = r.1

-- The search for a pointer that none of those before it equals.
pub left_index-append :
    (a : ℕ) (pc tc : List ℕ) → ¬ Elem a pc → left_index a (pc ++ a ∷ tc) ≡ length pc
unfolding left_index
left_index-append a [] tc n = ground (arith, ==_iff a a)
left_index-append a (c ∷ pc) tc n = elim (Bool-cases (a == c)) [
  | inl e ↦ absurd (n (inl ((==_iff a c).0 e)))
  | inr e ↦ rw (e, left_index) (ap suc (left_index-append a pc tc (λ i. n (inr i))))
]

pub insert_at-append {ℓ} :
    {A : Type ℓ} (x : A) (xs ys : List A) → insert_at (length xs) x (xs ++ ys) ≡ xs ++ x ∷ ys
unfolding insert_at
insert_at-append x [] ys = refl
insert_at-append x (y ∷ xs) ys = ap (◌∷◌ y) (insert_at-append x xs ys)

pub insert_at-append_after {ℓ} :
    {A : Type ℓ} (x a : A) (xs ys : List A)
    → insert_at (suc (length xs)) x (xs ++ a ∷ ys) ≡ xs ++ a ∷ x ∷ ys
unfolding insert_at
insert_at-append_after x a [] ys = refl
insert_at-append_after x a (y ∷ xs) ys = ap (◌∷◌ y) (insert_at-append_after x a xs ys)
