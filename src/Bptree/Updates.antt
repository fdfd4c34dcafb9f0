-- ===== src/Bptree/Updates.antt =====
-- `UpdateRecord` on a record of the tree: the leaf keeps its keys, and the tree its shape.
use nutsdb.Prelude.{
  ℕ, ◌≡◌, refl, ap, true, Option, none, some, [], ◌∷◌, ◌++◌, inl, inr, if◌then◌else◌, length, arith,
  Bool-cases,
}
use nutsdb.Prelude.Words.{Bytes, bytes_eq, bytes_eq_iff}
use nutsdb.Prelude.Compare.{below}
use nutsdb.Entries.{Entry, Hint}
use nutsdb.Records.{Record}
use nutsdb.Bptree.{Pairs, find_in, update_in}
use nutsdb.Bptree.Shapes.{
  Shape, leaf, inner, Branches, one, more, addr, keys, addrs, In, InAny, IsApart, AreApart,
  HasHeight, HaveHeight, size, size_all, leaf_addrs, leaf_addrs_all,
}
use nutsdb.Bptree.Heights.{Fits, FitAll}
use nutsdb.Bptree.Ordered.{IsOrdered, AreOrdered}
use nutsdb.Bptree.Sorted.{All, IsSorted}

-- The record that `UpdateRecord` leaves.
abbrev pub updated : Option Entry → Hint → Record → Record
updated e h r = record r { entry = e; hint = some h }

module _ (key : Bytes) (e : Option Entry) (h : Hint) where
  pub length-update_in : (kvs : Pairs) → length (update_in key e h kvs) ≡ length kvs
  unfolding update_in
  length-update_in [] = refl
  length-update_in ((k, r) ∷ kvs) = ground (arith, length-update_in kvs)

  pub All-update_in : (P : Bytes → Type 0) (kvs : Pairs) → All P kvs → All P (update_in key e h kvs)
  unfolding update_in
  All-update_in P [] a = tt
  All-update_in P ((k, r) ∷ kvs) a = elim (Bool-cases (bytes_eq key k)) [
    | inl same ↦ rw same a
    | inr other ↦ rw other (a.0, All-update_in P kvs a.1)
  ]

  pub update_in-IsSorted : (kvs : Pairs) → IsSorted kvs → IsSorted (update_in key e h kvs)
  unfolding update_in
  update_in-IsSorted [] s = tt
  update_in-IsSorted ((k, r) ∷ kvs) s = elim (Bool-cases (bytes_eq key k)) [
    | inl same ↦ rw same s
    | inr other ↦
        rw other (All-update_in (λ x. below k x ≡ true) kvs s.0, update_in-IsSorted kvs s.1)
  ]

  pub find_in-update_in :
      (other : Bytes) (kvs : Pairs)
      → find_in other (update_in key e h kvs) ≡ elim (find_in other kvs) [
        | none ↦ none
        | some r ↦ some (if bytes_eq other key then updated e h r else r)
      ]
  unfolding find_in update_in
  find_in-update_in other [] = refl
  find_in-update_in other ((k, r) ∷ kvs) = ground (
    arith,
    bytes_eq_iff key k,
    bytes_eq_iff other k,
    bytes_eq_iff other key,
    find_in-update_in other kvs,
  )

  pub update_in-append_left :
      (xs ys : Pairs) (r : Record)
      → find_in key xs ≡ some r
      → update_in key e h (xs ++ ys) ≡ update_in key e h xs ++ ys
  unfolding find_in update_in
  update_in-append_left [] ys r f = cc
  update_in-append_left ((k, s) ∷ xs) ys r f = elim (Bool-cases (bytes_eq key k)) [
    | inl same ↦ rw same refl
    | inr other ↦ rw other (ap (◌∷◌ (k, s)) (update_in-append_left xs ys r (rw other at f)))
  ]

  pub update_in-append_right :
      (xs ys : Pairs)
      → find_in key xs ≡ none
      → update_in key e h (xs ++ ys) ≡ xs ++ update_in key e h ys
  unfolding find_in update_in
  update_in-append_right [] ys f = refl
  update_in-append_right ((k, s) ∷ xs) ys f = elim (Bool-cases (bytes_eq key k)) [
    | inl same ↦ absurd (ground arith)
    | inr other ↦ rw other (ap (◌∷◌ (k, s)) (update_in-append_right xs ys (rw other at f)))
  ]

  unfoldable mutual
    pub update : Shape → Shape
    update (leaf p kvs) = leaf p (update_in key e h kvs)
    update (inner p bs) = inner p (update_all bs)

    pub update_all : Branches → Branches
    update_all (one s) = one (update s)
    update_all (more s k bs) =
        let rest = update_all bs in if below key k then more (update s) k bs else more s k rest

-- A shape and one that differs only in the records of its leaves.
pub record Alike (s s' : Shape) : Type 0 where
  pub addr_eq : addr s' ≡ addr s
  pub inside : (a : ℕ) → In a s' → In a s
  pub apart : IsApart s → IsApart s'
  pub height : (n : ℕ) → HasHeight n s → HasHeight n s'
  pub fits : Fits s → Fits s'
  pub ordered : (lo hi : Option Bytes) → IsOrdered lo hi s → IsOrdered lo hi s'
  pub size_eq : size s' ≡ size s
  pub leaves_eq : leaf_addrs s' ≡ leaf_addrs s

pub record AllAlike (bs bs' : Branches) : Type 0 where
  pub keys_eq : keys bs' ≡ keys bs
  pub addrs_eq : addrs bs' ≡ addrs bs
  pub inside : (a : ℕ) → InAny a bs' → InAny a bs
  pub apart : AreApart bs → AreApart bs'
  pub height : (n : ℕ) → HaveHeight n bs → HaveHeight n bs'
  pub fits : FitAll bs → FitAll bs'
  pub ordered : (lo hi : Option Bytes) → AreOrdered lo hi bs → AreOrdered lo hi bs'
  pub size_eq : size_all bs' ≡ size_all bs
  pub leaves_eq : leaf_addrs_all bs' ≡ leaf_addrs_all bs

first-Alike :
    (s s' : Shape) (k : Bytes) (bs : Branches) → Alike s s' → AllAlike (more s k bs) (more s' k bs)
unfolding size
first-Alike s s' k bs h = record {
  keys_eq = refl;
  addrs_eq = ap (λ (a : ℕ). a ∷ addrs bs) h.addr_eq;
  inside = λ a i. elim i [ inl j ↦ inl (h.inside a j) | inr j ↦ inr j ];
  apart = λ d. (h.apart d.0, d.1, λ a i. d.2 a (h.inside a i));
  height = λ n x. (h.height n x.0, x.1);
  fits = λ x. (h.fits x.0, x.1);
  ordered = λ lo hi x. (h.ordered lo (some k) x.0, x.1, x.2);
  size_eq = omega (arith, h.size_eq);
  leaves_eq = ap (λ t. t ++ leaf_addrs_all bs) h.leaves_eq;
}

rest_alike :
    (s : Shape) (k : Bytes) (bs bs' : Branches)
    → AllAlike bs bs'
    → AllAlike (more s k bs) (more s k bs')
unfolding size
rest_alike s k bs bs' h = record {
  keys_eq = ap (◌∷◌ k) h.keys_eq;
  addrs_eq = ap (◌∷◌ (addr s)) h.addrs_eq;
  inside = λ a i. elim i [ inl j ↦ inl j | inr j ↦ inr (h.inside a j) ];
  apart = λ d. (d.0, h.apart d.1, λ a i j. d.2 a i (h.inside a j));
  height = λ n x. (x.0, h.height n x.1);
  fits = λ x. (x.0, h.fits x.1);
  ordered = λ lo hi x. (x.0, x.1, h.ordered (some k) hi x.2);
  size_eq = omega (arith, h.size_eq);
  leaves_eq = ap (λ t. leaf_addrs s ++ t) h.leaves_eq;
}

mutual
  unfolding update size

  alike : (key : Bytes) (e : Option Entry) (h : Hint) (s : Shape) → Alike s (update key e h s)
  alike key e h (leaf p kvs) = record {
    addr_eq = refl;
    inside = λ a i. i;
    apart = λ d. d;
    height = λ n x. x;
    fits = λ x. omega (arith, length-update_in key e h kvs);
    ordered = λ lo hi x. (All-update_in key e h _ kvs x.0, update_in-IsSorted key e h kvs x.1);
    size_eq = refl;
    leaves_eq = refl;
  }
  alike key e h (inner p bs) =
      let b = all_alike key e h bs in
      record {
        addr_eq = refl;
        inside = λ a i. elim i [ inl j ↦ inl j | inr j ↦ inr (b.inside a j) ];
        apart = λ d. (λ i. d.0 (b.inside p i), b.apart d.1);
        height = λ n x. (x.0, x.1, b.height x.0 x.2);
        fits = λ x. (omega (arith, ap length b.keys_eq), b.fits x.1);
        ordered = λ lo hi x. b.ordered lo hi x;
        size_eq = omega (arith, b.size_eq);
        leaves_eq = b.leaves_eq;
      }

  all_alike :
      (key : Bytes) (e : Option Entry) (h : Hint) (bs : Branches)
      → AllAlike bs (update_all key e h bs)
  all_alike key e h (one s) =
      let b = alike key e h s in
      record {
        keys_eq = refl;
        addrs_eq = ap (λ (a : ℕ). a ∷ []) b.addr_eq;
        inside = b.inside;
        apart = b.apart;
        height = b.height;
        fits = b.fits;
        ordered = b.ordered;
        size_eq = b.size_eq;
        leaves_eq = b.leaves_eq;
      }
  all_alike key e h (more s k bs) = elim (Bool-cases (below key k)) [
    | inl x ↦ rw x (first-Alike s (update key e h s) k bs (alike key e h s))
    | inr x ↦ rw x (rest_alike s k bs (update_all key e h bs) (all_alike key e h bs))
  ]

pub update-Alike :
    (key : Bytes) (e : Option Entry) (h : Hint) (s : Shape) → Alike s (update key e h s)
update-Alike key e h s = alike key e h s

pub update_all-AllAlike :
    (key : Bytes) (e : Option Entry) (h : Hint) (bs : Branches)
    → AllAlike bs (update_all key e h bs)
update_all-AllAlike key e h bs = all_alike key e h bs
