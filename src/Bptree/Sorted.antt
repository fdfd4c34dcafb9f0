-- ===== src/Bptree/Sorted.antt =====
-- Sorted lists of pairs, as the leaves hold them, and the insertion into one.
use nutsdb.Prelude.{
  ◌≡◌, refl, true, false, Option, none, some, [], ◌∷◌, ◌++◌, inl, inr, if◌then◌else◌, arith,
  Bool-cases,
}
use nutsdb.Prelude.Words.{Bytes, bytes_eq, bytes_eq_iff}
use nutsdb.Prelude.Compare.{
  below, below_trans, eq_of_below, below_of_not, below_of_lt_not, below_asym,
}
use nutsdb.Records.{Record}
use nutsdb.Bptree.{Pairs, insert_pair, find_in}

-- `lo ≤ k`, where no bound is below every key.
abbrev pub Low : Option Bytes → Bytes → Type 0
Low none k = Unit
Low (some b) k = below k b ≡ false

-- `k < hi`
abbrev pub High : Option Bytes → Bytes → Type 0
High none k = Unit
High (some b) k = below k b ≡ true

abbrev pub Within : Option Bytes → Option Bytes → Bytes → Type 0
Within lo hi k = Low lo k × High hi k

abbrev pub All : (Bytes → Type 0) → Pairs → Type 0
All P [] = Unit
All P ((k, r) ∷ kvs) = P k × All P kvs

abbrev pub IsSorted : Pairs → Type 0
IsSorted [] = Unit
IsSorted ((k, r) ∷ kvs) = All (λ x. below k x ≡ true) kvs × IsSorted kvs

pub All-imp :
    (P Q : Bytes → Type 0) → ((k : Bytes) → P k → Q k) → (kvs : Pairs) → All P kvs → All Q kvs
All-imp P Q f [] a = tt
All-imp P Q f ((k, r) ∷ kvs) a = (f k a.0, All-imp P Q f kvs a.1)

pub All-append : (P : Bytes → Type 0) (xs ys : Pairs) → All P xs → All P ys → All P (xs ++ ys)
All-append P [] ys a b = b
All-append P ((k, r) ∷ xs) ys a b = (a.0, All-append P xs ys a.1 b)

pub All-split : (P : Bytes → Type 0) (xs ys : Pairs) → All P (xs ++ ys) → All P xs × All P ys
All-split P [] ys a = (tt, a)
All-split P ((k, r) ∷ xs) ys a = let (l, h) = All-split P xs ys a.1 in ((a.0, l), h)

-- `lo ≤ k ≤ hi`, for the key of an inner node.
abbrev pub AtMost : Option Bytes → Bytes → Type 0
AtMost none k = Unit
AtMost (some b) k = below b k ≡ false

abbrev pub Between : Option Bytes → Option Bytes → Bytes → Type 0
Between lo hi k = Low lo k × AtMost hi k

pub Within-Between : (lo hi : Option Bytes) (k : Bytes) → Within lo hi k → Between lo hi k
Within-Between lo none k w = (w.0, tt)
Within-Between lo (some b) k w = (w.0, below_asym k b w.1)

ge_trans : (a b c : Bytes) → below a b ≡ false → below b c ≡ false → below a c ≡ false
ge_trans a b c h k = elim (Bool-cases (below a c)) [
  | inl e ↦ ground (arith, below_of_not c b a, below_of_lt_not a c b)
  | inr e ↦ e
]

-- A key between two bounds stands between any wider ones.
pub Within-left :
    (lo hi : Option Bytes) (k x : Bytes) → Between lo hi k → Within lo (some k) x → Within lo hi x
Within-left lo none k x w v = (v.0, tt)
Within-left lo (some b) k x w v = (v.0, below_of_lt_not x k b v.1 w.1)

pub Within-right :
    (lo hi : Option Bytes) (k x : Bytes) → Between lo hi k → Within (some k) hi x → Within lo hi x
Within-right none hi k x w v = (tt, v.1)
Within-right (some b) hi k x w v = (ge_trans x k b v.0 w.0, v.1)

pub Between-left :
    (lo hi : Option Bytes) (k x : Bytes) → Between lo hi k → Between lo (some k) x → Between lo hi x
Between-left lo none k x w v = (v.0, tt)
Between-left lo (some b) k x w v = (v.0, ge_trans b k x w.1 v.1)

pub Between-right :
    (lo hi : Option Bytes) (k x : Bytes) → Between lo hi k → Between (some k) hi x → Between lo hi x
Between-right none hi k x w v = (tt, v.1)
Between-right (some b) hi k x w v = (ge_trans x k b v.0 w.0, v.1)

pub IsSorted-append :
    (k : Bytes) (xs ys : Pairs)
    → IsSorted xs
    → IsSorted ys
    → All (λ x. below x k ≡ true) xs
    → All (λ x. below x k ≡ false) ys
    → IsSorted (xs ++ ys)
IsSorted-append k [] ys sx sy a b = sy
IsSorted-append k ((x, r) ∷ xs) ys sx sy a b = (
  All-append _ xs ys sx.0 (All-imp _ _ (λ y h. below_of_lt_not x k y a.0 h) ys b),
  IsSorted-append k xs ys sx.1 sy a.1 b,
)

pub IsSorted-split : (xs ys : Pairs) → IsSorted (xs ++ ys) → IsSorted xs × IsSorted ys
IsSorted-split [] ys s = (tt, s)
IsSorted-split ((k, r) ∷ xs) ys s =
    let (l, h) = IsSorted-split xs ys s.1 in (((All-split _ xs ys s.0).0, l), h)

pub find_in-append :
    (key : Bytes) (xs ys : Pairs)
    → find_in key (xs ++ ys) ≡ elim (find_in key xs) [ none ↦ find_in key ys | some r ↦ some r ]
unfolding find_in
find_in-append key [] ys = refl
find_in-append key ((k, r) ∷ xs) ys = elim (Bool-cases (bytes_eq key k)) [
  | inl e ↦ rw (e, find_in) refl
  | inr e ↦ rw (e, find_in) (find_in-append key xs ys)
]

-- A key below all the others is not found.
pub find_in_above :
    (key k : Bytes) (xs : Pairs)
    → below key k ≡ true
    → All (λ x. below x k ≡ false) xs
    → find_in key xs ≡ none
unfolding find_in
find_in_above key k [] h a = refl
find_in_above key k ((x, r) ∷ xs) h a =
    ground (arith, bytes_eq_iff key x, find_in_above key k xs h a.1)

pub find_in-below :
    (key k : Bytes) (xs : Pairs)
    → below key k ≡ false
    → All (λ x. below x k ≡ true) xs
    → find_in key xs ≡ none
unfolding find_in
find_in-below key k [] h a = refl
find_in-below key k ((x, r) ∷ xs) h a =
    ground (arith, bytes_eq_iff key x, find_in-below key k xs h a.1)

pub insert_pair_before :
    (key k : Bytes) (r : Record) (xs ys : Pairs)
    → below key k ≡ true
    → All (λ x. below x k ≡ false) ys
    → insert_pair key r (xs ++ ys) ≡ insert_pair key r xs ++ ys
unfolding insert_pair
insert_pair_before key k r [] [] h a = refl
insert_pair_before key k r [] ((y, s) ∷ ys) h a =
    ground (arith, below_of_lt_not key k y, below_asym key y)
insert_pair_before key k r ((x, s) ∷ xs) ys h a =
    ground (arith, insert_pair_before key k r xs ys h a)

pub insert_pair_after :
    (key k : Bytes) (r : Record) (xs ys : Pairs)
    → below key k ≡ false
    → All (λ x. below x k ≡ true) xs
    → insert_pair key r (xs ++ ys) ≡ xs ++ insert_pair key r ys
unfolding insert_pair
insert_pair_after key k r [] ys h a = refl
insert_pair_after key k r ((x, s) ∷ xs) ys h a =
    ground (arith, below_of_lt_not x k key, insert_pair_after key k r xs ys h a.1)

pub All-insert_pair :
    (P : Bytes → Type 0) (key : Bytes) (r : Record) (xs : Pairs)
    → P key
    → All P xs
    → All P (insert_pair key r xs)
unfolding insert_pair
All-insert_pair P key r [] p a = (p, tt)
All-insert_pair P key r ((x, s) ∷ xs) p a = ground (arith, All-insert_pair P key r xs p a.1)

-- The insertion of a new key keeps the list sorted.
pub insert_pair-IsSorted :
    (key : Bytes) (r : Record) (xs : Pairs)
    → find_in key xs ≡ none
    → IsSorted xs
    → IsSorted (insert_pair key r xs)
unfolding insert_pair find_in
insert_pair-IsSorted key r [] n s = (tt, tt)
insert_pair-IsSorted key r ((x, t) ∷ xs) n s = elim (Bool-cases (below x key)) [
  | inl e ↦
      rw (e, insert_pair)
        (
          All-insert_pair (λ y. below x y ≡ true) key r xs e s.0,
          insert_pair-IsSorted key r xs (ground arith) s.1,
        )
  | inr e ↦
      let first : below key x ≡ true = ground (arith, bytes_eq_iff key x, eq_of_below key x) in
      rw (e, insert_pair) ((first, All-imp _ _ (λ y h. below_trans key x y first h) xs s.0), s)
]

-- A key reads back what was inserted, and any other reads as before.
pub find_in-insert_pair :
    (key other : Bytes) (r : Record) (xs : Pairs)
    → find_in key xs ≡ none
    → find_in other (insert_pair key r xs)
      ≡ (if bytes_eq other key then some r else find_in other xs)
unfolding insert_pair find_in
find_in-insert_pair key other r [] n = refl
find_in-insert_pair key other r ((x, s) ∷ xs) n = ground (
  arith,
  bytes_eq_iff other key,
  bytes_eq_iff other x,
  bytes_eq_iff key x,
  find_in-insert_pair key other r xs,
)
