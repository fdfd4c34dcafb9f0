-- ===== src/Ds/Lists/Indexes/Keep.antt =====
-- What `LRemByIndex` should leave: the elements at the positions that no index names.
use nutsdb.Prelude.{
  ℕ, zero, suc, ◌+◌, ◌-◌, ◌≤◌, ◌<◌, ◌≡◌, refl, ap, ◌∙◌, Bool, true, false, ◌||◌, List, [], ◌∷◌,
  ◌++◌, arith, ◌==◌, if◌then◌else◌, length, take, drop, length-drop, length-take_of_le,
}
use nutsdb.Prelude.Int.{ℤ, pos, negsuc}

-- Whether some index names the position.
unfoldable pub names : List ℤ → ℕ → Bool
names [] j = false
names (negsuc i ∷ indexes) j = names indexes j
names (pos i ∷ indexes) j = i == j || names indexes j

-- The indexes that are not negative are in order, from `p` on.
abbrev pub SortedFrom : ℕ → List ℤ → Type 0
SortedFrom p [] = Unit
SortedFrom p (negsuc i ∷ indexes) = SortedFrom p indexes
SortedFrom p (pos i ∷ indexes) = (p ≤ i) × SortedFrom i indexes

-- The least index that is not negative is in range.
abbrev pub HasValid : ℕ → List ℤ → Type 0
HasValid n [] = ⊥
HasValid n (negsuc i ∷ indexes) = HasValid n indexes
HasValid n (pos i ∷ indexes) = i < n

pub names_below :
    (p j : ℕ) (indexes : List ℤ) → SortedFrom p indexes → j < p → names indexes j ≡ false
unfolding names
names_below p j [] s h = refl
names_below p j (negsuc i ∷ indexes) s h = names_below p j indexes s h
names_below p j (pos i ∷ indexes) s h = ground (arith, names_below i j indexes s.1 (omega arith))

module _ {ℓ} {A : Type ℓ} (f : ℕ → Bool) where
  -- The elements whose position, counted from `i`, passes the test.
  unfoldable pub keep : ℕ → List A → List A
  keep i [] = []
  keep i (x ∷ xs) = if f i then x ∷ keep (suc i) xs else keep (suc i) xs

  pub keep-append :
      (i : ℕ) (xs ys : List A) → keep i (xs ++ ys) ≡ keep i xs ++ keep (i + length xs) ys
  unfolding keep
  keep-append i [] ys = ap (λ t. keep t ys) (omega arith)
  keep-append i (x ∷ xs) ys =
      let e : suc i + length xs ≡ i + suc (length xs) = omega arith in
      ground (arith, keep-append (suc i) xs ys, ap (λ t. keep t ys) e)

  pub keep_all :
      (i : ℕ) (xs : List A) → ((j : ℕ) → i ≤ j → j < i + length xs → f j ≡ true) → keep i xs ≡ xs
  unfolding keep
  keep_all i [] h = refl
  keep_all i (x ∷ xs) h =
      rw (h i (omega arith) (omega arith))
        (ap (◌∷◌ x) (keep_all (suc i) xs (λ j p q. h j (omega arith) (omega arith))))

module _ {ℓ} {A : Type ℓ} where
  -- A list up to `i` is the list up to `p`, the element at `p`, and what lies between.
  pub take_split :
      (p i : ℕ) (xs : List A)
      → p < i
      → i ≤ length xs
      → (x : A) × (take i xs ≡ take p xs ++ x ∷ take (i - suc p) (drop (suc p) xs))
  take_split p i [] h le = absurd (omega arith)
  take_split zero zero (x ∷ xs) h le = absurd (omega arith)
  take_split zero (suc i) (x ∷ xs) h le = (x, ap (λ t. x ∷ take t xs) (omega arith))
  take_split (suc p) zero (x ∷ xs) h le = absurd (omega arith)
  take_split (suc p) (suc i) (x ∷ xs) h le =
      let (y, e) = take_split p i xs (omega arith) (omega arith) in
      (y, ap (◌∷◌ x) e ∙ ap (λ t. x ∷ (take p xs ++ y ∷ take t (drop (suc p) xs))) (omega arith))

  -- Dropping past a known front.
  pub drop_past :
      (front back : List A) (k m : ℕ) → k ≡ length front + m → drop k (front ++ back) ≡ drop m back
  drop_past [] back k m e = ap (λ t. drop t back) (omega arith)
  drop_past (x ∷ front) back zero m e = absurd (omega arith)
  drop_past (x ∷ front) back (suc k) m e = drop_past front back k m (omega arith)

module _ {ℓ} {A : Type ℓ} (f : ℕ → Bool) where
  -- Between two positions that are removed, everything is kept.
  pub keep-take :
      (p i : ℕ) (xs : List A)
      → p < i
      → i ≤ length xs
      → f p ≡ false
      → ((j : ℕ) → p < j → j < i → f j ≡ true)
      → keep f 0 (take i xs) ≡ keep f 0 (take p xs) ++ take (i - suc p) (drop (suc p) xs)
  keep-take p i xs h le gone kept =
      let (x, e) = take_split p i xs h le in
      let between = take (i - suc p) (drop (suc p) xs) in
      let at_p : 0 + length (take p xs) ≡ p = omega (arith, length-take_of_le p xs (omega arith)) in
      let size : length between ≡ i - suc p =
        length-take_of_le (i - suc p) (drop (suc p) xs) (omega (arith, length-drop (suc p) xs)) in
      let rest : keep f (suc p) between ≡ between =
        keep_all f (suc p) between (λ j lo hi. kept j lo (omega arith)) in
      ap (keep f 0) e
      ∙ keep-append f 0 (take p xs) (x ∷ between)
      ∙ ap (λ t. keep f 0 (take p xs) ++ keep f t (x ∷ between)) at_p
      ∙ ap (λ t. keep f 0 (take p xs) ++ t) (unfold keep in rw gone rest)
