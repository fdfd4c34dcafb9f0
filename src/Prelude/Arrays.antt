-- ===== src/Prelude/Arrays.antt =====
-- Writes into a slice of fixed length, which panic out of range (`none`), and what loops of
-- such writes leave behind.
use Prim.Native.Nat.{ℕ, zero, suc, ◌+◌}
use mathlib.Core.Path.{◌≡◌, refl, ap, ◌∙◌}
use mathlib.Core.List.{List, [], ◌∷◌, ◌++◌, reverse, reverse-append, append_assoc, append-nil}
use mathlib.Core.Option.{Option, none, some}
use native.Mathlib.Omega.{arith}
use nutsdb.Prelude.Lists.{length, length-append}

module _ {ℓ} {A : Type ℓ} where
  -- `a[i] = v`
  unfoldable pub write : List A → ℕ → A → Option (List A)
  write [] i v = none
  write (x ∷ xs) zero v = some (v ∷ xs)
  write (x ∷ xs) (suc i) v = elim (write xs i v) [ none ↦ none | some ys ↦ some (x ∷ ys) ]

  -- `for _, v := range vs { a[j] = v; j++ }`
  unfoldable pub write_all : List A → ℕ → List A → Option (List A)
  write_all [] j a = some a
  write_all (v ∷ vs) j a = elim (write a j v) [ none ↦ none | some b ↦ write_all vs (suc j) b ]

  -- `j := 0; for i = n - 1; i >= 0; i-- { a[i] = vs[j]; j++ }`
  unfoldable pub write_down : List A → ℕ → List A → Option (List A)
  write_down vs zero a = some a
  write_down [] (suc i) a = none
  write_down (v ∷ vs) (suc i) a = elim (write a i v) [ none ↦ none | some b ↦ write_down vs i b ]

  pub write-append :
      (pre : List A) (x : A) (post : List A) (v : A)
      → write (pre ++ x ∷ post) (length pre) v ≡ some (pre ++ v ∷ post)
  unfolding write
  write-append [] x post v = refl
  write-append (p ∷ pre) x post v = rw (write-append pre x post v)

  write_all-cons :
      (v : A) (vs : List A) (j : ℕ) (a b : List A)
      → write a j v ≡ some b
      → write_all (v ∷ vs) j a ≡ write_all vs (suc j) b
  unfolding write_all
  write_all-cons v vs j a b h = rw (h, write_all)

  write_down-cons :
      (v : A) (vs : List A) (i : ℕ) (a b : List A)
      → write a i v ≡ some b
      → write_down (v ∷ vs) (suc i) a ≡ write_down vs i b
  unfolding write_down
  write_down-cons v vs i a b h = rw (h, write_down)

  -- Consecutive writes replace as many old elements.
  pub write_all-append :
      (vs pre old post : List A)
      → length old ≡ length vs
      → write_all vs (length pre) (pre ++ (old ++ post)) ≡ some (pre ++ (vs ++ post))
  write_all-append [] pre [] post h = unfold write_all in refl
  write_all-append [] pre (o ∷ old) post h = absurd (omega arith)
  write_all-append (v ∷ vs) pre [] post h = absurd (omega arith)
  write_all-append (v ∷ vs) pre (o ∷ old) post h =
      let e : length (pre ++ v ∷ []) ≡ suc (length pre) =
        omega (arith, length-append pre (v ∷ [])) in
      let ih = write_all-append vs (pre ++ v ∷ []) old post (omega arith) in
      write_all-cons v vs (length pre) _ _ (write-append pre o (old ++ post) v)
      ∙ rw (append_assoc, append_assoc, e) at ih

  -- A list of length n + 1 ends in some element.
  pub split_last :
      (n : ℕ) (xs : List A)
      → length xs ≡ suc n
      → (ys : List A) × (y : A) × (xs ≡ ys ++ y ∷ []) × (length ys ≡ n)
  split_last zero (x ∷ []) h = ([], x, refl, refl)
  split_last zero (x ∷ y ∷ xs) h = absurd (omega arith)
  split_last zero [] h = absurd (omega arith)
  split_last (suc n) [] h = absurd (omega arith)
  split_last (suc n) (x ∷ xs) h =
      let (ys, y, e, l) = split_last n xs (omega arith) in (x ∷ ys, y, ap (◌∷◌ x) e, ap suc l)

  write_last :
      (n : ℕ) (ys : List A) (y : A) (post : List A) (v : A)
      → length ys ≡ n
      → write ((ys ++ y ∷ []) ++ post) n v ≡ some (ys ++ v ∷ post)
  write_last n ys y post v h = rw (append_assoc, ← h) (write-append ys y post v)

  -- A descending loop of writes leaves the values reversed.
  pub write_down-reverse :
      (vs old post : List A)
      → length old ≡ length vs
      → write_down vs (length vs) (old ++ post) ≡ some (reverse vs ++ post)
  write_down-reverse [] [] post h = unfold write_down in refl
  write_down-reverse [] (o ∷ old) post h = absurd (omega arith)
  write_down-reverse (v ∷ vs) old post h =
      let (ys, y, e, l) = split_last (length vs) old h in
      let first : write (old ++ post) (length vs) v ≡ some (ys ++ v ∷ post) =
        rw e (write_last (length vs) ys y post v l) in
      let last : reverse vs ++ v ∷ post ≡ reverse (v ∷ vs) ++ post =
        simp (reverse-append (v ∷ []) vs, append_assoc) in
      write_down-cons v vs (length vs) _ _ first
      ∙ write_down-reverse vs ys (v ∷ post) l
      ∙ ap some last

  -- A list of n + m elements is one of n before one of m.
  pub split_gap :
      (n m : ℕ) (xs : List A)
      → length xs ≡ m + n
      → (a b : List A) × (xs ≡ a ++ b) × (length a ≡ n) × (length b ≡ m)
  split_gap zero m xs h = ([], xs, refl, refl, omega arith)
  split_gap (suc n) m [] h = absurd (omega arith)
  split_gap (suc n) m (x ∷ xs) h =
      let (a, b, e, la, lb) = split_gap n m xs (omega arith) in
      (x ∷ a, b, ap (◌∷◌ x) e, ap suc la, lb)

  write_all_suffix :
      (vs : List A) (n : ℕ) (gap a b : List A)
      → gap ≡ a ++ b
      → length a ≡ n
      → length b ≡ length vs
      → write_all vs n gap ≡ some (a ++ vs)
  write_all_suffix vs n gap a b e la lb =
      rw (e, ← la, ← append-nil b)
        (write_all-append vs a b [] lb ∙ ap (λ t. some (a ++ t)) (append-nil vs))

  -- Writes that fill a slice up to its end keep what stands before them.
  pub write_all_end :
      (vs : List A) (n : ℕ) (gap : List A)
      → length gap ≡ length vs + n
      → (a : List A) × (length a ≡ n) × (write_all vs n gap ≡ some (a ++ vs))
  write_all_end vs n gap h =
      let (a, b, e, la, lb) = split_gap n (length vs) gap h in
      (a, la, write_all_suffix vs n gap a b e la lb)
