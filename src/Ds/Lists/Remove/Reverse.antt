-- ===== src/Ds/Lists/Remove/Reverse.antt =====
-- The swaps at the end of `LRem` reverse the slice in place.
use mathlib.Core.List.{append_assoc, append-nil, reverse-append}
use mathlib.Core.Path.{subst}
use nutsdb.Prelude.{
  ℕ, zero, suc, ◌+◌, ◌-◌, ◌/◌, ◌≡◌, refl, ap, sym, ◌∙◌, some, List, [], ◌∷◌, ◌++◌, reverse, arith,
  length, length-append, get_elem?, set,
}
use nutsdb.Prelude.Arrays.{split_last}
use nutsdb.Ds.Lists.Remove.{swap, swap_loop, reverse_in_place}

module _ {ℓ} {A : Type ℓ} where
  get_elem?-append :
      (pre : List A) (x : A) (post : List A) → get_elem? (pre ++ x ∷ post) (length pre) ≡ some x
  get_elem?-append [] x post = refl
  get_elem?-append (p ∷ pre) x post = get_elem?-append pre x post

  set-append :
      (pre : List A) (x : A) (post : List A) (v : A)
      → set (pre ++ x ∷ post) (length pre) v ≡ pre ++ v ∷ post
  set-append [] x post v = refl
  set-append (p ∷ pre) x post v = ap (◌∷◌ p) (set-append pre x post v)

  swap_at :
      (i j : ℕ) (a b c : List A) (x y : A)
      → get_elem? a i ≡ some x
      → get_elem? a j ≡ some y
      → set a i y ≡ b
      → set b j x ≡ c
      → swap i j a ≡ some c
  unfolding swap
  swap_at i j a b c x y hx hy hb hc = rw (hx, swap) (rw (hy, hb, hc, swap))

  -- One swap exchanges two elements, wherever they stand.
  swap_ends :
      (pre mid post : List A) (x y : A) (j : ℕ)
      → j ≡ length pre + suc (length mid)
      → swap (length pre) j (pre ++ x ∷ (mid ++ y ∷ post)) ≡ some (pre ++ y ∷ (mid ++ x ∷ post))
  swap_ends pre mid post x y j e =
      let far : (u : A) → length (pre ++ u ∷ mid) ≡ j =
        λ u. omega (arith, length-append pre (u ∷ mid)) in
      let group : (u v : A) → pre ++ u ∷ (mid ++ v ∷ post) ≡ (pre ++ u ∷ mid) ++ v ∷ post =
        λ u v. sym (append_assoc pre (u ∷ mid) (v ∷ post)) in
      swap_at (length pre) j _ (pre ++ y ∷ (mid ++ y ∷ post)) _ x y
        (get_elem?-append pre x (mid ++ y ∷ post))
        (rw (group x y, ← far x) (get_elem?-append (pre ++ x ∷ mid) y post))
        (set-append pre x (mid ++ y ∷ post) y)
        (rw (group y y, group y x, ← far y) (set-append (pre ++ y ∷ mid) y post x))

  swap_loop-suc :
      (rounds i n : ℕ) (a b : List A)
      → swap i (n - i - 1) a ≡ some b
      → swap_loop (suc rounds) i n a ≡ swap_loop rounds (suc i) n b
  unfolding swap_loop
  swap_loop-suc rounds i n a b h = rw (h, swap_loop)

  reverse-ends : (x y : A) (ys : List A) → reverse (x ∷ (ys ++ y ∷ [])) ≡ y ∷ (reverse ys ++ x ∷ [])
  reverse-ends x y ys =
      reverse-append (x ∷ []) (ys ++ y ∷ []) ∙ ap (λ t. t ++ x ∷ []) (reverse-append ys (y ∷ []))

  module _ (pre post ys : List A) (x y : A) (rounds n : ℕ) where
    swap_loop-ends :
        length pre + length post + suc (suc (length ys)) ≡ n
        → length pre ≡ length post
        → swap_loop rounds (length (pre ++ y ∷ [])) n ((pre ++ y ∷ []) ++ (ys ++ x ∷ post))
          ≡ some ((pre ++ y ∷ []) ++ (reverse ys ++ x ∷ post))
        → swap_loop (suc rounds) (length pre) n (pre ++ (x ∷ (ys ++ y ∷ []) ++ post))
          ≡ some (pre ++ (reverse (x ∷ (ys ++ y ∷ [])) ++ post))
    swap_loop-ends hn hp ih =
        let far : n - length pre - 1 ≡ length pre + suc (length ys) = omega arith in
        let len : length (pre ++ y ∷ []) ≡ suc (length pre) =
          omega (arith, length-append pre (y ∷ [])) in
        let rest : swap_loop rounds (suc (length pre)) n (pre ++ y ∷ (ys ++ x ∷ post))
            ≡ some (pre ++ y ∷ (reverse ys ++ x ∷ post)) =
          rw
            (
              append_assoc pre (y ∷ []) (ys ++ x ∷ post),
              append_assoc pre (y ∷ []) (reverse ys ++ x ∷ post),
              len,
            )
            at ih in
        rw (append_assoc ys (y ∷ []) post) (
          swap_loop-suc rounds (length pre) n _ _ (swap_ends pre ys post x y _ far)
          ∙ rest
          ∙ ap (λ t. some (pre ++ t))
              (sym (
                ap (λ t. t ++ post) (reverse-ends x y ys)
                ∙ ap (◌∷◌ y) (append_assoc (reverse ys) (x ∷ []) post))))

  -- After some rounds what stands between the swapped ends is still to be reversed.
  swap_loop_middle :
      (rounds : ℕ) (mid pre post : List A) (n : ℕ)
      → length pre + length post + length mid ≡ n
      → length pre ≡ length post
      → rounds ≡ length mid / 2
      → swap_loop rounds (length pre) n (pre ++ (mid ++ post)) ≡ some (pre ++ (reverse mid ++ post))
  swap_loop_middle zero [] pre post n hn hp hr = unfold swap_loop in refl
  swap_loop_middle zero (x ∷ []) pre post n hn hp hr = unfold swap_loop in refl
  swap_loop_middle zero (x ∷ y ∷ mid) pre post n hn hp hr = absurd (omega arith)
  swap_loop_middle (suc rounds) [] pre post n hn hp hr = absurd (omega arith)
  swap_loop_middle (suc rounds) (x ∷ mid) pre post n hn hp hr =
      let (ys, y, e, l) = split_last (length mid - 1) mid (omega arith) in
      let longer : length (pre ++ y ∷ []) ≡ suc (length pre) =
        omega (arith, length-append pre (y ∷ [])) in
      let rest =
        swap_loop_middle rounds ys (pre ++ y ∷ []) (x ∷ post) n (omega arith) (omega arith)
          (omega arith) in
      subst
        (λ t.
          swap_loop (suc rounds) (length pre) n (pre ++ (x ∷ t ++ post))
          ≡ some (pre ++ (reverse (x ∷ t) ++ post)))
        (sym e) (swap_loop-ends pre post ys x y rounds n (omega arith) hp rest)

  pub reverse_in_place-reverse : (a : List A) → reverse_in_place a ≡ some (reverse a)
  unfolding reverse_in_place
  reverse_in_place-reverse a =
      rw (append-nil a, append-nil (reverse a)) at
        (swap_loop_middle (length a / 2) a [] [] (length a) (omega arith) refl refl)
