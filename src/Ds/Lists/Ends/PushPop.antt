-- ===== src/Ds/Lists/Ends/PushPop.antt =====
-- What pushes, pops and peeks do to a live list.
use nutsdb.Prelude.{
  ℕ, ◌+◌, ◌-◌, ◌≡◌, refl, ap, ◌∙◌, some, List, [], ◌∷◌, ◌++◌, reverse, arith, length, get_elem?,
  replicate, length-append, length-replicate, ok, take_all, take_append,
}
use nutsdb.Prelude.Words.{Bytes}
use nutsdb.Prelude.Arrays.{write_all_end, write_down-reverse}
use nutsdb.Ds.Lists.{ListStore, store}
use nutsdb.Ds.Lists.State.{
  Holds, unless_expired-fresh, require-some, size-Holds, items_at-Holds, store-Holds, store_back,
}
use nutsdb.Ds.Lists.Ends.{r_peek, r_pop, r_push, push_front, l_push, l_peek, l_pop}

get_elem?-last {ℓ} :
    {A : Type ℓ} (xs : List A) (x : A) → get_elem? (xs ++ x ∷ []) (length xs) ≡ some x
get_elem?-last [] x = refl
get_elem?-last (y ∷ xs) x = get_elem?-last xs x

-- The slice that `LPush` builds: the values, last first, and then the old elements.
pub push_front_lem : (values xs : List Bytes) → push_front values xs ≡ some (reverse values ++ xs)
push_front_lem values xs =
    let zero_value : Bytes = [] in
    let gap = replicate (length xs + length values) zero_value in
    let (a, la, filled) =
      write_all_end xs (length values) gap
        (length-replicate (length xs + length values) zero_value) in
    unfold push_front in rw (filled, push_front) (write_down-reverse values a xs la)

module _ (now : ℕ) (key : Bytes) (xs : List Bytes) (l : ListStore) where
  pub r_peek-last :
      (x : Bytes) → Holds now key (xs ++ x ∷ []) l → r_peek now key l ≡ (ok (x, length xs + 1), l)
  unfolding r_peek
  r_peek-last x h = rw (unless_expired-fresh now key l _ h.fresh) (
      rw (require-some key l _ (xs ++ x ∷ []) h.at) (
        ground
          (arith, size-Holds (xs ++ x ∷ []) h, length-append xs (x ∷ []), get_elem?-last xs x)))

  pub r_pop-last :
      (x : Bytes) → Holds now key (xs ++ x ∷ []) l → r_pop now key l ≡ (ok x, store key xs l)
  unfolding r_pop
  r_pop-last x h =
      let e : length xs + 1 - 1 ≡ length xs = omega arith in
      rw (r_peek-last x h, items_at-Holds (xs ++ x ∷ []) h, e, take_append xs (x ∷ []))

  pub r_push-Holds :
      (values : List Bytes)
      → Holds now key xs l
      → r_push now key values l ≡ (ok (length xs + length values), store key (xs ++ values) l)
  unfolding r_push
  r_push-Holds values h =
      rw (unless_expired-fresh now key l _ h.fresh, items_at-Holds xs h)
        (rw (size-Holds _ (store-Holds (xs ++ values) h.fresh), length-append xs values))

  -- On a list that is there and not expired, `LPush` puts the values before the elements, the last
  -- value first, and returns the new size.
  pub l_push-Holds :
      (values : List Bytes)
      → Holds now key xs l
      → l_push now key values l
        ≡ (ok (length xs + length values), store key (reverse values ++ xs) l)
  unfolding l_push
  l_push-Holds values h =
      rw (unless_expired-fresh now key l _ h.fresh, size-Holds xs h)
        (rw (items_at-Holds xs h, take_all xs, push_front_lem values xs))

  pub l_peek-first : (x : Bytes) → Holds now key (x ∷ xs) l → l_peek now key l ≡ (ok x, l)
  unfolding l_peek
  l_peek-first x h =
      rw (unless_expired-fresh now key l _ h.fresh)
        (rw (require-some key l _ (x ∷ xs) h.at) (ground (arith, size-Holds (x ∷ xs) h)))

  pub l_pop-first :
      (x : Bytes) → Holds now key (x ∷ xs) l → l_pop now key l ≡ (ok x, store key xs l)
  unfolding l_pop
  l_pop-first x h =
      rw (unless_expired-fresh now key l _ h.fresh, l_peek-first x h, items_at-Holds (x ∷ xs) h)

module _ (now : ℕ) (key : Bytes) (xs : List Bytes) (l : ListStore) where
  -- On a list that is there and not expired, a pop undoes the push of one value at the same end: it
  -- returns the value, and the store is the one before the push.
  pub pop-push :
      (v : Bytes)
      → Holds now key xs l
      → (r_pop now key (r_push now key (v ∷ []) l).1 ≡ (ok v, l))
        × (l_pop now key (l_push now key (v ∷ []) l).1 ≡ (ok v, l))
  pop-push v h = (
    ap (λ s. r_pop now key s.1) (r_push-Holds now key xs l (v ∷ []) h)
        ∙ r_pop-last now key xs (store key (xs ++ v ∷ []) l) v (store-Holds (xs ++ v ∷ []) h.fresh)
        ∙ ap (λ s. (ok v, s)) (store_back xs (xs ++ v ∷ []) h),
    ap (λ s. l_pop now key s.1) (l_push-Holds now key xs l (v ∷ []) h)
        ∙ l_pop-first now key xs (store key (v ∷ xs) l) v (store-Holds (v ∷ xs) h.fresh)
        ∙ ap (λ s. (ok v, s)) (store_back xs (v ∷ xs) h),
  )
