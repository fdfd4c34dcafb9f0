-- ===== src/Ds/Lists/Indexes/Loop.antt =====
-- The loop of `LRemByIndex`: its invariant, and that each step keeps it.
use mathlib.Core.List.{append_assoc}
use mathlib.Core.Path.{subst}
use native.Mathlib.Nat.{le_of_eq}
use nutsdb.Prelude.{
  ℕ, suc, ◌+◌, ◌-◌, ◌≤◌, ◌<◌, ◌≡◌, refl, ap, sym, ◌∙◌, Bool, true, false, not, some, List, [], ◌∷◌,
  ◌++◌, inl, inr, arith, leb, ◌==◌, length, length-append, take, drop, length-drop, drop-drop,
  length-take_of_le, take_append, Bool-cases, take_all, ==_iff,
}
use nutsdb.Prelude.Int.{ℤ, pos, negsuc}
use nutsdb.Ds.Lists.Indexes.{move, close_gap, remove_loop, finish, count_indexes}
use nutsdb.Ds.Lists.Indexes.Keep.{names, SortedFrom, names_below, keep, drop_past, keep-take}

-- Where the loop stands after the valid index `p`, with `r` elements moved over: the kept
-- elements below `p` are at the front, and what stands after `p` is untouched.
pub record Moved {ℓ} {A : Type ℓ} (f : ℕ → Bool) (xs : List A) (p r : ℕ) (item : List A)
    : Type ℓ where
  pub gone : f p ≡ false
  pub inside : p < length xs
  pub room : length (keep f 0 (take p xs)) + r ≡ p
  pub size : length item ≡ length xs
  pub front : take (p - r) item ≡ keep f 0 (take p xs)
  pub back : drop (suc p) item ≡ drop (suc p) xs

module _ {ℓ} {A : Type ℓ} {f : ℕ → Bool} {xs item : List A} {p r : ℕ} (i : ℕ)
    (m : Moved f xs p r item) where
  -- The slice after the elements between `p` and `i` are moved over.
  pub moved : List A
  moved =
      keep f 0 (take p xs)
      ++ (take (i - suc p) (drop (suc p) xs) ++ drop (p - r + (i - suc p)) item)

  move-moved : p < i → move item (p - r) (suc p) i ≡ some moved
  unfolding move moved
  move-moved h = rw (m.front, m.back) (ground arith)

  -- The front of the new slice is what `keep` leaves up to `i`.
  module _ (h : p < i) (le : i ≤ length xs) (kept : (j : ℕ) → p < j → j < i → f j ≡ true) where
    next_front : List A
    next_front = keep f 0 (take p xs) ++ take (i - suc p) (drop (suc p) xs)

    keep-next_front : keep f 0 (take i xs) ≡ next_front
    unfolding next_front
    keep-next_front = keep-take f p i xs h le m.gone kept

    length-next_front : length next_front ≡ i - suc r
    unfolding next_front
    length-next_front =
        let room : length (keep f 0 (take p xs)) + r ≡ p = m.room in
        omega (
          arith,
          length-append (keep f 0 (take p xs)) (take (i - suc p) (drop (suc p) xs)),
          length-take_of_le (i - suc p) (drop (suc p) xs) (omega (arith, length-drop (suc p) xs)),
        )

    moved-next_front : moved ≡ next_front ++ drop (p - r + (i - suc p)) item
    unfolding moved next_front
    moved-next_front =
        sym (append_assoc (keep f 0 (take p xs)) (take (i - suc p) (drop (suc p) xs)) _)

    pub take-moved : take (i - suc r) moved ≡ keep f 0 (take i xs)
    take-moved =
        ap (take (i - suc r)) moved-next_front
        ∙ ap (λ t. take t (next_front ++ drop (p - r + (i - suc p)) item)) (sym length-next_front)
        ∙ take_append next_front _
        ∙ sym keep-next_front

    length-moved : length moved ≡ length xs
    length-moved =
        let room : length (keep f 0 (take p xs)) + r ≡ p = m.room in
        let size = m.size in
        omega (
          arith,
          ap length moved-next_front,
          length-append next_front (drop (p - r + (i - suc p)) item),
          length-next_front,
          length-drop (p - r + (i - suc p)) item,
        )

    drop-moved : i < length xs → drop (suc i) moved ≡ drop (suc i) xs
    drop-moved lt =
        let size : ℕ = p - r + (i - suc p) in
        let room : length (keep f 0 (take p xs)) + r ≡ p = m.room in
        let past : suc i ≡ length next_front + (r + 2) = omega (arith, length-next_front) in
        let to_i : size + (r + 2) ≡ suc p + (i - p) = omega arith in
        let whole : suc p + (i - p) ≡ suc i = omega arith in
        ap (drop (suc i)) moved-next_front
        ∙ drop_past next_front (drop size item) (suc i) (r + 2) past
        ∙ drop-drop (r + 2) size item
        ∙ ap (λ t. drop t item) to_i
        ∙ sym (drop-drop (i - p) (suc p) item)
        ∙ ap (drop (i - p)) m.back
        ∙ drop-drop (i - p) (suc p) xs
        ∙ ap (λ t. drop t xs) whole

    pub length-keep : length (keep f 0 (take i xs)) + suc r ≡ i
    length-keep = omega (arith, ap length keep-next_front, length-next_front, m.room)

    pub Moved-next : i < length xs → f i ≡ false → Moved f xs i (suc r) moved
    Moved-next lt gone = record {
      gone = gone;
      inside = lt;
      room = omega (arith, ap length keep-next_front, length-next_front, m.room);
      size = length-moved;
      front = take-moved;
      back = drop-moved lt;
    }

module _ {ℓ} {A : Type ℓ} (f : ℕ → Bool) (xs : List A) where
  -- What the loop leaves: a last valid index, and only kept positions after it.
  pub record Done (p r : ℕ) (item : List A) : Type ℓ where
    pub inv : Moved f xs p r item
    pub rest : (j : ℕ) → p < j → j < length xs → f j ≡ true

  -- The last slice expression completes the result.
  pub finish-Done :
      (p r : ℕ) (item : List A) → Done p r item → finish (some p) r item ≡ some (suc r, keep f 0 xs)
  unfolding finish
  finish-Done p r item d =
      let m = d.inv in
      let step : move item (p - r) (suc p) (length item) ≡ some (moved (length xs) m) =
        rw m.size (move-moved (length xs) m m.inside) in
      rw (step, finish)
        (rw m.size (rw (take-moved (length xs) m m.inside (omega arith) d.rest, take_all xs)))

  pub length-Done :
      (p r : ℕ) (item : List A) → Done p r item → length (keep f 0 xs) + suc r ≡ length xs
  length-Done p r item d =
      let m = d.inv in
      ap (λ t. length (keep f 0 t) + suc r) (sym (take_all xs))
      ∙ length-keep (length xs) m m.inside (omega arith) d.rest

  -- `f` tells the positions after `p` that no index names.
  abbrev pub Tells : ℕ → List ℤ → Type 0
  Tells p indexes = (j : ℕ) → p < j → f j ≡ not (names indexes j)

  abbrev pub Finishes : List ℤ → ℕ → ℕ → List A → Type ℓ
  Finishes indexes p r item =
      (p' : ℕ) × (r' : ℕ) × (item' : List A) × (remove_loop indexes (some p) r item
        ≡ inr (some p', r', item'))
      × Done p' r' item'
      × (count_indexes indexes (some p) (suc r) (length xs) ≡ suc r')

  module _ (i p r : ℕ) (indexes : List ℤ) (item : List A) where
    loop_same :
        (i == p) ≡ true
        → remove_loop (pos i ∷ indexes) (some p) r item ≡ remove_loop indexes (some p) r item
    unfolding remove_loop
    loop_same h = rw (h, remove_loop)

    loop_past :
        (i == p) ≡ false
        → leb (length item) i ≡ true
        → remove_loop (pos i ∷ indexes) (some p) r item ≡ inr (some p, r, item)
    unfolding remove_loop
    loop_past h q = rw (h, remove_loop) (rw (q, remove_loop))

    loop_next :
        (item' : List A)
        → (i == p) ≡ false
        → leb (length item) i ≡ false
        → move item (p - r) (suc p) i ≡ some item'
        → remove_loop (pos i ∷ indexes) (some p) r item ≡ remove_loop indexes (some i) (suc r) item'
    unfolding remove_loop close_gap
    loop_next item' h q e = rw (h, remove_loop) (rw (q, remove_loop) (rw (e, remove_loop)))

  module _ (i p removed n : ℕ) (indexes : List ℤ) where
    count_same :
        (i == p) ≡ true
        → count_indexes (pos i ∷ indexes) (some p) removed n
          ≡ count_indexes indexes (some p) removed n
    unfolding count_indexes
    count_same h = rw (h, count_indexes)

    count_past :
        (i == p) ≡ false
        → leb n i ≡ true
        → count_indexes (pos i ∷ indexes) (some p) removed n ≡ removed
    unfolding count_indexes
    count_past h q = rw (h, count_indexes) (rw (q, count_indexes))

    count_next :
        (i == p) ≡ false
        → leb n i ≡ false
        → count_indexes (pos i ∷ indexes) (some p) removed n
          ≡ count_indexes indexes (some i) (suc removed) n
    unfolding count_indexes
    count_next h q = rw (h, count_indexes) (rw (q, count_indexes))

  Tells-tail :
      (i p q : ℕ) (indexes : List ℤ) → Tells p (pos i ∷ indexes) → p ≤ q → i ≤ q → Tells q indexes
  unfolding names
  Tells-tail i p q indexes t pq iq j lo = ground (arith, t j (omega arith))

  -- Up to the next index every position is kept.
  Tells-between :
      (i p : ℕ) (indexes : List ℤ)
      → SortedFrom p (pos i ∷ indexes)
      → Tells p (pos i ∷ indexes)
      → (j : ℕ) → p < j
      → j < i
      → f j ≡ true
  unfolding names
  Tells-between i p indexes s t j lo hi = ground (arith, t j lo, names_below i j indexes s.1 hi)

  Tells-gone : (i p : ℕ) (indexes : List ℤ) → Tells p (pos i ∷ indexes) → p < i → f i ≡ false
  unfolding names
  Tells-gone i p indexes t lt = ground (arith, t i lt)

  Finishes-same :
      (i p r : ℕ) (indexes : List ℤ) (item : List A)
      → (i == p) ≡ true
      → Finishes indexes p r item
      → Finishes (pos i ∷ indexes) p r item
  Finishes-same i p r indexes item h (p', r', item', e, d, c) = (
    p',
    r',
    item',
    loop_same i p r indexes item h ∙ e,
    d,
    count_same i p (suc r) (length xs) indexes h ∙ c,
  )

  Finishes-next :
      (i p r : ℕ) (indexes : List ℤ) (item item' : List A)
      → length item ≡ length xs
      → (i == p) ≡ false
      → leb (length xs) i ≡ false
      → move item (p - r) (suc p) i ≡ some item'
      → Finishes indexes i (suc r) item'
      → Finishes (pos i ∷ indexes) p r item
  Finishes-next i p r indexes item next size h q step (p', r', item', e, d, c) = (
    p',
    r',
    item',
    loop_next i p r indexes item next h (rw size q) step ∙ e,
    d,
    count_next i p (suc r) (length xs) indexes h q ∙ c,
  )

  Finishes-past :
      (i p r : ℕ) (indexes : List ℤ) (item : List A)
      → Moved f xs p r item
      → SortedFrom p (pos i ∷ indexes)
      → Tells p (pos i ∷ indexes)
      → (i == p) ≡ false
      → leb (length xs) i ≡ true
      → Finishes (pos i ∷ indexes) p r item
  Finishes-past i p r indexes item m s t h q = (
    p,
    r,
    item,
    loop_past i p r indexes item h (rw m.size q),
    record { inv = m; rest = λ j lo hi. Tells-between i p indexes s t j lo (ground arith) },
    count_past i p (suc r) (length xs) indexes h q,
  )

  -- On ordered indexes the loop runs to its end without a panic.
  pub remove_loop-Done :
      (indexes : List ℤ) (p r : ℕ) (item : List A)
      → Moved f xs p r item
      → SortedFrom p indexes
      → Tells p indexes
      → Finishes indexes p r item
  unfolding remove_loop count_indexes names
  remove_loop-Done [] p r item m s t =
      (p, r, item, refl, record { inv = m; rest = λ j lo hi. t j lo }, refl)
  remove_loop-Done (negsuc i ∷ indexes) p r item m s t = remove_loop-Done indexes p r item m s t
  remove_loop-Done (pos i ∷ indexes) p r item m s t = elim (Bool-cases (i == p)) [
    | inl same ↦ Finishes-same i p r indexes item same (
        remove_loop-Done indexes p r item m
          (subst (λ t. SortedFrom t indexes) ((==_iff i p).0 same) s.1)
          (Tells-tail i p p indexes t (omega arith) (le_of_eq ((==_iff i p).0 same))))
    | inr other ↦ elim (Bool-cases (leb (length xs) i)) [
      | inl past ↦ Finishes-past i p r indexes item m s t other past
      | inr inside ↦
          let lt : p < i = ground (arith, s.0) in
          let fits : i < length xs = ground arith in
          let kept = Tells-between i p indexes s t in
          let gone = Tells-gone i p indexes t lt in
          Finishes-next i p r indexes item (moved i m) m.size other inside (move-moved i m lt) (
            remove_loop-Done indexes i (suc r) (moved i m)
              (Moved-next i m lt (omega arith) kept fits gone) s.1
              (Tells-tail i p i indexes t (omega arith) (omega arith)))
    ]
  ]
