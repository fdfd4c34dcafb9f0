-- ===== src/Ds/Lists/Indexes/Unnamed.antt =====
-- What `LRemByIndex` and its check do to a live list.
use nutsdb.Prelude.{
  ℕ, suc, ◌+◌, ◌≤◌, ◌<◌, ◌≡◌, refl, ap, sym, ◌∙◌, Bool, true, false, not, none, some, List, [], ◌∷◌,
  arith, leb, length, take, length-take_of_le, inl, inr, ok, panic,
}
use nutsdb.Prelude.Int.{ℤ, pos, negsuc}
use nutsdb.Prelude.Words.{Bytes}
use nutsdb.Prelude.Maps.{bytes_key}
use nutsdb.Ds.Lists.{ListStore, store}
use nutsdb.Ds.Lists.State.{Holds, store_same, unless_expired-fresh, require-some}
use nutsdb.Ds.Lists.Indexes.{
  close_gap, remove_loop, finish, or_left, remove_indexes, nothing_to_do, l_rem_by_index,
  count_indexes, l_rem_by_index_pre_check,
}
use nutsdb.Ds.Lists.Indexes.Keep.{names, SortedFrom, HasValid, names_below, keep, keep_all}
use nutsdb.Ds.Lists.Indexes.Loop.{Moved, Tells, finish-Done, length-Done, remove_loop-Done}

-- The positions that no index names.
abbrev pub unnamed : List ℤ → ℕ → Bool
unnamed indexes j = not (names indexes j)

module _ {ℓ} {A : Type ℓ} (xs : List A) where
  remove_loop-first :
      (i : ℕ) (indexes : List ℤ)
      → i < length xs
      → remove_loop (pos i ∷ indexes) none 0 xs ≡ remove_loop indexes (some i) 0 xs
  unfolding remove_loop close_gap
  remove_loop-first i indexes h =
      let inside : leb (length xs) i ≡ false = ground arith in rw (inside, remove_loop)

  count_indexes-first :
      (i : ℕ) (indexes : List ℤ)
      → i < length xs
      → count_indexes (pos i ∷ indexes) none 0 (length xs)
        ≡ count_indexes indexes (some i) 1 (length xs)
  unfolding count_indexes
  count_indexes-first i indexes h =
      let inside : leb (length xs) i ≡ false = ground arith in rw (inside, count_indexes)

  Moved-first :
      (i : ℕ) (indexes : List ℤ)
      → SortedFrom i indexes
      → i < length xs
      → Moved (unnamed (pos i ∷ indexes)) xs i 0 xs
  unfolding names
  Moved-first i indexes s h =
      let f = unnamed (pos i ∷ indexes) in
      let below : keep f 0 (take i xs) ≡ take i xs = keep_all f 0 (take i xs) λ j lo hi. ground (
        arith,
        names_below i j indexes s (omega (arith, length-take_of_le i xs (omega arith))),
        length-take_of_le i xs (omega arith),
      ) in
      record {
        gone = ground arith;
        inside = h;
        room = omega (arith, ap length below, length-take_of_le i xs (omega arith));
        size = refl;
        front = ap (λ t. take t xs) (omega arith) ∙ sym below;
        back = refl;
      }

  Tells-first : (i : ℕ) (indexes : List ℤ) → Tells (unnamed (pos i ∷ indexes)) xs i indexes
  unfolding names
  Tells-first i indexes j lo = ground arith

  finish_loop :
      (indexes : List ℤ) (p r : ℕ) (item : List A) (y : ℕ × List A)
      → remove_loop indexes none 0 xs ≡ inr (some p, r, item)
      → finish (some p) r item ≡ some y
      → remove_indexes indexes xs ≡ inr y
  unfolding remove_indexes
  finish_loop indexes p r item y e f = rw (e, remove_indexes) (ap (or_left item) f)

  abbrev pub Removes : List ℤ → Type ℓ
  Removes indexes =
      (r : ℕ) × (remove_indexes indexes xs ≡ inr (r, keep (unnamed indexes) 0 xs))
      × (count_indexes indexes none 0 (length xs) ≡ r)
      × (length (keep (unnamed indexes) 0 xs) + r ≡ length xs)

  Removes-skip : (i : ℕ) (indexes : List ℤ) → Removes indexes → Removes (negsuc i ∷ indexes)
  unfolding remove_indexes remove_loop count_indexes names
  Removes-skip i indexes r = r

  Removes-first :
      (i : ℕ) (indexes : List ℤ) → SortedFrom i indexes → i < length xs → Removes (pos i ∷ indexes)
  Removes-first i indexes s h =
      let f = unnamed (pos i ∷ indexes) in
      let (p', r', item', e, d, c) =
        remove_loop-Done f xs indexes i 0 xs (Moved-first i indexes s h) s
          (Tells-first i indexes) in
      (
        suc r',
        finish_loop (pos i ∷ indexes) p' r' item' _ (remove_loop-first i indexes h ∙ e)
            (finish-Done f xs p' r' item' d),
        count_indexes-first i indexes h ∙ c,
        length-Done f xs p' r' item' d,
      )

  -- Ordered indexes, one of them valid: the elements that no index names are left, in order, and
  -- the count is the one that the check gives.
  pub remove_indexes-Removes :
      (p : ℕ) (indexes : List ℤ)
      → SortedFrom p indexes
      → HasValid (length xs) indexes
      → Removes indexes
  remove_indexes-Removes p [] s v = absurd v
  remove_indexes-Removes p (negsuc i ∷ indexes) s v =
      Removes-skip i indexes (remove_indexes-Removes p indexes s v)
  remove_indexes-Removes p (pos i ∷ indexes) s v = Removes-first i indexes s.1 v

-- No index is valid: all are negative, or the first that is not is past the end.
abbrev pub HasNone : ℕ → List ℤ → Type 0
HasNone n [] = Unit
HasNone n (negsuc i ∷ indexes) = HasNone n indexes
HasNone n (pos i ∷ indexes) = n ≤ i

module _ {ℓ} {A : Type ℓ} (xs : List A) where
  remove_loop-HasNone :
      (indexes : List ℤ)
      → HasNone (length xs) indexes
      → remove_loop indexes none 0 xs ≡ inr (none, 0, xs)
  unfolding remove_loop
  remove_loop-HasNone [] h = refl
  remove_loop-HasNone (negsuc i ∷ indexes) h = remove_loop-HasNone indexes h
  remove_loop-HasNone (pos i ∷ indexes) h =
      let past : leb (length xs) i ≡ true = ground arith in rw (past, remove_loop)

  pub remove_indexes-HasNone :
      (indexes : List ℤ) → HasNone (length xs) indexes → remove_indexes indexes xs ≡ inl xs
  unfolding remove_indexes finish
  remove_indexes-HasNone indexes h = rw (remove_loop-HasNone indexes h, remove_indexes)

  pub count_indexes-HasNone :
      (indexes : List ℤ)
      → HasNone (length xs) indexes
      → count_indexes indexes none 0 (length xs) ≡ 0
  unfolding count_indexes
  count_indexes-HasNone [] h = refl
  count_indexes-HasNone (negsuc i ∷ indexes) h = count_indexes-HasNone indexes h
  count_indexes-HasNone (pos i ∷ indexes) h =
      let past : leb (length xs) i ≡ true = ground arith in rw (past, count_indexes)

HasValid-zero : (indexes : List ℤ) → HasValid 0 indexes → ⊥
HasValid-zero [] v = v
HasValid-zero (negsuc i ∷ indexes) v = HasValid-zero indexes v
HasValid-zero (pos i ∷ indexes) v = omega arith

not_empty :
    (xs : List Bytes) (i : ℤ) (indexes : List ℤ)
    → 0 < length xs
    → nothing_to_do (i ∷ indexes) xs ≡ false
not_empty [] i indexes h = absurd (omega arith)
not_empty (x ∷ xs) i indexes h = refl

HasValid-busy :
    (xs : List Bytes) (indexes : List ℤ)
    → HasValid (length xs) indexes
    → nothing_to_do indexes xs ≡ false
HasValid-busy xs [] v = absurd v
HasValid-busy [] (i ∷ indexes) v = absurd (HasValid-zero (i ∷ indexes) v)
HasValid-busy (x ∷ xs) (i ∷ indexes) v = refl

module _ (now : ℕ) (key : Bytes) (xs : List Bytes) (l : ListStore) (h : Holds now key xs l) where
  by_index :
      (indexes : List ℤ) (r : ℕ) (kept : List Bytes)
      → nothing_to_do indexes xs ≡ false
      → remove_indexes indexes xs ≡ inr (r, kept)
      → l_rem_by_index now key indexes l ≡ (ok r, store key kept l)
  unfolding l_rem_by_index
  by_index indexes r kept busy e =
      rw (unless_expired-fresh now key l _ h.fresh)
        (rw (require-some key l _ xs h.at) (rw (busy, e)))

  pre_check :
      (indexes : List ℤ)
      → nothing_to_do indexes xs ≡ false
      → l_rem_by_index_pre_check now key indexes l
        ≡ (ok (count_indexes indexes none 0 (length xs)), l)
  unfolding l_rem_by_index_pre_check
  pre_check indexes busy =
      rw (unless_expired-fresh now key l _ h.fresh) (rw (require-some key l _ xs h.at) (rw busy))

  -- On a list that is there and not expired, and for indexes that are in order where they are not
  -- negative and of which the first such is in range, `LRemByIndex` leaves the elements at the
  -- positions that no index names, and returns the number of the others; `LRemByIndexPreCheck`
  -- returns that number and changes nothing.
  pub l_rem_by_index-keep :
      (p : ℕ) (indexes : List ℤ)
      → SortedFrom p indexes
      → HasValid (length xs) indexes
      → (r : ℕ) × (l_rem_by_index now key indexes l
          ≡ (ok r, store key (keep (unnamed indexes) 0 xs) l))
        × (l_rem_by_index_pre_check now key indexes l ≡ (ok r, l))
        × (length (keep (unnamed indexes) 0 xs) + r ≡ length xs)
  l_rem_by_index-keep p indexes s v =
      let (r, e, c, n) = remove_indexes-Removes xs p indexes s v in
      let busy = HasValid-busy xs indexes v in
      (
        r,
        by_index indexes r (keep (unnamed indexes) 0 xs) busy e,
        pre_check indexes busy ∙ ap (λ t. (ok t, l)) c,
        n,
      )

  -- On a list that is there, not expired and not empty, and for one index or more of which the
  -- first that is not negative, if any, is out of range, `LRemByIndex` panics and changes nothing,
  -- while `LRemByIndexPreCheck` returns 0.
  pub l_rem_by_index_panics :
      (i : ℤ) (indexes : List ℤ)
      → 0 < length xs
      → HasNone (length xs) (i ∷ indexes)
      → (l_rem_by_index now key (i ∷ indexes) l ≡ (panic, l))
        × (l_rem_by_index_pre_check now key (i ∷ indexes) l ≡ (ok 0, l))
  unfolding l_rem_by_index
  l_rem_by_index_panics i indexes p none_valid =
      let busy : nothing_to_do (i ∷ indexes) xs ≡ false = not_empty xs i indexes p in
      (
        rw (unless_expired-fresh now key l _ h.fresh) (
            rw (require-some key l _ xs h.at) (
              rw (busy, remove_indexes-HasNone xs (i ∷ indexes) none_valid)
                (ap (λ m. (panic, m)) (store_same xs h)))),
        pre_check (i ∷ indexes) busy
            ∙ ap (λ t. (ok t, l)) (count_indexes-HasNone xs (i ∷ indexes) none_valid),
      )
