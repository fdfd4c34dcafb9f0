-- ===== src/Ds/Lists/Range/Bounds.antt =====
-- What `LRange`, `LSet` and `Ltrim` do to a live list.
use nutsdb.Prelude.{
  ℕ, suc, ◌+◌, ◌-◌, ◌≤◌, ◌<◌, ◌≡◌, ◌∙◌, List, arith, length, take, drop, set, ok, panic, ltb,
  if◌then◌else◌,
}
use nutsdb.Prelude.Int.{ℤ, pos, negsuc}
use nutsdb.Prelude.Words.{Bytes}
use nutsdb.Ds.Lists.{ListStore, store}
use nutsdb.Ds.Lists.State.{Holds, unless_expired-fresh, require-some, size-Holds, items_at-Holds}
use nutsdb.Ds.Lists.Range.{adjust, range_of, l_range, l_set, l_trim, set_at}

-- The position that an index names in a list of length `n`: negative ones count from the end.
abbrev pub Names : ℕ → ℤ → ℕ → Type 0
Names n (pos i) k = i ≡ k
Names n (negsuc i) k = k + suc i ≡ n

-- A start that is counted from the end may not come with the end 0.
abbrev pub IsReadable : ℤ → ℤ → Type 0
IsReadable (negsuc i) (pos j) = 0 < j
IsReadable start end = Unit

-- The last position that `LRange` reads.
abbrev pub last_read : ℕ → ℕ → ℕ
last_read n e = if ltb e n then e else n - 1

adjust-Names :
    (n : ℕ) (start end : ℤ) (s e : ℕ)
    → 0 < n
    → Names n start s
    → Names n end e
    → IsReadable start end
    → adjust start end n ≡ (pos s, pos (last_read n e))
unfolding adjust
adjust-Names n (pos i) (pos j) s e h hs he r = ground arith
adjust-Names n (pos i) (negsuc j) s e h hs he r = ground arith
adjust-Names n (negsuc i) (pos j) s e h hs he r = ground arith
adjust-Names n (negsuc i) (negsuc j) s e h hs he r = ground arith

pub range_of-Names :
    (xs : List Bytes) (start end : ℤ) (s e : ℕ) (l : ListStore)
    → 0 < length xs
    → Names (length xs) start s
    → Names (length xs) end e
    → IsReadable start end
    → s ≤ last_read (length xs) e
    → range_of xs start end l ≡ (ok (take (last_read (length xs) e + 1 - s) (drop s xs)), l)
unfolding range_of
range_of-Names xs start end s e l h hs he r le =
    rw (adjust-Names (length xs) start end s e h hs he r) (ground arith)

module _ (now : ℕ) (key : Bytes) (xs : List Bytes) (l : ListStore) (h : Holds now key xs l) where
  pub l_range-range_of :
      (start end : ℤ) → 0 < length xs → l_range now key start end l ≡ range_of xs start end l
  unfolding l_range
  l_range-range_of start end p = ground (arith, size-Holds xs h, items_at-Holds xs h)

  -- On a list that is there, not expired and not empty, `LRange` returns the elements between the
  -- two positions that start and end name, the end cut to the last one, where the start is not
  -- behind it; negative indexes count from the end, and a negative start may not come with the end
  -- 0.
  pub l_range-Names :
      (start end : ℤ) (s e : ℕ)
      → 0 < length xs
      → Names (length xs) start s
      → Names (length xs) end e
      → IsReadable start end
      → s ≤ last_read (length xs) e
      → l_range now key start end l ≡ (ok (take (last_read (length xs) e + 1 - s) (drop s xs)), l)
  l_range-Names start end s e p hs he r le =
      l_range-range_of start end p ∙ range_of-Names xs start end s e l p hs he r le

  -- On a list that is there, not expired and not empty, `LRange` with a negative start and the end
  -- 0 panics, and changes nothing.
  pub l_range_panics : (i : ℕ) → 0 < length xs → l_range now key (negsuc i) (pos 0) l ≡ (panic, l)
  l_range_panics i p =
      l_range-range_of (negsuc i) (pos 0) p ∙ unfold range_of adjust in ground arith

  pub l_set-Holds :
      (i : ℕ) (value : Bytes)
      → i < length xs
      → l_set now key (pos i) value l ≡ (ok tt, store key (set xs i value) l)
  unfolding l_set set_at
  l_set-Holds i value p =
      rw (unless_expired-fresh now key l _ h.fresh)
        (rw (require-some key l _ xs h.at) (ground arith))

  -- On a list that is there, not expired and not empty, `Ltrim` keeps the elements between the two
  -- positions that start and end name, the end cut to the last one, where the start is not behind
  -- it; negative indexes count from the end, and a negative start may not come with the end 0.
  pub l_trim-Names :
      (start end : ℤ) (s e : ℕ)
      → 0 < length xs
      → Names (length xs) start s
      → Names (length xs) end e
      → IsReadable start end
      → s ≤ last_read (length xs) e
      → l_trim now key start end l
        ≡ (ok tt, store key (take (last_read (length xs) e + 1 - s) (drop s xs)) l)
  unfolding l_trim
  l_trim-Names start end s e p hs he r le =
      rw (unless_expired-fresh now key l _ h.fresh)
        (rw (require-some key l _ xs h.at) (rw (l_range-Names start end s e p hs he r le)))
