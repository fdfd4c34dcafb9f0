-- ===== src/Ds/Lists/Remove/Counts.antt =====
-- What `LRem` and `LRemNum` do to a live list.
use Prim.Native.Nat.{min}
use mathlib.Core.List.{reverse-reverse}
use nutsdb.Prelude.{
  ℕ, zero, suc, ◌+◌, ◌-◌, ◌^◌, ◌≤◌, ◌<◌, ◌≡◌, refl, ap, sym, ◌∙◌, false, some, List, [], ◌∷◌,
  reverse, inl, inr, arith, ◌==◌, length, length-reverse, length-replicate, replicate, Bool-cases,
  ok,
}
use nutsdb.Prelude.Int.{ℤ, pos, negsuc}
use nutsdb.Prelude.Words.{Bytes}
use nutsdb.Prelude.Maps.{bytes_key}
use nutsdb.Ds.Lists.{ListStore, store}
use nutsdb.Ds.Lists.State.{Holds, unless_expired-fresh, require-some, size-Holds, store_same}
use nutsdb.Ds.Lists.Remove.{count_loop, checked_count, l_rem_num, keep_loop, remove_from, l_rem}
use nutsdb.Ds.Lists.Remove.Loops.{
  occurrences, without_first, length-without_first, occurrences-reverse, count_loop-zero,
  count_loop-pos, keep_loop-without_first,
}
use nutsdb.Ds.Lists.Remove.Reverse.{reverse_in_place-reverse}

-- How many occurrences a count asks for: all of them, or at most so many from the head (a
-- positive count) or from the tail (a negative one).
abbrev pub quota : ℤ → ℕ → ℕ
quota (pos zero) found = found
quota (pos (suc n)) found = min (suc n) found
quota (negsuc n) found = min (suc n) found

abbrev pub remaining : ℤ → Bytes → List Bytes → List Bytes
remaining (pos zero) value xs = without_first value (occurrences value xs) xs
remaining (pos (suc n)) value xs = without_first value (suc n) xs
remaining (negsuc n) value xs = reverse (without_first value (suc n) (reverse xs))

-- The counts that `LRemNum` accepts.
abbrev pub IsCount : ℤ → ℕ → Type 0
IsCount (pos n) size = n ≤ size
IsCount (negsuc n) size = n < 2 ^ 63 - 1

count_of : (count : ℤ) → ℕ
count_of (pos n) = n
count_of (negsuc n) = suc n

checked_count-IsCount :
    (count : ℤ) (size : ℕ) (l : ListStore)
    → IsCount count size
    → checked_count count size l ≡ (ok (count_of count), l)
unfolding checked_count count_of
checked_count-IsCount (pos n) size l h = ground arith
checked_count-IsCount (negsuc n) size l h = ground arith

count_loop-quota :
    (count : ℤ) (value : Bytes) (xs : List Bytes)
    → count_loop (count_of count) value 0 xs ≡ quota count (occurrences value xs)
unfolding count_of
count_loop-quota (pos zero) value xs = omega (arith, count_loop-zero value 0 xs)
count_loop-quota (pos (suc n)) value xs =
    count_loop-pos value (suc n) 0 xs (omega arith) (omega arith) ∙ omega arith
count_loop-quota (negsuc n) value xs =
    count_loop-pos value (suc n) 0 xs (omega arith) (omega arith) ∙ omega arith

-- The new slice has room for exactly what stays.
keep_loop_new :
    (n need : ℕ) (value : Bytes) (xs : List Bytes)
    → need ≡ min n (occurrences value xs)
    → keep_loop n value 0 0 xs (replicate (length xs - need) [])
      ≡ some (need, without_first value n xs)
keep_loop_new n need value xs e =
    let zero_value : Bytes = [] in
    let gap = replicate (length xs - need) zero_value in
    let fits : length gap ≡ length (without_first value n xs) =
      omega
        (arith, length-replicate (length xs - need) zero_value, length-without_first value n xs) in
    let from_zero : 0 + n ≡ n = omega arith in
    rw from_zero at (keep_loop-without_first value n xs 0 [] gap fits)
    ∙ ap (λ t. some (t, without_first value n xs)) (omega arith)

remove_from-remaining :
    (count : ℤ) (value : Bytes) (xs : List Bytes)
    → remove_from count (quota count (occurrences value xs)) value xs
      ≡ some (quota count (occurrences value xs), remaining count value xs)
unfolding remove_from
remove_from-remaining (pos zero) value xs =
    keep_loop_new (occurrences value xs) (occurrences value xs) value xs (omega arith)
remove_from-remaining (pos (suc n)) value xs =
    let test : (suc n == 0) ≡ false = ground arith in
    rw test (keep_loop_new (suc n) (min (suc n) (occurrences value xs)) value xs refl)
remove_from-remaining (negsuc n) value xs =
    let need = min (suc n) (occurrences value xs) in
    let kept = without_first value (suc n) (reverse xs) in
    let loop : keep_loop (suc n) value 0 0 (reverse xs) (replicate (length xs - need) [])
        ≡ some (need, kept) =
      rw (length-reverse xs) at (
        keep_loop_new (suc n) need value (reverse xs)
          (ap (λ t. min (suc n) t) (sym (occurrences-reverse value xs)))) in
    rw (loop, remove_from) (rw (reverse_in_place-reverse kept, remove_from))

-- Nothing is missing where nothing was asked for.
without_first-none :
    (value : Bytes) (n : ℕ) (xs : List Bytes)
    → min n (occurrences value xs) ≡ 0
    → without_first value n xs ≡ xs
unfolding without_first occurrences
without_first-none value zero [] h = refl
without_first-none value zero (v ∷ vs) h = refl
without_first-none value (suc n) [] h = refl
without_first-none value (suc n) (v ∷ vs) h = ground (arith, without_first-none value (suc n) vs)

remaining-none :
    (count : ℤ) (value : Bytes) (xs : List Bytes)
    → quota count (occurrences value xs) ≡ 0
    → remaining count value xs ≡ xs
remaining-none (pos zero) value xs h =
    without_first-none value (occurrences value xs) xs (omega arith)
remaining-none (pos (suc n)) value xs h = without_first-none value (suc n) xs h
remaining-none (negsuc n) value xs h =
    ap reverse
      (without_first-none value (suc n) (reverse xs) (omega (arith, occurrences-reverse value xs)))
    ∙ reverse-reverse xs

module _ (now : ℕ) (key : Bytes) (xs : List Bytes) (l : ListStore) (h : Holds now key xs l) where
  pub l_rem_num-quota :
      (count : ℤ) (value : Bytes)
      → IsCount count (length xs)
      → l_rem_num now key count value l ≡ (ok (quota count (occurrences value xs)), l)
  unfolding l_rem_num
  l_rem_num-quota count value c = rw (unless_expired-fresh now key l _ h.fresh) (
      rw (require-some key l _ xs h.at)
        (rw (size-Holds xs h, checked_count-IsCount count (length xs) l c, count_loop-quota)))

  -- On a list that is there and not expired, `LRem` with a count that `LRemNum` accepts removes as
  -- many of the value's occurrences as the count asks for, or all if there are fewer or the count
  -- is 0, from the head for a positive count and from the tail for a negative one, keeps the order
  -- of the rest, and returns how many it removed.
  pub l_rem-remaining :
      (count : ℤ) (value : Bytes)
      → IsCount count (length xs)
      → l_rem now key count value l
        ≡ (ok (quota count (occurrences value xs)), store key (remaining count value xs) l)
  unfolding l_rem
  l_rem-remaining count value c =
      let q = quota count (occurrences value xs) in
      rw (unless_expired-fresh now key l _ h.fresh) (
        rw (require-some key l _ xs h.at) (
          rw (l_rem_num-quota count value c) (elim (Bool-cases (q == 0)) [
            | inl nothing ↦
                let none_asked : q ≡ 0 = ground arith in
                rw (nothing, remaining-none count value xs none_asked, store_same xs h)
                  (ap (λ t. (ok t, l)) (sym none_asked))
            | inr some_found ↦ rw (some_found, remove_from-remaining count value xs)
          ])))
