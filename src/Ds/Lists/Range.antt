-- ===== src/Ds/Lists/Range.antt =====
-- ds/list/list.go: `LRange`, `LSet` and `Ltrim`.
pub mod Bounds
use nutsdb.Prelude.{
  ℕ, suc, ◌+◌, ◌-◌, Bool, ◌&&◌, not, Option, none, some, List, ltb, leb, if◌then◌else◌, length,
  take, drop, set,
}
use nutsdb.Prelude.Int.{ℤ, pos, negsuc, ◌+ℤ◌, ltb_ℤ, is_neg}
use nutsdb.Prelude.Exec.{◌>>=◌, ◌>>◌, pure, fail, modify, or_default}
use nutsdb.Prelude.Words.{Bytes}
use nutsdb.Ds.Lists.{
  Method, index_out_of_range, start_or_end, unless_expired, require, store, items_at, size,
}
use nutsdb.Ds.Lists.Ends.{or_panic}

-- `xs[low:high]`, for `high` at most the length.
unfoldable pub slice {ℓ} : {A : Type ℓ} → List A → ℤ → ℤ → Option (List A)
slice xs (pos a) (pos b) =
    if leb a b && leb b (length xs) then some (take (b - a) (drop a xs)) else none
slice xs (pos a) (negsuc b) = none
slice xs (negsuc a) b = none

-- The adjustments of `start` and `end`, in the order of the source; each reads what the one
-- before it wrote.
unfoldable pub adjust_end : ℤ → ℤ → ℕ → ℤ
adjust_end start end size = if not (is_neg start) && is_neg end then pos size +ℤ end else end

unfoldable pub adjust_start : ℤ → ℤ → ℕ → ℤ
adjust_start start end size = if is_neg start && ltb_ℤ (pos 0) end then pos size +ℤ start else start

unfoldable pub adjust_both : ℤ → ℤ → ℕ → ℤ × ℤ
adjust_both start end size =
    if is_neg start && is_neg end then (pos size +ℤ start, pos size +ℤ end) else (start, end)

unfoldable pub cap_end : ℤ → ℕ → ℤ
cap_end end size = if ltb_ℤ end (pos size) then end else pos size +ℤ negsuc 0

unfoldable pub adjust : ℤ → ℤ → ℕ → ℤ × ℤ
unfolding adjust_end adjust_start adjust_both cap_end
adjust start end size =
    let end' = adjust_end start end size in
    let start' = adjust_start start end' size in
    let (s, e) = adjust_both start' end' size in (s, cap_end e size)

-- What `LRange` does with a list that is not empty.
unfoldable pub range_of : List Bytes → ℤ → ℤ → Method (List Bytes)
unfolding slice
range_of xs start end =
    let (s, e) = adjust start end (length xs) in
    if ltb_ℤ e s then fail start_or_end else or_panic (slice xs s (e +ℤ pos 1))

-- An empty list gives no elements, and no error.
unfoldable pub l_range : ℕ → Bytes → ℤ → ℤ → Method (List Bytes)
l_range now key start end = do
  n ← size now key
  if ltb 0 n then (λ l. range_of (items_at key l) start end l) else pure List.[]

unfoldable pub set_at : List Bytes → ℤ → Bytes → Method (List Bytes)
set_at xs (pos i) value =
    if ltb i (length xs) then pure (set xs i value) else fail index_out_of_range
set_at xs (negsuc i) value = fail index_out_of_range

unfoldable pub l_set : ℕ → Bytes → ℤ → Bytes → Method Unit
l_set now key index value =
    unless_expired now key (require key λ xs. do ys ← set_at xs index value; modify (store key ys))

unfoldable pub l_trim : ℕ → Bytes → ℤ → ℤ → Method Unit
l_trim now key start end =
    unless_expired now key
      (require key λ xs. do new_items ← l_range now key start end; modify (store key new_items))
