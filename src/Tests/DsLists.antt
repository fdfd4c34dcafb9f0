-- ===== src/Tests/DsLists.antt =====
-- Tests of ds/list/list.go.
use nutsdb.Prelude.{ℕ, ◌+◌, ◌≡◌, ◌≢◌, refl, true, none, List, [], ◌∷◌, arith, ok, err, panic}
use nutsdb.Prelude.Int.{pos, negsuc}
use nutsdb.Prelude.Words.{Bytes, bytes_eq}
use nutsdb.Prelude.Arrays.{write, write_all, write_down}
use nutsdb.Prelude.Maps
use nutsdb.Prelude.Maps.{bytes_key}
use nutsdb.Ds.Lists.{
  ListStore, list_not_found, is_expire, unless_expired, require, store, items_at, size,
  get_list_ttl,
}
use nutsdb.Ds.Lists.State.{Holds}
use nutsdb.Ds.Lists.Ends.{r_peek, r_pop, r_push, push_front, l_push, l_peek, l_pop, unless_nil}
use nutsdb.Ds.Lists.Ends.PushPop
use nutsdb.Ds.Lists.Range.{slice, adjust, range_of, l_range, set_at, l_set, l_trim}
use nutsdb.Ds.Lists.Range.Bounds
use nutsdb.Ds.Lists.Remove.{
  count_loop, checked_count, l_rem_num, keep_loop, swap, swap_loop, reverse_in_place, remove_from,
  l_rem,
}
use nutsdb.Ds.Lists.Remove.Loops.{occurrences, without_first}
use nutsdb.Ds.Lists.Remove.Counts
use nutsdb.Ds.Lists.Indexes.{
  move, close_gap, remove_loop, finish, remove_indexes, l_rem_by_index, count_indexes,
  l_rem_by_index_pre_check,
}
use nutsdb.Ds.Lists.Indexes.Keep.{keep, names}
use nutsdb.Ds.Lists.Indexes.Unnamed
use nutsdb.Ds.Lists.Indexes.Unnamed.{unnamed}
use nutsdb.Ds.Lists.Local.{SameAt}
use nutsdb.Ds.Lists.Calls
use nutsdb.Ds.Lists.Calls.{Call}
use nutsdb.Ds.Lists.Expiry.{Timed}

abbrev key_a : Bytes
key_a = b'a' ∷ []

abbrev key_b : Bytes
key_b = b'b' ∷ []

abbrev x : Bytes
x = b'x' ∷ []

abbrev y : Bytes
y = b'y' ∷ []

abbrev z : Bytes
z = b'z' ∷ []

abbrev three : List Bytes
three = x ∷ y ∷ x ∷ []

abbrev demo : ListStore
demo = record {
  items = (key_a, three) ∷ [];
  ttl = (key_b, 10) ∷ [];
  time_stamp = (key_b, 100) ∷ [];
}

program : Unit {0}
unfolding Maps.lookup Maps.insert Maps.delete bytes_eq write write_all write_down is_expire
    unless_expired require items_at size get_list_ttl r_peek r_pop r_push push_front l_push l_peek
    l_pop unless_nil slice adjust range_of l_range set_at l_set l_trim count_loop checked_count
    l_rem_num keep_loop swap swap_loop reverse_in_place remove_from l_rem move close_gap remove_loop
    finish remove_indexes l_rem_by_index count_indexes l_rem_by_index_pre_check
program = tt

l_push_order : (l_push 50 key_a (y ∷ z ∷ []) demo) ≡ (ok 5, store key_a (z ∷ y ∷ three) demo)
unfolding program
l_push_order = refl

l_rem_tail : l_rem 50 key_a (negsuc 0) x demo ≡ (ok 1, store key_a (x ∷ y ∷ []) demo)
unfolding program
l_rem_tail = refl

by_index_first_last :
    l_rem_by_index 50 key_a (pos 0 ∷ pos 0 ∷ pos 2 ∷ []) demo ≡ (ok 2, store key_a (y ∷ []) demo)
unfolding program
by_index_first_last = refl

-- Indexes out of order: the second move panics, and the first one stays.
by_index_unordered :
    l_rem_by_index 50 key_a (pos 0 ∷ pos 2 ∷ pos 1 ∷ []) demo
    ≡ (panic, store key_a (y ∷ y ∷ x ∷ []) demo)
unfolding program
by_index_unordered = refl

range_negative : l_range 50 key_a (negsuc 1) (negsuc 0) demo ≡ (ok (y ∷ x ∷ []), demo)
unfolding program
range_negative = refl

demo-Holds : Holds 50 key_a three demo
unfolding program
demo-Holds = record { fresh = refl; at = refl }

a-ne-b : key_a ≢ key_b
a-ne-b e = ground arith

pop-push_example :
    (r_pop 50 key_a (r_push 50 key_a (z ∷ []) demo).1 ≡ (ok z, demo))
    × (l_pop 50 key_a (l_push 50 key_a (z ∷ []) demo).1 ≡ (ok z, demo))
pop-push_example = PushPop.pop-push 50 key_a three demo z demo-Holds

l_range-Names_example : l_range 50 key_a (negsuc 1) (negsuc 0) demo ≡ (ok (y ∷ x ∷ []), demo)
l_range-Names_example =
    Bounds.l_range-Names 50 key_a three demo demo-Holds (negsuc 1) (negsuc 0) 1 2 (omega arith)
      (omega arith) (omega arith) tt (omega arith)

l_rem-remaining_example : l_rem 50 key_a (negsuc 0) x demo ≡ (ok 1, store key_a (x ∷ y ∷ []) demo)
unfolding occurrences without_first bytes_eq
l_rem-remaining_example =
    Counts.l_rem-remaining 50 key_a three demo demo-Holds (negsuc 0) x (omega arith)

l_rem_by_index-keep_example :
    (r : ℕ) × (l_rem_by_index 50 key_a (negsuc 4 ∷ pos 0 ∷ pos 2 ∷ []) demo
      ≡ (ok r, store key_a (y ∷ []) demo))
    × (l_rem_by_index_pre_check 50 key_a (negsuc 4 ∷ pos 0 ∷ pos 2 ∷ []) demo ≡ (ok r, demo))
    × (1 + r ≡ 3)
unfolding keep names
l_rem_by_index-keep_example =
    Unnamed.l_rem_by_index-keep 50 key_a three demo demo-Holds 0 (negsuc 4 ∷ pos 0 ∷ pos 2 ∷ [])
      (omega arith) (omega arith)

l_rem_by_index_panics_example :
    (l_rem_by_index 50 key_a (negsuc 0 ∷ pos 7 ∷ []) demo ≡ (panic, demo))
    × (l_rem_by_index_pre_check 50 key_a (negsuc 0 ∷ pos 7 ∷ []) demo ≡ (ok 0, demo))
l_rem_by_index_panics_example =
    Unnamed.l_rem_by_index_panics 50 key_a three demo demo-Holds (negsuc 0) (pos 7 ∷ [])
      (omega arith) (omega arith)

run-SameAt_example : SameAt key_b demo (Calls.run Call.r_pop 50 key_a demo).1
run-SameAt_example = Calls.run-SameAt Call.r_pop 50 key_a key_b demo a-ne-b

-- Under `b` a list that lives until 110.
abbrev timed : ListStore
timed = record demo { items = (key_b, three) ∷ [] }

timed-Timed : Timed key_b 10 100 timed
unfolding program
timed-Timed = record {
  has_ttl = refl;
  has_stamp = refl;
  positive = omega arith;
  ttl_word = omega arith;
  no_wrap = omega arith;
}

run-gone_example :
    (l' : ListStore) × (is_expire 110 key_b timed ≡ (ok true, l'))
    × (Calls.run (Call.r_push (x ∷ [])) 110 key_b timed ≡ (err list_not_found, l'))
    × (Maps.lookup key_b l'.items ≡ none)
    × (Maps.lookup key_b l'.ttl ≡ none)
    × (Maps.lookup key_b l'.time_stamp ≡ none)
run-gone_example =
    Calls.run-gone 110 key_b 10 100 timed (Call.r_push (x ∷ [])) timed-Timed (omega arith) tt
