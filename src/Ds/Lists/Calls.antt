-- ===== src/Ds/Lists/Calls.antt =====
-- The methods of ds/list/list.go as calls, and what every one of them leaves alone.
use nutsdb.Prelude.{ℕ, ◌+◌, ◌≤◌, none, ◌≡◌, ◌≢◌, List, true, ok, err}
use nutsdb.Prelude.Int.{ℤ}
use nutsdb.Prelude.Exec.{◌>>=◌, pure}
use nutsdb.Prelude.Words.{Bytes}
use nutsdb.Prelude.Maps
use nutsdb.Prelude.Maps.{bytes_key, lookup-delete_self}
use nutsdb.Ds.Lists
use nutsdb.Ds.Lists.{ListStore, ListError, list_not_found, Method, unless_expired, purge}
use nutsdb.Ds.Lists.State.{unless_expired-gone}
use nutsdb.Ds.Lists.Expiry.{Timed, is_expire-after}
use nutsdb.Ds.Lists.Ends
use nutsdb.Ds.Lists.Range
use nutsdb.Ds.Lists.Remove
use nutsdb.Ds.Lists.Indexes
use nutsdb.Ds.Lists.Local
use nutsdb.Ds.Lists.Local.{Local, SameAt, Local-bind, Local-pure}

-- The methods of `*List`, with their arguments.
pub data Call : Type 0 where
  r_pop l_pop r_peek l_peek size is_empty get_list_ttl is_expire : Call
  r_push l_push : List Bytes → Call
  l_range l_trim : ℤ → ℤ → Call
  l_rem l_rem_num : ℤ → Bytes → Call
  l_set : ℤ → Bytes → Call
  l_rem_by_index l_rem_by_index_pre_check : List ℤ → Call

abbrev forget : {A : Type 0} → Method A → Method Unit
forget m = m >>= λ _. pure tt

-- A call on a key, without its result.
unfoldable pub run : Call → ℕ → Bytes → Method Unit
run r_pop now key = forget (Ends.r_pop now key)
run l_pop now key = forget (Ends.l_pop now key)
run r_peek now key = forget (Ends.r_peek now key)
run l_peek now key = forget (Ends.l_peek now key)
run size now key = forget (Lists.size now key)
run is_empty now key = forget (Lists.is_empty now key)
run get_list_ttl now key = forget (Lists.get_list_ttl now key)
run is_expire now key = forget (Lists.is_expire now key)
run (r_push values) now key = forget (Ends.r_push now key values)
run (l_push values) now key = forget (Ends.l_push now key values)
run (l_range start end) now key = forget (Range.l_range now key start end)
run (l_trim start end) now key = Range.l_trim now key start end
run (l_rem count value) now key = forget (Remove.l_rem now key count value)
run (l_rem_num count value) now key = forget (Remove.l_rem_num now key count value)
run (l_set index value) now key = Range.l_set now key index value
run (l_rem_by_index indexes) now key = forget (Indexes.l_rem_by_index now key indexes)
run (l_rem_by_index_pre_check indexes) now key =
    forget (Indexes.l_rem_by_index_pre_check now key indexes)

Local-forget : {A : Type 0} {key : Bytes} (m : Method A) → Local key m → Local key (forget m)
Local-forget m h = Local-bind m _ h (λ _. Local-pure tt)

run-Local : (c : Call) (now : ℕ) (key : Bytes) → Local key (run c now key)
unfolding run
run-Local r_pop now key = Local-forget _ (Local.Local-r_pop now key)
run-Local l_pop now key = Local-forget _ (Local.Local-l_pop now key)
run-Local r_peek now key = Local-forget _ (Local.Local-r_peek now key)
run-Local l_peek now key = Local-forget _ (Local.Local-l_peek now key)
run-Local size now key = Local-forget _ (Local.Local-size now key)
run-Local is_empty now key = Local-forget _ (Local.Local-is_empty now key)
run-Local get_list_ttl now key = Local-forget _ (Local.Local-get_list_ttl now key)
run-Local is_expire now key = Local-forget _ (Local.Local-is_expire now key)
run-Local (r_push values) now key = Local-forget _ (Local.Local-r_push now key values)
run-Local (l_push values) now key = Local-forget _ (Local.Local-l_push now key values)
run-Local (l_range start end) now key = Local-forget _ (Local.Local-l_range now key start end)
run-Local (l_trim start end) now key = Local.Local-l_trim now key start end
run-Local (l_rem count value) now key = Local-forget _ (Local.Local-l_rem now key count value)
run-Local (l_rem_num count value) now key =
    Local-forget _ (Local.Local-l_rem_num now key count value)
run-Local (l_set index value) now key = Local.Local-l_set now key index value
run-Local (l_rem_by_index indexes) now key =
    Local-forget _ (Local.Local-l_rem_by_index now key indexes)
run-Local (l_rem_by_index_pre_check indexes) now key =
    Local-forget _ (Local.Local-l_rem_by_index_pre_check now key indexes)

-- Every method, on every branch (success, error or panic), leaves the list, the time to live and
-- the time stamp of each other key as they were.
pub run-SameAt :
    (c : Call) (now : ℕ) (key j : Bytes) (l : ListStore) → key ≢ j → SameAt j l (run c now key l).1
run-SameAt c now key j l ne = (run-Local c now key).at j ne l

-- The calls that look for the list; `IsExpire` only reports.
abbrev pub IsGuarded : Call → Type 0
IsGuarded is_expire = ⊥
IsGuarded _ = Unit

forget_err :
    {A : Type 0} (m : Method A) (l l' : ListStore) (e : ListError)
    → m l ≡ (err e, l')
    → forget m l ≡ (err e, l')
forget_err m l l' e h = rw h

module _ (now : ℕ) (key : Bytes) (l : ListStore)
    (gone : Lists.is_expire now key l ≡ (ok true, purge key l)) where
  size-gone : Lists.size now key l ≡ (err list_not_found, purge key l)
  unfolding Lists.size
  size-gone = unless_expired-gone now key l _ gone

  guarded :
      {A : Type 0} (m : Method A) → unless_expired now key m l ≡ (err list_not_found, purge key l)
  guarded m = unless_expired-gone now key l m gone

  run-purge : (c : Call) → IsGuarded c → run c now key l ≡ (err list_not_found, purge key l)
  unfolding run Ends.r_pop Ends.r_peek Ends.l_pop Ends.l_peek Ends.r_push Ends.l_push Range.l_range
      Range.l_trim Range.l_set Remove.l_rem Remove.l_rem_num Indexes.l_rem_by_index
      Indexes.l_rem_by_index_pre_check Lists.is_empty Lists.get_list_ttl
  run-purge is_expire g = absurd g
  run-purge size g = rw size-gone
  run-purge is_empty g = rw size-gone
  run-purge (l_range start end) g = rw size-gone
  run-purge _ g = rw unless_expired-gone

-- On a list whose time to live has passed, in the range of the words, `IsExpire` returns true and
-- every other method gives `ErrListNotFound`; both leave the same store, in which the key has no
-- list, no time to live and no time stamp any more.
pub run-gone :
    (now : ℕ) (key : Bytes) (ttl stamp : ℕ) (l : ListStore) (c : Call)
    → Timed key ttl stamp l
    → stamp + ttl ≤ now
    → IsGuarded c
    → (l' : ListStore) × (Lists.is_expire now key l ≡ (ok true, l'))
      × (run c now key l ≡ (err list_not_found, l'))
      × (Maps.lookup key l'.items ≡ none)
      × (Maps.lookup key l'.ttl ≡ none)
      × (Maps.lookup key l'.time_stamp ≡ none)
run-gone now key ttl stamp l c timed past guard =
    let gone = is_expire-after now timed past in
    (
      purge key l,
      gone,
      run-purge now key l gone c guard,
      lookup-delete_self key l.items,
      lookup-delete_self key l.ttl,
      lookup-delete_self key l.time_stamp,
    )
