-- ===== src/Ds/Lists/Expiry.antt =====
-- The time to live of a list in ds/list/list.go.
use nutsdb.Prelude.{
  Bool, ℕ, ◌+◌, ◌-◌, ◌^◌, ◌%◌, ◌≤◌, ◌<◌, ◌≡◌, true, false, some, arith, if◌then◌else◌, ok,
}
use nutsdb.Prelude.Words.{Bytes}
use nutsdb.Prelude.Maps
use nutsdb.Prelude.Maps.{bytes_key, lookup-delete_self, lookup-insert_self}
use nutsdb.Ds.Lists.{ListStore, is_expire, get_list_ttl, purge, is_live}
use nutsdb.Ds.Lists.State.{unless_expired-fresh}

-- A list with a time to live, `ttl` seconds from the time `stamp`, in the range of the words.
pub record Timed (key : Bytes) (ttl stamp : ℕ) (l : ListStore) : Type 0 where
  pub has_ttl : Maps.lookup key l.ttl ≡ some ttl
  pub has_stamp : Maps.lookup key l.time_stamp ≡ some stamp
  pub positive : 0 < ttl
  pub ttl_word : ttl < 2 ^ 32
  pub no_wrap : stamp + ttl < 2 ^ 64

is_live-before :
    (now ttl stamp : ℕ)
    → 0 < ttl
    → stamp + ttl < 2 ^ 64
    → now < stamp + ttl
    → is_live now ttl stamp ≡ true
is_live-before now ttl stamp p w h =
    let e : (ttl + stamp) % 2 ^ 64 ≡ stamp + ttl = omega arith in ground arith

is_live-after :
    (now ttl stamp : ℕ)
    → 0 < ttl
    → stamp + ttl < 2 ^ 64
    → stamp + ttl ≤ now
    → is_live now ttl stamp ≡ false
is_live-after now ttl stamp p w h =
    let e : (ttl + stamp) % 2 ^ 64 ≡ stamp + ttl = omega arith in ground arith

is_expire_by :
    (now : ℕ) (key : Bytes) (ttl stamp : ℕ) (l : ListStore) (b : Bool)
    → Maps.lookup key l.ttl ≡ some ttl
    → Maps.lookup key l.time_stamp ≡ some stamp
    → is_live now ttl stamp ≡ b
    → is_expire now key l ≡ (if b then (ok false, l) else (ok true, purge key l))
unfolding is_expire
is_expire_by now key ttl stamp l b ht hs e = rw (ht, is_expire) (rw hs (rw e))

module _ {key : Bytes} {ttl stamp : ℕ} {l : ListStore} (now : ℕ) (t : Timed key ttl stamp l) where
  pub is_expire-before : now < stamp + ttl → is_expire now key l ≡ (ok false, l)
  is_expire-before h =
      is_expire_by now key ttl stamp l true t.has_ttl t.has_stamp
        (is_live-before now ttl stamp t.positive t.no_wrap h)

  pub is_expire-after : stamp + ttl ≤ now → is_expire now key l ≡ (ok true, purge key l)
  is_expire-after h =
      is_expire_by now key ttl stamp l false t.has_ttl t.has_stamp
        (is_live-after now ttl stamp t.positive t.no_wrap h)

  -- Between the time stamp, which is not 0, and the end of the time to live, `GetListTTL` returns
  -- the seconds that are left, with no wrap-around, and changes nothing.
  pub get_list_ttl-before :
      stamp ≤ now
      → 0 < stamp
      → now < stamp + ttl
      → get_list_ttl now key l ≡ (ok (stamp + ttl - now), l)
  unfolding get_list_ttl
  get_list_ttl-before le p h =
      let word = t.ttl_word in
      let some_ttl = t.positive in
      let e : (stamp + ttl + 2 ^ 64 - now) % 2 ^ 64 % 2 ^ 32 ≡ stamp + ttl - now = omega arith in
      rw (unless_expired-fresh now key l _ (is_expire-before h))
        (rw (t.has_ttl, t.has_stamp) (ground (arith, e)))
