-- ===== src/Ds/Lists/State.antt =====
-- What the methods of ds/list/list.go see of one key: gone, missing, or a live list.
use nutsdb.Prelude.{ℕ, ◌≡◌, ◌∙◌, ap, true, false, none, some, List, arith, ok, err, length}
use nutsdb.Prelude.Words.{Bytes}
use nutsdb.Prelude.Maps
use nutsdb.Prelude.Maps.{bytes_key, lookup-insert_self, insert-lookup, insert-insert}
use nutsdb.Ds.Lists.{
  ListStore, list_not_found, Method, is_expire, unless_expired, require, store, items_at, size,
  purge,
}

-- The key has no time to live, or it has not passed.
pub record IsFresh (now : ℕ) (key : Bytes) (l : ListStore) : Type 0 where
  pub fresh : is_expire now key l ≡ (ok false, l)

-- The key holds the list `xs`, and is fresh.
pub record Holds (now : ℕ) (key : Bytes) (xs : List Bytes) (l : ListStore) : Type 0 where
  pub fresh : is_expire now key l ≡ (ok false, l)
  pub at : Maps.lookup key l.items ≡ some xs

module _ {A : Type 0} (now : ℕ) (key : Bytes) (l : ListStore) where
  pub unless_expired-fresh :
      (m : Method A) → is_expire now key l ≡ (ok false, l) → unless_expired now key m l ≡ m l
  unfolding unless_expired
  unless_expired-fresh m h = rw h

  pub unless_expired-gone :
      (m : Method A)
      → is_expire now key l ≡ (ok true, purge key l)
      → unless_expired now key m l ≡ (err list_not_found, purge key l)
  unfolding unless_expired
  unless_expired-gone m h = rw h

module _ {A : Type 0} (key : Bytes) (l : ListStore) (rest : List Bytes → Method A) where
  pub require-some :
      (xs : List Bytes) → Maps.lookup key l.items ≡ some xs → require key rest l ≡ rest xs l
  unfolding require
  require-some xs h = rw h

  pub require-none : Maps.lookup key l.items ≡ none → require key rest l ≡ (err list_not_found, l)
  unfolding require
  require-none h = rw h

module _ {now : ℕ} {key : Bytes} {l : ListStore} where
  pub size-Holds : (xs : List Bytes) → Holds now key xs l → size now key l ≡ (ok (length xs), l)
  unfolding size
  size-Holds xs h = rw (unless_expired-fresh now key l _ h.fresh) (require-some key l _ xs h.at)

  pub items_at-Holds : (xs : List Bytes) → Holds now key xs l → items_at key l ≡ xs
  unfolding items_at
  items_at-Holds xs h = rw h.at

  pub store-Holds :
      (xs : List Bytes) → is_expire now key l ≡ (ok false, l) → Holds now key xs (store key xs l)
  unfolding is_expire
  store-Holds xs h = record { fresh = ground arith; at = lookup-insert_self key xs l.items }

  -- Storing what is there changes nothing.
  pub store_same : (xs : List Bytes) → Holds now key xs l → store key xs l ≡ l
  store_same xs h = ap (λ m. record l { items = m }) (insert-lookup key xs l.items h.at)

  pub store_back : (xs ys : List Bytes) → Holds now key xs l → store key xs (store key ys l) ≡ l
  store_back xs ys h =
      ap (λ m. record l { items = m })
        (insert-insert key xs ys l.items ∙ insert-lookup key xs l.items h.at)
