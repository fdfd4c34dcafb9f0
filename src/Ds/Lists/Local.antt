-- ===== src/Ds/Lists/Local.antt =====
-- Every method of ds/list/list.go touches the one key that it is called with.
use nutsdb.Prelude.{
  ◌⊎◌, inl, inr, ℕ, ◌≡◌, ◌≢◌, refl, ◌∙◌, Bool, true, false, Option, none, some, List, [], ◌∷◌,
  arith, if◌then◌else◌, ltb, Outcome, ok, err, panic,
}
use nutsdb.Prelude.Int.{ℤ, pos, negsuc}
use nutsdb.Prelude.Exec.{◌>>=◌, pure, fail, gets, modify, or_default}
use nutsdb.Prelude.Words.{Bytes}
use nutsdb.Prelude.Maps
use nutsdb.Prelude.Maps.{bytes_key, lookup-insert, lookup-delete}
use nutsdb.Ds.Lists.{
  ListStore, ListError, Method, is_expire, unless_expired, require, store, items_at, size, is_empty,
  get_list_ttl, or_missing,
}
use nutsdb.Ds.Lists.Ends.{or_panic, r_peek, r_pop, r_push, l_push, l_peek, unless_nil, l_pop}
use nutsdb.Ds.Lists.Range.{range_of, l_range, l_set, l_trim, set_at}
use nutsdb.Ds.Lists.Remove.{checked_count, l_rem_num, l_rem}
use nutsdb.Ds.Lists.Indexes.{store_removed, l_rem_by_index, l_rem_by_index_pre_check}

-- Nothing that the store has for `j` differs.
pub record SameAt (j : Bytes) (l l' : ListStore) : Type 0 where
  pub items : Maps.lookup j l'.items ≡ Maps.lookup j l.items
  pub ttl : Maps.lookup j l'.ttl ≡ Maps.lookup j l.ttl
  pub time_stamp : Maps.lookup j l'.time_stamp ≡ Maps.lookup j l.time_stamp

pub record Local {A : Type 0} (key : Bytes) (m : Method A) : Type 0 where
  pub at : (j : Bytes) → key ≢ j → (l : ListStore) → SameAt j l (m l).1

module _ {A : Type 0} {key : Bytes} where
  pub Local-pure : (a : A) → Local {A = A} key (pure a)
  Local-pure a = record { at = λ j ne l. record { items = refl; ttl = refl; time_stamp = refl } }

  Local-fail : (e : ListError) → Local {A = A} key (fail e)
  Local-fail e = record { at = λ j ne l. record { items = refl; ttl = refl; time_stamp = refl } }

  Local-gets : (f : ListStore → A) → Local {A = A} key (gets f)
  Local-gets f = record { at = λ j ne l. record { items = refl; ttl = refl; time_stamp = refl } }

  Local-or_panic : (o : Option A) → Local {A = A} key (or_panic o)
  Local-or_panic none = record {
    at = λ j ne l. record { items = refl; ttl = refl; time_stamp = refl };
  }
  Local-or_panic (some a) = record {
    at = λ j ne l. record { items = refl; ttl = refl; time_stamp = refl };
  }

  Local-if :
      (b : Bool) (m n : Method A) → Local key m → Local key n → Local key (if b then m else n)
  Local-if true m n lm ln = lm
  Local-if false m n lm ln = ln

  -- A method that first looks at the store.
  Local-reads :
      (f : ListStore → Method A) → ((l : ListStore) → Local key (f l)) → Local key (λ l. f l l)
  Local-reads f h = record { at = λ j ne l. (h l).at j ne l }

  Local-or_default : (d : A) (m : Method A) → Local key m → Local key (or_default d m)
  Local-or_default d m h = record { at = λ j ne l. keep j l (m l).0 (m l).1 (h.at j ne l) }
    where
      keep :
          (j : Bytes) (l : ListStore) (r : Outcome ListError A) (l' : ListStore)
          → SameAt j l l'
          → SameAt j l (or_default d (λ _. (r, l')) l).1
      keep j l (ok a) l' s = s
      keep j l (err e) l' s = s
      keep j l panic l' s = s

module _ {key : Bytes} where
  Local-update : (f : ListStore → List Bytes) → Local key (modify (λ l. store key (f l) l))
  Local-update f = record {
    at = λ j ne l. record {
      items = ground (arith, lookup-insert key j (f l) l.items, Maps.bytes_key.same_iff key j);
      ttl = refl;
      time_stamp = refl;
    };
  }

  Local-store : (xs : List Bytes) → Local key (modify (store key xs))
  Local-store xs = Local-update (λ l. xs)

module _ {A B : Type 0} {key : Bytes} where
  pub Local-bind :
      (m : Method A) (f : A → Method B)
      → Local key m
      → ((a : A) → Local key (f a))
      → Local key (m >>= f)
  Local-bind m f hm hf = record { at = λ j ne l. after j ne l (m l).0 (m l).1 (hm.at j ne l) }
    where
      after :
          (j : Bytes) (ne : key ≢ j) (l : ListStore) (r : Outcome ListError A) (l' : ListStore)
          → SameAt j l l'
          → SameAt j l (((λ _. (r, l')) >>= f) l).1
      after j ne l (ok a) l' s =
          let t = (hf a).at j ne l' in
          record {
            items = t.items ∙ s.items;
            ttl = t.ttl ∙ s.ttl;
            time_stamp = t.time_stamp ∙ s.time_stamp;
          }
      after j ne l (err e) l' s = s
      after j ne l panic l' s = s

pub Local-is_expire : (now : ℕ) (key : Bytes) → Local key (is_expire now key)
unfolding is_expire
Local-is_expire now key = record {
  at = λ j ne l. ground (
    arith,
    lookup-delete key j l.items,
    lookup-delete key j l.ttl,
    lookup-delete key j l.time_stamp,
    Maps.bytes_key.same_iff key j,
  );
}

Local-unless_expired :
    {A : Type 0} (now : ℕ) (key : Bytes) (m : Method A)
    → Local key m
    → Local key (unless_expired now key m)
unfolding unless_expired
Local-unless_expired now key m h =
    Local-bind (is_expire now key) _ (Local-is_expire now key)
      (λ gone. Local-if gone _ _ (Local-fail _) h)

Local-require :
    {A : Type 0} (key : Bytes) (f : List Bytes → Method A)
    → ((xs : List Bytes) → Local key (f xs))
    → Local key (require key f)
unfolding require
Local-require {A} key f h = record { at = λ j ne l. found j ne l (Maps.lookup key l.items) }
  where
    found :
        (j : Bytes) (ne : key ≢ j) (l : ListStore) (o : Option (List Bytes))
        → SameAt j l (or_missing o f l).1
    found j ne l none = record { items = refl; ttl = refl; time_stamp = refl }
    found j ne l (some xs) = (h xs).at j ne l

Local-store_removed :
    (key : Bytes) (o : List Bytes ⊎ (ℕ × List Bytes)) → Local key (store_removed key o)
Local-store_removed key (inl item) = record { at = λ j ne l. (Local-store item).at j ne l }
Local-store_removed key (inr (removed, item)) = record {
  at = λ j ne l. (Local-store item).at j ne l;
}

ruleset local_rules = (
  Local-store_removed, Local-pure, Local-fail, Local-gets, Local-or_panic, Local-if,
  Local-or_default, Local-store, Local-update, Local-bind, Local-is_expire, Local-unless_expired,
  Local-require, Local-reads,
)

module _ (now : ℕ) (key : Bytes) where
  pub Local-size : Local key (size now key)
  unfolding size
  Local-size = search local_rules

  pub Local-r_peek : Local key (r_peek now key)
  unfolding r_peek
  Local-r_peek = search (local_rules, Local-size) depth 9

  pub Local-l_peek : Local key (l_peek now key)
  unfolding l_peek
  Local-l_peek = search (local_rules, Local-size) depth 9

  Local-range_of : (xs : List Bytes) (start end : ℤ) → Local key (range_of xs start end)
  unfolding range_of
  Local-range_of xs start end = search local_rules

  pub Local-l_range : (start end : ℤ) → Local key (l_range now key start end)
  unfolding l_range
  Local-l_range start end = Local-bind (size now key) _ Local-size λ n.
      Local-if (ltb 0 n) _ _
        (Local-reads (λ l. range_of (items_at key l) start end)
          (λ l. Local-range_of (items_at key l) start end))
        (Local-pure [])

  Local-set_at : (xs : List Bytes) (index : ℤ) (value : Bytes) → Local key (set_at xs index value)
  unfolding set_at
  Local-set_at xs (pos i) value = search local_rules
  Local-set_at xs (negsuc i) value = search local_rules

  Local-checked_count : (count : ℤ) (n : ℕ) → Local key (checked_count count n)
  unfolding checked_count
  Local-checked_count (pos m) n = search local_rules
  Local-checked_count (negsuc m) n = search local_rules

  pub Local-l_rem_num : (count : ℤ) (value : Bytes) → Local key (l_rem_num now key count value)
  unfolding l_rem_num
  Local-l_rem_num count value = search (local_rules, Local-size, Local-checked_count) depth 9

  Local-unless_nil : (xs : List Bytes) (m : Method Unit) → Local key m → Local key (unless_nil xs m)
  unfolding unless_nil
  Local-unless_nil [] m h = Local-fail _
  Local-unless_nil (x ∷ xs) m h = h

  pub Local-r_pop : Local key (r_pop now key)
  unfolding r_pop
  Local-r_pop = search (local_rules, Local-r_peek) depth 9

  pub Local-l_pop : Local key (l_pop now key)
  unfolding l_pop
  Local-l_pop = search (local_rules, Local-l_peek, Local-unless_nil) depth 9

  pub Local-r_push : (values : List Bytes) → Local key (r_push now key values)
  unfolding r_push
  Local-r_push values = search (local_rules, Local-size) depth 9

  pub Local-l_push : (values : List Bytes) → Local key (l_push now key values)
  unfolding l_push
  Local-l_push values = search (local_rules, Local-size) depth 12

  pub Local-l_set : (index : ℤ) (value : Bytes) → Local key (l_set now key index value)
  unfolding l_set
  Local-l_set index value = search (local_rules, Local-set_at) depth 9

  pub Local-l_trim : (start end : ℤ) → Local key (l_trim now key start end)
  unfolding l_trim
  Local-l_trim start end = search (local_rules, Local-l_range) depth 9

  pub Local-l_rem : (count : ℤ) (value : Bytes) → Local key (l_rem now key count value)
  unfolding l_rem
  Local-l_rem count value = search (local_rules, Local-l_rem_num) depth 12

  pub Local-l_rem_by_index : (indexes : List ℤ) → Local key (l_rem_by_index now key indexes)
  unfolding l_rem_by_index
  Local-l_rem_by_index indexes = search local_rules depth 12

  pub Local-l_rem_by_index_pre_check :
      (indexes : List ℤ) → Local key (l_rem_by_index_pre_check now key indexes)
  unfolding l_rem_by_index_pre_check
  Local-l_rem_by_index_pre_check indexes = search local_rules depth 9

  pub Local-is_empty : Local key (is_empty now key)
  unfolding is_empty
  Local-is_empty = search (local_rules, Local-size) depth 9

  pub Local-get_list_ttl : Local key (get_list_ttl now key)
  unfolding get_list_ttl
  Local-get_list_ttl =
      Local-unless_expired now key _ (record { at = λ j ne l. ground (arith, same l j) })
    where
      same : (l : ListStore) (j : Bytes) → SameAt j l l
      same l j = record { items = refl; ttl = refl; time_stamp = refl }
