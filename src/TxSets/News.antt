-- ===== src/TxSets/News.antt =====
-- Which writes `SAdd` of tx_set.go makes.
use nutsdb.Prelude.{
  ℕ, ◌≡◌, refl, ◌∙◌, ap, true, false, Option, none, some, List, [], ◌∷◌, ◌++◌, sym, arith, ◌==◌,
  if◌then◌else◌, inl, inr, Option-cases, ok, panic, ==_iff,
}
use mathlib.Core.List.{append_assoc, append-nil}
use nutsdb.Prelude.Exec
use nutsdb.Prelude.Exec.{◌>>◌}
use nutsdb.Prelude.Maps
use nutsdb.Prelude.Maps.{Map, bytes_key, nat_key, has, lookup-insert}
use nutsdb.Prelude.Words.{Bytes}
use nutsdb.Entries.{Entry, valid}
use nutsdb.Records.{Record, data_set_flag, data_structure_set}
use nutsdb.Sets.{Slice, bytes_of, get_fnv32, SetStore, members}
use nutsdb.Sets.Members.{hashes}
use nutsdb.Indexing.{get_or}
use nutsdb.Tx.{Tx, put, new_entry}
use nutsdb.TxSets.{persistent, Filter, add_hashes, in_bucket, put_new, s_put, tx_s_add}

-- The write of a value into a set.
abbrev pub set_entry : Tx → ℕ → Bytes → Bytes → Slice → Entry
set_entry tx now bucket key v =
    new_entry tx bucket key (bytes_of v) persistent data_set_flag now data_structure_set

abbrev pub set_entries : Tx → ℕ → Bytes → Bytes → List Slice → List Entry
set_entries tx now bucket key [] = []
set_entries tx now bucket key (v ∷ vs) =
    set_entry tx now bucket key v ∷ set_entries tx now bucket key vs

-- `put` accepts the write of every value.
abbrev pub AreValid : Tx → ℕ → Bytes → Bytes → List Slice → Type 0
AreValid tx now bucket key [] = Unit {0}
AreValid tx now bucket key (v ∷ vs) =
    (valid (set_entry tx now bucket key v) ≡ ok tt) × AreValid tx now bucket key vs

-- No two of the values have the same hash.
abbrev pub AreApart : List Slice → Type 0
AreApart [] = Unit {0}
AreApart (v ∷ vs) = (hashes vs (get_fnv32 v) ≡ false) × AreApart vs

-- The values that the filter lets through.
unfoldable pub news : Filter → List Slice → List Slice
news filter [] = []
news filter (v ∷ vs) = elim (Maps.lookup (get_fnv32 v) filter) [
  | some u ↦ news filter vs
  | none ↦ v ∷ news (Maps.insert (get_fnv32 v) tt filter) vs
]

has-insert :
    (k h : ℕ) (filter : Filter)
    → has h (Maps.insert k tt filter) ≡ (if k == h then true else has h filter)
has-insert k h filter = ground (arith, lookup-insert k h tt filter)

has-add_hashes :
    {R : Type 0}
    → (h : ℕ) (m : Map ℕ R) (filter : Filter)
    → has h (add_hashes m filter) ≡ (if has h m then true else has h filter)
unfolding add_hashes Maps.lookup
has-add_hashes h [] filter = refl
has-add_hashes h ((k, r) ∷ m) filter =
    ground (arith, has-add_hashes h m (Maps.insert k tt filter), has-insert k h filter)

pub hashes-news :
    (h : ℕ) (filter : Filter) (vs : List Slice)
    → hashes (news filter vs) h ≡ (if has h filter then false else hashes vs h)
unfolding news hashes
hashes-news h filter [] = ground arith
hashes-news h filter (v ∷ vs) = elim (Option-cases (Maps.lookup (get_fnv32 v) filter)) [
  | inl away ↦
      rw (away, news) ground
        (
          arith,
          hashes-news h (Maps.insert (get_fnv32 v) tt filter) vs,
          has-insert (get_fnv32 v) h filter,
          ==_iff (get_fnv32 v) h,
        )
  | inr (u, there) ↦
      rw (there, news) ground (arith, hashes-news h filter vs, ==_iff (get_fnv32 v) h)
]

pub news-AreApart : (filter : Filter) (vs : List Slice) → AreApart (news filter vs)
unfolding news
news-AreApart filter [] = tt
news-AreApart filter (v ∷ vs) = elim (Option-cases (Maps.lookup (get_fnv32 v) filter)) [
  | inl away ↦
      rw (away, news)
        (
          ground (
            arith,
            hashes-news (get_fnv32 v) (Maps.insert (get_fnv32 v) tt filter) vs,
            has-insert (get_fnv32 v) (get_fnv32 v) filter,
            ==_iff (get_fnv32 v) (get_fnv32 v),
          ),
          news-AreApart (Maps.insert (get_fnv32 v) tt filter) vs,
        )
  | inr (u, there) ↦ rw (there, news) (news-AreApart filter vs)
]

-- A transaction with further writes behind its own.
abbrev pub with_writes : Tx → List Entry → Tx
with_writes tx es = record tx { pending_writes = tx.pending_writes ++ es }

with_writes-nil : (tx : Tx) → with_writes tx [] ≡ tx
with_writes-nil tx = ap (λ ws. record tx { pending_writes = ws }) (append-nil tx.pending_writes)

put-accepted :
    (tx : Tx) (es : List Entry) (now : ℕ) (bucket key : Bytes) (v : Slice)
    → tx.has_db ≡ true
    → tx.writable ≡ true
    → valid (set_entry tx now bucket key v) ≡ ok tt
    → put bucket key
        (bytes_of v)
        persistent
        data_set_flag
        now
        data_structure_set
        (with_writes tx es)
      ≡ (ok tt, with_writes tx (es ++ (set_entry tx now bucket key v ∷ [])))
unfolding put
put-accepted tx es now bucket key v has_db writable accepted =
    ground (arith, accepted, append_assoc tx.pending_writes es (set_entry tx now bucket key v ∷ []))

put_new-news :
    (tx : Tx) (es : List Entry) (now : ℕ) (bucket key : Bytes) (filter : Filter) (vs : List Slice)
    → tx.has_db ≡ true
    → tx.writable ≡ true
    → AreValid tx now bucket key vs
    → put_new now bucket key filter vs (with_writes tx es)
      ≡ (ok tt, with_writes tx (es ++ set_entries tx now bucket key (news filter vs)))
unfolding put_new news
put_new-news tx es now bucket key filter [] has_db writable accepted =
    ap (λ ws. (ok tt, with_writes tx ws)) (sym (append-nil es))
put_new-news tx es now bucket key filter (v ∷ vs) has_db writable accepted =
    elim (Option-cases (Maps.lookup (get_fnv32 v) filter)) [
      | inl away ↦
          rw (away, put_new, news)
            (ap
                (λ (m, t).
                  Exec.continue m t
                    (λ u. put_new now bucket key (Maps.insert (get_fnv32 v) tt filter) vs))
                (put-accepted tx es now bucket key v has_db writable accepted.0)
              ∙ put_new-news tx (es ++ (set_entry tx now bucket key v ∷ [])) now bucket key
                  (Maps.insert (get_fnv32 v) tt filter) vs has_db writable accepted.1
              ∙ ap (λ ws. (ok tt, with_writes tx ws))
                  (append_assoc es (set_entry tx now bucket key v ∷ []) (
                    set_entries tx now bucket key (news (Maps.insert (get_fnv32 v) tt filter) vs))))
      | inr (u, there) ↦
          rw (there, put_new, news)
            (put_new-news tx es now bucket key filter vs has_db writable accepted.1)
    ]

pub has-filter :
    (set_idx : Map Bytes (SetStore Record)) (bucket key : Bytes) (h : ℕ)
    → has h (add_hashes (in_bucket (Maps.lookup bucket set_idx) key) [])
      ≡ has h (members key (get_or [] (Maps.lookup bucket set_idx)))
unfolding members add_hashes Maps.lookup
has-filter set_idx bucket key h = go (Maps.lookup bucket set_idx)
  where
    go :
        (o : Option (SetStore Record))
        → has h (add_hashes (in_bucket o key) []) ≡ has h (members key (get_or [] o))
    go none = refl
    go (some s) = ground (arith, has-add_hashes h (members key s) [])

pub tx_s_add-news :
    (set_idx : Map Bytes (SetStore Record)) (tx : Tx) (now : ℕ) (bucket key : Bytes)
    (items : List Slice)
    → tx.has_db ≡ true
    → tx.writable ≡ true
    → AreValid tx now bucket key items
    → tx_s_add set_idx now bucket key items tx ≡ (
      ok tt,
      with_writes tx (
          set_entries tx now bucket key
            (news (add_hashes (in_bucket (Maps.lookup bucket set_idx) key) []) items)),
    )
unfolding tx_s_add s_put
tx_s_add-news set_idx tx now bucket key items has_db writable accepted =
    let filter = add_hashes (in_bucket (Maps.lookup bucket set_idx) key) [] in
    ap (λ b. if b then put_new now bucket key filter items tx else (panic, tx)) has_db
    ∙ ap (put_new now bucket key filter items) (sym (with_writes-nil tx))
    ∙ put_new-news tx [] now bucket key filter items has_db writable accepted
