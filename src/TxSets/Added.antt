-- ===== src/TxSets/Added.antt =====
-- What it means that values are among the members of a set in the index of the sets.
use nutsdb.Prelude.{ℕ, ◌≡◌, true, false, ◌&&◌, List, [], ◌∷◌, arith, if◌then◌else◌}
use nutsdb.Prelude.Maps
use nutsdb.Prelude.Maps.{Map, bytes_key, nat_key, has, lookup-insert}
use nutsdb.Prelude.Words.{Bytes}
use nutsdb.Records.{Record}
use nutsdb.Sets.{Slice, get_fnv32, SetStore, members}
use nutsdb.Sets.Members.{hashes, members-insert}
use nutsdb.Indexing.{get_or}

-- The index of the sets.
abbrev pub SetIdx : Type 0
SetIdx = Map Bytes (SetStore Record)

-- The set of a bucket, empty where the bucket is missing.
abbrev pub set_of : Bytes → SetIdx → SetStore Record
set_of bucket idx = get_or [] (Maps.lookup bucket idx)

-- The index `after` has the values among the members of the key in the bucket, and otherwise the
-- members of `before`, in every bucket and under every key.
abbrev pub IsAdded : Bytes → Bytes → List Slice → SetIdx → SetIdx → Type 0
IsAdded bucket key vs before after =
    (b j : Bytes) (h : ℕ)
    → has h (members j (set_of b after)) ≡ (
        if bytes_key.same bucket b && bytes_key.same key j && hashes vs h
        then true
        else has h (members j (set_of b before)))

-- The index with a record under the value's hash.
abbrev pub with_member : Bytes → Bytes → Slice → Record → SetIdx → SetIdx
with_member bucket key v r idx =
    Maps.insert bucket
      (Maps.insert key (Maps.insert (get_fnv32 v) r (members key (set_of bucket idx)))
        (set_of bucket idx))
      idx

pub with_member-IsAdded :
    (bucket key : Bytes) (v : Slice) (r : Record) (idx : SetIdx)
    → IsAdded bucket key (v ∷ []) idx (with_member bucket key v r idx)
unfolding hashes
with_member-IsAdded bucket key v r idx b j h =
    let s = set_of bucket idx in
    let m = Maps.insert (get_fnv32 v) r (members key s) in
    ground (
      arith,
      lookup-insert bucket b (Maps.insert key m s) idx,
      members-insert key j m s,
      lookup-insert (get_fnv32 v) h r (members key s),
      bytes_key.same_iff bucket b,
      bytes_key.same_iff key j,
    )

pub IsAdded-none : (bucket key : Bytes) (idx : SetIdx) → IsAdded bucket key [] idx idx
unfolding hashes
IsAdded-none bucket key idx b j h = ground arith

pub IsAdded-cons :
    (bucket key : Bytes) (v : Slice) (vs : List Slice) (before mid after : SetIdx)
    → IsAdded bucket key (v ∷ []) before mid
    → IsAdded bucket key vs mid after
    → IsAdded bucket key (v ∷ vs) before after
unfolding hashes
IsAdded-cons bucket key v vs before mid after first rest b j h =
    ground (arith, first b j h, rest b j h)

pub IsAdded-items :
    (bucket key : Bytes) (new items : List Slice) (before after : SetIdx)
    → ((h : ℕ)
        → hashes new h
          ≡ (if has h (members key (set_of bucket before)) then false else hashes items h))
    → IsAdded bucket key new before after
    → IsAdded bucket key items before after
IsAdded-items bucket key new items before after covered added b j h =
    ground (arith, added b j h, covered h, bytes_key.same_iff bucket b, bytes_key.same_iff key j)
