-- ===== src/Bptree/Client.antt =====
-- The B+ tree as its callers see it: `Find` after `Insert`, and any run of calls from `NewTree`.
use nutsdb.Prelude.{
  ◌≡◌, refl, sym, ap, ◌∙◌, Bool, true, false, Option, none, some, List, [], ◌∷◌, inl, inr, ◌&&◌,
  if◌then◌else◌, arith, Bool-cases, err,
}
use nutsdb.Prelude.Words.{Bytes, bytes_eq, bytes_eq_iff}
use nutsdb.Prelude.Compare.{below, not-below, below_trans, eq_of_below}
use nutsdb.Entries.{Entry, Hint}
use nutsdb.Records.{Record}
use nutsdb.Bptree.{Pairs, BpTree, find_in, find, new_tree, new_record, insert}
use nutsdb.Bptree.Sorted.{All, IsSorted, All-imp}
use nutsdb.Bptree.Ordered.{flatten-IsSorted}
use nutsdb.Bptree.Updates.{updated}
use nutsdb.Bptree.Models.{Models, find_refines}
use nutsdb.Bptree.Scans.{ScanError, range, get_record_wrapper}
use nutsdb.Bptree.Ranges.{select, from, up_to, range_refines}
use nutsdb.Bptree.Refines.{Hinted, upsert, upsert-Hinted, insert_refines, find_in-upsert}

-- A tree as calls of `Insert` leave it.
pub record IsTree (t : BpTree) : Type 0 where
  pub pairs : Pairs
  pub models : Models t pairs
  pub hinted : Hinted pairs

pub new_tree-IsTree : IsTree new_tree
unfolding new_tree
new_tree-IsTree = record { pairs = []; models = inl (refl, refl, refl); hinted = tt }

-- What the record of a key is after an insertion.
abbrev pub written : Option Entry → Hint → Option Record → Record
written e h none = new_record e h
written e h (some r) = updated e h r

-- On a tree as calls of `Insert` leave it, `Insert` succeeds, leaves such a tree, and `Find` of its
-- key then gives the new record, or the old one with the new entry and hint; any other key reads as
-- before.
pub find-insert :
    (key : Bytes) (e : Option Entry) (h : Hint) (count_flag : Bool) (t : BpTree)
    → IsTree t
    → (u : BpTree) × (insert key e h count_flag t ≡ some u)
      × IsTree u
      × ((other : Bytes)
          → find u.last_address u other ≡ (
              if bytes_eq other key
              then some (written e h (find t.last_address t key))
              else find t.last_address t other))
find-insert key e h count_flag t i =
    let (u, run, m) = insert_refines key e h count_flag t i.pairs i.models i.hinted in
    (
      u,
      run,
      record {
        pairs = upsert key e h i.pairs;
        models = m;
        hinted = upsert-Hinted key e h i.pairs i.hinted;
      },
      λ other.
          find_refines u (upsert key e h i.pairs) other m
          ∙ find_in-upsert key other e h i.pairs
          ∙ (let a = find_refines t i.pairs key i.models in
              let b = find_refines t i.pairs other i.models in
              rw (a, b)
                (joined (bytes_eq other key) (find_in key i.pairs) (find_in other i.pairs))),
    )
  where
    joined :
        (same : Bool) (a b : Option Record)
        → (if same
            then elim a [ none ↦ some (new_record e h) | some r ↦ some (updated e h r) ]
            else b)
          ≡ (if same then some (written e h a) else b)
    joined true none b = refl
    joined true (some r) b = refl
    joined false a b = refl

-- The arguments of a call of `Insert`.
pub record Call : Type 0 where
  pub key : Bytes
  pub entry : Option Entry
  pub hint : Hint
  pub count_flag : Bool

unfoldable pub insert_all : List Call → BpTree → Option BpTree
insert_all [] t = some t
insert_all (c ∷ cs) t = elim (insert c.key c.entry c.hint c.count_flag t) [
  | none ↦ none
  | some u ↦ insert_all cs u
]

-- The same calls on a function.
unfoldable pub replay : List Call → (Bytes → Option Record) → Bytes → Option Record
replay [] f = f
replay (c ∷ cs) f =
    replay cs
      (λ other. if bytes_eq other c.key then some (written c.entry c.hint (f c.key)) else f other)

insert_all_step :
    (c : Call) (cs : List Call) (t u : BpTree)
    → insert c.key c.entry c.hint c.count_flag t ≡ some u
    → insert_all (c ∷ cs) t ≡ insert_all cs u
unfolding insert_all
insert_all_step c cs t u e = ap (λ o. elim o [ none ↦ none | some u ↦ insert_all cs u ]) e

run_calls :
    (cs : List Call) (t : BpTree) (f : Bytes → Option Record)
    → IsTree t
    → ((key : Bytes) → find t.last_address t key ≡ f key)
    → (u : BpTree) × (insert_all cs t ≡ some u)
      × IsTree u
      × ((key : Bytes) → find u.last_address u key ≡ replay cs f key)
unfolding insert_all replay
run_calls [] t f i h = (t, refl, i, h)
run_calls (c ∷ cs) t f i h =
    let (u, run, i', reads) = find-insert c.key c.entry c.hint c.count_flag t i in
    let (v, rest, i'', reads') =
      run_calls cs u
        (λ other. if bytes_eq other c.key then some (written c.entry c.hint (f c.key)) else f other)
        i' (λ other. reads other ∙ (let a = h c.key in let b = h other in rw (a, b) refl)) in
    (v, insert_all_step c cs t u run ∙ rest, i'', reads')

-- From the tree that `NewTree` makes, any sequence of calls of `Insert` succeeds, and `Find` then
-- reads every key as a function does on which the same calls are replayed.
pub insert_all_refines :
    (cs : List Call)
    → (t : BpTree) × (insert_all cs new_tree ≡ some t)
      × IsTree t
      × ((key : Bytes) → find t.last_address t key ≡ replay cs (λ other. none) key)
unfolding new_tree
insert_all_refines cs =
    run_calls cs new_tree (λ other. none) new_tree-IsTree
      (λ key. find_refines new_tree [] key (inl (refl, refl, refl)) ∙ empty key)
  where
    empty : (key : Bytes) → find_in key [] ≡ none
    empty key = unfold find_in in refl

-- Two sorted lists that hold the same of every key are one.
absent_first :
    (key k : Bytes) (kvs : Pairs)
    → All (λ x. below k x ≡ true) kvs
    → bytes_eq key k ≡ true
    → find_in key kvs ≡ none
unfolding find_in
absent_first key k [] a e = refl
absent_first key k ((x, r) ∷ kvs) a e =
    ground (arith, bytes_eq_iff key k, bytes_eq_iff key x, not-below k, absent_first key k kvs a.1)

absent_low :
    (key : Bytes) (kvs : Pairs) → All (λ x. below key x ≡ true) kvs → find_in key kvs ≡ none
absent_low key kvs a = absent_first key key kvs a ((bytes_eq_iff key key).1 refl)

find_first :
    (key k : Bytes) (r : Record) (kvs : Pairs) → key ≡ k → find_in key ((k, r) ∷ kvs) ≡ some r
unfolding find_in
find_first key k r kvs e = ground (arith, bytes_eq_iff key k)

find_later :
    (key k : Bytes) (r : Record) (kvs : Pairs)
    → bytes_eq key k ≡ false
    → find_in key ((k, r) ∷ kvs) ≡ find_in key kvs
unfolding find_in
find_later key k r kvs e = rw e

-- A key below the first of a sorted list is not in it.
not_lower :
    (key k : Bytes) (r : Record) (kvs : Pairs)
    → below key k ≡ true
    → IsSorted ((k, r) ∷ kvs)
    → find_in key ((k, r) ∷ kvs) ≡ none
not_lower key k r kvs lt s =
    absent_low key ((k, r) ∷ kvs) (lt, All-imp _ _ (λ x h. below_trans key k x lt h) kvs s.0)

sorted_unique :
    (xs ys : Pairs)
    → IsSorted xs
    → IsSorted ys
    → ((key : Bytes) → find_in key xs ≡ find_in key ys)
    → xs ≡ ys
unfolding find_in
sorted_unique [] [] sx sy h = refl
sorted_unique [] ((y, s) ∷ ys) sx sy h =
    absurd (let e : none ≡ some s = h y ∙ find_first y y s ys refl in cc)
sorted_unique ((x, r) ∷ xs) [] sx sy h =
    absurd (let e : some r ≡ none = sym (find_first x x r xs refl) ∙ h x in cc)
sorted_unique ((x, r) ∷ xs) ((y, s) ∷ ys) sx sy h = elim (Bool-cases (below x y)) [
  | inl lt ↦ absurd (
      let e : some r ≡ none = sym (find_first x x r xs refl) ∙ h x ∙ not_lower x y s ys lt sy in cc)
  | inr ge ↦ elim (Bool-cases (below y x)) [
    | inl gt ↦ absurd (
        let e : none ≡ some s = sym (not_lower y x r xs gt sx) ∙ h y ∙ find_first y y s ys refl in
        cc)
    | inr le ↦
        let same : x ≡ y = eq_of_below x y ge le in
        let value : some r ≡ some s =
          sym (find_first x x r xs refl) ∙ h x ∙ find_first x y s ys same in
        let rest : xs ≡ ys = sorted_unique xs ys sx.1 sy.1 (tails same) in cc
  ]
]
  where
    tails : x ≡ y → (key : Bytes) → find_in key xs ≡ find_in key ys
    tails same key = elim (Bool-cases (bytes_eq key x)) [
      | inl e ↦
          let kx = (bytes_eq_iff key x).0 e in
          ap (λ k. find_in k xs) kx
          ∙ absent_low x xs sx.0
          ∙ sym (ap (λ k. find_in k ys) (kx ∙ same) ∙ absent_low y ys sy.0)
      | inr e ↦ sym (find_later key x r xs e) ∙ h key ∙ find_later key y s ys (rw same at e)
    ]

pairs-IsSorted : (t : BpTree) (kvs : Pairs) → Models t kvs → IsSorted kvs
pairs-IsSorted t kvs (inl m) = rw m.2 tt
pairs-IsSorted t kvs (inr (s, h, e)) = rw (← e) (flatten-IsSorted none none s h.ordered).1

-- Two trees as calls of `Insert` leave them that `Find` cannot tell apart give the same result for
-- every `Range`, however they were built.
pub range_of_find :
    (t u : BpTree) (start end : Bytes)
    → IsTree t
    → IsTree u
    → ((key : Bytes) → find t.last_address t key ≡ find u.last_address u key)
    → range start end t ≡ range start end u
range_of_find t u start end i j h =
    let same : i.pairs ≡ j.pairs =
      sorted_unique i.pairs j.pairs (pairs-IsSorted t i.pairs i.models)
        (pairs-IsSorted u j.pairs j.models)
        (λ key.
          sym (find_refines t i.pairs key i.models)
          ∙ h key
          ∙ find_refines u j.pairs key j.models) in
    range_refines t i.pairs start end i.models
    ∙ ap
        (λ kvs. some (
          if below end start
          then err ScanError.start_key
          else get_record_wrapper (select (λ k. from start k && up_to end k) kvs)))
        same
    ∙ sym (range_refines u j.pairs start end j.models)
