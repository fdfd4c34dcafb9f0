-- ===== src/Bptree/Refines.antt =====
-- `Insert` as a whole, on the list that the tree stands for.
use nutsdb.Prelude.{
  ℕ, ◌+◌, ◌≡◌, refl, sym, ap, ◌∙◌, Bool, Option, none, some, [], ◌∷◌, ◌==◌, inl, inr, if◌then◌else◌,
  length, arith, Bool-cases, Option-cases,
}
use nutsdb.Prelude.Words.{Bytes, bytes_eq, bytes_eq_iff}
use nutsdb.Prelude.Compare.{below}
use nutsdb.Entries.{Entry, Hint}
use nutsdb.Records.{Record}
use nutsdb.Bptree.{
  Pairs, BpTree, leaf_node, write, insert_pair, find_leaf_from, find_in, find, pairs_of,
  start_new_tree, insert_at_leaf, update_in, update_record, update_counted, insert_new, insert,
  new_record, recount, check_and_set_first_key, check_and_set_last_key,
}
use nutsdb.Bptree.Shapes.{Shape, addr, leaf_addrs}
use nutsdb.Bptree.Links.{Linked-same}
use nutsdb.Bptree.Memory.{Same, write_self, write_other, Represents-Same}
use nutsdb.Bptree.Inserts.{leaf_addr, leaf_pairs, content-leaf_addr, find_in-flatten}
use nutsdb.Bptree.Updates.{updated, update, update-Alike, find_in-update_in}
use nutsdb.Bptree.Sorted.{find_in-insert_pair}
use nutsdb.Bptree.Rewrites.{Represents-update, flatten-update}
use nutsdb.Bptree.Models.{Holds, Models, found_leaf, start_holds, new-Models, find_refines}

abbrev upsert_found : Bytes → Option Entry → Hint → Option Record → Pairs → Pairs
upsert_found key e h none kvs = insert_pair key (new_record e h) kvs
upsert_found key e h (some r) kvs = update_in key e h kvs

-- What `Insert` makes of the list.
abbrev pub upsert : Bytes → Option Entry → Hint → Pairs → Pairs
upsert key e h kvs = upsert_found key e h (find_in key kvs) kvs

-- The counters and the two end keys stand beside the nodes.
record Beside (t u : BpTree) : Type 0 where
  root : u.root ≡ t.root
  last : u.last_address ≡ t.last_address
  same : (a : ℕ) → Same t u a
  next : (a : ℕ) → u.next a ≡ t.next a

Beside-Holds : (t u : BpTree) (s : Shape) → Beside t u → Holds t s → Holds u s
Beside-Holds t u s b h = record {
  root = b.root ∙ h.root;
  memory = Represents-Same t u none s (λ a i. b.same a) h.memory;
  apart = h.apart;
  under = λ a i. rw b.last (h.under a i);
  fits = h.fits;
  height = h.height;
  balanced = h.balanced;
  ordered = h.ordered;
  counted = h.counted ∙ sym b.last;
  linked = Linked-same t.next u.next (leaf_addrs s) (λ a i. b.next a) h.linked;
}

Beside-Models : (t u : BpTree) (kvs : Pairs) → Beside t u → Models t kvs → Models u kvs
Beside-Models t u kvs b (inl m) = inl (b.root ∙ m.0, b.last ∙ m.1, m.2)
Beside-Models t u kvs b (inr (s, h, e)) = inr (s, Beside-Holds t u s b h, e)

start_run :
    (key : Bytes) (r : Record) (t : BpTree)
    → t.root ≡ none
    → insert_new key r t
      ≡ some (start_new_tree key r (record t { valid_key_count = t.valid_key_count + 1 }))
unfolding insert_new
start_run key r t e =
    let counted = record t { valid_key_count = t.valid_key_count + 1 } in
    ap
      (λ o. elim o [
        | none ↦ some (start_new_tree key r counted)
        | some p ↦ elim (find_leaf_from t.last_address counted p key) [
          | none ↦ none
          | some q ↦ insert_at_leaf t.last_address q key r counted
        ]
      ])
      e

new_run :
    (key : Bytes) (r : Record) (t : BpTree) (p q : ℕ)
    → t.root ≡ some p
    → find_leaf_from t.last_address (record t { valid_key_count = t.valid_key_count + 1 }) p key
      ≡ some q
    → insert_new key r t
      ≡ insert_at_leaf t.last_address q key r (record t { valid_key_count = t.valid_key_count + 1 })
unfolding insert_new
new_run key r t p q e l =
    let counted = record t { valid_key_count = t.valid_key_count + 1 } in
    ap
      (λ o. elim o [
        | none ↦ some (start_new_tree key r counted)
        | some p ↦ elim (find_leaf_from t.last_address counted p key) [
          | none ↦ none
          | some q ↦ insert_at_leaf t.last_address q key r counted
        ]
      ])
      e
    ∙ ap (λ o. elim o [ none ↦ none | some q ↦ insert_at_leaf t.last_address q key r counted ]) l

-- A key that is not there.
insert_new_refines :
    (key : Bytes) (r : Record) (t : BpTree) (kvs : Pairs)
    → Models t kvs
    → find_in key kvs ≡ none
    → (u : BpTree) × (insert_new key r t ≡ some u) × Models u (insert_pair key r kvs)
unfolding insert_pair
insert_new_refines key r t kvs (inl m) n =
    let counted = record t { valid_key_count = t.valid_key_count + 1 } in
    (start_new_tree key r counted, start_run key r t m.0, rw m.2 (start_holds key r counted m.1))
insert_new_refines key r t kvs (inr (s, h, e)) n =
    let counted = record t { valid_key_count = t.valid_key_count + 1 } in
    let h' : Holds counted s =
      Beside-Holds t counted s
        (record { root = refl; last = refl; same = λ a. (refl, refl); next = λ a. refl }) h in
    let (u, run, m) = new-Models counted s key r h' (ap (find_in key) e ∙ n) in
    (
      u,
      new_run key r t (addr s) (leaf_addr key s) h.root (found_leaf counted s key h') ∙ run,
      rw (← e) m,
    )

update_run :
    (n : ℕ) (t : BpTree) (key : Bytes) (e : Option Entry) (h : Hint) (p q : ℕ) (kvs : Pairs)
    → t.root ≡ some p
    → find_leaf_from n t p key ≡ some q
    → t.content q ≡ leaf_node kvs
    → update_record n t key e h
      ≡ some (record t { content = write t.content q (leaf_node (update_in key e h kvs)) })
unfolding update_record
update_run n t key e h p q kvs r l c =
    let wrote : ℕ → Pairs → Option BpTree =
      λ a xs. some (record t { content = write t.content a (leaf_node (update_in key e h xs)) }) in
    ap
      (λ o. elim o [
        | none ↦ none
        | some p ↦ elim (find_leaf_from n t p key) [
          | none ↦ none
          | some a ↦ wrote a (pairs_of (t.content a))
        ]
      ])
      r
    ∙ ap (λ o. elim o [ none ↦ none | some a ↦ wrote a (pairs_of (t.content a)) ]) l
    ∙ ap (λ x. wrote q (pairs_of x)) c

-- A key that is there.
update_refines :
    (key : Bytes) (e : Option Entry) (h : Hint) (t : BpTree) (kvs : Pairs) (r : Record)
    → Models t kvs
    → find_in key kvs ≡ some r
    → (u : BpTree) × (update_record t.last_address t key e h ≡ some u)
      × Models u (update_in key e h kvs)
unfolding find_in
update_refines key e h t kvs r (inl m) f =
    let g : none ≡ some r = ap (find_in key) (sym m.2) ∙ f in absurd (cc)
update_refines key e h t kvs r (inr (s, holds, eq)) f =
    let q = leaf_addr key s in
    let old = leaf_pairs key s in
    let new = leaf_node (update_in key e h old) in
    let u = record t { content = write t.content q new } in
    let here : find_in key old ≡ some r =
      sym (find_in-flatten key none none s holds.ordered) ∙ ap (find_in key) eq ∙ f in
    let a = update-Alike key e h s in
    (
      u,
      update_run t.last_address t key e h (addr s) q old holds.root (found_leaf t s key holds)
          (content-leaf_addr t none key s holds.memory),
      inr (
        update key e h s,
        record {
          root = holds.root ∙ ap (λ (x : ℕ). some x) (sym a.addr_eq);
          memory =
              Represents-update t u none key e h s holds.apart
                (record {
                  here = write_self t.content q new;
                  content = λ x n. write_other t.content q x new n;
                  parent = λ x. refl;
                })
                holds.memory;
          apart = a.apart holds.apart;
          under = λ x i. holds.under x (a.inside x i);
          fits = a.fits holds.fits;
          height = holds.height;
          balanced = a.height holds.height holds.balanced;
          ordered = a.ordered none none holds.ordered;
          counted = rw a.size_eq holds.counted;
          linked = rw a.leaves_eq holds.linked;
        },
        flatten-update key e h none none r s holds.ordered here ∙ ap (update_in key e h) eq,
      ),
    )

-- Every record of the list has its hint.
abbrev pub Hinted : Pairs → Type 0
Hinted [] = Unit
Hinted ((k, r) ∷ kvs) = ((h : Hint) × (r.hint ≡ some h)) × Hinted kvs

find_in-Hinted :
    (key : Bytes) (kvs : Pairs) (r : Record)
    → Hinted kvs
    → find_in key kvs ≡ some r
    → (h : Hint) × (r.hint ≡ some h)
unfolding find_in
find_in-Hinted key [] r a f = absurd (cc)
find_in-Hinted key ((k, s) ∷ kvs) r a f = elim (Bool-cases (bytes_eq key k)) [
  | inl same ↦
      let e : some s ≡ some r = rw same at f in (a.0.0, (let g : s ≡ r = cc in rw (← g) a.0.1))
  | inr other ↦ find_in-Hinted key kvs r a.1 (rw other at f)
]

insert_pair-Hinted :
    (key : Bytes) (r : Record) (h : Hint) (kvs : Pairs)
    → r.hint ≡ some h
    → Hinted kvs
    → Hinted (insert_pair key r kvs)
unfolding insert_pair
insert_pair-Hinted key r h [] e a = ((h, e), tt)
insert_pair-Hinted key r h ((k, s) ∷ kvs) e a = elim (Bool-cases (below k key)) [
  | inl x ↦ rw x (a.0, insert_pair-Hinted key r h kvs e a.1)
  | inr x ↦ rw x ((h, e), a)
]

update_in-Hinted :
    (key : Bytes) (e : Option Entry) (h : Hint) (kvs : Pairs)
    → Hinted kvs
    → Hinted (update_in key e h kvs)
unfolding update_in
update_in-Hinted key e h [] a = tt
update_in-Hinted key e h ((k, s) ∷ kvs) a = elim (Bool-cases (bytes_eq key k)) [
  | inl x ↦ rw x ((h, refl), a.1)
  | inr x ↦ rw x (a.0, update_in-Hinted key e h kvs a.1)
]

pub upsert-Hinted :
    (key : Bytes) (e : Option Entry) (h : Hint) (kvs : Pairs)
    → Hinted kvs
    → Hinted (upsert key e h kvs)
upsert-Hinted key e h kvs a = elim (Option-cases (find_in key kvs)) [
  | inl n ↦ rw n (insert_pair-Hinted key (new_record e h) h kvs refl a)
  | inr (r, f) ↦ rw f (update_in-Hinted key e h kvs a)
]

Beside-refl : (t : BpTree) → Beside t t
Beside-refl t = record { root = refl; last = refl; same = λ a. (refl, refl); next = λ a. refl }

-- The two end keys, which leave the nodes as they are.
first-Beside : (key : Bytes) (t : BpTree) → Beside t (check_and_set_first_key key t)
unfolding check_and_set_first_key
first-Beside key t = elim (Bool-cases (length t.first_key == 0)) [
  | inl x ↦ rw x (record { root = refl; last = refl; same = λ a. (refl, refl); next = λ a. refl })
  | inr x ↦ elim (Bool-cases (below key t.first_key)) [
    | inl y ↦
        rw (x, y) (record { root = refl; last = refl; same = λ a. (refl, refl); next = λ a. refl })
    | inr y ↦ rw (x, y) (Beside-refl t)
  ]
]

last-Beside : (key : Bytes) (t : BpTree) → Beside t (check_and_set_last_key key t)
unfolding check_and_set_last_key
last-Beside key t = elim (Bool-cases (below t.last_key key)) [
  | inl x ↦ rw x (record { root = refl; last = refl; same = λ a. (refl, refl); next = λ a. refl })
  | inr x ↦ rw x (Beside-refl t)
]

abbrev ends : Bytes → BpTree → BpTree
ends key t = check_and_set_last_key key (check_and_set_first_key key t)

ends-Models : (key : Bytes) (t : BpTree) (kvs : Pairs) → Models t kvs → Models (ends key t) kvs
ends-Models key t kvs m =
    let first = check_and_set_first_key key t in
    Beside-Models first (ends key t) kvs (last-Beside key first)
      (Beside-Models t first kvs (first-Beside key t) m)

ends_last : (key : Bytes) (t : BpTree) → (ends key t).last_address ≡ t.last_address
ends_last key t =
    let first = check_and_set_first_key key t in
    (last-Beside key first).last ∙ (first-Beside key t).last

insert_run :
    (key : Bytes) (e : Option Entry) (h : Hint) (flag : Bool) (t : BpTree) (o : Option Record)
    → find t.last_address (ends key t) key ≡ o
    → insert key e h flag t ≡ elim o [
      | some r ↦ update_counted key e h flag r (ends key t)
      | none ↦ insert_new key (new_record e h) (ends key t)
    ]
unfolding insert
insert_run key e h flag t o f =
    ap
      (λ o. elim o [
        | some r ↦ update_counted key e h flag r (ends key t)
        | none ↦ insert_new key (new_record e h) (ends key t)
      ])
      f

update_counted_run :
    (key : Bytes) (e : Option Entry) (h old : Hint) (flag : Bool) (r : Record) (t : BpTree)
    → r.hint ≡ some old
    → update_counted key e h flag r t
      ≡ update_record t.last_address
          (record t { valid_key_count = recount flag h.meta.flag old.meta.flag t.valid_key_count })
          key
          e
          h
unfolding update_counted
update_counted_run key e h old flag r t x =
    ap
      (λ o. elim o [
        | none ↦ if flag then none else update_record t.last_address t key e h
        | some old ↦
            update_record t.last_address
              (record t {
                valid_key_count = recount flag h.meta.flag old.meta.flag t.valid_key_count;
              })
              key e h
      ])
      x

-- `Insert` on a tree whose nodes make up a balanced tree, no node too full, with keys in order,
-- each node's parent, no two nodes at one address and each leaf pointing to the next, and that
-- stands for a list whose records have their hints, succeeds and leaves such a tree, which stands
-- for the list with the key inserted at its place or its record updated.
pub insert_refines :
    (key : Bytes) (e : Option Entry) (h : Hint) (flag : Bool) (t : BpTree) (kvs : Pairs)
    → Models t kvs
    → Hinted kvs
    → (u : BpTree) × (insert key e h flag t ≡ some u) × Models u (upsert key e h kvs)
insert_refines key e h flag t kvs m hinted =
    let t' = ends key t in
    let m' = ends-Models key t kvs m in
    let read : find t.last_address t' key ≡ find_in key kvs =
      ap (λ (n : ℕ). find n t' key) (sym (ends_last key t)) ∙ find_refines t' kvs key m' in
    elim (Option-cases (find_in key kvs)) [
      | inl n ↦
          let (u, run, after) = insert_new_refines key (new_record e h) t' kvs m' n in
          (u, insert_run key e h flag t none (read ∙ n) ∙ run, rw n after)
      | inr (r, f) ↦
          let (old, hint) = find_in-Hinted key kvs r hinted f in
          let counted = record t' {
            valid_key_count = recount flag h.meta.flag old.meta.flag t'.valid_key_count;
          } in
          let mc : Models counted kvs =
            Beside-Models t' counted kvs
              (record { root = refl; last = refl; same = λ a. (refl, refl); next = λ a. refl })
              m' in
          let (u, run, after) = update_refines key e h counted kvs r mc f in
          (
            u,
            insert_run key e h flag t (some r) (read ∙ f)
                ∙ update_counted_run key e h old flag r t' hint
                ∙ run,
            rw f after,
          )
    ]

-- What the list holds of a key after `upsert`.
pub find_in-upsert :
    (key other : Bytes) (e : Option Entry) (h : Hint) (kvs : Pairs)
    → find_in other (upsert key e h kvs) ≡ (
        if bytes_eq other key
        then elim (find_in key kvs) [ none ↦ some (new_record e h) | some r ↦ some (updated e h r) ]
        else find_in other kvs)
find_in-upsert key other e h kvs = elim (Option-cases (find_in key kvs)) [
  | inl n ↦ rw n (find_in-insert_pair key other (new_record e h) kvs n)
  | inr (r, f) ↦
      rw f (find_in-update_in key e h other kvs ∙ ground (arith, bytes_eq_iff other key, f))
]
