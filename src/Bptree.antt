-- ===== src/Bptree.antt =====
-- The part of bptree.go that works in memory. A node is named by its `Address`, and each field
-- that the code writes by itself is a map from addresses, kept in the tree. `Keys` and `pointers`
-- are lists of the `KeysNum` entries in use: a leaf pairs each key with its record, and an inner
-- node has one pointer more than keys.
pub mod Shapes
pub mod Sorted
pub mod Growth
pub mod Ordered
pub mod Addresses
pub mod Heights
pub mod Rooms
pub mod Memory
pub mod Runs
pub mod Climbs
pub mod Nodes
pub mod Inserts
pub mod Updates
pub mod Rewrites
pub mod Chains
pub mod Links
pub mod Models
pub mod Refines
pub mod Scans
pub mod Leaves
pub mod Walks
pub mod Ranges
pub mod Prefixes
pub mod Client
use nutsdb.Prelude.{
  ℕ, zero, suc, ◌+◌, ◌-◌, ◌/◌, ◌%◌, ◌==◌, Bool, true, false, ◌&&◌, not, Option, none, some, List,
  [], ◌∷◌, map, if◌then◌else◌, ltb, length, get_elem?, take, drop,
}
use nutsdb.Prelude.Words.{Bytes, bytes_eq}
use nutsdb.Prelude.Compare.{below}
use nutsdb.Entries.{Entry, Hint}
use nutsdb.Records.{Record, data_delete_flag}

abbrev pub order : ℕ
order = 8

-- `getBinaryNodeSize`: seven keys, nine pointers, two `uint16` with their padding, two addresses.
abbrev pub binary_node_size : ℕ
binary_node_size = 152

abbrev pub Pairs : Type 0
Pairs = List (Bytes × Record)

pub data Content : Type 0 where
  leaf_node : Pairs → Content
  inner_node : List Bytes → List ℕ → Content

-- `next` and `prev` are `pointers[order-1]` and `pointers[order]` of a leaf.
pub record BpTree : Type 0 where
  pub root : Option ℕ
  pub valid_key_count : ℕ
  pub first_key : Bytes
  pub last_key : Bytes
  pub last_address : ℕ
  pub content : ℕ → Content
  pub parent : ℕ → Option ℕ
  pub next : ℕ → Option ℕ
  pub prev : ℕ → Option ℕ

-- A write of one field of the node at an address.
unfoldable pub write {ℓ} : {A : Type ℓ} → (ℕ → A) → ℕ → A → ℕ → A
write f p a q = if q == p then a else f q

-- `NewTree`
unfoldable pub new_tree : BpTree
new_tree = record {
  root = none;
  valid_key_count = 0;
  first_key = [];
  last_key = [];
  last_address = 0;
  content = λ p. leaf_node [];
  parent = λ p. none;
  next = λ p. none;
  prev = λ p. none;
}

-- `newNode` and `newLeaf` with what the callers write into the new node: it stands at the old
-- `last_address`.
unfoldable pub alloc : Content → Option ℕ → BpTree → BpTree
unfolding write
alloc c up t = record t {
  last_address = t.last_address + binary_node_size;
  content = write t.content t.last_address c;
  parent = write t.parent t.last_address up;
  next = write t.next t.last_address none;
  prev = write t.prev t.last_address none;
}

-- The loop of `FindLeaf` over the keys of an inner node: the index of the first key above.
unfoldable pub child_index : Bytes → List Bytes → ℕ
child_index key [] = 0
child_index key (k ∷ ks) =
    let rest = child_index key ks in if not (below key k) then suc rest else 0

-- `FindLeaf` from a node; `none` when the fuel runs out or a pointer is missing.
unfoldable pub find_leaf_from : ℕ → BpTree → ℕ → Bytes → Option ℕ
find_leaf_from zero t p key = none
find_leaf_from (suc n) t p key = elim (t.content p) [
  | leaf_node kvs ↦ some p
  | inner_node ks cs ↦ elim (get_elem? cs (child_index key ks)) [
    | none ↦ none
    | some c ↦ find_leaf_from n t c key
  ]
]

abbrev pub pairs_of : Content → Pairs
pairs_of (leaf_node kvs) = kvs
pairs_of (inner_node ks cs) = []

-- The loop of `Find` over the keys of a leaf.
unfoldable pub find_in : Bytes → Pairs → Option Record
find_in key [] = none
find_in key ((k, r) ∷ kvs) = if bytes_eq key k then some r else find_in key kvs

-- `Find`, `none` for `ErrKeyNotFound`.
unfoldable pub find : ℕ → BpTree → Bytes → Option Record
find fuel t key = elim t.root [
  | none ↦ none
  | some p ↦ elim (find_leaf_from fuel t p key) [
    | none ↦ none
    | some q ↦ find_in key (pairs_of (t.content q))
  ]
]

-- `startNewTree`
unfoldable pub start_new_tree : Bytes → Record → BpTree → BpTree
start_new_tree key r t = record (alloc (leaf_node ((key, r) ∷ [])) none t) {
  root = some t.last_address;
}

unfoldable pub check_and_set_first_key : Bytes → BpTree → BpTree
check_and_set_first_key key t =
    if length t.first_key == 0
    then record t { first_key = key }
    else if below key t.first_key
    then record t { first_key = key }
    else t

unfoldable pub check_and_set_last_key : Bytes → BpTree → BpTree
check_and_set_last_key key t = if below t.last_key key then record t { last_key = key } else t

unfoldable pub get_split_index : ℕ → ℕ
get_split_index n = if n % 2 == 0 then n / 2 else n / 2 + 1

-- The insertion of a pair before the first key that is not below it: the loops of `insertIntoLeaf`,
-- and those of `splitLeaf` that fill `tmpKeys` and `tmpPointers`.
unfoldable pub insert_pair : Bytes → Record → Pairs → Pairs
insert_pair key r [] = (key, r) ∷ []
insert_pair key r ((k, s) ∷ kvs) =
    let rest = insert_pair key r kvs in
    if below k key then (k, s) ∷ rest else (key, r) ∷ (k, s) ∷ kvs

-- The insertion at an index, which shifts what stands there and after it.
unfoldable pub insert_at {ℓ} : {A : Type ℓ} → ℕ → A → List A → List A
insert_at zero a xs = a ∷ xs
insert_at (suc i) a [] = a ∷ []
insert_at (suc i) a (x ∷ xs) = x ∷ insert_at i a xs

-- `insertIntoLeaf`
unfoldable pub insert_into_leaf : ℕ → Pairs → Bytes → Record → BpTree → BpTree
unfolding write
insert_into_leaf p kvs key r t = record t {
  content = write t.content p (leaf_node (insert_pair key r kvs));
}

-- `insertIntoNewRoot`
unfoldable pub insert_into_new_root : ℕ → Bytes → ℕ → BpTree → BpTree
unfolding write
insert_into_new_root left key right t =
    let made = alloc (inner_node (key ∷ []) (left ∷ right ∷ [])) none t in
    record made {
      root = some t.last_address;
      parent = write (write made.parent left (some t.last_address)) right (some t.last_address);
    }

-- `insertIntoNode`
unfoldable pub insert_into_node : ℕ → List Bytes → List ℕ → ℕ → Bytes → ℕ → BpTree → BpTree
unfolding write
insert_into_node p ks cs i key right t = record t {
  content = write t.content p (inner_node (insert_at i key ks) (insert_at (suc i) right cs));
}

-- The loop that sets the parent of every child.
unfoldable pub set_parents : List ℕ → ℕ → (ℕ → Option ℕ) → ℕ → Option ℕ
set_parents [] p f = f
set_parents (c ∷ cs) p f = set_parents cs p (write f c (some p))

-- `splitParent` up to its call of `insertIntoParent`, from the keys and the pointers with the new
-- ones among them.
unfoldable pub split_node : ℕ → List Bytes → List ℕ → BpTree → BpTree
unfolding write set_parents get_split_index
split_node p keys pointers t =
    let at = get_split_index 7 in
    let cut = record t {
      content = write t.content p (inner_node (take at keys) (take (suc at) pointers));
    } in
    let children = drop (suc at) pointers in
    let made = alloc (inner_node (drop (suc at) keys) children) (t.parent p) cut in
    record made { parent = set_parents children t.last_address made.parent }

-- `newKey := tmpKeys[splitIndex]`
unfoldable pub split_key : List Bytes → Bytes
unfolding get_split_index
split_key keys = elim (get_elem? keys (get_split_index 7)) [ none ↦ [] | some k ↦ k ]

-- The search for `left` among the pointers of its parent.
unfoldable pub left_index : ℕ → List ℕ → ℕ
left_index left [] = 0
left_index left (c ∷ cs) = let rest = left_index left cs in if left == c then 0 else suc rest

-- `insertIntoParent` with the `splitParent` that it calls and that calls it.
unfoldable pub insert_into_parent : ℕ → BpTree → ℕ → Bytes → ℕ → Option BpTree
unfolding split_node split_key
insert_into_parent zero t left key right = none
insert_into_parent (suc n) t left key right = elim (t.parent left) [
  | none ↦ some (insert_into_new_root left key right t)
  | some p ↦ elim (t.content p) [
    | leaf_node kvs ↦ none
    | inner_node ks cs ↦
        let i = left_index left cs in
        let keys = insert_at i key ks in
        let up =
          insert_into_parent n (split_node p keys (insert_at (suc i) right cs) t) p (split_key keys)
            t.last_address in
        if ltb (length ks) 7 then some (insert_into_node p ks cs i key right t) else up
  ]
]

-- The links of `splitLeaf`: the new leaf stands between the leaf and the one after it.
unfoldable pub link_leaf : ℕ → ℕ → BpTree → BpTree
unfolding write
link_leaf p fresh t = record t {
  next = write (write t.next fresh (t.next p)) p (some fresh);
  prev =
      write (elim (t.next p) [ none ↦ t.prev | some q ↦ write t.prev q (some fresh) ]) fresh
        (some p);
}

abbrev pub key_at : Pairs → Bytes
key_at [] = []
key_at ((k, r) ∷ kvs) = k

-- `splitLeaf`
unfoldable pub split_leaf : ℕ → ℕ → Pairs → Bytes → Record → BpTree → Option BpTree
unfolding write link_leaf get_split_index
split_leaf fuel p kvs key r t =
    let tmp = insert_pair key r kvs in
    let at = get_split_index order in
    let cut = record t { content = write t.content p (leaf_node (take at tmp)) } in
    let made = alloc (leaf_node (drop at tmp)) (t.parent p) cut in
    insert_into_parent fuel (link_leaf p t.last_address made) p (key_at (drop at tmp))
      t.last_address

-- The end of `Insert`, at the leaf that `FindLeaf` returned.
unfoldable pub insert_at_leaf : ℕ → ℕ → Bytes → Record → BpTree → Option BpTree
insert_at_leaf fuel p key r t =
    let kvs = pairs_of (t.content p) in
    if ltb (length kvs) 7
    then some (insert_into_leaf p kvs key r t)
    else split_leaf fuel p kvs key r t

-- `r.UpdateRecord`, through the pointer that the leaf holds.
unfoldable pub update_in : Bytes → Option Entry → Hint → Pairs → Pairs
update_in key e h [] = []
update_in key e h ((k, r) ∷ kvs) =
    let rest = update_in key e h kvs in
    if bytes_eq key k then (k, record r { entry = e; hint = some h }) ∷ kvs else (k, r) ∷ rest

unfoldable pub update_record : ℕ → BpTree → Bytes → Option Entry → Hint → Option BpTree
unfolding write
update_record fuel t key e h = elim t.root [
  | none ↦ none
  | some p ↦ elim (find_leaf_from fuel t p key) [
    | none ↦ none
    | some q ↦ some (record t {
      content = write t.content q (leaf_node (update_in key e h (pairs_of (t.content q))));
    })
  ]
]

-- The two counters of `Insert` for a key that is there, by the flags of the new hint and the old.
unfoldable pub recount : Bool → ℕ → ℕ → ℕ → ℕ
recount count_flag new old n =
    let once =
      if count_flag && (new == data_delete_flag && (not (old == data_delete_flag) && ltb 0 n))
      then n - 1
      else n in
    if count_flag && (not (new == data_delete_flag) && old == data_delete_flag)
    then once + 1
    else once

-- `Insert` for the record that `Find` returned. A record without its hint is read only with the
-- count flag, and then panics.
unfoldable pub update_counted : Bytes → Option Entry → Hint → Bool → Record → BpTree → Option BpTree
unfolding recount
update_counted key e h count_flag r t = elim r.hint [
  | none ↦ if count_flag then none else update_record t.last_address t key e h
  | some old ↦
      update_record t.last_address
        (record t {
          valid_key_count = recount count_flag h.meta.flag old.meta.flag t.valid_key_count;
        })
        key e h
]

-- `Insert` for a key that is not there.
unfoldable pub insert_new : Bytes → Record → BpTree → Option BpTree
insert_new key r t =
    let counted = record t { valid_key_count = t.valid_key_count + 1 } in
    elim t.root [
      | none ↦ some (start_new_tree key r counted)
      | some p ↦ elim (find_leaf_from t.last_address counted p key) [
        | none ↦ none
        | some q ↦ insert_at_leaf t.last_address q key r counted
      ]
    ]

abbrev pub new_record : Option Entry → Hint → Record
new_record e h = record { hint = some h; entry = e; bucket = [] }

-- `Insert`. The address of the next node bounds the number of nodes, so it serves as fuel.
unfoldable pub insert : Bytes → Option Entry → Hint → Bool → BpTree → Option BpTree
unfolding check_and_set_first_key check_and_set_last_key
insert key e h count_flag t =
    let ends = check_and_set_last_key key (check_and_set_first_key key t) in
    elim (find t.last_address ends key) [
      | some r ↦ update_counted key e h count_flag r ends
      | none ↦ insert_new key (new_record e h) ends
    ]
