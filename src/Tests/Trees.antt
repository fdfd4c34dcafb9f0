-- ===== src/Tests/Trees.antt =====
-- The B+ tree of bptree.go with a split leaf.
use nutsdb.Prelude.{
  ℕ, ◌≡◌, refl, sym, ◌∙◌, Bool, true, ◌&&◌, Option, none, some, List, [], ◌∷◌, if◌then◌else◌,
  length, take, drop, err, inl, inr, Bool-cases,
}
use nutsdb.Prelude.Words.{Bytes, bytes_eq, bytes_eq_iff}
use nutsdb.Prelude.Compare.{below}
use nutsdb.Entries.{Hint}
use nutsdb.Tests.Codec.{a_meta}
use nutsdb.Bptree.{BpTree, start_new_tree, new_record, find, insert, new_tree}
use nutsdb.Bptree.Models.{Models, start_holds}
use nutsdb.Bptree.Refines.{upsert, insert_refines}
use nutsdb.Bptree.Scans.{ScanError, range, prefix_scan, prefix_search_scan, get_record_wrapper}
use nutsdb.Bptree.Ranges.{select, from, up_to, range_refines}
use nutsdb.Bptree.Prefixes.{
  with_prefix, matching, limited, prefix_scan_refines, prefix_search_scan_refines,
}
use nutsdb.Bptree.Client.{
  IsTree, Call, written, insert_all, replay, find-insert, insert_all_refines, range_of_find,
}

abbrev a_hint : ℕ → Hint
a_hint n = record { key = n ∷ []; file_id = 0; meta = a_meta 1; data_pos = n }

abbrev call : ℕ → Call
call n = record { key = n ∷ 1 ∷ []; entry = none; hint = a_hint n; count_flag = true }

-- Ten keys in a mixed order: the leaf is split, and one key is written twice.
abbrev calls : List Call
calls =
    call 5
    ∷ call 3
    ∷ call 8
    ∷ call 1
    ∷ call 9
    ∷ call 2
    ∷ call 7
    ∷ call 4
    ∷ call 6
    ∷ call 0
    ∷ call 3
    ∷ []

abbrev two_calls : List Call
two_calls = call 1 ∷ call 2 ∷ []

abbrev other_calls : List Call
other_calls = call 2 ∷ call 1 ∷ []

abbrev tree : BpTree
tree = (insert_all_refines calls).0

abbrev small : BpTree
small = (insert_all_refines two_calls).0

abbrev other : BpTree
other = (insert_all_refines other_calls).0

tree-IsTree : IsTree tree
tree-IsTree = (insert_all_refines calls).2

same_replay :
    (key : Bytes) → replay two_calls (λ other. none) key ≡ replay other_calls (λ other. none) key
unfolding replay bytes_eq
same_replay key = elim (Bool-cases (bytes_eq key (1 ∷ 1 ∷ []))) [
  | inl one ↦ let e = (bytes_eq_iff key (1 ∷ 1 ∷ [])).0 one in rw e refl
  | inr not_one ↦ rw not_one refl
]

alike : (key : Bytes) → find small.last_address small key ≡ find other.last_address other key
alike key =
    (insert_all_refines two_calls).3 key
    ∙ same_replay key
    ∙ sym ((insert_all_refines other_calls).3 key)

insert_all_refines_example :
    (t : BpTree) × (insert_all calls new_tree ≡ some t)
    × IsTree t
    × ((key : Bytes) → find t.last_address t key ≡ replay calls (λ other. none) key)
insert_all_refines_example = insert_all_refines calls

find-insert_example :
    (u : BpTree) × (insert (7 ∷ 1 ∷ []) none (a_hint 12) true tree ≡ some u)
    × IsTree u
    × ((other : Bytes)
        → find u.last_address u other ≡ (
            if bytes_eq other (7 ∷ 1 ∷ [])
            then some (written none (a_hint 12) (find tree.last_address tree (7 ∷ 1 ∷ [])))
            else find tree.last_address tree other))
find-insert_example = find-insert (7 ∷ 1 ∷ []) none (a_hint 12) true tree tree-IsTree

insert_refines_example :
    (u : BpTree) × (insert (7 ∷ 0 ∷ []) none (a_hint 12) true tree ≡ some u)
    × Models u (upsert (7 ∷ 0 ∷ []) none (a_hint 12) tree-IsTree.pairs)
insert_refines_example =
    insert_refines (7 ∷ 0 ∷ []) none (a_hint 12) true tree tree-IsTree.pairs tree-IsTree.models
      tree-IsTree.hinted

range_refines_example :
    range (2 ∷ []) (6 ∷ []) tree
    ≡ some (
        if below (6 ∷ []) (2 ∷ [])
        then err ScanError.start_key
        else get_record_wrapper
            (select (λ k. from (2 ∷ []) k && up_to (6 ∷ []) k) tree-IsTree.pairs))
range_refines_example = range_refines tree tree-IsTree.pairs (2 ∷ []) (6 ∷ []) tree-IsTree.models

-- A tree of one leaf, for the scans.
abbrev one_tree : BpTree
one_tree = start_new_tree (7 ∷ 1 ∷ []) (new_record none (a_hint 7)) new_tree

one_tree-Models : Models one_tree ((7 ∷ 1 ∷ [], new_record none (a_hint 7)) ∷ [])
unfolding new_tree
one_tree-Models = start_holds (7 ∷ 1 ∷ []) (new_record none (a_hint 7)) new_tree refl

one_tree_root : one_tree.root ≡ some 0
unfolding start_new_tree new_tree
one_tree_root = refl

-- An expression that matches what ends in 1.
abbrev compile : Bytes → Option (Bytes → Bool)
compile reg = some (λ k. bytes_eq k (1 ∷ []))

prefix_scan_refines_example :
    prefix_scan (7 ∷ []) 0 1 one_tree
    ≡ some (
      get_record_wrapper (
          limited 1 (
            drop 0
              (select (with_prefix (7 ∷ [])) ((7 ∷ 1 ∷ [], new_record none (a_hint 7)) ∷ [])))),
      length
          (take 0 (select (with_prefix (7 ∷ [])) ((7 ∷ 1 ∷ [], new_record none (a_hint 7)) ∷ []))),
    )
prefix_scan_refines_example =
    prefix_scan_refines one_tree ((7 ∷ 1 ∷ [], new_record none (a_hint 7)) ∷ []) (7 ∷ []) 0 1 0
      one_tree-Models one_tree_root

prefix_search_scan_refines_example :
    prefix_search_scan compile (7 ∷ []) [] 0 1 one_tree
    ≡ some (
      get_record_wrapper (
          limited 1 (
            select (matching (λ k. bytes_eq k (1 ∷ [])) (7 ∷ [])) (
              drop 0
                (select (with_prefix (7 ∷ [])) ((7 ∷ 1 ∷ [], new_record none (a_hint 7)) ∷ []))))),
      length
          (take 0 (select (with_prefix (7 ∷ [])) ((7 ∷ 1 ∷ [], new_record none (a_hint 7)) ∷ []))),
    )
prefix_search_scan_refines_example =
    prefix_search_scan_refines compile [] (λ k. bytes_eq k (1 ∷ [])) one_tree
      ((7 ∷ 1 ∷ [], new_record none (a_hint 7)) ∷ []) (7 ∷ []) 0 1 0 one_tree-Models one_tree_root
      refl

range_of_find_example : range (1 ∷ []) (3 ∷ []) small ≡ range (1 ∷ []) (3 ∷ []) other
range_of_find_example =
    range_of_find small other (1 ∷ []) (3 ∷ []) (insert_all_refines two_calls).2
      (insert_all_refines other_calls).2 alike
