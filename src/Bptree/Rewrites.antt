-- ===== src/Bptree/Rewrites.antt =====
-- What the tree holds after an update of one record, in its shape and in the memory.
use nutsdb.Prelude.{ℕ, ◌≡◌, ◌≢◌, refl, sym, ap, ◌∙◌, Option, some, ◌++◌, inl, inr, Bool-cases}
use nutsdb.Prelude.Words.{Bytes}
use nutsdb.Prelude.Compare.{below}
use nutsdb.Entries.{Entry, Hint}
use nutsdb.Records.{Record}
use nutsdb.Bptree.{Pairs, BpTree, leaf_node, inner_node, find_in, update_in}
use nutsdb.Bptree.Shapes.{
  Shape, leaf, inner, Branches, one, more, keys, addrs, In, InAny, IsApart, AreApart, Represents,
  RepresentsAll, flatten, flatten_all,
}
use nutsdb.Bptree.Ordered.{IsOrdered, AreOrdered, low_side}
use nutsdb.Bptree.Sorted.{find_in-below}
use nutsdb.Bptree.Memory.{Represents-Same, RepresentsAll-Same}
use nutsdb.Bptree.Inserts.{leaf_addr, leaf_addr_all, leaf_pairs, leaf_pairs_all, find_in-flatten}
use nutsdb.Bptree.Updates.{
  update, update_all, update_all-AllAlike, update_in-append_left, update_in-append_right,
}

mutual
  unfolding update flatten leaf_pairs

  flat_update :
      (key : Bytes) (e : Option Entry) (h : Hint) (lo hi : Option Bytes) (r : Record) (s : Shape)
      → IsOrdered lo hi s
      → find_in key (leaf_pairs key s) ≡ some r
      → flatten (update key e h s) ≡ update_in key e h (flatten s)
  flat_update key e h lo hi r (leaf p kvs) o f = refl
  flat_update key e h lo hi r (inner p bs) o f = flat_update_all key e h lo hi r bs o f

  flat_update_all :
      (key : Bytes) (e : Option Entry) (h : Hint) (lo hi : Option Bytes) (r : Record)
      (bs : Branches)
      → AreOrdered lo hi bs
      → find_in key (leaf_pairs_all key bs) ≡ some r
      → flatten_all (update_all key e h bs) ≡ update_in key e h (flatten_all bs)
  flat_update_all key e h lo hi r (one s) o f = flat_update key e h lo hi r s o f
  flat_update_all key e h lo hi r (more s k bs) o f = elim (Bool-cases (below key k)) [
    | inl x ↦
        let f' : find_in key (leaf_pairs key s) ≡ some r = rw x at f in
        rw x (
          ap (λ t. t ++ flatten_all bs) (flat_update key e h lo (some k) r s o.0 f')
          ∙ sym (
              update_in-append_left key e h (flatten s) (flatten_all bs) r
                (find_in-flatten key lo (some k) s o.0 ∙ f')))
    | inr x ↦
        let f' : find_in key (leaf_pairs_all key bs) ≡ some r = rw x at f in
        rw x (
          ap (λ t. flatten s ++ t) (flat_update_all key e h (some k) hi r bs o.2 f')
          ∙ sym (
              update_in-append_right key e h (flatten s) (flatten_all bs)
                (find_in-below key k (flatten s) x (low_side lo k s o.0))))
  ]

pub flatten-update :
    (key : Bytes) (e : Option Entry) (h : Hint) (lo hi : Option Bytes) (r : Record) (s : Shape)
    → IsOrdered lo hi s
    → find_in key (leaf_pairs key s) ≡ some r
    → flatten (update key e h s) ≡ update_in key e h (flatten s)
flatten-update key e h lo hi r s o f = flat_update key e h lo hi r s o f

mutual
  unfolding leaf_addr

  leaf_inside : (key : Bytes) (s : Shape) → In (leaf_addr key s) s
  leaf_inside key (leaf p kvs) = refl
  leaf_inside key (inner p bs) = inr (leaf_inside_all key bs)

  leaf_inside_all : (key : Bytes) (bs : Branches) → InAny (leaf_addr_all key bs) bs
  leaf_inside_all key (one s) = leaf_inside key s
  leaf_inside_all key (more s k bs) = elim (Bool-cases (below key k)) [
    | inl x ↦ rw x (inl (leaf_inside key s))
    | inr x ↦ rw x (inr (leaf_inside_all key bs))
  ]

pub leaf_addr-In : (key : Bytes) (s : Shape) → In (leaf_addr key s) s
leaf_addr-In key s = leaf_inside key s

-- `u` is `t` with the records of one leaf written anew.
pub record Rewritten (t u : BpTree) (q : ℕ) (kvs : Pairs) : Type 0 where
  pub here : u.content q ≡ leaf_node kvs
  pub content : (a : ℕ) → a ≢ q → u.content a ≡ t.content a
  pub parent : (a : ℕ) → u.parent a ≡ t.parent a

mutual
  unfolding update leaf_addr leaf_pairs

  rewritten :
      (t u : BpTree) (up : Option ℕ) (key : Bytes) (e : Option Entry) (h : Hint) (s : Shape)
      → IsApart s
      → Rewritten t u (leaf_addr key s) (update_in key e h (leaf_pairs key s))
      → Represents t up s
      → Represents u up (update key e h s)
  rewritten t u up key e h (leaf p kvs) d w r = (w.here, w.parent p ∙ r.1)
  rewritten t u up key e h (inner p bs) d w r =
      let b = update_all-AllAlike key e h bs in
      (
        w.content p (λ g. d.0 (rw g (leaf_inside_all key bs)))
            ∙ r.0
            ∙ sym (ap (λ ks. inner_node ks (addrs bs)) b.keys_eq)
            ∙ sym (ap (inner_node (keys (update_all key e h bs))) b.addrs_eq),
        w.parent p ∙ r.1,
        Rewritten-all t u (some p) key e h bs d.1 w r.2,
      )

  Rewritten-all :
      (t u : BpTree) (up : Option ℕ) (key : Bytes) (e : Option Entry) (h : Hint) (bs : Branches)
      → AreApart bs
      → Rewritten t u (leaf_addr_all key bs) (update_in key e h (leaf_pairs_all key bs))
      → RepresentsAll t up bs
      → RepresentsAll u up (update_all key e h bs)
  Rewritten-all t u up key e h (one s) d w r = rewritten t u up key e h s d w r
  Rewritten-all t u up key e h (more s k bs) d w r = elim (Bool-cases (below key k)) [
    | inl x ↦
        let w' : Rewritten t u (leaf_addr key s) (update_in key e h (leaf_pairs key s)) =
          rw x at w in
        rw x (
          rewritten t u up key e h s d.0 w' r.0,
          RepresentsAll-Same t u up bs
              (λ a i. (w'.content a (λ g. d.2 a (rw g (leaf_inside key s)) i), w'.parent a)) r.1,
        )
    | inr x ↦
        let w' : Rewritten t u (leaf_addr_all key bs) (update_in key e h (leaf_pairs_all key bs)) =
          rw x at w in
        rw x (
          Represents-Same t u up s
              (λ a i. (w'.content a (λ g. d.2 a i (rw g (leaf_inside_all key bs))), w'.parent a))
              r.0,
          Rewritten-all t u up key e h bs d.1 w' r.1,
        )
  ]

-- The memory after the write holds the updated shape.
pub Represents-update :
    (t u : BpTree) (up : Option ℕ) (key : Bytes) (e : Option Entry) (h : Hint) (s : Shape)
    → IsApart s
    → Rewritten t u (leaf_addr key s) (update_in key e h (leaf_pairs key s))
    → Represents t up s
    → Represents u up (update key e h s)
Represents-update t u up key e h s d w r = rewritten t u up key e h s d w r
