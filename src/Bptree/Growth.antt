-- ===== src/Bptree/Growth.antt =====
-- What an insertion makes of the tree, as a function on its shape: a node that stays one, or two
-- with the key between them.
use nutsdb.Prelude.{ℕ, zero, suc, ◌+◌, ltb, length, take, drop, if◌then◌else◌}
use nutsdb.Prelude.Words.{Bytes}
use nutsdb.Prelude.Compare.{below}
use nutsdb.Records.{Record}
use nutsdb.Bptree.{Pairs, insert_pair, key_at, binary_node_size}
use nutsdb.Bptree.Shapes.{Shape, leaf, inner, Branches, one, more, keys}

pub data Growth : Type 0 where
  done : Shape → Growth
  split : Shape → Bytes → Shape → Growth

pub data Cut : Type 0 where
  whole : Branches → Cut
  parts : Branches → Bytes → Branches → Cut

abbrev pub put_before : Shape → Bytes → Cut → Cut
put_before s k (whole bs) = whole (more s k bs)
put_before s k (parts l m r) = parts (more s k l) m r

-- The branches parted at the key of an index.
unfoldable pub cut : ℕ → Branches → Cut
cut i (one s) = whole (one s)
cut zero (more s k bs) = parts (one s) k bs
cut (suc i) (more s k bs) = put_before s k (cut i bs)

abbrev pub halve : ℕ → ℕ → Cut → Growth
halve fresh p (whole bs) = done (inner p bs)
halve fresh p (parts l k r) = split (inner p l) k (inner fresh r)

-- An inner node with its new branches, which may be one too many.
unfoldable pub grown_node : ℕ → ℕ → Branches → Growth
unfolding cut
grown_node fresh p bs =
    if ltb (length (keys bs)) 8 then done (inner p bs) else halve fresh p (cut 4 bs)

abbrev pub next_fresh : ℕ → Growth → ℕ
next_fresh fresh (done s) = fresh
next_fresh fresh (split l k r) = fresh + binary_node_size

unfoldable pub grown_leaf : ℕ → ℕ → Pairs → Growth
grown_leaf fresh p kvs =
    if ltb (length kvs) 8
    then done (leaf p kvs)
    else split (leaf p (take 4 kvs)) (key_at (drop 4 kvs)) (leaf fresh (drop 4 kvs))

abbrev pub as_branches : Growth → Branches
as_branches (done s) = one s
as_branches (split l k r) = more l k (one r)

abbrev pub before_branches : Growth → Bytes → Branches → Branches
before_branches (done s) k bs = more s k bs
before_branches (split l m r) k bs = more l m (more r k bs)

-- The growth beside the next address after it.
unfoldable mutual
  unfolding grown_leaf grown_node

  pub grow : ℕ → Bytes → Record → Shape → Growth × ℕ
  grow fresh key r (leaf p kvs) =
      let g = grown_leaf fresh p (insert_pair key r kvs) in (g, next_fresh fresh g)
  grow fresh key r (inner p bs) =
      let inside = grow_all fresh key r bs in
      let g = grown_node inside.1 p inside.0 in (g, next_fresh inside.1 g)

  pub grow_all : ℕ → Bytes → Record → Branches → Branches × ℕ
  grow_all fresh key r (one s) = let g = grow fresh key r s in (as_branches g.0, g.1)
  grow_all fresh key r (more s k bs) =
      let left = grow fresh key r s in
      let right = grow_all fresh key r bs in
      if below key k then (before_branches left.0 k bs, left.1) else (more s k right.0, right.1)
