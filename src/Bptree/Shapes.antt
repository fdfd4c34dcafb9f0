-- ===== src/Bptree/Shapes.antt =====
-- The tree that the nodes in memory make up, as a data type, with what `Insert` makes of it.
-- `Represents` relates it to the memory.
use nutsdb.Prelude.{ℕ, suc, ◌+◌, ◌≡◌, Option, none, some, List, [], ◌∷◌, ◌++◌, ◌⊎◌}
use nutsdb.Prelude.Words.{Bytes}
use nutsdb.Bptree.{Pairs, BpTree, leaf_node, inner_node}

mutual
  pub data Shape : Type 0 where
    leaf : ℕ → Pairs → Shape
    inner : ℕ → Branches → Shape

  pub data Branches : Type 0 where
    one : Shape → Branches
    more : Shape → Bytes → Branches → Branches

abbrev pub addr : Shape → ℕ
addr (leaf p kvs) = p
addr (inner p bs) = p

abbrev pub keys : Branches → List Bytes
keys (one s) = []
keys (more s k bs) = k ∷ keys bs

abbrev pub addrs : Branches → List ℕ
addrs (one s) = addr s ∷ []
addrs (more s k bs) = addr s ∷ addrs bs

-- The memory of `t` holds the shape, and the parent of its root is `up`.
abbrev mutual
  pub Represents : BpTree → Option ℕ → Shape → Type 0
  Represents t up (leaf p kvs) = (t.content p ≡ leaf_node kvs) × (t.parent p ≡ up)
  Represents t up (inner p bs) =
      (t.content p ≡ inner_node (keys bs) (addrs bs))
      × (t.parent p ≡ up)
      × RepresentsAll t (some p) bs

  pub RepresentsAll : BpTree → Option ℕ → Branches → Type 0
  RepresentsAll t up (one s) = Represents t up s
  RepresentsAll t up (more s k bs) = Represents t up s × RepresentsAll t up bs

-- An address of a node of the shape.
abbrev mutual
  pub In : ℕ → Shape → Type 0
  In a (leaf p kvs) = a ≡ p
  In a (inner p bs) = (a ≡ p) ⊎ InAny a bs

  pub InAny : ℕ → Branches → Type 0
  InAny a (one s) = In a s
  InAny a (more s k bs) = In a s ⊎ InAny a bs

-- No two nodes of the shape have the same address.
abbrev mutual
  pub IsApart : Shape → Type 0
  IsApart (leaf p kvs) = Unit
  IsApart (inner p bs) = ¬ InAny p bs × AreApart bs

  pub AreApart : Branches → Type 0
  AreApart (one s) = IsApart s
  AreApart (more s k bs) = IsApart s × AreApart bs × ((a : ℕ) → In a s → ¬ InAny a bs)

-- Every leaf is `n` nodes below the root.
abbrev mutual
  pub HasHeight : ℕ → Shape → Type 0
  HasHeight n (leaf p kvs) = n ≡ 0
  HasHeight n (inner p bs) = (m : ℕ) × (n ≡ suc m) × HaveHeight m bs

  pub HaveHeight : ℕ → Branches → Type 0
  HaveHeight n (one s) = HasHeight n s
  HaveHeight n (more s k bs) = HasHeight n s × HaveHeight n bs

unfoldable mutual
  pub size : Shape → ℕ
  size (leaf p kvs) = 1
  size (inner p bs) = suc (size_all bs)

  pub size_all : Branches → ℕ
  size_all (one s) = size s
  size_all (more s k bs) = size s + size_all bs

-- What the tree holds, from left to right.
unfoldable mutual
  pub flatten : Shape → Pairs
  flatten (leaf p kvs) = kvs
  flatten (inner p bs) = flatten_all bs

  pub flatten_all : Branches → Pairs
  flatten_all (one s) = flatten s
  flatten_all (more s k bs) = flatten s ++ flatten_all bs

-- The leaves from left to right, and the leaf after each by the pointers of the code.
abbrev mutual
  pub leaf_addrs : Shape → List ℕ
  leaf_addrs (leaf p kvs) = p ∷ []
  leaf_addrs (inner p bs) = leaf_addrs_all bs

  pub leaf_addrs_all : Branches → List ℕ
  leaf_addrs_all (one s) = leaf_addrs s
  leaf_addrs_all (more s k bs) = leaf_addrs s ++ leaf_addrs_all bs

abbrev pub head : List ℕ → Option ℕ
head [] = none
head (p ∷ ps) = some p

abbrev pub Linked : (ℕ → Option ℕ) → List ℕ → Type 0
Linked next [] = Unit
Linked next (p ∷ ps) = (next p ≡ head ps) × Linked next ps
