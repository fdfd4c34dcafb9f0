-- ===== src/Prelude/Compare.antt =====
-- `bytes.Compare`: the lexicographic order of byte strings. `below a b` is `compare(a, b) < 0`.
use mathlib.Core.Path.{◌≡◌, refl}
use mathlib.Core.Bool.{Bool, true, false}
use mathlib.Core.List.{[], ◌∷◌}
use native.Mathlib.Omega.{arith}
use nutsdb.Prelude.Tests.{ltb, ◌==◌, if◌then◌else◌}
use nutsdb.Prelude.Words.{Bytes}

unfoldable pub below : Bytes → Bytes → Bool
below [] [] = false
below [] (y ∷ ys) = true
below (x ∷ xs) [] = false
below (x ∷ xs) (y ∷ ys) = let rest = below xs ys in if x == y then rest else ltb x y

pub not-below : (a : Bytes) → below a a ≡ false
unfolding below
not-below [] = refl
not-below (x ∷ xs) = ground (arith, not-below xs)

pub below_trans : (a b c : Bytes) → below a b ≡ true → below b c ≡ true → below a c ≡ true
unfolding below
below_trans [] [] c h k = ground arith
below_trans [] (y ∷ ys) [] h k = ground arith
below_trans [] (y ∷ ys) (z ∷ zs) h k = refl
below_trans (x ∷ xs) [] c h k = ground arith
below_trans (x ∷ xs) (y ∷ ys) [] h k = ground arith
below_trans (x ∷ xs) (y ∷ ys) (z ∷ zs) h k = ground (arith, below_trans xs ys zs)

pub eq_of_below : (a b : Bytes) → below a b ≡ false → below b a ≡ false → a ≡ b
unfolding below
eq_of_below [] [] h k = refl
eq_of_below [] (y ∷ ys) h k = ground arith
eq_of_below (x ∷ xs) [] h k = ground arith
eq_of_below (x ∷ xs) (y ∷ ys) h k = ground (arith, eq_of_below xs ys)

-- The mixed form of transitivity.
pub below_of_not : (a b c : Bytes) → below b a ≡ false → below b c ≡ true → below a c ≡ true
unfolding below
below_of_not [] [] [] h k = ground arith
below_of_not [] b (z ∷ zs) h k = refl
below_of_not [] (y ∷ ys) [] h k = ground arith
below_of_not (x ∷ xs) [] c h k = ground arith
below_of_not (x ∷ xs) (y ∷ ys) [] h k = ground arith
below_of_not (x ∷ xs) (y ∷ ys) (z ∷ zs) h k = ground (arith, below_of_not xs ys zs)

pub below_of_lt_not : (a b c : Bytes) → below a b ≡ true → below c b ≡ false → below a c ≡ true
unfolding below
below_of_lt_not [] [] c h k = ground arith
below_of_lt_not [] (y ∷ ys) [] h k = ground arith
below_of_lt_not [] b (z ∷ zs) h k = refl
below_of_lt_not (x ∷ xs) [] c h k = ground arith
below_of_lt_not (x ∷ xs) (y ∷ ys) [] h k = ground arith
below_of_lt_not (x ∷ xs) (y ∷ ys) (z ∷ zs) h k = ground (arith, below_of_lt_not xs ys zs)

pub below_asym : (a b : Bytes) → below a b ≡ true → below b a ≡ false
unfolding below
below_asym [] [] h = refl
below_asym [] (y ∷ ys) h = refl
below_asym (x ∷ xs) [] h = ground arith
below_asym (x ∷ xs) (y ∷ ys) h = ground (arith, below_asym xs ys)

-- `bytes.HasPrefix`
unfoldable pub has_prefix : Bytes → Bytes → Bool
has_prefix bs [] = true
has_prefix [] (p ∷ ps) = false
has_prefix (b ∷ bs) (p ∷ ps) = let rest = has_prefix bs ps in if b == p then rest else false

-- `bytes.TrimPrefix`
trim_loop : Bytes → Bytes → Bytes
trim_loop bs [] = bs
trim_loop [] (p ∷ ps) = []
trim_loop (b ∷ bs) (p ∷ ps) = trim_loop bs ps

unfoldable pub trim_prefix : Bytes → Bytes → Bytes
unfolding trim_loop
trim_prefix bs prefix = if has_prefix bs prefix then trim_loop bs prefix else bs

-- A string is not below its own prefix.
pub below_prefix : (bs prefix : Bytes) → has_prefix bs prefix ≡ true → below bs prefix ≡ false
unfolding has_prefix below
below_prefix [] [] h = refl
below_prefix (b ∷ bs) [] h = refl
below_prefix [] (p ∷ ps) h = ground arith
below_prefix (b ∷ bs) (p ∷ ps) h = ground (arith, below_prefix bs ps)

-- A string between a prefix and a string that has it has it too.
pub has_prefix_between :
    (prefix b c : Bytes)
    → below b prefix ≡ false
    → below c b ≡ false
    → has_prefix c prefix ≡ true
    → has_prefix b prefix ≡ true
unfolding has_prefix below
has_prefix_between [] b c hb hc h = refl
has_prefix_between (p ∷ ps) [] c hb hc h = ground arith
has_prefix_between (p ∷ ps) (b ∷ bs) [] hb hc h = ground arith
has_prefix_between (p ∷ ps) (b ∷ bs) (c ∷ cs) hb hc h = ground (arith, has_prefix_between ps bs cs)
