-- ===== src/Ds/Lists/Remove/Loops.antt =====
-- The loops of `LRem` and `LRemNum`, against a recursive description.
use mathlib.Core.List.{append_assoc}
use Prim.Native.Nat.{min}
use nutsdb.Prelude.{
  ℕ, zero, suc, ◌+◌, ◌-◌, ◌≤◌, ◌<◌, ◌≡◌, refl, ap, ◌∙◌, true, false, some, List, [], ◌∷◌, ◌++◌,
  reverse, inl, inr, arith, if◌then◌else◌, length, length-append, Bool-cases, ltb, ◌&&◌,
}
use mathlib.Core.List.{reverse-append}
use nutsdb.Prelude.Arrays.{write, write-append}
use nutsdb.Prelude.Words.{Bytes, bytes_eq}
use nutsdb.Ds.Lists.Remove.{count_loop, keep_loop}

module _ (value : Bytes) where
  -- How often the value occurs.
  unfoldable pub occurrences : List Bytes → ℕ
  occurrences [] = 0
  occurrences (v ∷ vs) = (if bytes_eq v value then 1 else 0) + occurrences vs

  -- The list without the first `n` occurrences of the value.
  unfoldable pub without_first : ℕ → List Bytes → List Bytes
  without_first n [] = []
  without_first zero (v ∷ vs) = v ∷ vs
  without_first (suc n) (v ∷ vs) =
      if bytes_eq v value then without_first n vs else v ∷ without_first (suc n) vs

  pub length-without_first :
      (n : ℕ) (xs : List Bytes) → length (without_first n xs) + min n (occurrences xs) ≡ length xs
  unfolding without_first occurrences
  length-without_first n [] = omega arith
  length-without_first zero (v ∷ vs) = omega arith
  length-without_first (suc n) (v ∷ vs) =
      ground (arith, length-without_first n vs, length-without_first (suc n) vs)

  pub occurrences-append :
      (xs ys : List Bytes) → occurrences (xs ++ ys) ≡ occurrences xs + occurrences ys
  unfolding occurrences
  occurrences-append [] ys = omega arith
  occurrences-append (v ∷ xs) ys = omega (arith, occurrences-append xs ys)

  pub occurrences-reverse : (xs : List Bytes) → occurrences (reverse xs) ≡ occurrences xs
  unfolding occurrences
  occurrences-reverse [] = refl
  occurrences-reverse (v ∷ xs) = omega (
    arith,
    ap occurrences (reverse-append (v ∷ []) xs),
    occurrences-append (reverse xs) (v ∷ []),
    occurrences-reverse xs,
  )

  pub count_loop-zero :
      (removed : ℕ) (xs : List Bytes) → count_loop 0 value removed xs ≡ removed + occurrences xs
  unfolding count_loop occurrences
  count_loop-zero removed [] = omega arith
  count_loop-zero removed (v ∷ vs) =
      ground (arith, count_loop-zero removed vs, count_loop-zero (suc removed) vs)

  pub count_loop-pos :
      (count removed : ℕ) (xs : List Bytes)
      → 0 < count
      → removed ≤ count
      → count_loop count value removed xs ≡ removed + min (count - removed) (occurrences xs)
  unfolding count_loop occurrences
  count_loop-pos count removed [] h le = omega arith
  count_loop-pos count removed (v ∷ vs) h le =
      ground (arith, count_loop-pos count removed vs, count_loop-pos count (suc removed) vs)

  without_first-zero : (xs : List Bytes) → without_first 0 xs ≡ xs
  unfolding without_first
  without_first-zero [] = refl
  without_first-zero (v ∷ vs) = refl

  module _ (count removed idx : ℕ) (v : Bytes) (vs kept : List Bytes) where
    keep_drop :
        (ltb removed count && bytes_eq v value) ≡ true
        → keep_loop count value removed idx (v ∷ vs) kept
          ≡ keep_loop count value (suc removed) idx vs kept
    unfolding keep_loop
    keep_drop h = rw (h, keep_loop)

    keep_write :
        (kept' : List Bytes)
        → (ltb removed count && bytes_eq v value) ≡ false
        → write kept idx v ≡ some kept'
        → keep_loop count value removed idx (v ∷ vs) kept
          ≡ keep_loop count value removed (suc idx) vs kept'
    unfolding keep_loop
    keep_write kept' h w = rw (h, w, keep_loop)

  -- A kept element goes to the next free place.
  keep_next :
      (n : ℕ) (v : Bytes) (vs : List Bytes) (removed : ℕ) (pre gap rest : List Bytes) (m : ℕ)
      → (ltb removed (removed + n) && bytes_eq v value) ≡ false
      → length gap ≡ suc (length rest)
      → ((gap' : List Bytes)
          → length gap' ≡ length rest
          → keep_loop
              (removed + n)
              value
              removed
              (length (pre ++ v ∷ []))
              vs
              ((pre ++ v ∷ []) ++ gap')
            ≡ some (m, (pre ++ v ∷ []) ++ rest))
      → keep_loop (removed + n) value removed (length pre) (v ∷ vs) (pre ++ gap)
        ≡ some (m, pre ++ v ∷ rest)
  keep_next n v vs removed pre [] rest m t h ih = absurd (omega arith)
  keep_next n v vs removed pre (g ∷ gap) rest m t h ih =
      let e : length (pre ++ v ∷ []) ≡ suc (length pre) =
        omega (arith, length-append pre (v ∷ [])) in
      keep_write (removed + n) removed (length pre) v vs (pre ++ g ∷ gap) (pre ++ v ∷ gap) t
        (write-append pre g gap v)
      ∙ rw (append_assoc pre (v ∷ []) gap, append_assoc pre (v ∷ []) rest, e) at
          (ih gap (omega arith))

  -- The loop keeps what `without_first` keeps, and never writes out of range.
  pub keep_loop-without_first :
      (n : ℕ) (xs : List Bytes) (removed : ℕ) (pre gap : List Bytes)
      → length gap ≡ length (without_first n xs)
      → keep_loop (removed + n) value removed (length pre) xs (pre ++ gap)
        ≡ some (removed + min n (occurrences xs), pre ++ without_first n xs)
  unfolding without_first occurrences
  keep_loop-without_first n [] removed pre [] h =
      unfold keep_loop in ap (λ t. some (t, pre ++ [])) (omega arith)
  keep_loop-without_first n [] removed pre (g ∷ gap) h = absurd (omega arith)
  keep_loop-without_first zero (v ∷ vs) removed pre gap h =
      keep_next 0 v vs removed pre gap vs (removed + min 0 (occurrences vs)) (ground arith) h
        (λ gap' l. rw (without_first-zero vs) at (
          keep_loop-without_first zero vs removed (pre ++ v ∷ []) gap'
            (rw (without_first-zero vs) l)))
      ∙ ap (λ t. some (t, pre ++ v ∷ vs)) (omega arith)
  keep_loop-without_first (suc n) (v ∷ vs) removed pre gap h =
      elim (Bool-cases (bytes_eq v value)) [
        | inl same ↦
            let e : suc removed + n ≡ removed + suc n = omega arith in
            let l : length gap ≡ length (without_first n vs) = rw same at h in
            rw same (
              keep_drop (removed + suc n) removed (length pre) v vs (pre ++ gap) (ground arith)
              ∙ rw e at (keep_loop-without_first n vs (suc removed) pre gap l)
              ∙ ap (λ t. some (t, pre ++ without_first n vs)) (omega arith))
        | inr other ↦ rw other (
            keep_next (suc n) v vs removed pre gap (without_first (suc n) vs)
              (removed + min (suc n) (0 + occurrences vs)) (ground arith) (rw other at h)
              (λ gap' l.
                keep_loop-without_first (suc n) vs removed (pre ++ v ∷ []) gap' l
                ∙ ap (λ t. some (t, (pre ++ v ∷ []) ++ without_first (suc n) vs)) (omega arith)))
      ]
