-- ===== src/Bptree/Prefixes.antt =====
-- What the prefix scans return: a page of the pairs whose key has the prefix.
use nutsdb.Prelude.{
  ℕ, zero, suc, ◌+◌, ◌-◌, ◌==◌, ==_iff, ◌<◌, ◌≡◌, refl, sym, ap, ◌∙◌, Bool, true, false, ◌&&◌, not,
  Option, none, some, [], ◌∷◌, ◌++◌, ◌⊎◌, inl, inr, if◌then◌else◌, ltb, length, length-append, take,
  drop, arith, Bool-cases, err,
}
use mathlib.Core.List.{append_assoc, append-nil}
use nutsdb.Prelude.Words.{Bytes}
use nutsdb.Prelude.Compare.{
  below, has_prefix, trim_prefix, below_asym, below_prefix, has_prefix_between,
}
use nutsdb.Records.{Record}
use nutsdb.Bptree.{Pairs, BpTree, pairs_of}
use nutsdb.Bptree.Shapes.{flatten}
use nutsdb.Bptree.Sorted.{All, IsSorted}
use nutsdb.Bptree.Ordered.{flatten-IsSorted}
use nutsdb.Bptree.Models.{Models}
use nutsdb.Bptree.Scans.{
  ScanError, leaf_loop, walk, skip_below, prefix_step, search_step, get_record_wrapper, prefix_scan,
  prefix_search_scan, scanned,
}
use nutsdb.Bptree.Walks.{walk_from}
use nutsdb.Bptree.Ranges.{select, from, select_none, select-IsSorted, skip_below_lem}

abbrev pub with_prefix : Bytes → Bytes → Bool
with_prefix prefix k = has_prefix k prefix

abbrev pub matching : (Bytes → Bool) → Bytes → Bytes → Bool
matching matches prefix k = matches (trim_prefix k prefix)

-- At most `limit`, where 0 is no limit.
abbrev pub limited : ℕ → Pairs → Pairs
limited limit kvs = if limit == 0 then kvs else take limit kvs

-- The room that is left once some pairs are found.
abbrev left_over : ℕ → Pairs → Pairs → Pairs
left_over limit found kvs = if limit == 0 then kvs else take (limit - length found) kvs

-- Once a key is without the prefix, so are all after it.
abbrev pub Block : Bytes → Pairs → Type 0
Block prefix [] = Unit
Block prefix ((k, r) ∷ kvs) =
    (has_prefix k prefix ≡ false → All (λ x. has_prefix x prefix ≡ false) kvs) × Block prefix kvs

past_prefix :
    (prefix k : Bytes) (kvs : Pairs)
    → below k prefix ≡ false
    → has_prefix k prefix ≡ false
    → All (λ x. below k x ≡ true) kvs
    → All (λ x. has_prefix x prefix ≡ false) kvs
past_prefix prefix k [] lo miss a = tt
past_prefix prefix k ((x, r) ∷ kvs) lo miss a = (
  ground (arith, has_prefix_between prefix k x, below_asym k x),
  past_prefix prefix k kvs lo miss a.1,
)

sorted-Block :
    (prefix : Bytes) (kvs : Pairs)
    → IsSorted kvs
    → All (λ x. below x prefix ≡ false) kvs
    → Block prefix kvs
sorted-Block prefix [] s a = tt
sorted-Block prefix ((k, r) ∷ kvs) s a =
    (λ miss. past_prefix prefix k kvs a.0 miss s.0, sorted-Block prefix kvs s.1 a.1)

take_nil : (n : ℕ) → ◌≡◌ {A = Pairs} (take n []) []
take_nil zero = refl
take_nil (suc n) = refl

drop_nil : (n : ℕ) → ◌≡◌ {A = Pairs} (drop n []) []
drop_nil zero = refl
drop_nil (suc n) = refl

limited_nil : (limit : ℕ) → limited limit [] ≡ []
limited_nil limit = elim (Bool-cases (limit == 0)) [ inl e ↦ rw e | inr e ↦ rw e (take_nil limit) ]

plus_zero : (c : ℕ) → c + 0 ≡ c
plus_zero c = omega arith

minus_zero : (c : ℕ) → c - 0 ≡ c
minus_zero c = omega arith

left_over_nil : (limit : ℕ) (found : Pairs) → left_over limit found [] ≡ []
left_over_nil limit found = elim (Bool-cases (limit == 0)) [
  | inl e ↦ rw e
  | inr e ↦ rw e (take_nil (limit - length found))
]

length_snoc : (found : Pairs) (x : Bytes × Record) → length (found ++ x ∷ []) ≡ length found + 1
length_snoc found x = length-append found (x ∷ [])

left_over_cons :
    (limit : ℕ) (found : Pairs) (x : Bytes × Record) (kvs : Pairs)
    → (limit ≡ 0) ⊎ (length found < limit)
    → left_over limit found (x ∷ kvs) ≡ x ∷ left_over limit (found ++ x ∷ []) kvs
left_over_cons limit found x kvs room = elim (Bool-cases (limit == 0)) [
  | inl e ↦ rw e
  | inr e ↦
      let lt : length found < limit = ground (arith, ==_iff limit 0) in
      let step : limit - length found ≡ suc (limit - length (found ++ x ∷ [])) =
        omega (arith, length_snoc found x) in
      rw (e, step) refl
]

left_over_full :
    (limit : ℕ) (found kvs : Pairs)
    → (ltb 0 limit && length found == limit) ≡ true
    → left_over limit found kvs ≡ []
left_over_full limit found kvs h =
    let some_limit : (limit == 0) ≡ false = ground arith in
    let none_left : limit - length found ≡ 0 = ground arith in rw (some_limit, none_left) refl

module _ {S : Type 0} (body : S → Bytes × Record → S × Bool) where
  leaf_loop_stop :
      (s s' : S) (x : Bytes × Record) (xs : Pairs)
      → body s x ≡ (s', false)
      → (leaf_loop body s (x ∷ xs)).0 ≡ s'
  unfolding leaf_loop
  leaf_loop_stop s s' x xs e = rw e

  leaf_loop_go :
      (s s' : S) (x : Bytes × Record) (xs : Pairs)
      → body s x ≡ (s', true)
      → (leaf_loop body s (x ∷ xs)).0 ≡ (leaf_loop body s' xs).0
  unfolding leaf_loop
  leaf_loop_go s s' x xs e = rw e

module _ (matches : Bytes → Bool) (prefix : Bytes) (offset limit : ℕ) where
  abbrev pub wanted : Pairs → Pairs
  wanted kvs = select (matching matches prefix) kvs

  abbrev pub within : Pairs → Pairs
  within kvs = select (with_prefix prefix) kvs

  abbrev pub loop : Pairs → ℕ → Pairs → Pairs × ℕ
  loop found c kvs = (leaf_loop (search_step matches prefix offset limit) (found, c) kvs).0

  taken :
      (found : Pairs) (c : ℕ) (k : Bytes) (r : Record)
      → has_prefix k prefix ≡ true
      → ltb c offset ≡ false
      → matches (trim_prefix k prefix) ≡ true
      → search_step matches prefix offset limit (found, c) (k, r)
        ≡ ((found ++ (k, r) ∷ [], c), not (ltb 0 limit && length (found ++ (k, r) ∷ []) == limit))
  taken found c k r has past wants = rw has (rw past (rw wants refl))

  stopped :
      (found : Pairs) (c : ℕ) (k : Bytes) (r : Record)
      → has_prefix k prefix ≡ false
      → search_step matches prefix offset limit (found, c) (k, r) ≡ ((found, c), false)
  stopped found c k r miss = rw miss refl

  nothing :
      (k : Bytes) (r : Record) (kvs : Pairs)
      → has_prefix k prefix ≡ false
      → All (λ x. has_prefix x prefix ≡ false) kvs
      → [] ≡ within ((k, r) ∷ kvs)
  nothing k r kvs miss a = sym (select_none (with_prefix prefix) ((k, r) ∷ kvs) (miss, a))

  left_out :
      (found : Pairs) (c : ℕ) (k : Bytes) (r : Record)
      → has_prefix k prefix ≡ true
      → ltb c offset ≡ false
      → matches (trim_prefix k prefix) ≡ false
      → search_step matches prefix offset limit (found, c) (k, r) ≡ ((found, c), true)
  left_out found c k r has past skip = rw has (rw past (rw skip refl))

  counted :
      (found : Pairs) (c : ℕ) (k : Bytes) (r : Record)
      → has_prefix k prefix ≡ true
      → ltb c offset ≡ true
      → search_step matches prefix offset limit (found, c) (k, r) ≡ ((found, c + 1), true)
  counted found c k r has under = rw has (rw under refl)

  unseen :
      (k : Bytes) (r : Record) (kvs found : Pairs) (c : ℕ)
      → has_prefix k prefix ≡ true
      → matches (trim_prefix k prefix) ≡ false
      → ◌≡◌ {A = Pairs × ℕ}
          (found ++ left_over limit found (wanted (within kvs)), c)
          (found ++ left_over limit found (wanted (within ((k, r) ∷ kvs))), c)
  unseen k r kvs found c has skip = rw has (rw skip refl)

  seen :
      (k : Bytes) (r : Record) (kvs found : Pairs) (c : ℕ)
      → has_prefix k prefix ≡ true
      → matches (trim_prefix k prefix) ≡ true
      → ◌≡◌ {A = Pairs × ℕ}
          (found ++ left_over limit found ((k, r) ∷ wanted (within kvs)), c)
          (found ++ left_over limit found (wanted (within ((k, r) ∷ kvs))), c)
  seen k r kvs found c has wants = rw has (rw wants refl)

  -- Past the offset.
  collect :
      (found : Pairs) (c : ℕ) (kvs : Pairs)
      → Block prefix kvs
      → ltb c offset ≡ false
      → (limit ≡ 0) ⊎ (length found < limit)
      → loop found c kvs ≡ (found ++ left_over limit found (wanted (within kvs)), c)
  unfolding leaf_loop
  collect found c [] b past room = rw (left_over_nil limit found) (rw (append-nil found) refl)
  collect found c ((k, r) ∷ kvs) b past room = elim (Bool-cases (has_prefix k prefix)) [
    | inr miss ↦
        leaf_loop_stop (search_step matches prefix offset limit) (found, c) (found, c) (k, r) kvs
          (stopped found c k r miss)
        ∙ ap (λ t. (t, c))
            (sym (append-nil found) ∙ ap (λ t. found ++ t) (sym (left_over_nil limit found)))
        ∙ ap (λ t. (found ++ left_over limit found (wanted t), c)) (nothing k r kvs miss (b.0 miss))
    | inl has ↦ elim (Bool-cases (matches (trim_prefix k prefix))) [
      | inr skip ↦
          leaf_loop_go (search_step matches prefix offset limit) (found, c) (found, c) (k, r) kvs
            (left_out found c k r has past skip)
          ∙ collect found c kvs b.1 past room
          ∙ unseen k r kvs found c has skip
      | inl wants ↦
          let more = found ++ (k, r) ∷ [] in
          let page : found ++ left_over limit found ((k, r) ∷ wanted (within kvs))
              ≡ more ++ left_over limit more (wanted (within kvs)) =
            ap (λ t. found ++ t) (left_over_cons limit found (k, r) (wanted (within kvs)) room)
            ∙ sym (append_assoc found ((k, r) ∷ []) (left_over limit more (wanted (within kvs)))) in
          elim (Bool-cases (ltb 0 limit && length more == limit)) [
            | inl full ↦
                leaf_loop_stop (search_step matches prefix offset limit) (found, c) (more, c) (k, r)
                  kvs (taken found c k r has past wants ∙ ap (λ b. ((more, c), not b)) full)
                ∙ ap (λ t. (t, c))
                    (sym (append-nil more)
                      ∙ ap (λ t. more ++ t)
                          (sym (left_over_full limit more (wanted (within kvs)) full))
                      ∙ sym page)
                ∙ seen k r kvs found c has wants
            | inr goes ↦
                leaf_loop_go (search_step matches prefix offset limit) (found, c) (more, c) (k, r)
                  kvs (taken found c k r has past wants ∙ ap (λ b. ((more, c), not b)) goes)
                ∙ collect more c kvs b.1 past (still_room found (k, r) room goes)
                ∙ ap (λ t. (t, c)) (sym page)
                ∙ seen k r kvs found c has wants
          ]
    ]
  ]
    where
      still_room :
          (found : Pairs) (x : Bytes × Record)
          → (limit ≡ 0) ⊎ (length found < limit)
          → (ltb 0 limit && length (found ++ x ∷ []) == limit) ≡ false
          → (limit ≡ 0) ⊎ (length (found ++ x ∷ []) < limit)
      still_room found x room goes = ground (arith, length_snoc found x)

  abbrev pub paged : ℕ → Pairs → Pairs × ℕ
  paged c kvs = (limited limit (wanted (drop (offset - c) kvs)), c + length (take (offset - c) kvs))

  no_page : (c : ℕ) → ([], c) ≡ paged c []
  no_page c =
      rw (drop_nil (offset - c))
        (rw (take_nil (offset - c)) (rw (limited_nil limit) (rw (plus_zero c) refl)))

  no_offset :
      (c : ℕ) (kvs : Pairs) → offset - c ≡ 0 → (left_over limit [] (wanted kvs), c) ≡ paged c kvs
  no_offset c kvs e = rw e (rw (plus_zero c) (rw (minus_zero limit) refl))

  one_less :
      (c : ℕ) (x : Bytes × Record) (kvs : Pairs)
      → ltb c offset ≡ true
      → paged (c + 1) kvs ≡ paged c (x ∷ kvs)
  one_less c x kvs under =
      let e : offset - c ≡ suc (offset - (c + 1)) = ground arith in
      rw e (ap (λ (n : ℕ). (limited limit (wanted (drop (offset - (c + 1)) kvs)), n)) (omega arith))

  -- From the start: the offset counts keys with the prefix, whether they match or not.
  pub page : (c : ℕ) (kvs : Pairs) → Block prefix kvs → loop [] c kvs ≡ paged c (within kvs)
  unfolding leaf_loop
  page c [] b = no_page c
  page c ((k, r) ∷ kvs) b = elim (Bool-cases (ltb c offset)) [
    | inr past ↦
        collect [] c ((k, r) ∷ kvs) b past (no_found limit)
        ∙ no_offset c (within ((k, r) ∷ kvs)) (ground arith)
    | inl under ↦ elim (Bool-cases (has_prefix k prefix)) [
      | inr miss ↦
          leaf_loop_stop (search_step matches prefix offset limit) ([], c) ([], c) (k, r) kvs
            (stopped [] c k r miss)
          ∙ no_page c
          ∙ ap (paged c) (nothing k r kvs miss (b.0 miss))
      | inl has ↦
          leaf_loop_go (search_step matches prefix offset limit) ([], c) ([], c + 1) (k, r) kvs
            (counted [] c k r has under)
          ∙ page (c + 1) kvs b.1
          ∙ one_less c (k, r) (within kvs) under
          ∙ ap (paged c) (first_in k r kvs has)
    ]
  ]
    where
      no_found : (limit : ℕ) → (limit ≡ 0) ⊎ (length {A = Bytes × Record} [] < limit)
      no_found limit = ground arith

      first_in :
          (k : Bytes) (r : Record) (kvs : Pairs)
          → has_prefix k prefix ≡ true
          → (k, r) ∷ within kvs ≡ within ((k, r) ∷ kvs)
      first_in k r kvs has = rw has refl

All-select_from :
    (prefix : Bytes) (kvs : Pairs) → All (λ x. below x prefix ≡ false) (select (from prefix) kvs)
All-select_from prefix [] = tt
All-select_from prefix ((k, r) ∷ kvs) = elim (Bool-cases (below k prefix)) [
  | inl e ↦ rw e (All-select_from prefix kvs)
  | inr e ↦ rw e (e, All-select_from prefix kvs)
]

-- A key with the prefix is not skipped.
prefix_kept :
    (prefix : Bytes) (kvs : Pairs)
    → select (with_prefix prefix) (select (from prefix) kvs) ≡ select (with_prefix prefix) kvs
prefix_kept prefix [] = refl
prefix_kept prefix ((k, r) ∷ kvs) = elim (Bool-cases (has_prefix k prefix)) [
  | inl e ↦ rw (below_prefix k prefix e, e) (ap (◌∷◌ (k, r)) (prefix_kept prefix kvs))
  | inr e ↦ elim (Bool-cases (below k prefix)) [
    | inl f ↦ rw (e, f) (prefix_kept prefix kvs)
    | inr f ↦ rw (e, f) (rw e (prefix_kept prefix kvs))
  ]
]

scan_lem :
    (matches : Bytes → Bool) (prefix : Bytes) (offset limit : ℕ) (kvs : Pairs)
    → IsSorted kvs
    → loop matches prefix offset limit [] 0 (skip_below prefix kvs) ≡ (
      limited limit
          (select (matching matches prefix) (drop offset (select (with_prefix prefix) kvs))),
      length (take offset (select (with_prefix prefix) kvs)),
    )
scan_lem matches prefix offset limit kvs s =
    let rest = select (from prefix) kvs in
    ap (loop matches prefix offset limit [] 0) (skip_below_lem prefix kvs s)
    ∙ page matches prefix offset limit 0 rest (
        sorted-Block prefix rest (select-IsSorted (from prefix) kvs s) (All-select_from prefix kvs))
    ∙ ap (paged matches prefix offset limit 0) (prefix_kept prefix kvs)
    ∙ ends (select (with_prefix prefix) kvs)
  where
    ends :
        (xs : Pairs)
        → paged matches prefix offset limit 0 xs ≡ (
          limited limit (select (matching matches prefix) (drop offset xs)),
          length (take offset xs),
        )
    ends xs = rw (minus_zero offset) (
        ap (λ (n : ℕ). (limited limit (select (matching matches prefix) (drop offset xs)), n))
          (omega arith))

-- On a tree that is not empty and stands for a list, and where the expression compiles,
-- `PrefixSearchScan` skips the first `offset` keys with the prefix, matching or not, and returns
-- the records of the next ones that match past the prefix, `limit` of them at most unless it is 0;
-- beside them it returns how many keys it skipped.
pub prefix_search_scan_refines :
    (compile : Bytes → Option (Bytes → Bool)) (reg : Bytes) (matches : Bytes → Bool) (t : BpTree)
    (kvs : Pairs) (prefix : Bytes) (offset limit p : ℕ)
    → Models t kvs
    → t.root ≡ some p
    → compile reg ≡ some matches
    → prefix_search_scan compile prefix reg offset limit t
      ≡ some (
        get_record_wrapper (
            limited limit
              (select (matching matches prefix) (drop offset (select (with_prefix prefix) kvs)))),
        length (take offset (select (with_prefix prefix) kvs)),
      )
unfolding prefix_search_scan
prefix_search_scan_refines compile reg matches t kvs prefix offset limit p (inl m) root c =
    absurd (let e : none ≡ some p = sym m.0 ∙ root in cc)
prefix_search_scan_refines compile reg matches t kvs prefix offset limit p (inr (s, h, e)) root c =
    let step = search_step matches prefix offset limit in
    let seen = walk_from step t s prefix ([], 0) h in
    let sorted = (flatten-IsSorted none none s h.ordered).1 in
    rw (c, prefix_search_scan)
      (ap
          (λ o. elim o [
            | none ↦ some (err ScanError.prefix_search_scans_no_result, 0)
            | some p ↦
                scanned (
                  walk step t.last_address t ([], 0) (skip_below prefix (pairs_of (t.content p))) p)
          ])
          seen.0
        ∙ ap scanned seen.1
        ∙ ap (λ x. scanned (some x)) (scan_lem matches prefix offset limit (flatten s) sorted)
        ∙ ap
            (λ xs. scanned (
              some (
                limited limit (
                    select (matching matches prefix)
                      (drop offset (select (with_prefix prefix) xs))),
                length (take offset (select (with_prefix prefix) xs)),
              )))
            e)

abbrev every : Bytes → Bool
every x = true

every_matches : (prefix : Bytes) (kvs : Pairs) → select (matching every prefix) kvs ≡ kvs
every_matches prefix [] = refl
every_matches prefix (x ∷ kvs) = ap (◌∷◌ x) (every_matches prefix kvs)

-- A scan without an expression is one with an expression that always matches.
same_loop :
    (prefix : Bytes) (offset limit c : ℕ) (found kvs : Pairs)
    → (leaf_loop (prefix_step prefix offset limit) (found, c) kvs).0
      ≡ loop every prefix offset limit found c kvs
same_loop prefix offset limit c found kvs = refl

-- On a tree that is not empty and stands for a list, `PrefixScan` skips the first `offset` keys
-- with the prefix and returns the records of the next ones, `limit` of them at most unless it is 0;
-- beside them it returns how many keys it skipped.
pub prefix_scan_refines :
    (t : BpTree) (kvs : Pairs) (prefix : Bytes) (offset limit p : ℕ)
    → Models t kvs
    → t.root ≡ some p
    → prefix_scan prefix offset limit t
      ≡ some (
        get_record_wrapper (limited limit (drop offset (select (with_prefix prefix) kvs))),
        length (take offset (select (with_prefix prefix) kvs)),
      )
unfolding prefix_scan
prefix_scan_refines t kvs prefix offset limit p (inl m) root =
    absurd (let e : none ≡ some p = sym m.0 ∙ root in cc)
prefix_scan_refines t kvs prefix offset limit p (inr (s, h, e)) root =
    let step = prefix_step prefix offset limit in
    let seen = walk_from step t s prefix ([], 0) h in
    let sorted = (flatten-IsSorted none none s h.ordered).1 in
    let found = drop offset (select (with_prefix prefix) (flatten s)) in
    ap
      (λ o. elim o [
        | none ↦ some (err ScanError.no_prefix, 0)
        | some p ↦
            scanned
              (walk step t.last_address t ([], 0) (skip_below prefix (pairs_of (t.content p))) p)
      ])
      seen.0
    ∙ ap scanned seen.1
    ∙ ap (λ x. scanned (some x))
        (same_loop prefix offset limit 0 [] (skip_below prefix (flatten s))
          ∙ scan_lem every prefix offset limit (flatten s) sorted)
    ∙ ap
        (λ xs.
          scanned (
            some
              (limited limit xs, length (take offset (select (with_prefix prefix) (flatten s))))))
        (every_matches prefix found)
    ∙ ap
        (λ xs. scanned (
          some (
            limited limit (drop offset (select (with_prefix prefix) xs)),
            length (take offset (select (with_prefix prefix) xs)),
          )))
        e
