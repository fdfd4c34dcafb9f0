-- ===== src/Recovery/Fuel.antt =====
-- The loop of `parseDataFiles` of db.go ends: every entry that it reads takes bytes of the file.
use nutsdb.Prelude.{
  ℕ, zero, suc, ◌+◌, ◌<◌, ◌≡◌, ◌≢◌, refl, sym, ◌∙◌, Option, none, some, List, [], ◌∷◌, arith, leb,
  ◌==◌, if◌then◌else◌, inl, inr, Bool-cases, Option-cases, length, length-drop, Outcome, ok, err,
  panic, ◌||◌,
}
use nutsdb.Prelude.Maps.{Map}
use nutsdb.Prelude.Words.{Bytes}
use nutsdb.Entries.{Entry, MetaData, is_zero, parse_meta, payload_size, size}
use nutsdb.DataFile.{ReadError, read_entry, read_full, checked_entry, or_panic, ◌>>=◌}
use nutsdb.Records.{is_sparse}
use nutsdb.Recovery.{
  RecoveryError, out_of_fuel, Options, Scan, is_end, note_commit, add_record, on_read_error,
  parse_file, parse_files, parse_data_files, last_only,
}

-- What a read leaves is shorter than what it had.
abbrev Left : ℕ → Outcome ReadError (Bytes × Bytes) → Type 0
Left n (ok (bs, rest)) = length rest < n
Left n (err x) = Unit
Left n panic = Unit

abbrev Shorter : ℕ → Outcome ReadError (Option Entry × Bytes) → Type 0
Shorter n (ok (none, rest)) = Unit
Shorter n (ok (some e, rest)) = length rest < n
Shorter n (err x) = Unit
Shorter n panic = Unit

read_full-Left : (k n : ℕ) (s : Bytes) → length s < n + k → Left n (read_full k s)
unfolding read_full
read_full-Left k n s h = elim (Bool-cases (leb k (length s))) [
  | inl fits ↦ rw fits (ground (arith, length-drop k s))
  | inr short ↦ elim (Bool-cases (length s == 0)) [
    | inl empty ↦ rw (short, empty) tt
    | inr torn ↦ rw (short, torn) tt
  ]
]

checked-Shorter :
    (n : ℕ) (rest : Bytes) (c : Outcome ReadError (Option Entry))
    → length rest < n
    → Shorter n (c >>= λ e. ok (e, rest))
checked-Shorter n rest (ok none) h = tt
checked-Shorter n rest (ok (some e)) h = h
checked-Shorter n rest (err x) h = tt
checked-Shorter n rest panic h = tt

payload-Shorter :
    (n : ℕ) (m : MetaData) (buf : Bytes) (r : Outcome ReadError (Bytes × Bytes))
    → Left n r
    → Shorter n (r >>= λ p. checked_entry m buf p.0 >>= λ e. ok (e, p.1))
payload-Shorter n m buf (ok (bytes, rest)) h = checked-Shorter n rest (checked_entry m buf bytes) h
payload-Shorter n m buf (err x) h = tt
payload-Shorter n m buf panic h = tt

header-Shorter :
    (n : ℕ) (rest buf : Bytes) (m : Option MetaData)
    → length rest < n
    → Shorter n (
        or_panic m >>= λ m.
        if is_zero m
        then ok (none, rest)
        else read_full (payload_size m) rest >>= λ p. checked_entry m buf p.0 >>= λ e. ok (e, p.1))
header-Shorter n rest buf none h = tt
header-Shorter n rest buf (some m) h = elim (Bool-cases (is_zero m)) [
  | inl blank ↦ rw blank tt
  | inr entry ↦ rw entry (
      payload-Shorter n m buf (read_full (payload_size m) rest)
        (read_full-Left (payload_size m) n rest (omega arith)))
]

entry-Shorter :
    (n : ℕ) (r : Outcome ReadError (Bytes × Bytes))
    → Left n r
    → Shorter n (
        r >>= λ q. or_panic (parse_meta q.0) >>= λ m.
        if is_zero m
        then ok (none, q.1)
        else read_full (payload_size m) q.1 >>= λ p. checked_entry m q.0 p.0 >>= λ e. ok (e, p.1))
entry-Shorter n (ok (buf, rest)) h = header-Shorter n rest buf (parse_meta buf) h
entry-Shorter n (err x) h = tt
entry-Shorter n panic h = tt

read_entry-Shorter : (s : Bytes) → Shorter (length s) (read_entry s)
unfolding read_entry
read_entry-Shorter s =
    entry-Shorter (length s) (read_full 42 s) (read_full-Left 42 (length s) s (omega arith))

module _ {T : Type 0} (insert_tx_id : ℕ → T → Option T) (o : Options) where
  on_read_error-settles :
      (x : ReadError) (off : ℕ) (scan : Scan T)
      → on_read_error insert_tx_id o x off scan ≢ err out_of_fuel
  on_read_error-settles x off scan = elim (Bool-cases (is_end x || leb o.segment_size off)) [
    | inl over ↦ rw over (λ h. cc)
    | inr bad ↦ rw bad (λ h. cc)
  ]

  -- One round of the loop, where the rounds that follow never run out of fuel.
  parse_file-round :
      (fuel f_id off : ℕ) (s : Bytes) (scan : Scan T) (r : Outcome ReadError (Option Entry × Bytes))
      → ((off' : ℕ) (rest : Bytes) (scan' : Scan T)
          → length rest < fuel
          → parse_file insert_tx_id o fuel f_id off' rest scan' ≢ err out_of_fuel)
      → read_entry s ≡ r
      → Shorter (length s) r
      → length s < suc fuel
      → parse_file insert_tx_id o (suc fuel) f_id off s scan ≢ err out_of_fuel
  unfolding parse_file
  parse_file-round fuel f_id off s scan (err x) ih e left h =
      rw (e, parse_file) (on_read_error-settles x off scan)
  parse_file-round fuel f_id off s scan panic ih e left h = rw (e, parse_file) (λ p. cc)
  parse_file-round fuel f_id off s scan (ok (none, rest)) ih e left h = rw (e, parse_file) (λ p. cc)
  parse_file-round fuel f_id off s scan (ok (some x, rest)) ih e left h =
      elim (Option-cases (note_commit insert_tx_id o x scan)) [
        | inl failed ↦ rw (e, parse_file) (rw (failed, parse_file) (λ p. cc))
        | inr (scan', noted) ↦
            rw (e, parse_file)
              (rw (noted, parse_file)
                (ih (off + size x) rest (add_record insert_tx_id o f_id off x scan') (omega arith)))
      ]

  parse_file-settles :
      (fuel f_id off : ℕ) (s : Bytes) (scan : Scan T)
      → length s < fuel
      → parse_file insert_tx_id o fuel f_id off s scan ≢ err out_of_fuel
  parse_file-settles zero f_id off s scan h = absurd (omega arith)
  parse_file-settles (suc fuel) f_id off s scan h =
      parse_file-round fuel f_id off s scan (read_entry s)
        (λ off' rest scan' k. parse_file-settles fuel f_id off' rest scan' k) refl
        (read_entry-Shorter s) h

  -- What one file's loop gives, as `parseDataFiles` uses it.
  files_after :
      (dir : ℕ → Option Bytes)
      → List ℕ
      → Outcome RecoveryError (Scan T)
      → Outcome RecoveryError (Scan T)
  files_after dir f_ids (err x) = err x
  files_after dir f_ids panic = panic
  files_after dir f_ids (ok scan) = parse_files insert_tx_id o dir f_ids scan

  files_after-settles :
      (dir : ℕ → Option Bytes) (f_ids : List ℕ) (r : Outcome RecoveryError (Scan T))
      → r ≢ err out_of_fuel
      → ((scan : Scan T) → parse_files insert_tx_id o dir f_ids scan ≢ err out_of_fuel)
      → (q : Outcome RecoveryError (Scan T)) → q ≡ files_after dir f_ids r
      → q ≢ err out_of_fuel
  unfolding files_after
  files_after-settles dir f_ids (err x) fine ih q e h = fine (sym e ∙ h)
  files_after-settles dir f_ids panic fine ih q e h = cc
  files_after-settles dir f_ids (ok scan) fine ih q e h = ih scan (sym e ∙ h)

  parse_files-step :
      (dir : ℕ → Option Bytes) (f_id : ℕ) (f_ids : List ℕ) (s : Bytes) (scan : Scan T)
      (r : Outcome RecoveryError (Scan T))
      → dir f_id ≡ some s
      → parse_file insert_tx_id o (length s + 1) f_id 0 s scan ≡ r
      → parse_files insert_tx_id o dir (f_id ∷ f_ids) scan ≡ files_after dir f_ids r
  unfolding parse_files files_after
  parse_files-step dir f_id f_ids s scan (err x) at e =
      rw (at, parse_files) (rw (e, parse_files) refl)
  parse_files-step dir f_id f_ids s scan panic at e =
      rw (at, parse_files) (rw (e, parse_files) refl)
  parse_files-step dir f_id f_ids s scan (ok scan') at e =
      rw (at, parse_files) (rw (e, parse_files) refl)

  parse_files-settles :
      (dir : ℕ → Option Bytes) (f_ids : List ℕ) (scan : Scan T)
      → parse_files insert_tx_id o dir f_ids scan ≢ err out_of_fuel
  unfolding parse_files
  parse_files-settles dir [] scan = λ h. cc
  parse_files-settles dir (f_id ∷ f_ids) scan = elim (Option-cases (dir f_id)) [
    | inl missing ↦ rw (missing, parse_files) (λ h. cc)
    | inr (s, at) ↦
        files_after-settles dir f_ids (parse_file insert_tx_id o (length s + 1) f_id 0 s scan)
          (parse_file-settles (length s + 1) f_id 0 s scan (omega arith))
          (λ scan'. parse_files-settles dir f_ids scan')
          (parse_files insert_tx_id o dir (f_id ∷ f_ids) scan)
          (parse_files-step dir f_id f_ids s scan
            (parse_file insert_tx_id o (length s + 1) f_id 0 s scan) at refl)
  ]

  -- Whatever the files hold, `parseDataFiles` ends: the fuel that a file's length gives is enough
  -- for its loop.
  pub parse_data_files-settles :
      (dir : ℕ → Option Bytes) (f_ids : List ℕ) (idx : T) (pos : Map Bytes ℕ)
      → parse_data_files insert_tx_id o dir f_ids idx pos ≢ err out_of_fuel
  unfolding parse_data_files
  parse_data_files-settles dir f_ids idx pos = elim (Bool-cases (is_sparse o.entry_idx_mode)) [
    | inl sparse ↦ elim (Option-cases (last_only f_ids)) [
      | inl empty ↦ rw sparse (rw (empty, parse_data_files) (λ h. cc))
      | inr (last, at) ↦ rw sparse (rw (at, parse_data_files) (parse_files-settles dir last _))
    ]
    | inr dense ↦ rw dense (parse_files-settles dir f_ids _)
  ]
