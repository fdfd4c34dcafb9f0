-- ===== src/Recovery/Logs.antt =====
-- What `parseDataFiles` of db.go finds in files that are entries one after the other.
use mathlib.Core.List.{append_assoc, append-nil}
use nutsdb.Prelude.{
  ℕ, zero, suc, ◌+◌, ◌<◌, ◌≡◌, refl, ap, sym, ◌∙◌, Bool, true, false, Option, none, some, List, [],
  ◌∷◌, ◌++◌, arith, leb, ◌==◌, ◌⊎◌, if◌then◌else◌, inl, inr, Bool-cases, length, length-append,
  Outcome, ok, err,
}
use nutsdb.Prelude.Maps
use nutsdb.Prelude.Maps.{Map, nat_key, has, lookup-insert}
use nutsdb.Prelude.Words.{Bytes}
use nutsdb.Entries.{Entry, size}
use nutsdb.Entries.Layout.{IsSized, encoded, payload}
use nutsdb.DataFile.{ReadError, eof, unexpected_eof, read_entry, read_full}
use nutsdb.DataFile.Decode.{stamped, header, encoded-header, length-header}
use nutsdb.DataFile.ReadBack.{read_entry-encoded}
use nutsdb.Records.{committed, ScanRecord}
use nutsdb.Recovery.{Options, Scan, record_of, is_end, note_commit, add_record, parse_file}

-- Entries one after the other.
abbrev pub log : List Entry → Bytes
log [] = []
log (e ∷ es) = encoded e ++ log es

-- Entries that `Encode` can write and a reader tells from an empty header.
abbrev pub AreSized : List Entry → Type 0
AreSized [] = Unit
AreSized (e ∷ es) = IsSized e × (0 < length e.key) × AreSized es

-- What stands behind the last entry stops the reader without an error.
abbrev pub Stops : Bytes → Type 0
Stops s =
    ((rest : Bytes) × (read_entry s ≡ ok (none, rest)))
    ⊎ ((x : ReadError) × (read_entry s ≡ err x) × (is_end x ≡ true))

-- The records of entries, with their offsets.
abbrev pub records : Options → ℕ → ℕ → List Entry → List ScanRecord
records o f_id off [] = []
records o f_id off (e ∷ es) = record_of o f_id off (stamped e) ∷ records o f_id (off + size e) es

-- Whether a transaction has a committed entry.
unfoldable pub commits : ℕ → List Entry → Bool
commits t [] = false
commits t (e ∷ es) =
    let rest = commits t es in
    if e.meta.status == committed then (if e.meta.tx_id == t then true else rest) else rest

-- Nothing behind the last entry.
pub Stops-empty : Stops []
unfolding read_entry read_full
Stops-empty = inr (eof, refl, refl)

torn_is :
    (s : Bytes) (x : ReadError)
    → length s < 42
    → ◌≡◌ {A = Outcome ReadError (Bytes × Bytes)}
        (if length s == 0 then err eof else err unexpected_eof)
        (err x)
    → read_entry s ≡ err x
unfolding read_entry read_full
torn_is s x h e = let short : leb 42 (length s) ≡ false = ground arith in rw short (rw e refl)

-- A torn header.
pub Stops-torn : (s : Bytes) → length s < 42 → Stops s
unfolding read_entry read_full
Stops-torn s h = elim (Bool-cases (length s == 0)) [
  | inl empty ↦ inr (eof, torn_is s eof h (rw empty refl), refl)
  | inr some_bytes ↦ inr (unexpected_eof, torn_is s unexpected_eof h (rw some_bytes refl), refl)
]

size-stamped : (e : Entry) → size (stamped e) ≡ size e
unfolding size
size-stamped e = refl

length-encoded_parts : (e : Entry) → length (encoded e) ≡ 42 + length (payload e)
length-encoded_parts e =
    ap length (encoded-header e)
    ∙ length-append (header e) (payload e)
    ∙ ap (λ n. n + length (payload e)) (length-header e)

-- An entry takes as many bytes as `Size` says.
pub length-encoded : (e : Entry) → IsSized e → length (encoded e) ≡ size e
unfolding size
length-encoded e s =
    length-encoded_parts e
    ∙ omega (
      arith,
      s.total,
      s.key,
      s.value,
      s.bucket,
      length-append e.bucket (e.key ++ e.value),
      length-append e.key e.value,
    )

module _ {T : Type 0} (insert_tx_id : ℕ → T → Option T) (o : Options)
    (ingests : (t : ℕ) (idx : T) → (idx' : T) × (insert_tx_id t idx ≡ some idx')) where
  -- What the scan has gained.
  pub record Gains (rs : List ScanRecord) (es : List Entry) (before after : Scan T) : Type 0 where
    pub found : after.unconfirmed_records ≡ before.unconfirmed_records ++ rs
    pub commits_seen :
        (t : ℕ)
        → has t after.committed_tx_ids
          ≡ (if commits t es then true else has t before.committed_tx_ids)

  note_commit-Gains :
      (f_id off : ℕ) (e : Entry) (scan : Scan T)
      → (scan' : Scan T) × (note_commit insert_tx_id o e scan ≡ some scan')
        × Gains
            (record_of o f_id off e ∷ [])
            (e ∷ [])
            scan
            (add_record insert_tx_id o f_id off e scan')
  unfolding note_commit add_record commits
  note_commit-Gains f_id off e scan = elim (Bool-cases (e.meta.status == committed)) [
    | inl done ↦
        let (idx, ingested) = ingests e.meta.tx_id scan.active_committed_tx_ids_idx in
        (
          record scan {
            committed_tx_ids = Maps.insert e.meta.tx_id tt scan.committed_tx_ids;
            active_committed_tx_ids_idx = idx;
          },
          rw done (rw (ingested, note_commit) refl),
          record {
            found = refl;
            commits_seen =
                λ t. ground (arith, done, lookup-insert e.meta.tx_id t tt scan.committed_tx_ids);
          },
        )
    | inr open_yet ↦ (
      scan,
      rw open_yet refl,
      record { found = refl; commits_seen = λ t. ground (arith, open_yet) },
    )
  ]

  parse_file-Stops :
      (fuel f_id off : ℕ) (rest : Bytes) (scan : Scan T)
      → Stops rest
      → parse_file insert_tx_id o (suc fuel) f_id off rest scan ≡ ok scan
  unfolding parse_file
  parse_file-Stops fuel f_id off rest scan (inl (rest', e)) = rw (e, parse_file) refl
  parse_file-Stops fuel f_id off rest scan (inr (x, e, i)) = rw (e, parse_file) (rw i refl)

  parse_file-next :
      (fuel f_id off : ℕ) (e : Entry) (s rest : Bytes) (scan scan' : Scan T)
      → read_entry s ≡ ok (some e, rest)
      → note_commit insert_tx_id o e scan ≡ some scan'
      → parse_file insert_tx_id o (suc fuel) f_id off s scan
        ≡ parse_file insert_tx_id o fuel f_id
            (off + size e)
            rest
            (add_record insert_tx_id o f_id off e scan')
  unfolding parse_file
  parse_file-next fuel f_id off e s rest scan scan' r n =
      rw (r, parse_file) (rw (n, parse_file) refl)

  Gains-next :
      (r : ScanRecord) (rs : List ScanRecord) (e : Entry) (es : List Entry)
      (before mid after : Scan T)
      → Gains (r ∷ []) (e ∷ []) before mid
      → Gains rs es mid after
      → Gains (r ∷ rs) (e ∷ es) before after
  unfolding commits
  Gains-next r rs e es before mid after g h = record {
    found =
        h.found ∙ ap (λ l. l ++ rs) g.found ∙ append_assoc before.unconfirmed_records (r ∷ []) rs;
    commits_seen = λ t. ground (arith, g.commits_seen t, h.commits_seen t);
  }

  Gains-stamped :
      (rs : List ScanRecord) (e : Entry) (before after : Scan T)
      → Gains rs (stamped e ∷ []) before after
      → Gains rs (e ∷ []) before after
  unfolding commits
  Gains-stamped rs e before after g = record { found = g.found; commits_seen = g.commits_seen }

  pub parse_file-log :
      (fuel f_id off : ℕ) (es : List Entry) (rest : Bytes) (scan : Scan T)
      → AreSized es
      → Stops rest
      → length (log es) < fuel
      → (after : Scan T) × (parse_file insert_tx_id o fuel f_id off (log es ++ rest) scan
          ≡ ok after)
        × Gains (records o f_id off es) es scan after
  parse_file-log zero f_id off es rest scan s t h = absurd (omega arith)
  parse_file-log (suc fuel) f_id off [] rest scan s t h = (
    scan,
    parse_file-Stops fuel f_id off rest scan t,
    record {
      found = sym (append-nil scan.unconfirmed_records);
      commits_seen = λ t. unfold commits in refl;
    },
  )
  parse_file-log (suc fuel) f_id off (e ∷ es) rest scan (s, k, ss) t h =
      let (scan', noted, gained) = note_commit-Gains f_id off (stamped e) scan in
      let mid = add_record insert_tx_id o f_id off (stamped e) scan' in
      let (after, parsed, gains) =
        parse_file-log fuel f_id (off + size e) es rest mid ss t
          (omega (arith, length-append (encoded e) (log es), length-encoded_parts e)) in
      (
        after,
        ap (λ l. parse_file insert_tx_id o (suc fuel) f_id off l scan)
              (append_assoc (encoded e) (log es) rest)
            ∙ parse_file-next fuel f_id off (stamped e) (encoded e ++ (log es ++ rest))
                (log es ++ rest) scan scan' (read_entry-encoded e s k (log es ++ rest)) noted
            ∙ ap (λ n. parse_file insert_tx_id o fuel f_id (off + n) (log es ++ rest) mid)
                (size-stamped e)
            ∙ parsed,
        Gains-next (record_of o f_id off (stamped e)) (records o f_id (off + size e) es) e es scan
            mid after (Gains-stamped _ e scan mid gained) gains,
      )
