-- ===== src/Recovery/Directories.antt =====
-- What `parseDataFiles` of db.go finds in a whole directory of data files.
use mathlib.Core.List.{append_assoc, append-nil}
use nutsdb.Prelude.{
  ℕ, ◌+◌, ◌≡◌, refl, ap, sym, ◌∙◌, true, false, Option, some, List, [], ◌∷◌, ◌++◌, arith,
  if◌then◌else◌, length, length-append, ok,
}
use nutsdb.Prelude.Maps
use nutsdb.Prelude.Maps.{Map, nat_key, has}
use nutsdb.Prelude.Words.{Bytes}
use nutsdb.Entries.{Entry}
use nutsdb.Records.{is_sparse, ScanRecord}
use nutsdb.Recovery.{Options, Scan, parse_files, parse_data_files}
use nutsdb.Recovery.Logs.{log, AreSized, Stops, records, commits, Gains, parse_file-log}

-- A data file: its ID, its entries, and the bytes behind them.
pub record LogFile : Type 0 where
  pub f_id : ℕ
  pub entries : List Entry
  pub tail : Bytes

abbrev pub AreLogs : (ℕ → Option Bytes) → List LogFile → Type 0
AreLogs dir [] = Unit
AreLogs dir (f ∷ fs) =
    (dir f.f_id ≡ some (log f.entries ++ f.tail))
    × AreSized f.entries
    × Stops f.tail
    × AreLogs dir fs

abbrev pub ids : List LogFile → List ℕ
ids [] = []
ids (f ∷ fs) = f.f_id ∷ ids fs

abbrev pub all_entries : List LogFile → List Entry
all_entries [] = []
all_entries (f ∷ fs) = f.entries ++ all_entries fs

abbrev pub all_records : Options → List LogFile → List ScanRecord
all_records o [] = []
all_records o (f ∷ fs) = records o f.f_id 0 f.entries ++ all_records o fs

has-empty : (t : ℕ) → has {V = Unit {0}} t [] ≡ false
unfolding Maps.lookup
has-empty t = refl

commits-append :
    (t : ℕ) (es fs : List Entry)
    → commits t (es ++ fs) ≡ (if commits t es then true else commits t fs)
unfolding commits
commits-append t [] fs = refl
commits-append t (e ∷ es) fs = ground (arith, commits-append t es fs)

module _ {T : Type 0} (insert_tx_id : ℕ → T → Option T) (o : Options)
    (ingests : (t : ℕ) (idx : T) → (idx' : T) × (insert_tx_id t idx ≡ some idx')) where
  abbrev Adds : List ScanRecord → List Entry → Scan T → Scan T → Type 0
  Adds = Gains insert_tx_id o ingests

  Gains-append :
      (rs qs : List ScanRecord) (es fs : List Entry) (before mid after : Scan T)
      → Adds rs es before mid
      → Adds qs fs mid after
      → Adds (rs ++ qs) (es ++ fs) before after
  Gains-append rs qs es fs before mid after g h = record {
    found = h.found ∙ ap (λ l. l ++ qs) g.found ∙ append_assoc before.unconfirmed_records rs qs;
    commits_seen = λ t. ground (arith, g.commits_seen t, h.commits_seen t, commits-append t es fs);
  }

  parse_files-logs :
      (dir : ℕ → Option Bytes) (fs : List LogFile) (scan : Scan T)
      → AreLogs dir fs
      → (after : Scan T) × (parse_files insert_tx_id o dir (ids fs) scan ≡ ok after)
        × Adds (all_records o fs) (all_entries fs) scan after
  unfolding parse_files
  parse_files-logs dir [] scan l = (
    scan,
    refl,
    record {
      found = sym (append-nil scan.unconfirmed_records);
      commits_seen = λ t. unfold commits in refl;
    },
  )
  parse_files-logs dir (f ∷ fs) scan (at, sized, stops, rest) =
      let s = log f.entries ++ f.tail in
      let (mid, parsed, gained) =
        parse_file-log insert_tx_id o ingests (length s + 1) f.f_id 0 f.entries f.tail scan sized
          stops (omega (arith, length-append (log f.entries) f.tail)) in
      let (after, others, gains) = parse_files-logs dir fs mid rest in
      (
        after,
        rw (at, parse_files) (rw (parsed, parse_files) others),
        Gains-append (records o f.f_id 0 f.entries) (all_records o fs) f.entries (all_entries fs)
            scan mid after gained gains,
      )

  -- Where the files are encoded entries one after the other, each file followed by bytes that stop
  -- the reader, and the index takes every transaction ID, `parseDataFiles` outside the sparse mode
  -- succeeds: it returns one record for each entry, in order, with its offset in its file, and
  -- exactly the transactions that have a committed entry.
  pub parse_data_files-logs :
      (dir : ℕ → Option Bytes) (fs : List LogFile) (idx : T) (pos : Map Bytes ℕ)
      → AreLogs dir fs
      → is_sparse o.entry_idx_mode ≡ false
      → (after : Scan T) × (parse_data_files insert_tx_id o dir (ids fs) idx pos ≡ ok after)
        × (after.unconfirmed_records ≡ all_records o fs)
        × ((t : ℕ) → has t after.committed_tx_ids ≡ commits t (all_entries fs))
  unfolding parse_data_files
  parse_data_files-logs dir fs idx pos l dense =
      let start : Scan T = record {
        unconfirmed_records = [];
        committed_tx_ids = [];
        active_committed_tx_ids_idx = idx;
        key_entry_pos_map = pos;
      } in
      let (after, parsed, gains) = parse_files-logs dir fs start l in
      (after, rw dense parsed, gains.found, λ t. ground (arith, gains.commits_seen t, has-empty t))
