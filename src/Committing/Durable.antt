-- ===== src/Committing/Durable.antt =====
-- A commit of tx.go and the recovery of db.go: what the one writes the other finds.
use nutsdb.Prelude.{
  ℕ, ◌+◌, ◌≤◌, ◌≡◌, refl, ap, sym, ◌∙◌, true, if◌then◌else◌, length-append, some, List, [], ◌∷◌,
  ◌++◌, arith, length, drop, ok,
}
use mathlib.Core.Path.{subst}
use mathlib.Core.List.{append_assoc}
use nutsdb.Prelude.Words.{Bytes}
use nutsdb.Prelude.Maps.{nat_key, has}
use nutsdb.Entries.{Entry}
use nutsdb.Entries.Layout.{encoded}
use nutsdb.Recovery.{Options, Scan, parse_file}
use nutsdb.Recovery.Logs.{log, AreSized, Stops, records, commits, parse_file-log}
use nutsdb.Storage.{contents}
use nutsdb.Storage.Writes.{IsWrittenTo}
use nutsdb.Indexing.{Structures}
use nutsdb.Tx.{Tx, running, Lock}
use nutsdb.Committing.{RamMode, World, seal_last, commit}
use nutsdb.Committing.Log.{commit-IsWrittenTo}

log-append : (es fs : List Entry) → log (es ++ fs) ≡ log es ++ log fs
log-append [] fs = refl
log-append (e ∷ es) fs =
    ap (λ l. encoded e ++ l) (log-append es fs) ∙ sym (append_assoc (encoded e) (log es) (log fs))

AreSized-append : (es fs : List Entry) → AreSized es → AreSized fs → AreSized (es ++ fs)
AreSized-append [] fs s t = t
AreSized-append (e ∷ es) fs (s, k, r) t = (s, k, AreSized-append es fs r t)

module _ {T Z L : Type 0} (ops : Structures T Z L) where
  -- Where the active file holds the entries `es` and the writes of a running transaction fit behind
  -- them, a scan of that file after `Commit` finds the entries, and behind them all writes of the
  -- transaction, of which the last is marked as committed, and the transactions with a committed
  -- entry among them. All entries must have the sizes of their parts and a key, the bytes that
  -- follow must stop the reader, and the index of transaction IDs must take every ID.
  pub commit-recovered :
      (now : ℕ) (mode : RamMode) (tx : Tx) (l : Lock) (es : List Entry) (free : Bytes)
      (w : World T Z L) (o : Options) (f_id : ℕ) (scan : Scan T)
      → ((t : ℕ) (idx : T) → (idx' : T) × (ops.insert_tx_id t idx ≡ some idx'))
      → tx.status ≡ running
      → tx.has_db ≡ true
      → AreSized es
      → AreSized (seal_last tx.pending_writes)
      → IsWrittenTo (log es) free w.storage
      → length (log (seal_last tx.pending_writes)) ≤ length free
      → Stops (drop (length (log (seal_last tx.pending_writes))) free)
      → (after : Scan T) × (parse_file ops.insert_tx_id o
            (length (
                contents
                  (commit ops now mode tx l w).1.storage.active_file.file_id
                  (commit ops now mode tx l w).1.storage)
              + 1)
            f_id
            0
            (contents
              (commit ops now mode tx l w).1.storage.active_file.file_id
              (commit ops now mode tx l w).1.storage)
            scan
          ≡ ok after)
        × (after.unconfirmed_records
            ≡ scan.unconfirmed_records ++ records o f_id 0 (es ++ seal_last tx.pending_writes))
        × ((t : ℕ)
            → has t after.committed_tx_ids ≡ (
                if commits t (es ++ seal_last tx.pending_writes)
                then true
                else has t scan.committed_tx_ids))
  commit-recovered now mode tx l es free w o f_id scan ingests r d sized new p h stops =
      let done = seal_last tx.pending_writes in
      let after_commit = (commit ops now mode tx l w).1.storage in
      let rest = drop (length (log done)) free in
      let there = commit-IsWrittenTo ops now mode tx l (log es) free w r d new p h in
      let file : contents after_commit.active_file.file_id after_commit ≡ log (es ++ done) ++ rest =
        there.holds ∙ ap (λ m. m ++ rest) (sym (log-append es done)) in
      let (after, parsed, gains) =
        parse_file-log ops.insert_tx_id o ingests (length (log (es ++ done) ++ rest) + 1) f_id 0
          (es ++ done) rest scan (AreSized-append es done sized new) stops
          (omega (arith, length-append (log (es ++ done)) rest)) in
      (
        after,
        subst (λ m. parse_file ops.insert_tx_id o (length m + 1) f_id 0 m scan ≡ ok after)
            (sym file) parsed,
        gains.found,
        gains.commits_seen,
      )
