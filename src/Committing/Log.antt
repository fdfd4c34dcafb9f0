-- ===== src/Committing/Log.antt =====
-- What `Commit` of tx.go leaves in the active file, where the pending writes fit behind its entries.
use mathlib.Core.Path.{subst}
use mathlib.Core.List.{append_assoc, append-nil}
use nutsdb.Prelude.{
  ℕ, ◌+◌, ◌≤◌, ◌≡◌, some, refl, sym, ◌∙◌, Bool, true, false, not, List, [], ◌∷◌, ◌++◌, arith, ltb,
  ◌==◌, if◌then◌else◌, inl, inr, Bool-cases, Option-cases, length, length-append, drop, Outcome, ok,
  err, panic,
}
use nutsdb.Prelude.Exec.{◌>>◌, pure, continue}
use nutsdb.Prelude.Maps
use nutsdb.Prelude.Maps.{bytes_key, nat_key}
use nutsdb.Prelude.Words.{Bytes}
use nutsdb.Entries.{Entry, size}
use nutsdb.Entries.Layout.{IsSized, encoded, encode-encoded}
use nutsdb.Recovery.Logs.{log, AreSized, length-encoded}
use nutsdb.Storage.Writes.{IsWrittenTo, write_data-IsWrittenTo}
use nutsdb.Records.{get_new_key, data_structure_sorted_set, data_structure_none}
use nutsdb.Indexing.{Structures, Db, get_or}
use nutsdb.Tx.{TxError, Tx, running, Lock}
use nutsdb.Committing.{
  RamMode, World, Method, on_db, delete_buckets, sealed, make_room, note_position, append_entry,
  finish, index_entry, commit_entry, commit_entries, seal_last, commit_sorted_set_idx, build_idxes,
  commit_writes, commit_open, commit,
}

size-sealed : (e : Entry) → size (sealed true e) ≡ size e
unfolding size
size-sealed e = refl

module _ {T Z L : Type 0} (ops : Structures T Z L) where
  note_position-Db :
      (e : Entry) (off : ℕ) (w : World T Z L)
      → (d : Db T Z L) × (note_position ops e off w ≡ (ok tt, record w { db = d }))
  unfolding note_position
  note_position-Db e off w = elim (Bool-cases (e.meta.ds == 2)) [
    | inl tree ↦ (
      record w.db {
        key_entry_pos_map = Maps.insert (get_new_key e.bucket e.key) off w.db.key_entry_pos_map;
      },
      rw tree refl,
    )
    | inr other ↦ (w.db, rw other refl)
  ]

  append_entry-encoded :
      (e : Entry) (buff : Bytes) (w : World T Z L)
      → IsSized e
      → append_entry ops e buff w ≡ (ok (buff ++ encoded e), w)
  unfolding append_entry
  append_entry-encoded e buff w s = rw (encode-encoded e s, append_entry) refl

  -- The body of the loop for an entry that fits and is not the last: nothing is written yet.
  commit_entry-buffers :
      (now : ℕ) (mode : RamMode) (e : Entry) (buff : Bytes) (w : World T Z L)
      → IsSized e
      → w.storage.active_file.actual_size + length buff + size e ≤ w.storage.segment_size
      → (d : Db T Z L) × (commit_entry ops now mode false e buff w
          ≡ (ok (buff ++ encoded e), record w { db = d }))
  unfolding commit_entry make_room finish
  commit_entry-buffers now mode e buff w s h =
      let small : ltb w.storage.segment_size (size e) ≡ false = ground arith in
      let room : ltb w.storage.segment_size
            (w.storage.active_file.actual_size + length buff + size e)
          ≡ false =
        ground arith in
      let (d, noted) = note_position-Db e (w.storage.active_file.write_off + length buff) w in
      (
        index_entry ops now (not w.is_merging) mode w.storage.active_file.file_id e
            (w.storage.active_file.write_off + length buff) d,
        rw small
            (rw room (rw noted (rw (append_entry-encoded e buff (record w { db = d }) s) refl))),
      )

  commit_entry-writes :
      (now : ℕ) (mode : RamMode) (e : Entry) (buff done free : Bytes) (w : World T Z L)
      → IsSized (sealed true e)
      → IsWrittenTo done free w.storage
      → length buff + size e ≤ length free
      → (w' : World T Z L) × (commit_entry ops now mode true e buff w
          ≡ (ok (buff ++ encoded (sealed true e)), w'))
        × IsWrittenTo
            (done ++ (buff ++ encoded (sealed true e)))
            (drop (length (buff ++ encoded (sealed true e))) free)
            w'.storage
  unfolding commit_entry make_room finish
  commit_entry-writes now mode e buff done free w s p h =
      let small : ltb w.storage.segment_size (size e) ≡ false = ground (arith, p.whole) in
      let room : ltb w.storage.segment_size
            (w.storage.active_file.actual_size + length buff + size e)
          ≡ false =
        ground (arith, p.whole, p.at_actual_size) in
      let off = w.storage.active_file.write_off + length buff in
      let (d, noted) = note_position-Db e off w in
      let bs = buff ++ encoded (sealed true e) in
      let (t, put, there, kept_size, kept_id) = write_data-IsWrittenTo bs done free w.storage p (
        omega (
          arith,
          length-append buff (encoded (sealed true e)),
          length-encoded (sealed true e) s,
          size-sealed e,
        )) in
      let marked = record d { committed_tx_ids = Maps.insert e.meta.tx_id tt d.committed_tx_ids } in
      (
        record w {
          storage = t;
          db =
              index_entry ops now (not w.is_merging) mode t.active_file.file_id (sealed true e) off
                marked;
        },
        rw small (
            rw room (
              rw noted (
                rw (append_entry-encoded (sealed true e) buff (record w { db = d }) s)
                  (rw put refl)))),
        there,
      )

  -- The loop, for writes that fit behind what the active file holds and what the buffer holds.
  commit_entries-writes :
      (now : ℕ) (mode : RamMode) (e : Entry) (es : List Entry) (buff done free : Bytes)
      (w : World T Z L)
      → AreSized (seal_last (e ∷ es))
      → IsWrittenTo done free w.storage
      → length buff + length (log (seal_last (e ∷ es))) ≤ length free
      → (w' : World T Z L) × (commit_entries ops now mode (e ∷ es) buff w ≡ (ok tt, w'))
        × IsWrittenTo
            (done ++ (buff ++ log (seal_last (e ∷ es))))
            (drop (length (buff ++ log (seal_last (e ∷ es)))) free)
            w'.storage
  unfolding commit_entries seal_last
  commit_entries-writes now mode e [] buff done free w (s, k, ss) p h =
      let (w', made, there) = commit_entry-writes now mode e buff done free w s p (
        omega (
          arith,
          length-append (encoded (sealed true e)) [],
          length-encoded (sealed true e) s,
          size-sealed e,
        )) in
      (
        w',
        rw made refl,
        subst (λ l. IsWrittenTo (done ++ (buff ++ l)) (drop (length (buff ++ l)) free) w'.storage)
            (sym (append-nil (encoded (sealed true e)))) there,
      )
  commit_entries-writes now mode e (f ∷ es) buff done free w (s, k, ss) p h =
      let (d, made) = commit_entry-buffers now mode e buff w s (
        omega (
          arith,
          p.whole,
          p.at_actual_size,
          length-append (encoded e) (log (seal_last (f ∷ es))),
          length-encoded e s,
        )) in
      let (w', rest, there) =
        commit_entries-writes now mode f es (buff ++ encoded e) done free (record w { db = d }) ss p
          (omega (
            arith,
            length-append buff (encoded e),
            length-append (encoded e) (log (seal_last (f ∷ es))),
          )) in
      (
        w',
        rw made rest,
        subst (λ l. IsWrittenTo (done ++ l) (drop (length l) free) w'.storage)
            (append_assoc buff (encoded e) (log (seal_last (f ∷ es)))) there,
      )

  -- A step that leaves the files alone.
  abbrev Keeps : Method ops (Unit {0}) → Type 0
  Keeps m = (w : World T Z L) → (m w).1.storage ≡ w.storage

  continue-Keeps :
      (r : Outcome TxError (Unit {0})) (w : World T Z L) (n : Method ops (Unit {0}))
      → Keeps n
      → (continue r w (λ x. n)).1.storage ≡ w.storage
  continue-Keeps (ok a) w n k = k w
  continue-Keeps (err x) w n k = refl
  continue-Keeps panic w n k = refl

  Keeps-then : (m n : Method ops (Unit {0})) → Keeps m → Keeps n → Keeps (m >> n)
  Keeps-then m n j k w = continue-Keeps (m w).0 (m w).1 n k ∙ j w

  Keeps-when : (b : Bool) (m : Method ops (Unit {0})) → Keeps m → Keeps (if b then m else pure tt)
  Keeps-when true m k w = k w
  Keeps-when false m k w = refl

  commit_sorted_set_idx-Keeps : (e : Entry) → Keeps (commit_sorted_set_idx ops e)
  unfolding commit_sorted_set_idx
  commit_sorted_set_idx-Keeps e w =
      let z = get_or ops.new_sorted_set (Maps.lookup e.bucket w.db.sorted_set_idx) in
      elim (Option-cases (ops.replay_sorted_set e.meta.flag (some e) z)) [
        | inl failed ↦ rw (failed, commit_sorted_set_idx) refl
        | inr (z', done) ↦ rw (done, commit_sorted_set_idx) refl
      ]

  build_idxes-Keeps : (es : List Entry) → Keeps (build_idxes ops es)
  unfolding build_idxes
  build_idxes-Keeps [] w = refl
  build_idxes-Keeps (e ∷ es) w =
      let sorted : Method ops (Unit {0}) =
        if e.meta.ds == data_structure_sorted_set then commit_sorted_set_idx ops e else pure tt in
      let deletes : Method ops (Unit {0}) =
        on_db ops
          (λ db. if e.meta.ds == data_structure_none then delete_buckets ops e db else db) in
      let counts : Method ops (Unit {0}) =
        on_db ops (λ db. record db { key_count = db.key_count + 1 }) in
      Keeps-then sorted (deletes >> (counts >> build_idxes ops es))
        (Keeps-when (e.meta.ds == data_structure_sorted_set) (commit_sorted_set_idx ops e)
          (commit_sorted_set_idx-Keeps e))
        (Keeps-then deletes (counts >> build_idxes ops es) (λ v. refl)
          (Keeps-then counts (build_idxes ops es) (λ v. refl) (build_idxes-Keeps es)))
        w

  commit_writes-IsWrittenTo :
      (now : ℕ) (mode : RamMode) (es : List Entry) (done free : Bytes) (w : World T Z L)
      → AreSized (seal_last es)
      → IsWrittenTo done free w.storage
      → length (log (seal_last es)) ≤ length free
      → IsWrittenTo
          (done ++ log (seal_last es))
          (drop (length (log (seal_last es))) free)
          (commit_writes ops now mode es w).1.storage
  unfolding commit_writes
  commit_writes-IsWrittenTo now mode [] done free w s p h =
      let same : commit_writes ops now mode [] w ≡ (ok tt, w) =
        unfold commit_writes commit_entries seal_last build_idxes in refl in
      let nothing : seal_last [] ≡ [] = unfold seal_last in refl in
      rw (same, nothing) (rw (append-nil done) p)
  commit_writes-IsWrittenTo now mode (e ∷ es) done free w s p h =
      let (w', made, there) =
        commit_entries-writes now mode e es [] done free w s p (omega arith) in
      rw (made, commit_writes) (rw (build_idxes-Keeps (seal_last (e ∷ es)) w') there)

  -- `Commit` of a running transaction whose writes, with the sizes of their parts and a key each,
  -- fit behind the entries of the active file writes them there, one after the other, the last one
  -- marked as committed; the bytes behind them stay, and both offsets of the file move to the end
  -- of what is written. This holds whatever the indexing gives.
  pub commit-IsWrittenTo :
      (now : ℕ) (mode : RamMode) (tx : Tx) (l : Lock) (done free : Bytes) (w : World T Z L)
      → tx.status ≡ running
      → tx.has_db ≡ true
      → AreSized (seal_last tx.pending_writes)
      → IsWrittenTo done free w.storage
      → length (log (seal_last tx.pending_writes)) ≤ length free
      → IsWrittenTo
          (done ++ log (seal_last tx.pending_writes))
          (drop (length (log (seal_last tx.pending_writes))) free)
          (commit ops now mode tx l w).1.storage
  unfolding commit commit_open
  commit-IsWrittenTo now mode tx l done free w r d s p h =
      let kept : (commit ops now mode tx l w).1
          ≡ (commit_writes ops now mode tx.pending_writes w).1 =
        rw (r, commit) (rw d refl) in
      rw kept (commit_writes-IsWrittenTo now mode tx.pending_writes done free w s p h)
