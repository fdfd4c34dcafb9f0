-- ===== src/TxSets/Replays.antt =====
-- What indexing makes of the writes of `SAdd` of tx_set.go: `Commit` of tx.go in memory, and a later
-- recovery by db.go.
use nutsdb.Prelude.{
  ℕ, ◌+◌, ◌≡◌, refl, ◌∙◌, ap, sym, some, none, Bool, true, false, List, [], ◌∷◌, if◌then◌else◌, ok,
}
use mathlib.Core.Path.{subst}
use nutsdb.Prelude.Exec
use nutsdb.Prelude.Exec.{◌>>◌, pure}
use nutsdb.Prelude.Maps
use nutsdb.Prelude.Maps.{Map, bytes_key, nat_key, has, lookup-insert}
use nutsdb.Prelude.Words.{Bytes}
use nutsdb.Entries.{Entry, size}
use nutsdb.DataFile.Decode.{stamped}
use nutsdb.Records.{EntryIdxMode, Record, ScanRecord, keeps_values}
use nutsdb.Recovery.{Options, record_of}
use nutsdb.Recovery.Logs.{records}
use nutsdb.Sets.{Slice, get_fnv32, members, add_all, s_add}
use nutsdb.Sets.Members.{hashes}
use nutsdb.Indexing.{
  Structures, Db, replay_set, build_set_idx, build_tree_record, build_other_idxes, build_record,
  build_records,
}
use nutsdb.Committing.{RamMode, is_last, sealed, seal_last, commit_set_idx, index_entry}
use nutsdb.Tx.{Tx}
use nutsdb.TxSets.{add_hashes, in_bucket, tx_s_add}
use nutsdb.TxSets.Added.{
  set_of, IsAdded, with_member, with_member-IsAdded, IsAdded-none, IsAdded-cons, IsAdded-items,
}
use nutsdb.TxSets.News.{
  set_entry, set_entries, AreValid, AreApart, news, hashes-news, news-AreApart, with_writes,
  has-filter, tx_s_add-news,
}

module _ {T Z L : Type 0} (ops : Structures T Z L) where
  -- The indexing at the end of the body of the loop of `Commit`, for entry after entry, each at its
  -- place: the ID of the active file and the offset.
  unfoldable pub index_entries :
      ℕ → Bool → RamMode → (Entry → ℕ × ℕ) → List Entry → Db T Z L → Db T Z L
  index_entries now count_flag mode place [] db = db
  index_entries now count_flag mode place (e ∷ es) db =
      index_entries now count_flag mode place es
        (index_entry ops now count_flag mode (place e).0 e (place e).1 db)

  index_entry-with_member :
      (now : ℕ) (count_flag : Bool) (mode : RamMode) (file_id off : ℕ) (tx : Tx) (clock : ℕ)
      (bucket key : Bytes) (v : Slice) (last : Bool) (db : Db T Z L)
      → (r : Record) × (index_entry ops now count_flag mode file_id
            (sealed last (set_entry tx clock bucket key v))
            off
            db
          ≡ record db { set_idx = with_member bucket key v r db.set_idx })
  unfolding index_entry commit_set_idx replay_set s_add add_all get_fnv32
  index_entry-with_member now count_flag mode file_id off tx clock bucket key v true db = (_, refl)
  index_entry-with_member now count_flag mode file_id off tx clock bucket key v false db = (_, refl)

  index_entries-IsAdded :
      (now : ℕ) (count_flag : Bool) (mode : RamMode) (place : Entry → ℕ × ℕ) (tx : Tx) (clock : ℕ)
      (bucket key : Bytes) (vs : List Slice) (db : Db T Z L)
      → IsAdded bucket key vs db.set_idx
          (index_entries now count_flag mode place
            (seal_last (set_entries tx clock bucket key vs))
            db).set_idx
  unfolding index_entries seal_last
  index_entries-IsAdded now count_flag mode place tx clock bucket key [] db =
      IsAdded-none bucket key db.set_idx
  index_entries-IsAdded now count_flag mode place tx clock bucket key (v ∷ vs) db =
      let es = set_entries tx clock bucket key vs in
      let e = sealed (is_last es) (set_entry tx clock bucket key v) in
      let db' = index_entry ops now count_flag mode (place e).0 e (place e).1 db in
      let (r, step) =
        index_entry-with_member now count_flag mode (place e).0 (place e).1 tx clock bucket key v
          (is_last es) db in
      IsAdded-cons bucket key v vs db.set_idx db'.set_idx
        (index_entries now count_flag mode place (seal_last es) db').set_idx
        (subst (IsAdded bucket key (v ∷ []) db.set_idx) (sym (ap (λ d. d.set_idx) step))
          (with_member-IsAdded bucket key v r db.set_idx))
        (index_entries-IsAdded now count_flag mode place tx clock bucket key vs db')

  -- A record with its entry.
  abbrev with_entry : ℕ → ℕ → Entry → ScanRecord
  with_entry f_id off e = record {
    hint = record { key = e.key; file_id = f_id; meta = e.meta; data_pos = off };
    entry = some e;
    bucket = e.bucket;
  }

  record_of-with_entry :
      (o : Options) (f_id off : ℕ) (e : Entry)
      → keeps_values o.entry_idx_mode ≡ true
      → record_of o f_id off e ≡ with_entry f_id off e
  record_of-with_entry o f_id off e kept =
      ap (λ b. record (with_entry f_id off e) { entry = if b then some e else none }) kept

  build_record-with_member :
      (now : ℕ) (mode : EntryIdxMode) (f_id off : ℕ) (tx : Tx) (clock : ℕ) (bucket key : Bytes)
      (v : Slice) (last : Bool) (db : Db T Z L)
      → (r : Record) × (build_record ops now mode
            (with_entry f_id off (stamped (sealed last (set_entry tx clock bucket key v))))
            db
          ≡ (
            ok tt,
            record db {
              set_idx = with_member bucket key v r db.set_idx;
              key_count = db.key_count + 1;
            },
          ))
  unfolding build_record build_tree_record build_other_idxes build_set_idx replay_set s_add add_all
      get_fnv32
  build_record-with_member now mode f_id off tx clock bucket key v true db = (_, refl)
  build_record-with_member now mode f_id off tx clock bucket key v false db = (_, refl)

  tx_id-sealed : (last : Bool) (e : Entry) → (stamped (sealed last e)).meta.tx_id ≡ e.meta.tx_id
  tx_id-sealed true e = refl
  tx_id-sealed false e = refl

  build_records-first :
      (now : ℕ) (mode : EntryIdxMode) (ids : Map ℕ (Unit {0})) (r : ScanRecord)
      (rs : List ScanRecord) (db db' : Db T Z L)
      → has r.hint.meta.tx_id ids ≡ true
      → build_record ops now mode r db ≡ (ok tt, db')
      → build_records ops now mode ids (r ∷ rs) db ≡ build_records ops now mode ids rs db'
  unfolding build_records
  build_records-first now mode ids r rs db db' done step =
      ap
        (λ b.
          ((if b then build_record ops now mode r else pure tt)
              >> build_records ops now mode ids rs)
            db)
        done
      ∙ ap (λ (m, d). Exec.continue m d (λ u. build_records ops now mode ids rs)) step

  build_records-IsAdded :
      (now : ℕ) (o : Options) (ids : Map ℕ (Unit {0})) (f_id off : ℕ) (tx : Tx) (clock : ℕ)
      (bucket key : Bytes) (vs : List Slice) (db : Db T Z L)
      → keeps_values o.entry_idx_mode ≡ true
      → has tx.id ids ≡ true
      → (after : Db T Z L) × (build_records ops now o.entry_idx_mode ids
            (records o f_id off (seal_last (set_entries tx clock bucket key vs)))
            db
          ≡ (ok tt, after))
        × IsAdded bucket key vs db.set_idx after.set_idx
  unfolding build_records seal_last
  build_records-IsAdded now o ids f_id off tx clock bucket key [] db kept done =
      (db, refl, IsAdded-none bucket key db.set_idx)
  build_records-IsAdded now o ids f_id off tx clock bucket key (v ∷ vs) db kept done =
      let es = set_entries tx clock bucket key vs in
      let e = sealed (is_last es) (set_entry tx clock bucket key v) in
      let (r, step) =
        build_record-with_member now o.entry_idx_mode f_id off tx clock bucket key v (is_last es)
          db in
      let idx = with_member bucket key v r db.set_idx in
      let db' = record db { set_idx = idx; key_count = db.key_count + 1 } in
      let (after, rest, added) =
        build_records-IsAdded now o ids f_id (off + size e) tx clock bucket key vs db' kept done in
      (
        after,
        build_records-first now o.entry_idx_mode ids (record_of o f_id off (stamped e))
              (records o f_id (off + size e) (seal_last es)) db db'
              (ap (λ t. has t ids) (tx_id-sealed (is_last es) (set_entry tx clock bucket key v))
                ∙ done)
              (ap (λ x. build_record ops now o.entry_idx_mode x db)
                  (record_of-with_entry o f_id off (stamped e) kept)
                ∙ step)
            ∙ rest,
        IsAdded-cons bucket key v vs db.set_idx idx after.set_idx
            (with_member-IsAdded bucket key v r db.set_idx) added,
      )

  -- `SAdd` in an open, writable transaction, of items whose writes `put` accepts, succeeds. It puts
  -- one write for each hash among the items that the committed set does not have, and no write
  -- else. Let the last of these writes be marked as committed. Then, in both modes that keep all
  -- indexes in memory and wherever each write stands in the files, what `Commit` does for each of
  -- them at the end of its loop adds the items to the members of the key and changes no other
  -- member, in any bucket and under any key. And from the same indexes the loop of `buildHintIdx`,
  -- in the mode that keeps the values, on the records of these writes, which stand one behind the
  -- other in a file, and with the transaction among the committed ones, succeeds and does the same.
  pub tx_s_add_refines :
      (db : Db T Z L) (tx : Tx) (now later : ℕ) (bucket key : Bytes) (items : List Slice)
      (count_flag : Bool) (mode : RamMode) (place : Entry → ℕ × ℕ) (o : Options)
      (ids : Map ℕ (Unit {0})) (f_id off : ℕ)
      → tx.has_db ≡ true
      → tx.writable ≡ true
      → AreValid tx now bucket key items
      → keeps_values o.entry_idx_mode ≡ true
      → has tx.id ids ≡ true
      → (new : List Slice) × (after : Db T Z L) × (tx_s_add db.set_idx now bucket key items tx
          ≡ (ok tt, with_writes tx (set_entries tx now bucket key new)))
        × AreApart new
        × ((h : ℕ)
            → hashes new h
              ≡ (if has h (members key (set_of bucket db.set_idx)) then false else hashes items h))
        × IsAdded bucket key items db.set_idx
            (index_entries later count_flag mode place
              (seal_last (set_entries tx now bucket key new))
              db).set_idx
        × (build_records ops later o.entry_idx_mode ids
              (records o f_id off (seal_last (set_entries tx now bucket key new)))
              db
            ≡ (ok tt, after))
        × IsAdded bucket key items db.set_idx after.set_idx
  tx_s_add_refines db tx now later bucket key items count_flag mode place o ids f_id off has_db
        writable accepted kept done =
      let filter = add_hashes (in_bucket (Maps.lookup bucket db.set_idx) key) [] in
      let new = news filter items in
      let covered : (h : ℕ)
          → hashes new h
            ≡ (if has h (members key (set_of bucket db.set_idx)) then false else hashes items h) =
        λ h. rw (← has-filter db.set_idx bucket key h) (hashes-news h filter items) in
      let (after, built, added) =
        build_records-IsAdded later o ids f_id off tx now bucket key new db kept done in
      (
        new,
        after,
        tx_s_add-news db.set_idx tx now bucket key items has_db writable accepted,
        news-AreApart filter items,
        covered,
        IsAdded-items bucket key new items db.set_idx _ covered
            (index_entries-IsAdded later count_flag mode place tx now bucket key new db),
        built,
        IsAdded-items bucket key new items db.set_idx after.set_idx covered added,
      )
