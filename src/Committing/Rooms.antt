-- ===== src/Committing/Rooms.antt =====
-- How `Commit` of tx.go goes on to the next file where an entry does not fit any more.
use mathlib.Core.Path.{subst}
use nutsdb.Prelude.{
  ◌+◌, ◌<◌, ◌≤◌, ◌≡◌, ◌≢◌, refl, ap, sym, ◌∙◌, true, none, [], ◌++◌, arith, ltb, length, drop,
  replicate, ok,
}
use nutsdb.Prelude.Maps
use nutsdb.Prelude.Maps.{nat_key, lookup-insert}
use nutsdb.Prelude.Words.{Bytes}
use nutsdb.Entries.{Entry, size}
use nutsdb.Storage.{contents}
use nutsdb.Storage.Writes.{IsWrittenTo, write_data-IsWrittenTo}
use nutsdb.Storage.Rotation.{write_data-elsewhere, rotate_active_file-IsWrittenTo}
use nutsdb.Indexing.{Structures}
use nutsdb.Committing.{World, make_room}

module _ {T Z L : Type 0} (ops : Structures T Z L) where
  -- Where an entry does not fit into the active file behind the buffer, `Commit` writes the buffer,
  -- which fits, behind what the file holds, and goes on to the file with the next ID, with an empty
  -- buffer: that file is all zero bytes and as long as a segment, and both offsets are 0. The
  -- active file is the one with the greatest ID, and there is no file with the next one.
  pub make_room-rotates :
      (e : Entry) (buff done free : Bytes) (w : World T Z L)
      → IsWrittenTo done free w.storage
      → length buff ≤ length free
      → w.storage.segment_size < w.storage.active_file.actual_size + length buff + size e
      → 0 < w.storage.segment_size
      → w.storage.active_file.file_id ≡ w.storage.max_file_id
      → Maps.lookup (w.storage.max_file_id + 1) w.storage.files ≡ none
      → (w' : World T Z L) × (make_room ops e buff w ≡ (ok [], w'))
        × (contents w.storage.max_file_id w'.storage ≡ (done ++ buff) ++ drop (length buff) free)
        × IsWrittenTo [] (replicate w.storage.segment_size 0) w'.storage
        × (w'.storage.active_file.file_id ≡ w.storage.max_file_id + 1)
  unfolding make_room
  make_room-rotates e buff done free w p h full some_size newest missing =
      let over : ltb w.storage.segment_size
            (w.storage.active_file.actual_size + length buff + size e)
          ≡ true =
        ground arith in
      let (t, put, there, same_size, same_id) =
        write_data-IsWrittenTo buff done free w.storage p h in
      let next = w.storage.max_file_id + 1 in
      let apart : w.storage.active_file.file_id ≢ next = λ q. absurd (omega arith) in
      let (others, same_max) = write_data-elsewhere buff w.storage next apart in
      let t_max : t.max_file_id ≡ w.storage.max_file_id =
        ap (λ r. r.1.max_file_id) (sym put) ∙ same_max in
      let t_missing : Maps.lookup (t.max_file_id + 1) t.files ≡ none =
        ap (λ n. Maps.lookup (n + 1) t.files) t_max
        ∙ ap (λ r. Maps.lookup next r.1.files) (sym put)
        ∙ others
        ∙ missing in
      let (u, turned, blank, new_id, new_max, kept) =
        rotate_active_file-IsWrittenTo t (omega arith) t_missing in
      (
        record w { storage = u },
        rw over (rw put (rw turned refl)),
        kept w.storage.max_file_id (λ q. absurd (omega arith))
            ∙ ap (λ n. contents n t) (sym newest ∙ sym same_id)
            ∙ there.holds,
        subst (λ n. IsWrittenTo [] (replicate n 0) u) same_size blank,
        new_id ∙ ap (λ n. n + 1) t_max,
      )
