-- ===== src/Storage/Rotation.antt =====
-- What `rotateActiveFile` of tx.go leaves, outside the sparse mode.
use nutsdb.Prelude.{
  ℕ, ◌+◌, ◌-◌, ◌<◌, ◌≡◌, ◌≢◌, refl, ap, false, none, [], arith, ◌==◌, ltb, inl, inr, Option-cases,
  Bool-cases, length, replicate, length-replicate, ok,
}
use nutsdb.Prelude.Maps
use nutsdb.Prelude.Maps.{nat_key, lookup-insert, lookup-insert_self}
use nutsdb.Prelude.Words.{Bytes}
use nutsdb.Storage.{
  Storage, contents, truncate, write_at, write_data, get_data_file, rotate_active_file,
}
use nutsdb.Storage.Writes.{IsWrittenTo}

truncate-nil : (n : ℕ) → truncate n [] ≡ replicate n 0
unfolding truncate
truncate-nil n = let whole : n - 0 ≡ n = omega arith in ap (λ (k : ℕ). replicate {A = ℕ} k 0) whole

-- `writeData` touches no file but the active one.
pub write_data-elsewhere :
    (bs : Bytes) (s : Storage) (j : ℕ)
    → s.active_file.file_id ≢ j
    → (Maps.lookup j (write_data bs s).1.files ≡ Maps.lookup j s.files)
      × ((write_data bs s).1.max_file_id ≡ s.max_file_id)
unfolding write_data
write_data-elsewhere bs s j ne = elim (Bool-cases (length bs == 0)) [
  | inl empty ↦ rw empty (refl, refl)
  | inr some_bytes ↦
      elim (Bool-cases (ltb s.segment_size (s.active_file.actual_size + length bs))) [
        | inl over ↦ rw (some_bytes, over) (refl, refl)
        | inr fits ↦
            elim (Option-cases (
              write_at s.rw_mode bs s.active_file.actual_size (contents s.active_file.file_id s))) [
                | inl failed ↦ rw (some_bytes, fits) (rw (failed, write_data) (refl, refl))
                | inr (m, put) ↦
                    rw (some_bytes, fits)
                      (rw (put, write_data)
                        (ground (arith, lookup-insert s.active_file.file_id j m s.files), refl))
              ]
      ]
]

-- The storage after a rotation to the file `next`.
abbrev rotated : ℕ → Storage → Storage
rotated next s = record s {
  max_file_id = next;
  files = Maps.insert next (truncate s.segment_size (contents next s)) s.files;
  active_file = record { file_id = next; write_off = 0; actual_size = 0 };
}

rotate_active_file-rotated :
    (s : Storage)
    → 0 < s.segment_size
    → rotate_active_file s ≡ (ok tt, rotated (s.max_file_id + 1) s)
unfolding rotate_active_file get_data_file
rotate_active_file-rotated s h =
    let some_room : (s.segment_size == 0) ≡ false = ground arith in rw some_room refl

contents-rotated :
    (next j : ℕ) (s : Storage) → next ≢ j → contents j (rotated next s) ≡ contents j s
contents-rotated next j s h =
    let other : Maps.lookup j (rotated next s).files ≡ Maps.lookup j s.files =
      ground (arith, lookup-insert next j (truncate s.segment_size (contents next s)) s.files) in
    rw (other, contents) refl

pub rotate_active_file-IsWrittenTo :
    (s : Storage)
    → 0 < s.segment_size
    → Maps.lookup (s.max_file_id + 1) s.files ≡ none
    → (t : Storage) × (rotate_active_file s ≡ (ok tt, t))
      × IsWrittenTo [] (replicate s.segment_size 0) t
      × (t.active_file.file_id ≡ s.max_file_id + 1)
      × (t.max_file_id ≡ s.max_file_id + 1)
      × ((j : ℕ) → s.max_file_id + 1 ≢ j → contents j t ≡ contents j s)
rotate_active_file-IsWrittenTo s h missing =
    let next = s.max_file_id + 1 in
    let made = truncate s.segment_size (contents next s) in
    let blank : made ≡ replicate s.segment_size 0 =
      rw (missing, contents) (truncate-nil s.segment_size) in
    (
      rotated next s,
      rotate_active_file-rotated s h,
      record {
        holds = rw (lookup-insert_self next made s.files, contents) blank;
        at_write_off = refl;
        at_actual_size = refl;
        whole = omega (arith, length-replicate {A = ℕ} s.segment_size 0);
      },
      refl,
      refl,
      λ j ne. contents-rotated next j s ne,
    )
