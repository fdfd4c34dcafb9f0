-- ===== src/Storage/Writes.antt =====
-- What `writeData` of tx.go leaves in the active file.
use mathlib.Core.Path.{subst}
use mathlib.Core.List.{append_assoc, append-nil}
use nutsdb.Prelude.{
  ℕ, ◌+◌, ◌-◌, ◌≤◌, ◌<◌, ◌≡◌, refl, ap, sym, ◌∙◌, false, some, [], ◌∷◌, ◌++◌, arith, leb, ltb, ◌==◌,
  length, length-append, take, drop, take_append, drop_append, drop-drop, length-drop, zero, suc,
  ok, inl, inr, Bool-cases,
}
use nutsdb.Prelude.Maps.{nat_key, lookup-insert_self}
use nutsdb.Prelude.Words.{Bytes}
use nutsdb.Storage.{
  RwMode, file_io_mode, mmap_mode, Storage, contents, truncate, write_at, written, write_data,
}

-- The active file holds the bytes up to both of its offsets, and is as long as a segment.
pub record IsWrittenTo (done free : Bytes) (s : Storage) : Type 0 where
  pub holds : contents s.active_file.file_id s ≡ done ++ free
  pub at_write_off : s.active_file.write_off ≡ length done
  pub at_actual_size : s.active_file.actual_size ≡ length done
  pub whole : length done + length free ≡ s.segment_size

truncate-long : (n : ℕ) (m : Bytes) → n ≤ length m → truncate n m ≡ m
unfolding truncate
truncate-long n m h = let e : n - length m ≡ 0 = omega arith in rw e (append-nil m)

take-long : (n : ℕ) (m : Bytes) → length m ≤ n → take n m ≡ m
take-long zero [] h = refl
take-long zero (x ∷ m) h = absurd (omega arith)
take-long (suc n) [] h = refl
take-long (suc n) (x ∷ m) h = ap (◌∷◌ x) (take-long n m (omega arith))

drop-behind : (n : ℕ) (done free : Bytes) → drop (length done + n) (done ++ free) ≡ drop n free
drop-behind n done free =
    sym (drop-drop n (length done) (done ++ free)) ∙ ap (drop n) (drop_append done free)

write_at-middle :
    (rw_mode : RwMode) (bs done free : Bytes)
    → 0 < length bs
    → length bs ≤ length free
    → write_at rw_mode bs (length done) (done ++ free)
      ≡ some ((done ++ bs) ++ drop (length bs) free)
unfolding write_at
write_at-middle file_io_mode bs done free p h =
    rw
      (
        truncate-long (length done) (done ++ free) (omega (arith, length-append done free)),
        take_append done free,
        drop-behind (length bs) done free,
      )
      (ap some (sym (append_assoc done bs (drop (length bs) free))))
write_at-middle mmap_mode bs done free p h =
    let inside : leb (length (done ++ free)) (length done) ≡ false =
      ground (arith, length-append done free) in
    let fits : take (length (done ++ free) - length done) bs ≡ bs =
      take-long (length (done ++ free) - length done) bs (omega (arith, length-append done free)) in
    rw inside (
      rw (fits, take_append done free)
        (rw (drop-behind (length bs) done free)
          (ap some (sym (append_assoc done bs (drop (length bs) free))))))

length-zero : (m : Bytes) → length m ≡ 0 → m ≡ []
length-zero [] h = refl
length-zero (x ∷ m) h = absurd (omega arith)

written-IsWrittenTo :
    (bs done free : Bytes) (s : Storage)
    → IsWrittenTo done free s
    → length bs ≤ length free
    → IsWrittenTo
        (done ++ bs)
        (drop (length bs) free)
        (written bs ((done ++ bs) ++ drop (length bs) free) s)
written-IsWrittenTo bs done free s w h = record {
  holds =
      rw
        (
          lookup-insert_self s.active_file.file_id ((done ++ bs) ++ drop (length bs) free) s.files,
          contents,
        )
        refl;
  at_write_off = omega (arith, w.at_write_off, length-append done bs);
  at_actual_size = omega (arith, w.at_actual_size, length-append done bs);
  whole = omega (arith, w.whole, length-append done bs, length-drop (length bs) free);
}

-- `writeData` of bytes that fit behind what the active file holds puts them there, over a plain
-- file and over a mapping, leaves the bytes behind them, and moves both offsets to their end; the
-- file's ID and the segment's size stay.
pub write_data-IsWrittenTo :
    (bs done free : Bytes) (s : Storage)
    → IsWrittenTo done free s
    → length bs ≤ length free
    → (t : Storage) × (write_data bs s ≡ (ok tt, t))
      × IsWrittenTo (done ++ bs) (drop (length bs) free) t
      × (t.segment_size ≡ s.segment_size)
      × (t.active_file.file_id ≡ s.active_file.file_id)
unfolding write_data
write_data-IsWrittenTo bs done free s w h = elim (Bool-cases (length bs == 0)) [
  | inl empty ↦
      let nothing : bs ≡ [] = length-zero bs (ground arith) in
      (
        s,
        rw empty refl,
        subst (λ x. IsWrittenTo (done ++ x) (drop (length x) free) s) (sym nothing)
            (rw (append-nil done) w),
        refl,
        refl,
      )
  | inr some_bytes ↦
      let m = (done ++ bs) ++ drop (length bs) free in
      let fits : ltb s.segment_size (s.active_file.actual_size + length bs) ≡ false =
        ground (arith, w.whole, w.at_actual_size) in
      let put : write_at s.rw_mode bs s.active_file.actual_size (contents s.active_file.file_id s)
          ≡ some m =
        rw (w.at_actual_size, w.holds) (write_at-middle s.rw_mode bs done free (ground arith) h) in
      (
        written bs m s,
        rw (some_bytes, fits) (rw (put, write_data) refl),
        written-IsWrittenTo bs done free s w h,
        refl,
        refl,
      )
]
