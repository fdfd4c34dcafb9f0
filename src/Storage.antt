-- ===== src/Storage.antt =====
-- Where transactions write: the data files, the active one with its offsets, and the functions of
-- tx.go, datafile.go, file_manager.go and utils.go that write them. The operating system's calls
-- do not fail.
pub mod Writes
pub mod Rotation
use nutsdb.Prelude.{
  ℕ, ◌+◌, ◌-◌, Bool, true, false, Option, none, some, List, [], ◌∷◌, ◌++◌, leb, ltb, ◌==◌,
  if◌then◌else◌, length, take, drop, replicate, Outcome, ok, err,
}
use nutsdb.Prelude.Exec
use nutsdb.Prelude.Exec.{Exec, ◌>>=◌, ◌>>◌, fail, modify}
use nutsdb.Prelude.Maps
use nutsdb.Prelude.Maps.{Map, nat_key}
use nutsdb.Prelude.Words.{Bytes}

pub data RwMode : Type 0 where
  file_io_mode mmap_mode : RwMode

pub data StorageError : Type 0 where
  capacity not_enough_file_space offset_out_of_mapped_region : StorageError

-- `ActiveFile`, whose bytes are those of its ID.
pub record ActiveFile : Type 0 where
  pub file_id : ℕ
  pub write_off : ℕ
  pub actual_size : ℕ

pub record Storage : Type 0 where
  pub rw_mode : RwMode
  pub segment_size : ℕ
  pub files : Map ℕ Bytes
  pub max_file_id : ℕ
  pub active_file : ActiveFile

abbrev pub Method : Type 0 → Type 0
Method A = Exec Storage StorageError A

abbrev pub contents : ℕ → Storage → Bytes
contents f_id s = elim (Maps.lookup f_id s.files) [ none ↦ [] | some m ↦ m ]

-- `Truncate`: a file that is shorter than the capacity grows by zero bytes.
unfoldable pub truncate : ℕ → Bytes → Bytes
truncate n m = m ++ replicate (n - length m) 0

-- `getDataFile`, which makes the file where it is missing.
unfoldable pub get_data_file : ℕ → Method ActiveFile
get_data_file f_id s = if s.segment_size == 0 then (err capacity, s) else (
  ok (record { file_id = 0; write_off = 0; actual_size = 0 }),
  record s { files = Maps.insert f_id (truncate s.segment_size (contents f_id s)) s.files },
)

-- `WriteAt`: a file grows where it must, a mapping keeps its length.
unfoldable pub write_at : RwMode → Bytes → ℕ → Bytes → Option Bytes
write_at file_io_mode bs off m =
    let padded = truncate off m in some (take off padded ++ (bs ++ drop (off + length bs) padded))
write_at mmap_mode bs off m =
    if leb (length m) off
    then none
    else let fitting = take (length m - off) bs in
      some (take off m ++ (fitting ++ drop (off + length fitting) m))

-- The bytes written, and the two offsets moved.
abbrev pub written : Bytes → Bytes → Storage → Storage
written bs m s = record s {
  files = Maps.insert s.active_file.file_id m s.files;
  active_file = record s.active_file {
    write_off = s.active_file.write_off + length bs;
    actual_size = s.active_file.actual_size + length bs;
  };
}

unfoldable pub write_data : Bytes → Method (Unit {0})
write_data bs s =
    if length bs == 0
    then (ok tt, s)
    else if ltb s.segment_size (s.active_file.actual_size + length bs)
    then (err not_enough_file_space, s)
    else elim (write_at s.rw_mode bs s.active_file.actual_size (contents s.active_file.file_id s)) [
      | none ↦ (err offset_out_of_mapped_region, s)
      | some m ↦ (ok tt, written bs m s)
    ]

-- `rotateActiveFile` outside the sparse mode.
unfoldable pub rotate_active_file : Method (Unit {0})
rotate_active_file = do
  modify (λ s. record s { max_file_id = s.max_file_id + 1 })
  (λ s.
      (do
        f ← get_data_file s.max_file_id
        modify (λ t. record t { active_file = record f { file_id = t.max_file_id } }))
        s)
