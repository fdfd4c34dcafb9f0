-- ===== src/DataFile.antt =====
-- Reading entries back: datafile.go over the two managers of rwmanger_fileio.go and
-- rwmanger_mmap.go, and recovery_reader.go. A file is its bytes.
pub mod Decode
pub mod ReadBack
use nutsdb.Prelude.{
  ℕ, ◌+◌, ◌-◌, Bool, Option, none, some, List, [], ◌∷◌, ◌++◌, leb, ◌==◌, if◌then◌else◌, length,
  take, drop, replicate, Outcome, ok, err, panic,
}
use nutsdb.Prelude.Words.{Bytes}
use nutsdb.Entries.{
  MetaData, Entry, data_entry_header_size, payload_size, is_zero, get_crc, parse_meta,
  parse_payload,
}

pub data ReadError : Type 0 where
  eof unexpected_eof index_out_of_bound unmapped_memory crc_mismatch size_mismatch : ReadError

infixl 5 ◌>>=◌
abbrev pub ◌>>=◌ :
    {A B : Type 0} → Outcome ReadError A → (A → Outcome ReadError B) → Outcome ReadError B
ok a >>= f = f a
err e >>= f = err e
panic >>= f = panic

abbrev pub or_panic : {A : Type 0} → Option A → Outcome ReadError A
or_panic none = panic
or_panic (some a) = ok a

-- An open file, or a memory mapping that may have been removed.
pub data RwManager : Type 0 where
  file_io : Bytes → RwManager
  mmap : Option Bytes → RwManager

-- `ReadAt` into a buffer of `n` zero bytes: a file refuses to read less, a mapping leaves the rest
-- of the buffer as it is.
unfoldable pub read_at : RwManager → ℕ → ℕ → Outcome ReadError Bytes
read_at (file_io m) n off = if leb (off + n) (length m) then ok (take n (drop off m)) else err eof
read_at (mmap none) n off = err unmapped_memory
read_at (mmap (some m)) n off =
    if leb (length m) off
    then err index_out_of_bound
    else ok (take n (drop off m) ++ replicate (n - (length m - off)) 0)

-- The payload parsed and its checksum compared.
unfoldable pub checked_entry : MetaData → Bytes → Bytes → Outcome ReadError (Option Entry)
checked_entry m buf bytes = do
  e ← or_panic (parse_payload m bytes)
  if get_crc e buf == m.crc then ok (some e) else err crc_mismatch

-- `DataFile.ReadAt`
unfoldable pub read_entry_at : RwManager → ℕ → Outcome ReadError (Option Entry)
read_entry_at rw_manager off = do
  buf ← read_at rw_manager data_entry_header_size off
  m ← or_panic (parse_meta buf)
  if is_zero m then ok none else do
    bytes ← read_at rw_manager (payload_size m) (off + data_entry_header_size)
    checked_entry m buf bytes

-- `DataFile.ReadRecord`
unfoldable pub read_record : RwManager → ℕ → ℕ → Outcome ReadError (Option Entry)
read_record rw_manager off size = do
  buf ← read_at rw_manager (data_entry_header_size + size) off
  m ← or_panic (parse_meta buf)
  if is_zero m
      then ok none
      else if payload_size m == size
      then checked_entry m (take data_entry_header_size buf) (drop data_entry_header_size buf)
      else err size_mismatch

-- `io.ReadFull` of `n` bytes: what was read, and what is left.
unfoldable pub read_full : ℕ → Bytes → Outcome ReadError (Bytes × Bytes)
read_full n s =
    if leb n (length s)
    then ok (take n s, drop n s)
    else if length s == 0
    then err eof
    else err unexpected_eof

-- `fileRecovery.readEntry`
unfoldable pub read_entry : Bytes → Outcome ReadError (Option Entry × Bytes)
read_entry s = do
  (buf, rest) ← read_full data_entry_header_size s
  m ← or_panic (parse_meta buf)
  if is_zero m then ok (none, rest) else do
    (bytes, rest') ← read_full (payload_size m) rest
    e ← checked_entry m buf bytes
    ok (e, rest')
