-- ===== src/Tests/Codec.antt =====
-- Entries of entry.go, written and read back.
use nutsdb.Prelude.{ℕ, ◌<◌, ◌≡◌, refl, some, [], ◌∷◌, ◌++◌, arith, ok}
use nutsdb.Entries.{MetaData, Entry, encode, payload_size}
use nutsdb.Entries.Header.{InRange}
use nutsdb.Entries.Layout.{IsSized, encoded, encode-encoded}
use nutsdb.DataFile.{RwManager, mmap, read_entry, read_entry_at, read_record}
use nutsdb.DataFile.Decode.{stamped}
use nutsdb.DataFile.ReadBack.{Holds, read_entry-encoded, read_entry_at-encoded}

abbrev pub a_meta : ℕ → MetaData
a_meta status = record {
  key_size = 1;
  value_size = 2;
  timestamp = 1547707905;
  ttl = 0;
  flag = 1;
  bucket_size = 1;
  tx_id = 7;
  status = status;
  ds = 2;
  crc = 0;
}

abbrev pub an_entry : ℕ → Entry
an_entry status = record {
  key = 107 ∷ [];
  value = 118 ∷ 49 ∷ [];
  bucket = 98 ∷ [];
  meta = a_meta status;
}

pub meta-InRange : (status : ℕ) → status < 2 → InRange (a_meta status)
meta-InRange status h = record {
  timestamp = omega arith;
  key_size = omega arith;
  value_size = omega arith;
  flag = omega arith;
  ttl = omega arith;
  bucket_size = omega arith;
  status = omega arith;
  ds = omega arith;
  tx_id = omega arith;
}

pub entry-IsSized : (status : ℕ) → status < 2 → IsSized (an_entry status)
entry-IsSized status h = record {
  in_range = meta-InRange status h;
  key = refl;
  value = refl;
  bucket = refl;
  total = omega arith;
}

encode-encoded_example : encode (an_entry 1) ≡ some (encoded (an_entry 1))
encode-encoded_example = encode-encoded (an_entry 1) (entry-IsSized 1 (omega arith))

read_entry-encoded_example :
    read_entry (encoded (an_entry 1) ++ (0 ∷ 0 ∷ [])) ≡ ok (some (stamped (an_entry 1)), 0 ∷ 0 ∷ [])
read_entry-encoded_example =
    read_entry-encoded (an_entry 1) (entry-IsSized 1 (omega arith)) (omega arith) (0 ∷ 0 ∷ [])

abbrev a_mapping : RwManager
a_mapping = mmap (some ((1 ∷ 2 ∷ []) ++ (encoded (an_entry 1) ++ (0 ∷ []))))

read_entry_at-encoded_example :
    (read_entry_at a_mapping 2 ≡ ok (some (stamped (an_entry 1))))
    × (read_record a_mapping 2 4 ≡ ok (some (stamped (an_entry 1))))
unfolding payload_size
read_entry_at-encoded_example =
    read_entry_at-encoded (an_entry 1) (entry-IsSized 1 (omega arith)) (omega arith) a_mapping
      (1 ∷ 2 ∷ []) (0 ∷ []) Holds.by_mmap
