-- ===== src/Lib.antt =====
-- Verification of nutsdb, an embedded key-value store with lists, sets and sorted sets.
--
-- A transaction (tx.go) collects entries, and `Commit` appends their encodings (entry.go) to the
-- active data file (datafile.go over rwmanger_fileio.go or rwmanger_mmap.go), marks the last one as
-- committed, and puts the entries into indexes in memory (set.go, list.go, bptree.go, ds/zset). When
-- the database is opened, `buildHintIdx` (db.go) reads all files back (recovery_reader.go) and
-- indexes the entries of the transactions that have a committed entry.
--
-- Files and what they model:
--   Prelude          shared helpers: results, maps as association lists, writes into slices, CRC-32
--                    and FNV-1a, little-endian fields, methods as functions on a state.
--   Ds/Lists         ds/list/list.go, every method of `*List`. Below it: Ends (pushes and pops),
--                    Range, Remove, Indexes, Expiry, and Local and Calls on all methods at once.
--   Ds/ByteSets      ds/set/set.go, every method of `*Set`.
--   Entries          entry.go: `Encode`, `ParseMeta`, `ParsePayload`, `GetCrc`, `valid`.
--   DataFile         datafile.go and recovery_reader.go: `ReadAt`, `ReadRecord`, `readEntry`.
--   Sets             set.go, every method of `*Set`; a record is of any type.
--   Records          record.go, and the constants of db.go and options.go.
--   Recovery         db.go, `parseDataFiles`: Logs is about one file, Directories about all, Fuel
--                    about the end of the loop.
--   Indexing         db.go, `buildHintIdx` and its builders.
--   Storage          tx.go `writeData` and `rotateActiveFile`, file_manager.go `getDataFile`,
--                    utils.go `Truncate`, and `WriteAt` of the two managers.
--   Tx               tx.go: `Begin`, `put`, `Rollback`, the lock and the status.
--   TxSets           tx_set.go: the operations on sets, with `getValueByRecord` and
--                    `getEntryByHint` of db.go. News is about the writes of `SAdd`, Added and
--                    Replays about what indexing makes of them, Reads about what the readers
--                    return.
--   TxBuckets        tx_bucket.go, with `MatchForRange` of utils.go, `handleListBucket` of index.go,
--                    and `SKeys` of tx_set.go. Deletes is about `DeleteBucket`.
--   Committing       tx.go: `Commit`. Log is about the file, Rooms about the next one, Durable about a
--                    recovery after it, Guards about how it ends.
--   Bptree           bptree.go in memory: the nodes, `Insert` and `Find`; Scans is about its scans.
--                    Shapes to Ordered are about the tree that the nodes make up, Addresses to
--                    Rooms about what an insertion makes of it, Memory to Rewrites about the writes
--                    that do so, Models and Refines about `Insert` as a whole, Leaves to Prefixes
--                    about the scans, Client about what a caller sees.
--   Tests            runs at concrete inputs.
--
-- How the model corresponds to the code:
--   * A Go map is an association list; an iteration meets its entries in the list's order, and where
--     one entry is taken (`SPop`) any may be, by a number that picks it.
--   * `int` and `int64` are unbounded; words keep their wrap-around. A pointer is not nil unless an
--     `Option` says so; a nil slice is told from an empty one only as a set's value.
--   * The clock is read once in a call and is an argument, `now`.
--   * A panic is a result, with the state as it was left. System calls do not fail.
--   * The loop over a file runs on fuel, the file's length and one more: every entry takes 42 bytes
--     at least. The other loops are structural, but for those of the B+ tree (below).
--   * A third-party node makes the transaction IDs; the ID is an argument.
--   * A node of the B+ tree is named by its `Address`, and each field that is written by itself
--     (contents, `parent`, and the links of the leaves) is a map from addresses. The loops down the
--     tree and up again, and along the leaves, run on fuel: the next address to be given, which is
--     more than the number of nodes. A sorted list of pairs is the specification: the relation
--     `Models` says which list a tree stands for.
--   * `tx_s_add`, `tx_s_rem` and so on are the methods of a transaction, `s_add` and `s_rem` those of
--     a set. `getDataFile` is an argument that says which file, if any, an ID opens.
--   * A regular expression is a function that compiles a text to a test; `filepath.Match` is a
--     function that gives no answer for a bad pattern.
--   * `Structures` is the interface of the builders to the B+ tree, the sorted set and the list
--     index, with the operations that they call.
--
-- Not modelled: the sparse index mode and its files (bptree_root_idx.go, bucket_meta.go, the disk
-- scans of tx_bptree.go, and the binary nodes of bptree.go), ds/zset, list.go, merge.go, the
-- operations of tx_list.go, tx_zset.go and tx_bptree.go, the cache of fd_manager.go, inmemory,
-- iterator.go, opening and closing, backups and options.
pub mod Prelude
pub mod Ds
mod Tests
pub mod Entries
pub mod DataFile
pub mod Sets
pub mod Records
pub mod Recovery
pub mod Indexing
pub mod Storage
pub mod Tx
pub mod TxSets
pub mod TxBuckets
pub mod Bptree
pub mod Committing
