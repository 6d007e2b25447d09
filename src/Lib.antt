-- ===== src/Lib.antt =====
-- grocksdb: a model of the Go wrapper of RocksDB, with the theorems that make it correct.
--
-- The program is a layer between Go and the C interface of RocksDB. Its own work is to pass Go bytes
-- to C, to bring results and failures back, to own and free the C memory on the way, to read the
-- records of a serialized write batch, and to let RocksDB call functions that are written in Go.
--
-- - Base, Binary: shared lists, tests and integers; `Uvarint` of Go's encoding/binary, and the encoding
--   that it inverts.
-- - Cgo: the C heap as blocks at addresses, with faults for a bad read or free, and the state of
--   RocksDB, of which nothing is known. A function of the C library is a parameter: a field of a
--   record such as PutApi, named as in rocksdb/c.h, which says how it changes that state and what it
--   answers. It is given the bytes that it may read through a pointer and a length. That a failure is
--   a malloc'ed message, and nil otherwise, is the convention of that header (Cgo/Calls).
-- - Util: util.go (boolToChar, refGoBytes, fromCError and the other conversions). Util/Relay says what
--   a wrapper of one C function promises.
-- - WriteBatch, WriteBatchWi: write_batch.go and write_batch_wi.go. WriteBatch/Records is the
--   WriteBatchIterator: `next` is Next, `decode_slice` is decodeSlice, and so on; WriteBatch/RecordType
--   has the type constants. WriteBatch/Records/Format is the format of RocksDB that it is held against.
-- - CowList: cow.go, as a function on lists and as goroutines that interleave (CowList/Steps).
-- - Callbacks: comparator.go, merge_operator.go, compaction_filter.go, slice_transform.go, over that
--   list. The exported functions keep their names.
-- - Db, Transaction, TransactionDb, SstFileWriter, Iterator: db.go, transaction.go, transactiondb.go,
--   sst_file_writer.go and iterator.go. A method becomes a function of the same name in snake_case.
--   Db/Opening, Db/Families and TransactionDb/Opening (which has optimistic_transaction_db.go too) open
--   databases, Db/Settings sets options, Db/History is GetFullHistoryTsLow; Util/Names has the C
--   strings that live for one call.
-- - Array, MultiGet: array.go, and the reads of several keys, which Db/Multi, Transaction/Multi and
--   TransactionDb/Multi share: `multi_get_by` is the body of MultiGet, `errors_of` its loop over the
--   errors. Cgo/Cells says which blocks are in the heap at each point.
-- - Options: options.go, the native objects that options own: a comparator, a merge operator, a prefix
--   extractor, a compaction filter and an environment. Cgo/Objects says what owning them means. Whether
--   RocksDB frees an object that it was given is not modelled. Options/Settings has the options that hold
--   one value: a C function is a parameter for each, picked by the option's name in rocksdb/c.h.
-- - Backup: backup.go, an engine with or without its database.
-- - Slice: slice.go, the values that Go owns in C memory. Slice/Owns says what such a slice promises;
--   the modules named Reads are the calls that return them.
-- - Fixtures and the modules named Tests: concrete runs.
--
-- A Go slice is the list of its bytes; where nil and empty differ it is an Option. An int of Go that
-- comes from a uint64 or goes to a C int has its conversion written out (go_int, c_int). Loops recur on
-- their lists; reading a batch to its end is a relation (WriteBatch/Records/Reads), with a theorem
-- that every run is finite, so no fuel is needed.
--
-- A slice is a value, and Free returns the slice that it leaves. Reads of several keys with timestamps are
-- not modelled, nor is closing. C reads a C string as far as its first zero byte.
--
-- Not modelled: the other structs of options, statistics, caches and environments, whose functions set
-- or get one value each; RocksDB and the C++ extensions, which are not written in Go; the garbage
-- collector and the rules on Go pointers in C memory.
pub mod Base
pub mod Binary
pub mod Cgo
pub mod CowList
pub mod Callbacks
pub mod Util
pub mod Fixtures
pub mod Types
pub mod Db
pub mod Transaction
pub mod TransactionDb
pub mod WriteBatch
pub mod WriteBatchWi
pub mod Slice
pub mod Array
pub mod MultiGet
pub mod Backup
pub mod Options
pub mod SstFileWriter
pub mod Iterator
