-- ===== src/Types.antt =====
-- The Go structs that wrap one native pointer (write_batch.go, cf_handle.go and the options files),
-- and those of db.go. The options that a struct keeps beside its pointer are not modelled.
use grocksdb.Base.{Bytes, Option}
use grocksdb.Cgo.{Ptr}

pub record WriteOptions : Type 0 where
  pub c : Ptr

pub record FlushOptions : Type 0 where
  pub c : Ptr

pub record CompactRangeOptions : Type 0 where
  pub c : Ptr

pub record ColumnFamilyHandle : Type 0 where
  pub c : Ptr

pub record WriteBatch : Type 0 where
  pub c : Ptr

pub record WriteBatchWi : Type 0 where
  pub c : Ptr

pub record Transaction : Type 0 where
  pub c : Ptr

pub record TransactionDb : Type 0 where
  pub c : Ptr

pub record SstFileWriter : Type 0 where
  pub c : Ptr

pub record Iterator : Type 0 where
  pub c : Ptr

pub record ReadOptions : Type 0 where
  pub c : Ptr

-- The native objects beside the options are nil until they are set. `bbto` is left out: the options hold
-- it only for the garbage collector.
pub record Options : Type 0 where
  pub c : Ptr
  pub env : Ptr
  pub ccmp : Ptr
  pub cmo : Ptr
  pub cst : Ptr
  pub ccf : Ptr

pub record OptimisticTransactionDb : Type 0 where
  pub c : Ptr

pub record PinnableSliceHandle : Type 0 where
  pub c : Ptr

pub record WaitForCompactOptions : Type 0 where
  pub p : Ptr

-- A range of keys, from `start` on and below `limit`.
pub record Range : Type 0 where
  pub start : Bytes
  pub limit : Bytes

pub record Db : Type 0 where
  pub c : Ptr
  pub name : Bytes
  pub opts : Options

pub record IngestExternalFileOptions : Type 0 where
  pub c : Ptr

-- The database of a backup engine is nil until the engine is made from one.
pub record BackupEngine : Type 0 where
  pub c : Ptr
  pub db : Option Db

pub record BackupEngineOptions : Type 0 where
  pub c : Ptr

pub record Env : Type 0 where
  pub c : Ptr

pub record RestoreOptions : Type 0 where
  pub c : Ptr

pub record TransactionDbOptions : Type 0 where
  pub c : Ptr
