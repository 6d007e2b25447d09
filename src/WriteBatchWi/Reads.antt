-- ===== src/WriteBatchWi/Reads.antt =====
-- write_batch_wi.go: reads of one key, of the batch alone or over a database.
mod Tests
use grocksdb.Base.{Option, Bytes, length, none}
use grocksdb.Cgo.{Ptr, Cmd, World, Reply, ◌>>=◌, pure, call_value}
use grocksdb.Cgo.Returns.{IsValid}
use grocksdb.Util.{c_view, ref_go_bytes, from_c_error, unless}
use grocksdb.Util.Strings.{c_view-ref_go_bytes}
use grocksdb.Slice.{Slice, new_slice}
use grocksdb.Slice.Fetch.{Fetches, fetch}
use grocksdb.Types.{Db, WriteBatchWi, ReadOptions, Options, ColumnFamilyHandle}

-- The C functions that are called here.
pub record BatchReadApi (S : Type 0) : Type 0 where
  pub rocksdb_writebatch_wi_get_from_batch : Ptr → Ptr → Bytes → S → Reply (Option Bytes) × S
  pub rocksdb_writebatch_wi_get_from_batch_cf :
      Ptr → Ptr → Ptr → Bytes → S → Reply (Option Bytes) × S
  pub rocksdb_writebatch_wi_get_from_batch_and_db :
      Ptr → Ptr → Ptr → Bytes → S → Reply (Option Bytes) × S
  pub rocksdb_writebatch_wi_get_from_batch_and_db_cf :
      Ptr → Ptr → Ptr → Ptr → Bytes → S → Reply (Option Bytes) × S

module _ {S : Type 0} (api : BatchReadApi S) where
  open api use {
    rocksdb_writebatch_wi_get_from_batch, rocksdb_writebatch_wi_get_from_batch_cf,
    rocksdb_writebatch_wi_get_from_batch_and_db, rocksdb_writebatch_wi_get_from_batch_and_db_cf,
  }

  unfoldable pub get :
      (wb : WriteBatchWi) (opts : Options) (key : Bytes) → Cmd S (Option Slice × Option Bytes)
  get wb opts key = do
    let c_key = ref_go_bytes key
    (c_value, c_err) ←
        call_value (rocksdb_writebatch_wi_get_from_batch wb.c opts.c (c_view c_key (length key)))
    err ← from_c_error c_err
    pure (unless err (new_slice c_value.chars c_value.size), err)

  unfoldable pub get_with_cf :
      (wb : WriteBatchWi) (opts : Options) (cf : ColumnFamilyHandle) (key : Bytes)
      → Cmd S (Option Slice × Option Bytes)
  get_with_cf wb opts cf key = do
    let c_key = ref_go_bytes key
    (c_value, c_err) ←
        call_value
          (rocksdb_writebatch_wi_get_from_batch_cf wb.c opts.c cf.c (c_view c_key (length key)))
    err ← from_c_error c_err
    pure (unless err (new_slice c_value.chars c_value.size), err)

  unfoldable pub get_from_db :
      (wb : WriteBatchWi) (db : Db) (read_opts : ReadOptions) (key : Bytes)
      → Cmd S (Option Slice × Option Bytes)
  get_from_db wb db read_opts key = do
    let c_key = ref_go_bytes key
    (c_value, c_err) ← call_value (
        rocksdb_writebatch_wi_get_from_batch_and_db wb.c db.c read_opts.c
          (c_view c_key (length key)))
    err ← from_c_error c_err
    pure (unless err (new_slice c_value.chars c_value.size), err)

  unfoldable pub get_from_db_with_cf :
      (wb : WriteBatchWi) (db : Db) (read_opts : ReadOptions) (cf : ColumnFamilyHandle)
      (key : Bytes)
      → Cmd S (Option Slice × Option Bytes)
  get_from_db_with_cf wb db read_opts cf key = do
    let c_key = ref_go_bytes key
    (c_value, c_err) ← call_value (
        rocksdb_writebatch_wi_get_from_batch_and_db_cf wb.c db.c read_opts.c cf.c
          (c_view c_key (length key)))
    err ← from_c_error c_err
    pure (unless err (new_slice c_value.chars c_value.size), err)

  abbrev pub FetchesBatchReads :
      (wb : WriteBatchWi) (opts : Options) (key : Bytes) (cf : ColumnFamilyHandle) (db : Db)
      (read_opts : ReadOptions) (w : World S)
      → Type 0
  FetchesBatchReads wb opts key cf db read_opts w =
      Fetches w (get wb opts key) (rocksdb_writebatch_wi_get_from_batch wb.c opts.c key)
      × Fetches w (get_with_cf wb opts cf key)
          (rocksdb_writebatch_wi_get_from_batch_cf wb.c opts.c cf.c key)
      × Fetches w (get_from_db wb db read_opts key)
          (rocksdb_writebatch_wi_get_from_batch_and_db wb.c db.c read_opts.c key)
      × Fetches w (get_from_db_with_cf wb db read_opts cf key)
          (rocksdb_writebatch_wi_get_from_batch_and_db_cf wb.c db.c read_opts.c cf.c key)

  -- Every read of one key of an indexed batch, alone or over a database that returns slices runs
  -- without a fault and hands RocksDB exactly the bytes of the key. A failure of RocksDB is
  -- returned as an error with no result. A value is returned as a slice that gives its bytes,
  -- nil for none, and freeing it brings the C heap back to what it was.
  pub batch_reads-Fetches :
      (wb : WriteBatchWi) (opts : Options) (key : Bytes) (cf : ColumnFamilyHandle) (db : Db)
      (read_opts : ReadOptions) (w : World S)
      → IsValid w
      → FetchesBatchReads wb opts key cf db read_opts w
  unfolding get get_with_cf get_from_db get_from_db_with_cf
  batch_reads-Fetches wb opts key cf db read_opts w valid =
      simp c_view-ref_go_bytes (fetch _ w valid, fetch _ w valid, fetch _ w valid, fetch _ w valid)
