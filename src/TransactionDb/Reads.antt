-- ===== src/TransactionDb/Reads.antt =====
-- transactiondb.go: reads of one key.
mod Tests
use grocksdb.Base.{Option, Bytes, length, none}
use grocksdb.Cgo.{Ptr, Cmd, World, Reply, ◌>>=◌, pure, call_value, call_handle}
use grocksdb.Cgo.Returns.{IsValid}
use grocksdb.Util.{c_view, ref_go_bytes, from_c_error, unless}
use grocksdb.Util.Strings.{c_view-ref_go_bytes}
use grocksdb.Util.Opens.{Opens, opens}
use grocksdb.Slice.{Slice, new_slice, new_native_pinnable_slice_handle}
use grocksdb.Slice.Fetch.{Fetches, fetch}
use grocksdb.Types.{TransactionDb, ReadOptions, ColumnFamilyHandle, PinnableSliceHandle}

-- The C functions that are called here.
pub record TransactionDbReadApi (S : Type 0) : Type 0 where
  pub rocksdb_transactiondb_get : Ptr → Ptr → Bytes → S → Reply (Option Bytes) × S
  pub rocksdb_transactiondb_get_pinned : Ptr → Ptr → Bytes → S → Reply Ptr × S
  pub rocksdb_transactiondb_get_cf : Ptr → Ptr → Ptr → Bytes → S → Reply (Option Bytes) × S
  pub rocksdb_transactiondb_get_pinned_cf : Ptr → Ptr → Ptr → Bytes → S → Reply Ptr × S

module _ {S : Type 0} (api : TransactionDbReadApi S) where
  open api use {
    rocksdb_transactiondb_get, rocksdb_transactiondb_get_pinned, rocksdb_transactiondb_get_cf,
    rocksdb_transactiondb_get_pinned_cf,
  }

  unfoldable pub get :
      (db : TransactionDb) (opts : ReadOptions) (key : Bytes) → Cmd S (Option Slice × Option Bytes)
  get db opts key = do
    let c_key = ref_go_bytes key
    (c_value, c_err) ←
        call_value (rocksdb_transactiondb_get db.c opts.c (c_view c_key (length key)))
    err ← from_c_error c_err
    pure (unless err (new_slice c_value.chars c_value.size), err)

  unfoldable pub get_pinned :
      (db : TransactionDb) (opts : ReadOptions) (key : Bytes)
      → Cmd S (Option PinnableSliceHandle × Option Bytes)
  get_pinned db opts key = do
    let c_key = ref_go_bytes key
    (c_handle, c_err) ←
        call_handle (rocksdb_transactiondb_get_pinned db.c opts.c (c_view c_key (length key)))
    err ← from_c_error c_err
    pure (unless err (new_native_pinnable_slice_handle c_handle), err)

  unfoldable pub get_cf :
      (db : TransactionDb) (opts : ReadOptions) (cf : ColumnFamilyHandle) (key : Bytes)
      → Cmd S (Option Slice × Option Bytes)
  get_cf db opts cf key = do
    let c_key = ref_go_bytes key
    (c_value, c_err) ←
        call_value (rocksdb_transactiondb_get_cf db.c opts.c cf.c (c_view c_key (length key)))
    err ← from_c_error c_err
    pure (unless err (new_slice c_value.chars c_value.size), err)

  unfoldable pub get_pinned_with_cf :
      (db : TransactionDb) (opts : ReadOptions) (cf : ColumnFamilyHandle) (key : Bytes)
      → Cmd S (Option PinnableSliceHandle × Option Bytes)
  get_pinned_with_cf db opts cf key = do
    let c_key = ref_go_bytes key
    (c_handle, c_err) ←
        call_handle
          (rocksdb_transactiondb_get_pinned_cf db.c opts.c cf.c (c_view c_key (length key)))
    err ← from_c_error c_err
    pure (unless err (new_native_pinnable_slice_handle c_handle), err)

  abbrev pub FetchesTransactionDbReads :
      (db : TransactionDb) (opts : ReadOptions) (key : Bytes) (cf : ColumnFamilyHandle)
      (w : World S)
      → Type 0
  FetchesTransactionDbReads db opts key cf w =
      Fetches w (get db opts key) (rocksdb_transactiondb_get db.c opts.c key)
      × Opens new_native_pinnable_slice_handle w (get_pinned db opts key)
          (rocksdb_transactiondb_get_pinned db.c opts.c key)
      × Fetches w (get_cf db opts cf key) (rocksdb_transactiondb_get_cf db.c opts.c cf.c key)
      × Opens new_native_pinnable_slice_handle w (get_pinned_with_cf db opts cf key)
          (rocksdb_transactiondb_get_pinned_cf db.c opts.c cf.c key)

  -- Every read of one key of a database with transactions that returns slices or a pinned value
  -- runs without a fault and hands RocksDB exactly the bytes of the key. A failure of RocksDB is
  -- returned as an error with no result. A value is returned as a slice that gives its bytes,
  -- nil for none, and freeing it brings the C heap back to what it was; a pinned value is
  -- returned as its handle.
  pub transactiondb_reads-Fetches :
      (db : TransactionDb) (opts : ReadOptions) (key : Bytes) (cf : ColumnFamilyHandle)
      (w : World S)
      → IsValid w
      → FetchesTransactionDbReads db opts key cf w
  unfolding get get_pinned get_cf get_pinned_with_cf
  transactiondb_reads-Fetches db opts key cf w valid =
      simp c_view-ref_go_bytes
        (fetch _ w valid, opens _ _ w valid, fetch _ w valid, opens _ _ w valid)
