-- ===== src/Transaction/Reads.antt =====
-- transaction.go: reads of one key.
mod Tests
use grocksdb.Base.{ℕ, Option, Bytes, length, none}
use grocksdb.Cgo.{Ptr, Cmd, World, Reply, ◌>>=◌, pure, call_value, call_handle}
use grocksdb.Cgo.Returns.{IsValid}
use grocksdb.Util.{c_view, ref_go_bytes, from_c_error, unless}
use grocksdb.Util.Strings.{c_view-ref_go_bytes}
use grocksdb.Util.Opens.{Opens, opens}
use grocksdb.Slice.{Slice, new_slice, new_native_pinnable_slice_handle}
use grocksdb.Slice.Fetch.{Fetches, fetch}
use grocksdb.Types.{Transaction, ReadOptions, ColumnFamilyHandle, PinnableSliceHandle}

-- The C functions that are called here.
pub record TransactionReadApi (S : Type 0) : Type 0 where
  pub rocksdb_transaction_get : Ptr → Ptr → Bytes → S → Reply (Option Bytes) × S
  pub rocksdb_transaction_get_pinned : Ptr → Ptr → Bytes → S → Reply Ptr × S
  pub rocksdb_transaction_get_cf : Ptr → Ptr → Ptr → Bytes → S → Reply (Option Bytes) × S
  pub rocksdb_transaction_get_pinned_cf : Ptr → Ptr → Ptr → Bytes → S → Reply Ptr × S
  pub rocksdb_transaction_get_for_update : Ptr → Ptr → Bytes → ℕ → S → Reply (Option Bytes) × S
  pub rocksdb_transaction_get_pinned_for_update : Ptr → Ptr → Bytes → ℕ → S → Reply Ptr × S
  pub rocksdb_transaction_get_for_update_cf :
      Ptr → Ptr → Ptr → Bytes → ℕ → S → Reply (Option Bytes) × S
  pub rocksdb_transaction_get_pinned_for_update_cf : Ptr → Ptr → Ptr → Bytes → ℕ → S → Reply Ptr × S

module _ {S : Type 0} (api : TransactionReadApi S) where
  open api use {
    rocksdb_transaction_get, rocksdb_transaction_get_pinned, rocksdb_transaction_get_cf,
    rocksdb_transaction_get_pinned_cf, rocksdb_transaction_get_for_update,
    rocksdb_transaction_get_pinned_for_update, rocksdb_transaction_get_for_update_cf,
    rocksdb_transaction_get_pinned_for_update_cf,
  }

  unfoldable pub get :
      (transaction : Transaction) (opts : ReadOptions) (key : Bytes)
      → Cmd S (Option Slice × Option Bytes)
  get transaction opts key = do
    let c_key = ref_go_bytes key
    (c_value, c_err) ←
        call_value (rocksdb_transaction_get transaction.c opts.c (c_view c_key (length key)))
    err ← from_c_error c_err
    pure (unless err (new_slice c_value.chars c_value.size), err)

  unfoldable pub get_pinned :
      (transaction : Transaction) (opts : ReadOptions) (key : Bytes)
      → Cmd S (Option PinnableSliceHandle × Option Bytes)
  get_pinned transaction opts key = do
    let c_key = ref_go_bytes key
    (c_handle, c_err) ←
        call_handle
          (rocksdb_transaction_get_pinned transaction.c opts.c (c_view c_key (length key)))
    err ← from_c_error c_err
    pure (unless err (new_native_pinnable_slice_handle c_handle), err)

  unfoldable pub get_with_cf :
      (transaction : Transaction) (opts : ReadOptions) (cf : ColumnFamilyHandle) (key : Bytes)
      → Cmd S (Option Slice × Option Bytes)
  get_with_cf transaction opts cf key = do
    let c_key = ref_go_bytes key
    (c_value, c_err) ←
        call_value
          (rocksdb_transaction_get_cf transaction.c opts.c cf.c (c_view c_key (length key)))
    err ← from_c_error c_err
    pure (unless err (new_slice c_value.chars c_value.size), err)

  unfoldable pub get_pinned_with_cf :
      (transaction : Transaction) (opts : ReadOptions) (cf : ColumnFamilyHandle) (key : Bytes)
      → Cmd S (Option PinnableSliceHandle × Option Bytes)
  get_pinned_with_cf transaction opts cf key = do
    let c_key = ref_go_bytes key
    (c_handle, c_err) ←
        call_handle
          (rocksdb_transaction_get_pinned_cf transaction.c opts.c cf.c (c_view c_key (length key)))
    err ← from_c_error c_err
    pure (unless err (new_native_pinnable_slice_handle c_handle), err)

  unfoldable pub get_for_update :
      (transaction : Transaction) (opts : ReadOptions) (key : Bytes)
      → Cmd S (Option Slice × Option Bytes)
  get_for_update transaction opts key = do
    let c_key = ref_go_bytes key
    (c_value, c_err) ←
        call_value
          (rocksdb_transaction_get_for_update transaction.c opts.c (c_view c_key (length key)) 1)
    err ← from_c_error c_err
    pure (unless err (new_slice c_value.chars c_value.size), err)

  unfoldable pub get_pinned_for_update :
      (transaction : Transaction) (opts : ReadOptions) (key : Bytes)
      → Cmd S (Option PinnableSliceHandle × Option Bytes)
  get_pinned_for_update transaction opts key = do
    let c_key = ref_go_bytes key
    (c_handle, c_err) ← call_handle (
        rocksdb_transaction_get_pinned_for_update transaction.c opts.c (c_view c_key (length key))
          1)
    err ← from_c_error c_err
    pure (unless err (new_native_pinnable_slice_handle c_handle), err)

  unfoldable pub get_for_update_with_cf :
      (transaction : Transaction) (opts : ReadOptions) (cf : ColumnFamilyHandle) (key : Bytes)
      → Cmd S (Option Slice × Option Bytes)
  get_for_update_with_cf transaction opts cf key = do
    let c_key = ref_go_bytes key
    (c_value, c_err) ← call_value (
        rocksdb_transaction_get_for_update_cf transaction.c opts.c cf.c (c_view c_key (length key))
          1)
    err ← from_c_error c_err
    pure (unless err (new_slice c_value.chars c_value.size), err)

  unfoldable pub get_pinned_for_update_with_cf :
      (transaction : Transaction) (opts : ReadOptions) (cf : ColumnFamilyHandle) (key : Bytes)
      → Cmd S (Option PinnableSliceHandle × Option Bytes)
  get_pinned_for_update_with_cf transaction opts cf key = do
    let c_key = ref_go_bytes key
    (c_handle, c_err) ← call_handle (
        rocksdb_transaction_get_pinned_for_update_cf transaction.c opts.c cf.c
          (c_view c_key (length key)) 1)
    err ← from_c_error c_err
    pure (unless err (new_native_pinnable_slice_handle c_handle), err)

  abbrev pub FetchesTransactionReads :
      (transaction : Transaction) (opts : ReadOptions) (key : Bytes) (cf : ColumnFamilyHandle)
      (w : World S)
      → Type 0
  FetchesTransactionReads transaction opts key cf w =
      Fetches w (get transaction opts key) (rocksdb_transaction_get transaction.c opts.c key)
      × Opens new_native_pinnable_slice_handle w (get_pinned transaction opts key)
          (rocksdb_transaction_get_pinned transaction.c opts.c key)
      × Fetches w (get_with_cf transaction opts cf key)
          (rocksdb_transaction_get_cf transaction.c opts.c cf.c key)
      × Opens new_native_pinnable_slice_handle w (get_pinned_with_cf transaction opts cf key)
          (rocksdb_transaction_get_pinned_cf transaction.c opts.c cf.c key)
      × Fetches w (get_for_update transaction opts key)
          (rocksdb_transaction_get_for_update transaction.c opts.c key 1)
      × Opens new_native_pinnable_slice_handle w (get_pinned_for_update transaction opts key)
          (rocksdb_transaction_get_pinned_for_update transaction.c opts.c key 1)
      × Fetches w (get_for_update_with_cf transaction opts cf key)
          (rocksdb_transaction_get_for_update_cf transaction.c opts.c cf.c key 1)
      × Opens new_native_pinnable_slice_handle w
          (get_pinned_for_update_with_cf transaction opts cf key)
          (rocksdb_transaction_get_pinned_for_update_cf transaction.c opts.c cf.c key 1)

  -- Every read of one key in a transaction that returns slices or a pinned value runs without a
  -- fault and hands RocksDB exactly the bytes of the key. A failure of RocksDB is returned as an
  -- error with no result. A value is returned as a slice that gives its bytes, nil for none, and
  -- freeing it brings the C heap back to what it was; a pinned value is returned as its handle.
  pub transaction_reads-Fetches :
      (transaction : Transaction) (opts : ReadOptions) (key : Bytes) (cf : ColumnFamilyHandle)
      (w : World S)
      → IsValid w
      → FetchesTransactionReads transaction opts key cf w
  unfolding get get_pinned get_with_cf get_pinned_with_cf get_for_update get_pinned_for_update
      get_for_update_with_cf get_pinned_for_update_with_cf
  transaction_reads-Fetches transaction opts key cf w valid = simp c_view-ref_go_bytes (
    fetch _ w valid,
    opens _ _ w valid,
    fetch _ w valid,
    opens _ _ w valid,
    fetch _ w valid,
    opens _ _ w valid,
    fetch _ w valid,
    opens _ _ w valid,
  )
