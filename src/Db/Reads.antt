-- ===== src/Db/Reads.antt =====
-- db.go: reads of one key.
mod Tests
use grocksdb.Base.{ℕ, Option, Bytes, length, none}
use grocksdb.Cgo.{
  Ptr, Cmd, World, Reply, ◌>>=◌, pure, call_value, call_handle, call_pair, call_found,
}
use grocksdb.Cgo.Returns.{IsValid}
use grocksdb.Util.{c_view, ref_go_bytes, from_c_error, unless}
use grocksdb.Util.Strings.{c_view-ref_go_bytes}
use grocksdb.Util.Opens.{Opens, opens}
use grocksdb.Slice.{Slice, new_slice, new_native_pinnable_slice_handle, slice_if, copy_unless}
use grocksdb.Slice.Fetch.{Fetches, fetch}
use grocksdb.Slice.Pairs.{FetchesPair, fetch_pair}
use grocksdb.Slice.Finds.{Finds, find}
use grocksdb.Slice.Copies.{Copies, copies, Fits}
use grocksdb.Types.{Db, ReadOptions, ColumnFamilyHandle, PinnableSliceHandle}

-- The C functions that are called here.
pub record ReadApi (S : Type 0) : Type 0 where
  pub rocksdb_key_may_exist : Ptr → Ptr → Bytes → Bytes → S → Option Bytes × S
  pub rocksdb_key_may_exist_cf : Ptr → Ptr → Ptr → Bytes → Bytes → S → Option Bytes × S
  pub rocksdb_get : Ptr → Ptr → Bytes → S → Reply (Option Bytes) × S
  pub rocksdb_get_with_ts : Ptr → Ptr → Bytes → S → Reply (Option Bytes × Option Bytes) × S
  pub rocksdb_get_with_current_ts : Ptr → Bytes → S → Reply (Option Bytes) × S
  pub rocksdb_get_with_uint64_ts : Ptr → Bytes → ℕ → S → Reply (Option Bytes) × S
  pub rocksdb_get_with_fixed64_ts : Ptr → Bytes → Bytes → S → Reply (Option Bytes) × S
  pub rocksdb_get_cf : Ptr → Ptr → Ptr → Bytes → S → Reply (Option Bytes) × S
  pub rocksdb_get_cf_with_ts : Ptr → Ptr → Ptr → Bytes → S → Reply (Option Bytes × Option Bytes) × S
  pub rocksdb_get_pinned : Ptr → Ptr → Bytes → S → Reply Ptr × S
  pub rocksdb_get_pinned_cf : Ptr → Ptr → Ptr → Bytes → S → Reply Ptr × S

module _ {S : Type 0} (api : ReadApi S) where
  open api use {
    rocksdb_key_may_exist, rocksdb_key_may_exist_cf, rocksdb_get, rocksdb_get_with_ts,
    rocksdb_get_with_current_ts, rocksdb_get_with_uint64_ts, rocksdb_get_with_fixed64_ts,
    rocksdb_get_cf, rocksdb_get_cf_with_ts, rocksdb_get_pinned, rocksdb_get_pinned_cf,
  }

  unfoldable pub key_may_exists :
      (db : Db) (opts : ReadOptions) (key : Bytes) (timestamp : Bytes) → Cmd S (Option Slice)
  key_may_exists db opts key timestamp = do
    let c_key = ref_go_bytes key
    let c_timestamp = ref_go_bytes timestamp
    (c_value, c_found) ← call_found (
        rocksdb_key_may_exist db.c opts.c (c_view c_key (length key))
          (c_view c_timestamp (length timestamp)))
    pure (slice_if c_found c_value)

  unfoldable pub key_may_exists_cf :
      (db : Db) (opts : ReadOptions) (cf : ColumnFamilyHandle) (key : Bytes) (timestamp : Bytes)
      → Cmd S (Option Slice)
  key_may_exists_cf db opts cf key timestamp = do
    let c_key = ref_go_bytes key
    let c_timestamp = ref_go_bytes timestamp
    (c_value, c_found) ← call_found (
        rocksdb_key_may_exist_cf db.c opts.c cf.c (c_view c_key (length key))
          (c_view c_timestamp (length timestamp)))
    pure (slice_if c_found c_value)

  unfoldable pub get :
      (db : Db) (opts : ReadOptions) (key : Bytes) → Cmd S (Option Slice × Option Bytes)
  get db opts key = do
    let c_key = ref_go_bytes key
    (c_value, c_err) ← call_value (rocksdb_get db.c opts.c (c_view c_key (length key)))
    err ← from_c_error c_err
    pure (unless err (new_slice c_value.chars c_value.size), err)

  unfoldable pub get_with_ts :
      (db : Db) (opts : ReadOptions) (key : Bytes)
      → Cmd S (Option Slice × Option Slice × Option Bytes)
  get_with_ts db opts key = do
    let c_key = ref_go_bytes key
    (c_value, c_ts_value, c_err) ←
        call_pair (rocksdb_get_with_ts db.c opts.c (c_view c_key (length key)))
    err ← from_c_error c_err
    pure (
      unless err (new_slice c_value.chars c_value.size),
      unless err (new_slice c_ts_value.chars c_ts_value.size),
      err,
    )

  unfoldable pub get_with_current_ts : (db : Db) (key : Bytes) → Cmd S (Option Slice × Option Bytes)
  get_with_current_ts db key = do
    let c_key = ref_go_bytes key
    (c_value, c_err) ← call_value (rocksdb_get_with_current_ts db.c (c_view c_key (length key)))
    err ← from_c_error c_err
    pure (unless err (new_slice c_value.chars c_value.size), err)

  unfoldable pub get_with_uint64_ts :
      (db : Db) (key : Bytes) (ts_num : ℕ) → Cmd S (Option Slice × Option Bytes)
  get_with_uint64_ts db key ts_num = do
    let c_key = ref_go_bytes key
    (c_value, c_err) ←
        call_value (rocksdb_get_with_uint64_ts db.c (c_view c_key (length key)) ts_num)
    err ← from_c_error c_err
    pure (unless err (new_slice c_value.chars c_value.size), err)

  unfoldable pub get_with_fixed64_ts :
      (db : Db) (key : Bytes) (ts : Bytes) → Cmd S (Option Slice × Option Bytes)
  get_with_fixed64_ts db key ts = do
    let c_key = ref_go_bytes key
    let c_ts = ref_go_bytes ts
    (c_value, c_err) ←
        call_value
          (rocksdb_get_with_fixed64_ts db.c (c_view c_key (length key)) (c_view c_ts (length ts)))
    err ← from_c_error c_err
    pure (unless err (new_slice c_value.chars c_value.size), err)

  unfoldable pub get_bytes :
      (db : Db) (opts : ReadOptions) (key : Bytes) → Cmd S (Option Bytes × Option Bytes)
  get_bytes db opts key = do
    let c_key = ref_go_bytes key
    (c_value, c_err) ← call_value (rocksdb_get db.c opts.c (c_view c_key (length key)))
    err ← from_c_error c_err
    copy_unless err c_value

  unfoldable pub get_cf :
      (db : Db) (opts : ReadOptions) (cf : ColumnFamilyHandle) (key : Bytes)
      → Cmd S (Option Slice × Option Bytes)
  get_cf db opts cf key = do
    let c_key = ref_go_bytes key
    (c_value, c_err) ← call_value (rocksdb_get_cf db.c opts.c cf.c (c_view c_key (length key)))
    err ← from_c_error c_err
    pure (unless err (new_slice c_value.chars c_value.size), err)

  unfoldable pub get_cf_with_ts :
      (db : Db) (opts : ReadOptions) (cf : ColumnFamilyHandle) (key : Bytes)
      → Cmd S (Option Slice × Option Slice × Option Bytes)
  get_cf_with_ts db opts cf key = do
    let c_key = ref_go_bytes key
    (c_value, c_ts_value, c_err) ←
        call_pair (rocksdb_get_cf_with_ts db.c opts.c cf.c (c_view c_key (length key)))
    err ← from_c_error c_err
    pure (
      unless err (new_slice c_value.chars c_value.size),
      unless err (new_slice c_ts_value.chars c_ts_value.size),
      err,
    )

  unfoldable pub get_pinned :
      (db : Db) (opts : ReadOptions) (key : Bytes)
      → Cmd S (Option PinnableSliceHandle × Option Bytes)
  get_pinned db opts key = do
    let c_key = ref_go_bytes key
    (c_handle, c_err) ← call_handle (rocksdb_get_pinned db.c opts.c (c_view c_key (length key)))
    err ← from_c_error c_err
    pure (unless err (new_native_pinnable_slice_handle c_handle), err)

  unfoldable pub get_pinned_cf :
      (db : Db) (opts : ReadOptions) (cf : ColumnFamilyHandle) (key : Bytes)
      → Cmd S (Option PinnableSliceHandle × Option Bytes)
  get_pinned_cf db opts cf key = do
    let c_key = ref_go_bytes key
    (c_handle, c_err) ←
        call_handle (rocksdb_get_pinned_cf db.c opts.c cf.c (c_view c_key (length key)))
    err ← from_c_error c_err
    pure (unless err (new_native_pinnable_slice_handle c_handle), err)

  abbrev pub FetchesReads :
      (db : Db) (opts : ReadOptions) (key : Bytes) (timestamp : Bytes) (cf : ColumnFamilyHandle)
      (ts_num : ℕ) (ts : Bytes) (w : World S)
      → Type 0
  FetchesReads db opts key timestamp cf ts_num ts w =
      Finds w (key_may_exists db opts key timestamp)
        (rocksdb_key_may_exist db.c opts.c key timestamp)
      × Finds w (key_may_exists_cf db opts cf key timestamp)
          (rocksdb_key_may_exist_cf db.c opts.c cf.c key timestamp)
      × Fetches w (get db opts key) (rocksdb_get db.c opts.c key)
      × FetchesPair w (get_with_ts db opts key) (rocksdb_get_with_ts db.c opts.c key)
      × Fetches w (get_with_current_ts db key) (rocksdb_get_with_current_ts db.c key)
      × Fetches w (get_with_uint64_ts db key ts_num) (rocksdb_get_with_uint64_ts db.c key ts_num)
      × Fetches w (get_with_fixed64_ts db key ts) (rocksdb_get_with_fixed64_ts db.c key ts)
      × Fetches w (get_cf db opts cf key) (rocksdb_get_cf db.c opts.c cf.c key)
      × FetchesPair w (get_cf_with_ts db opts cf key) (rocksdb_get_cf_with_ts db.c opts.c cf.c key)
      × Opens new_native_pinnable_slice_handle w (get_pinned db opts key)
          (rocksdb_get_pinned db.c opts.c key)
      × Opens new_native_pinnable_slice_handle w (get_pinned_cf db opts cf key)
          (rocksdb_get_pinned_cf db.c opts.c cf.c key)

  -- Every read of one key of a database that returns slices or a pinned value runs without a
  -- fault and hands RocksDB exactly the bytes of the key. A failure of RocksDB is returned as an
  -- error with no result. A value is returned as a slice that gives its bytes, nil for none, and
  -- freeing it brings the C heap back to what it was; a pinned value is returned as its handle.
  pub reads-Fetches :
      (db : Db) (opts : ReadOptions) (key : Bytes) (timestamp : Bytes) (cf : ColumnFamilyHandle)
      (ts_num : ℕ) (ts : Bytes) (w : World S)
      → IsValid w
      → FetchesReads db opts key timestamp cf ts_num ts w
  unfolding key_may_exists key_may_exists_cf get get_with_ts get_with_current_ts get_with_uint64_ts
      get_with_fixed64_ts get_cf get_cf_with_ts get_pinned get_pinned_cf
  reads-Fetches db opts key timestamp cf ts_num ts w valid = simp c_view-ref_go_bytes (
    find _ w valid,
    find _ w valid,
    fetch _ w valid,
    fetch_pair _ w valid,
    fetch _ w valid,
    fetch _ w valid,
    fetch _ w valid,
    fetch _ w valid,
    fetch_pair _ w valid,
    opens _ _ w valid,
    opens _ _ w valid,
  )

  -- `GetBytes` runs without a fault and returns the value's bytes, nil if there is none, or RocksDB's
  -- failure as an error; the C memory of both is freed. The value must have less than 2 GiB, since its
  -- size becomes a C int.
  pub get_bytes-Copies :
      (db : Db) (opts : ReadOptions) (key : Bytes) (w : World S)
      → IsValid w
      → Fits (rocksdb_get db.c opts.c key w.rocks).0
      → Copies w (get_bytes db opts key) (rocksdb_get db.c opts.c key)
  unfolding get_bytes
  get_bytes-Copies db opts key w valid fits = simp c_view-ref_go_bytes (copies _ w valid fits)
