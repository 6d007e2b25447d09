-- ===== src/Db/Deletes.antt =====
-- db.go: the deletions, and the write of a batch.
use grocksdb.Base.{ℕ, Option, Bytes, length}
use grocksdb.Cgo.{Ptr, Cmd, World, Status, ◌>>=◌, call_status}
use grocksdb.Cgo.Returns.{IsValid}
use grocksdb.Util.{ref_go_bytes, c_view, from_c_error}
use grocksdb.Util.Strings.{c_view-ref_go_bytes}
use grocksdb.Util.Relay.{Relays, relay}
use grocksdb.Db.Puts.{PutApi, puts-Relays, ForwardsPuts}
use grocksdb.Types.{Db, WriteOptions, ColumnFamilyHandle, WriteBatch, WriteBatchWi}

-- The C functions that are called here.
pub record DeleteApi (S : Type 0) : Type 0 where
  pub rocksdb_delete : Ptr → Ptr → Bytes → S → Status × S
  pub rocksdb_delete_cf : Ptr → Ptr → Ptr → Bytes → S → Status × S
  pub rocksdb_delete_with_ts : Ptr → Ptr → Bytes → Bytes → S → Status × S
  pub rocksdb_delete_with_current_ts : Ptr → Bytes → S → Status × S
  pub rocksdb_delete_with_uint64_ts : Ptr → Bytes → ℕ → S → Status × S
  pub rocksdb_delete_with_fixed64_ts : Ptr → Bytes → Bytes → S → Status × S
  pub rocksdb_delete_cf_with_ts : Ptr → Ptr → Ptr → Bytes → Bytes → S → Status × S
  pub rocksdb_singledelete_with_ts : Ptr → Ptr → Bytes → Bytes → S → Status × S
  pub rocksdb_singledelete_cf_with_ts : Ptr → Ptr → Ptr → Bytes → Bytes → S → Status × S
  pub rocksdb_delete_range_cf : Ptr → Ptr → Ptr → Bytes → Bytes → S → Status × S
  pub rocksdb_delete_range_cf_uint64_ts : Ptr → Ptr → Bytes → Bytes → ℕ → S → Status × S
  pub rocksdb_delete_range_cf_fixed64_ts : Ptr → Ptr → Bytes → Bytes → Bytes → S → Status × S
  pub rocksdb_singledelete : Ptr → Ptr → Bytes → S → Status × S
  pub rocksdb_singledelete_cf : Ptr → Ptr → Ptr → Bytes → S → Status × S
  pub rocksdb_write : Ptr → Ptr → Ptr → S → Status × S
  pub rocksdb_write_writebatch_wi : Ptr → Ptr → Ptr → S → Status × S

module _ {S : Type 0} (api : DeleteApi S) where
  open api use {
    rocksdb_delete, rocksdb_delete_cf, rocksdb_delete_with_ts, rocksdb_delete_with_current_ts,
    rocksdb_delete_with_uint64_ts, rocksdb_delete_with_fixed64_ts, rocksdb_delete_cf_with_ts,
    rocksdb_singledelete_with_ts, rocksdb_singledelete_cf_with_ts, rocksdb_delete_range_cf,
    rocksdb_delete_range_cf_uint64_ts, rocksdb_delete_range_cf_fixed64_ts, rocksdb_singledelete,
    rocksdb_singledelete_cf, rocksdb_write, rocksdb_write_writebatch_wi,
  }

  unfoldable pub delete : (db : Db) (opts : WriteOptions) (key : Bytes) → Cmd S (Option Bytes)
  delete db opts key = do
    let c_key = ref_go_bytes key
    c_err ← call_status (rocksdb_delete db.c opts.c (c_view c_key (length key)))
    from_c_error c_err

  unfoldable pub delete_cf :
      (db : Db) (opts : WriteOptions) (cf : ColumnFamilyHandle) (key : Bytes) → Cmd S (Option Bytes)
  delete_cf db opts cf key = do
    let c_key = ref_go_bytes key
    c_err ← call_status (rocksdb_delete_cf db.c opts.c cf.c (c_view c_key (length key)))
    from_c_error c_err

  unfoldable pub delete_with_ts :
      (db : Db) (opts : WriteOptions) (key ts : Bytes) → Cmd S (Option Bytes)
  delete_with_ts db opts key ts = do
    let c_key = ref_go_bytes key
    let c_ts = ref_go_bytes ts
    c_err ←
        call_status
          (rocksdb_delete_with_ts db.c opts.c (c_view c_key (length key)) (c_view c_ts (length ts)))
    from_c_error c_err

  unfoldable pub delete_with_current_ts : (db : Db) (key : Bytes) → Cmd S (Option Bytes)
  delete_with_current_ts db key = do
    let c_key = ref_go_bytes key
    c_err ← call_status (rocksdb_delete_with_current_ts db.c (c_view c_key (length key)))
    from_c_error c_err

  unfoldable pub delete_with_uint64_ts : (db : Db) (key : Bytes) (ts : ℕ) → Cmd S (Option Bytes)
  delete_with_uint64_ts db key ts = do
    let c_key = ref_go_bytes key
    c_err ← call_status (rocksdb_delete_with_uint64_ts db.c (c_view c_key (length key)) ts)
    from_c_error c_err

  unfoldable pub delete_with_fixed64_ts : (db : Db) (key ts : Bytes) → Cmd S (Option Bytes)
  delete_with_fixed64_ts db key ts = do
    let c_key = ref_go_bytes key
    let c_ts = ref_go_bytes ts
    c_err ←
        call_status (
          rocksdb_delete_with_fixed64_ts db.c (c_view c_key (length key)) (c_view c_ts (length ts)))
    from_c_error c_err

  unfoldable pub delete_cf_with_ts :
      (db : Db) (opts : WriteOptions) (cf : ColumnFamilyHandle) (key ts : Bytes)
      → Cmd S (Option Bytes)
  delete_cf_with_ts db opts cf key ts = do
    let c_key = ref_go_bytes key
    let c_ts = ref_go_bytes ts
    c_err ← call_status (
        rocksdb_delete_cf_with_ts db.c opts.c cf.c (c_view c_key (length key))
          (c_view c_ts (length ts)))
    from_c_error c_err

  unfoldable pub single_delete_with_ts :
      (db : Db) (opts : WriteOptions) (key ts : Bytes) → Cmd S (Option Bytes)
  single_delete_with_ts db opts key ts = do
    let c_key = ref_go_bytes key
    let c_ts = ref_go_bytes ts
    c_err ← call_status (
        rocksdb_singledelete_with_ts db.c opts.c (c_view c_key (length key))
          (c_view c_ts (length ts)))
    from_c_error c_err

  unfoldable pub single_delete_cf_with_ts :
      (db : Db) (opts : WriteOptions) (cf : ColumnFamilyHandle) (key ts : Bytes)
      → Cmd S (Option Bytes)
  single_delete_cf_with_ts db opts cf key ts = do
    let c_key = ref_go_bytes key
    let c_ts = ref_go_bytes ts
    c_err ← call_status (
        rocksdb_singledelete_cf_with_ts db.c opts.c cf.c (c_view c_key (length key))
          (c_view c_ts (length ts)))
    from_c_error c_err

  unfoldable pub delete_range_cf :
      (db : Db) (opts : WriteOptions) (cf : ColumnFamilyHandle) (start_key end_key : Bytes)
      → Cmd S (Option Bytes)
  delete_range_cf db opts cf start_key end_key = do
    let c_start_key = ref_go_bytes start_key
    let c_end_key = ref_go_bytes end_key
    c_err ← call_status (
        rocksdb_delete_range_cf db.c opts.c cf.c (c_view c_start_key (length start_key))
          (c_view c_end_key (length end_key)))
    from_c_error c_err

  unfoldable pub delete_range_cf_with_uint64_ts :
      (db : Db) (cf : ColumnFamilyHandle) (start_key end_key : Bytes) (ts : ℕ)
      → Cmd S (Option Bytes)
  delete_range_cf_with_uint64_ts db cf start_key end_key ts = do
    let c_start_key = ref_go_bytes start_key
    let c_end_key = ref_go_bytes end_key
    c_err ← call_status (
        rocksdb_delete_range_cf_uint64_ts db.c cf.c (c_view c_start_key (length start_key))
          (c_view c_end_key (length end_key)) ts)
    from_c_error c_err

  unfoldable pub delete_range_cf_with_fixed64_ts :
      (db : Db) (cf : ColumnFamilyHandle) (start_key end_key ts : Bytes) → Cmd S (Option Bytes)
  delete_range_cf_with_fixed64_ts db cf start_key end_key ts = do
    let c_start_key = ref_go_bytes start_key
    let c_end_key = ref_go_bytes end_key
    let c_ts = ref_go_bytes ts
    c_err ← call_status (
        rocksdb_delete_range_cf_fixed64_ts db.c cf.c (c_view c_start_key (length start_key))
          (c_view c_end_key (length end_key)) (c_view c_ts (length ts)))
    from_c_error c_err

  unfoldable pub single_delete :
      (db : Db) (opts : WriteOptions) (key : Bytes) → Cmd S (Option Bytes)
  single_delete db opts key = do
    let c_key = ref_go_bytes key
    c_err ← call_status (rocksdb_singledelete db.c opts.c (c_view c_key (length key)))
    from_c_error c_err

  unfoldable pub single_delete_cf :
      (db : Db) (opts : WriteOptions) (cf : ColumnFamilyHandle) (key : Bytes) → Cmd S (Option Bytes)
  single_delete_cf db opts cf key = do
    let c_key = ref_go_bytes key
    c_err ← call_status (rocksdb_singledelete_cf db.c opts.c cf.c (c_view c_key (length key)))
    from_c_error c_err

  unfoldable pub write : (db : Db) (opts : WriteOptions) (batch : WriteBatch) → Cmd S (Option Bytes)
  write db opts batch = do
    c_err ← call_status (rocksdb_write db.c opts.c batch.c)
    from_c_error c_err

  unfoldable pub write_wi :
      (db : Db) (opts : WriteOptions) (batch : WriteBatchWi) → Cmd S (Option Bytes)
  write_wi db opts batch = do
    c_err ← call_status (rocksdb_write_writebatch_wi db.c opts.c batch.c)
    from_c_error c_err

  abbrev pub ForwardsDeletes :
      (db : Db) (opts : WriteOptions) (key ts start_key end_key : Bytes) (cf : ColumnFamilyHandle)
      (ts_num : ℕ) (batch : WriteBatch) (batch_write_batch_wi : WriteBatchWi) (w : World S)
      → Type 0
  ForwardsDeletes db opts key ts start_key end_key cf ts_num batch batch_write_batch_wi w =
      Relays w (delete db opts key) (rocksdb_delete db.c opts.c key)
      × Relays w (delete_cf db opts cf key) (rocksdb_delete_cf db.c opts.c cf.c key)
      × Relays w (delete_with_ts db opts key ts) (rocksdb_delete_with_ts db.c opts.c key ts)
      × Relays w (delete_with_current_ts db key) (rocksdb_delete_with_current_ts db.c key)
      × Relays w (delete_with_uint64_ts db key ts_num)
          (rocksdb_delete_with_uint64_ts db.c key ts_num)
      × Relays w (delete_with_fixed64_ts db key ts) (rocksdb_delete_with_fixed64_ts db.c key ts)
      × Relays w (delete_cf_with_ts db opts cf key ts)
          (rocksdb_delete_cf_with_ts db.c opts.c cf.c key ts)
      × Relays w (single_delete_with_ts db opts key ts)
          (rocksdb_singledelete_with_ts db.c opts.c key ts)
      × Relays w (single_delete_cf_with_ts db opts cf key ts)
          (rocksdb_singledelete_cf_with_ts db.c opts.c cf.c key ts)
      × Relays w (delete_range_cf db opts cf start_key end_key)
          (rocksdb_delete_range_cf db.c opts.c cf.c start_key end_key)
      × Relays w (delete_range_cf_with_uint64_ts db cf start_key end_key ts_num)
          (rocksdb_delete_range_cf_uint64_ts db.c cf.c start_key end_key ts_num)
      × Relays w (delete_range_cf_with_fixed64_ts db cf start_key end_key ts)
          (rocksdb_delete_range_cf_fixed64_ts db.c cf.c start_key end_key ts)
      × Relays w (single_delete db opts key) (rocksdb_singledelete db.c opts.c key)
      × Relays w (single_delete_cf db opts cf key) (rocksdb_singledelete_cf db.c opts.c cf.c key)
      × Relays w (write db opts batch) (rocksdb_write db.c opts.c batch.c)
      × Relays w (write_wi db opts batch_write_batch_wi)
          (rocksdb_write_writebatch_wi db.c opts.c batch_write_batch_wi.c)

  -- Every deletion and every batch write of a database runs without a fault, hands
  -- RocksDB exactly the bytes of the keys and values that it is given, returns RocksDB's failure as an
  -- error and nil otherwise, and leaves the C heap as it was: the message is freed.
  pub deletes-Relays :
      (db : Db) (opts : WriteOptions) (key ts start_key end_key : Bytes) (cf : ColumnFamilyHandle)
      (ts_num : ℕ) (batch : WriteBatch) (batch_write_batch_wi : WriteBatchWi) (w : World S)
      → IsValid w
      → ForwardsDeletes db opts key ts start_key end_key cf ts_num batch batch_write_batch_wi w
  unfolding delete delete_cf delete_with_ts delete_with_current_ts delete_with_uint64_ts
      delete_with_fixed64_ts delete_cf_with_ts single_delete_with_ts single_delete_cf_with_ts
      delete_range_cf delete_range_cf_with_uint64_ts delete_range_cf_with_fixed64_ts single_delete
      single_delete_cf write write_wi
  deletes-Relays db opts key ts start_key end_key cf ts_num batch batch_write_batch_wi w valid =
      simp c_view-ref_go_bytes (
        relay _ w valid,
        relay _ w valid,
        relay _ w valid,
        relay _ w valid,
        relay _ w valid,
        relay _ w valid,
        relay _ w valid,
        relay _ w valid,
        relay _ w valid,
        relay _ w valid,
        relay _ w valid,
        relay _ w valid,
        relay _ w valid,
        relay _ w valid,
        relay _ w valid,
        relay _ w valid,
      )

  -- Every put, merge, deletion and batch write of a database runs without a fault, hands RocksDB exactly
  -- the bytes of the keys, values and timestamps that it is given, returns RocksDB's failure as an error
  -- and nil otherwise, and leaves the C heap as it was: the message is freed.
  pub writes-Relays :
      (puts : PutApi S) (db : Db) (opts : WriteOptions) (key value ts start_key end_key : Bytes)
      (cf : ColumnFamilyHandle) (ts_num : ℕ) (batch : WriteBatch) (batch_wi : WriteBatchWi)
      (w : World S)
      → IsValid w
      → ForwardsPuts puts db opts key value ts ts_num cf w
        × ForwardsDeletes db opts key ts start_key end_key cf ts_num batch batch_wi w
  writes-Relays puts db opts key value ts start_key end_key cf ts_num batch batch_wi w valid = (
    puts-Relays puts db opts key value ts ts_num cf w valid,
    deletes-Relays db opts key ts start_key end_key cf ts_num batch batch_wi w valid,
  )
