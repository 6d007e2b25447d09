-- ===== src/Db/Puts.antt =====
-- db.go: the writes that queue a value, put and merge, and the write of a batch.
use grocksdb.Base.{ℕ, Option, Bytes, length}
use grocksdb.Cgo.{Ptr, Cmd, World, Status, ◌>>=◌, call_status}
use grocksdb.Cgo.Returns.{IsValid}
use grocksdb.Util.{ref_go_bytes, c_view, from_c_error}
use grocksdb.Util.Strings.{c_view-ref_go_bytes}
use grocksdb.Util.Relay.{Relays, relay}
use grocksdb.Types.{Db, WriteOptions, ColumnFamilyHandle}

-- The C functions that are called here.
pub record PutApi (S : Type 0) : Type 0 where
  pub rocksdb_put : Ptr → Ptr → Bytes → Bytes → S → Status × S
  pub rocksdb_put_with_ts : Ptr → Ptr → Bytes → Bytes → Bytes → S → Status × S
  pub rocksdb_put_with_current_ts : Ptr → Bytes → Bytes → S → Status × S
  pub rocksdb_put_with_uint64_ts : Ptr → Bytes → ℕ → Bytes → S → Status × S
  pub rocksdb_put_with_fixed64_ts : Ptr → Bytes → Bytes → Bytes → S → Status × S
  pub rocksdb_put_cf : Ptr → Ptr → Ptr → Bytes → Bytes → S → Status × S
  pub rocksdb_put_cf_with_ts : Ptr → Ptr → Ptr → Bytes → Bytes → Bytes → S → Status × S
  pub rocksdb_merge : Ptr → Ptr → Bytes → Bytes → S → Status × S
  pub rocksdb_merge_cf : Ptr → Ptr → Ptr → Bytes → Bytes → S → Status × S

module _ {S : Type 0} (api : PutApi S) where
  open api use {
    rocksdb_put, rocksdb_put_with_ts, rocksdb_put_with_current_ts, rocksdb_put_with_uint64_ts,
    rocksdb_put_with_fixed64_ts, rocksdb_put_cf, rocksdb_put_cf_with_ts, rocksdb_merge,
    rocksdb_merge_cf,
  }

  unfoldable pub put : (db : Db) (opts : WriteOptions) (key value : Bytes) → Cmd S (Option Bytes)
  put db opts key value = do
    let c_key = ref_go_bytes key
    let c_value = ref_go_bytes value
    c_err ←
        call_status
          (rocksdb_put db.c opts.c (c_view c_key (length key)) (c_view c_value (length value)))
    from_c_error c_err

  unfoldable pub put_with_ts :
      (db : Db) (opts : WriteOptions) (key ts value : Bytes) → Cmd S (Option Bytes)
  put_with_ts db opts key ts value = do
    let c_key = ref_go_bytes key
    let c_value = ref_go_bytes value
    let c_ts = ref_go_bytes ts
    c_err ← call_status (
        rocksdb_put_with_ts db.c opts.c (c_view c_key (length key)) (c_view c_ts (length ts))
          (c_view c_value (length value)))
    from_c_error c_err

  unfoldable pub put_with_current_ts : (db : Db) (key value : Bytes) → Cmd S (Option Bytes)
  put_with_current_ts db key value = do
    let c_key = ref_go_bytes key
    let c_value = ref_go_bytes value
    c_err ← call_status (
        rocksdb_put_with_current_ts db.c (c_view c_key (length key))
          (c_view c_value (length value)))
    from_c_error c_err

  unfoldable pub put_with_uint64_ts :
      (db : Db) (key : Bytes) (ts : ℕ) (value : Bytes) → Cmd S (Option Bytes)
  put_with_uint64_ts db key ts value = do
    let c_key = ref_go_bytes key
    let c_value = ref_go_bytes value
    c_err ← call_status (
        rocksdb_put_with_uint64_ts db.c (c_view c_key (length key)) ts
          (c_view c_value (length value)))
    from_c_error c_err

  unfoldable pub put_with_fixed64_ts : (db : Db) (key ts value : Bytes) → Cmd S (Option Bytes)
  put_with_fixed64_ts db key ts value = do
    let c_key = ref_go_bytes key
    let c_ts = ref_go_bytes ts
    let c_value = ref_go_bytes value
    c_err ← call_status (
        rocksdb_put_with_fixed64_ts db.c (c_view c_key (length key)) (c_view c_ts (length ts))
          (c_view c_value (length value)))
    from_c_error c_err

  unfoldable pub put_cf :
      (db : Db) (opts : WriteOptions) (cf : ColumnFamilyHandle) (key value : Bytes)
      → Cmd S (Option Bytes)
  put_cf db opts cf key value = do
    let c_key = ref_go_bytes key
    let c_value = ref_go_bytes value
    c_err ← call_status (
        rocksdb_put_cf db.c opts.c cf.c (c_view c_key (length key)) (c_view c_value (length value)))
    from_c_error c_err

  unfoldable pub put_cf_with_ts :
      (db : Db) (opts : WriteOptions) (cf : ColumnFamilyHandle) (key ts value : Bytes)
      → Cmd S (Option Bytes)
  put_cf_with_ts db opts cf key ts value = do
    let c_key = ref_go_bytes key
    let c_value = ref_go_bytes value
    let c_ts = ref_go_bytes ts
    c_err ← call_status (
        rocksdb_put_cf_with_ts db.c opts.c cf.c (c_view c_key (length key))
          (c_view c_ts (length ts)) (c_view c_value (length value)))
    from_c_error c_err

  unfoldable pub merge : (db : Db) (opts : WriteOptions) (key value : Bytes) → Cmd S (Option Bytes)
  merge db opts key value = do
    let c_key = ref_go_bytes key
    let c_value = ref_go_bytes value
    c_err ←
        call_status
          (rocksdb_merge db.c opts.c (c_view c_key (length key)) (c_view c_value (length value)))
    from_c_error c_err

  unfoldable pub merge_cf :
      (db : Db) (opts : WriteOptions) (cf : ColumnFamilyHandle) (key value : Bytes)
      → Cmd S (Option Bytes)
  merge_cf db opts cf key value = do
    let c_key = ref_go_bytes key
    let c_value = ref_go_bytes value
    c_err ← call_status (
        rocksdb_merge_cf db.c opts.c cf.c (c_view c_key (length key))
          (c_view c_value (length value)))
    from_c_error c_err

  abbrev pub ForwardsPuts :
      (db : Db) (opts : WriteOptions) (key value ts : Bytes) (ts_num : ℕ) (cf : ColumnFamilyHandle)
      (w : World S)
      → Type 0
  ForwardsPuts db opts key value ts ts_num cf w =
      Relays w (put db opts key value) (rocksdb_put db.c opts.c key value)
      × Relays w (put_with_ts db opts key ts value) (rocksdb_put_with_ts db.c opts.c key ts value)
      × Relays w (put_with_current_ts db key value) (rocksdb_put_with_current_ts db.c key value)
      × Relays w (put_with_uint64_ts db key ts_num value)
          (rocksdb_put_with_uint64_ts db.c key ts_num value)
      × Relays w (put_with_fixed64_ts db key ts value)
          (rocksdb_put_with_fixed64_ts db.c key ts value)
      × Relays w (put_cf db opts cf key value) (rocksdb_put_cf db.c opts.c cf.c key value)
      × Relays w (put_cf_with_ts db opts cf key ts value)
          (rocksdb_put_cf_with_ts db.c opts.c cf.c key ts value)
      × Relays w (merge db opts key value) (rocksdb_merge db.c opts.c key value)
      × Relays w (merge_cf db opts cf key value) (rocksdb_merge_cf db.c opts.c cf.c key value)

  -- Every put and merge of a database runs without a fault, hands
  -- RocksDB exactly the bytes of the keys and values that it is given, returns RocksDB's failure as an
  -- error and nil otherwise, and leaves the C heap as it was: the message is freed.
  pub puts-Relays :
      (db : Db) (opts : WriteOptions) (key value ts : Bytes) (ts_num : ℕ) (cf : ColumnFamilyHandle)
      (w : World S)
      → IsValid w
      → ForwardsPuts db opts key value ts ts_num cf w
  unfolding put put_with_ts put_with_current_ts put_with_uint64_ts put_with_fixed64_ts put_cf
      put_cf_with_ts merge merge_cf
  puts-Relays db opts key value ts ts_num cf w valid = simp c_view-ref_go_bytes (
    relay _ w valid,
    relay _ w valid,
    relay _ w valid,
    relay _ w valid,
    relay _ w valid,
    relay _ w valid,
    relay _ w valid,
    relay _ w valid,
    relay _ w valid,
  )
