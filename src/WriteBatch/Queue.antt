-- ===== src/WriteBatch/Queue.antt =====
-- write_batch.go: the operations that queue a record, and the save points.
use grocksdb.Base.{Option, Bytes, length}
use grocksdb.Cgo.{Ptr, Cmd, World, Status, ◌>>=◌, call_status, call_void}
use grocksdb.Cgo.Returns.{IsValid}
use grocksdb.Util.{ref_go_bytes, c_view, from_c_error}
use grocksdb.Util.Strings.{c_view-ref_go_bytes}
use grocksdb.Util.Relay.{Affects, affect, Relays, relay}
use grocksdb.Types.{WriteBatch, ColumnFamilyHandle}

-- The C functions that are called here.
pub record QueueApi (S : Type 0) : Type 0 where
  pub rocksdb_writebatch_put : Ptr → Bytes → Bytes → S → S
  pub rocksdb_writebatch_put_cf : Ptr → Ptr → Bytes → Bytes → S → S
  pub rocksdb_writebatch_put_cf_with_ts : Ptr → Ptr → Bytes → Bytes → Bytes → S → S
  pub rocksdb_writebatch_put_log_data : Ptr → Bytes → S → S
  pub rocksdb_writebatch_merge : Ptr → Bytes → Bytes → S → S
  pub rocksdb_writebatch_merge_cf : Ptr → Ptr → Bytes → Bytes → S → S
  pub rocksdb_writebatch_delete : Ptr → Bytes → S → S
  pub rocksdb_writebatch_singledelete : Ptr → Bytes → S → S
  pub rocksdb_writebatch_delete_cf : Ptr → Ptr → Bytes → S → S
  pub rocksdb_writebatch_delete_cf_with_ts : Ptr → Ptr → Bytes → Bytes → S → S
  pub rocksdb_writebatch_singledelete_cf : Ptr → Ptr → Bytes → S → S
  pub rocksdb_writebatch_singledelete_cf_with_ts : Ptr → Ptr → Bytes → Bytes → S → S
  pub rocksdb_writebatch_delete_range : Ptr → Bytes → Bytes → S → S
  pub rocksdb_writebatch_delete_range_cf : Ptr → Ptr → Bytes → Bytes → S → S
  pub rocksdb_writebatch_set_save_point : Ptr → S → S
  pub rocksdb_writebatch_rollback_to_save_point : Ptr → S → Status × S
  pub rocksdb_writebatch_pop_save_point : Ptr → S → Status × S
  pub rocksdb_writebatch_clear : Ptr → S → S

module _ {S : Type 0} (api : QueueApi S) where
  open api use {
    rocksdb_writebatch_put, rocksdb_writebatch_put_cf, rocksdb_writebatch_put_cf_with_ts,
    rocksdb_writebatch_put_log_data, rocksdb_writebatch_merge, rocksdb_writebatch_merge_cf,
    rocksdb_writebatch_delete, rocksdb_writebatch_singledelete, rocksdb_writebatch_delete_cf,
    rocksdb_writebatch_delete_cf_with_ts, rocksdb_writebatch_singledelete_cf,
    rocksdb_writebatch_singledelete_cf_with_ts, rocksdb_writebatch_delete_range,
    rocksdb_writebatch_delete_range_cf, rocksdb_writebatch_set_save_point,
    rocksdb_writebatch_rollback_to_save_point, rocksdb_writebatch_pop_save_point,
    rocksdb_writebatch_clear,
  }

  unfoldable pub put : (wb : WriteBatch) (key value : Bytes) → Cmd S (Unit {0})
  put wb key value = do
    let c_key = ref_go_bytes key
    let c_value = ref_go_bytes value
    call_void
        (rocksdb_writebatch_put wb.c (c_view c_key (length key)) (c_view c_value (length value)))

  unfoldable pub put_cf :
      (wb : WriteBatch) (cf : ColumnFamilyHandle) (key value : Bytes) → Cmd S (Unit {0})
  put_cf wb cf key value = do
    let c_key = ref_go_bytes key
    let c_value = ref_go_bytes value
    call_void (
        rocksdb_writebatch_put_cf wb.c cf.c (c_view c_key (length key))
          (c_view c_value (length value)))

  unfoldable pub put_cf_with_ts :
      (wb : WriteBatch) (cf : ColumnFamilyHandle) (key ts value : Bytes) → Cmd S (Unit {0})
  put_cf_with_ts wb cf key ts value = do
    let c_key = ref_go_bytes key
    let c_value = ref_go_bytes value
    let c_ts = ref_go_bytes ts
    call_void (
        rocksdb_writebatch_put_cf_with_ts wb.c cf.c (c_view c_key (length key))
          (c_view c_ts (length ts)) (c_view c_value (length value)))

  unfoldable pub put_log_data : (wb : WriteBatch) (blob : Bytes) → Cmd S (Unit {0})
  put_log_data wb blob = do
    let c_blob = ref_go_bytes blob
    call_void (rocksdb_writebatch_put_log_data wb.c (c_view c_blob (length blob)))

  unfoldable pub merge : (wb : WriteBatch) (key value : Bytes) → Cmd S (Unit {0})
  merge wb key value = do
    let c_key = ref_go_bytes key
    let c_value = ref_go_bytes value
    call_void
        (rocksdb_writebatch_merge wb.c (c_view c_key (length key)) (c_view c_value (length value)))

  unfoldable pub merge_cf :
      (wb : WriteBatch) (cf : ColumnFamilyHandle) (key value : Bytes) → Cmd S (Unit {0})
  merge_cf wb cf key value = do
    let c_key = ref_go_bytes key
    let c_value = ref_go_bytes value
    call_void (
        rocksdb_writebatch_merge_cf wb.c cf.c (c_view c_key (length key))
          (c_view c_value (length value)))

  unfoldable pub delete : (wb : WriteBatch) (key : Bytes) → Cmd S (Unit {0})
  delete wb key = do
    let c_key = ref_go_bytes key
    call_void (rocksdb_writebatch_delete wb.c (c_view c_key (length key)))

  unfoldable pub single_delete : (wb : WriteBatch) (key : Bytes) → Cmd S (Unit {0})
  single_delete wb key = do
    let c_key = ref_go_bytes key
    call_void (rocksdb_writebatch_singledelete wb.c (c_view c_key (length key)))

  unfoldable pub delete_cf :
      (wb : WriteBatch) (cf : ColumnFamilyHandle) (key : Bytes) → Cmd S (Unit {0})
  delete_cf wb cf key = do
    let c_key = ref_go_bytes key
    call_void (rocksdb_writebatch_delete_cf wb.c cf.c (c_view c_key (length key)))

  unfoldable pub delete_cf_with_ts :
      (wb : WriteBatch) (cf : ColumnFamilyHandle) (key ts : Bytes) → Cmd S (Unit {0})
  delete_cf_with_ts wb cf key ts = do
    let c_key = ref_go_bytes key
    let c_ts = ref_go_bytes ts
    call_void (
        rocksdb_writebatch_delete_cf_with_ts wb.c cf.c (c_view c_key (length key))
          (c_view c_ts (length ts)))

  unfoldable pub single_delete_cf :
      (wb : WriteBatch) (cf : ColumnFamilyHandle) (key : Bytes) → Cmd S (Unit {0})
  single_delete_cf wb cf key = do
    let c_key = ref_go_bytes key
    call_void (rocksdb_writebatch_singledelete_cf wb.c cf.c (c_view c_key (length key)))

  unfoldable pub single_delete_cf_with_ts :
      (wb : WriteBatch) (cf : ColumnFamilyHandle) (key ts : Bytes) → Cmd S (Unit {0})
  single_delete_cf_with_ts wb cf key ts = do
    let c_key = ref_go_bytes key
    let c_ts = ref_go_bytes ts
    call_void (
        rocksdb_writebatch_singledelete_cf_with_ts wb.c cf.c (c_view c_key (length key))
          (c_view c_ts (length ts)))

  unfoldable pub delete_range : (wb : WriteBatch) (start_key end_key : Bytes) → Cmd S (Unit {0})
  delete_range wb start_key end_key = do
    let c_start_key = ref_go_bytes start_key
    let c_end_key = ref_go_bytes end_key
    call_void (
        rocksdb_writebatch_delete_range wb.c (c_view c_start_key (length start_key))
          (c_view c_end_key (length end_key)))

  unfoldable pub delete_range_cf :
      (wb : WriteBatch) (cf : ColumnFamilyHandle) (start_key end_key : Bytes) → Cmd S (Unit {0})
  delete_range_cf wb cf start_key end_key = do
    let c_start_key = ref_go_bytes start_key
    let c_end_key = ref_go_bytes end_key
    call_void (
        rocksdb_writebatch_delete_range_cf wb.c cf.c (c_view c_start_key (length start_key))
          (c_view c_end_key (length end_key)))

  unfoldable pub set_save_point : (wb : WriteBatch) → Cmd S (Unit {0})
  set_save_point wb = call_void (rocksdb_writebatch_set_save_point wb.c)

  unfoldable pub rollback_to_save_point : (wb : WriteBatch) → Cmd S (Option Bytes)
  rollback_to_save_point wb = do
    c_err ← call_status (rocksdb_writebatch_rollback_to_save_point wb.c)
    from_c_error c_err

  unfoldable pub pop_save_point : (wb : WriteBatch) → Cmd S (Option Bytes)
  pop_save_point wb = do
    c_err ← call_status (rocksdb_writebatch_pop_save_point wb.c)
    from_c_error c_err

  unfoldable pub clear : (wb : WriteBatch) → Cmd S (Unit {0})
  clear wb = call_void (rocksdb_writebatch_clear wb.c)

  abbrev pub ForwardsQueue :
      (wb : WriteBatch) (key value ts blob start_key end_key : Bytes) (cf : ColumnFamilyHandle)
      (w : World S)
      → Type 0
  ForwardsQueue wb key value ts blob start_key end_key cf w =
      Affects w (put wb key value) (rocksdb_writebatch_put wb.c key value)
      × Affects w (put_cf wb cf key value) (rocksdb_writebatch_put_cf wb.c cf.c key value)
      × Affects w (put_cf_with_ts wb cf key ts value)
          (rocksdb_writebatch_put_cf_with_ts wb.c cf.c key ts value)
      × Affects w (put_log_data wb blob) (rocksdb_writebatch_put_log_data wb.c blob)
      × Affects w (merge wb key value) (rocksdb_writebatch_merge wb.c key value)
      × Affects w (merge_cf wb cf key value) (rocksdb_writebatch_merge_cf wb.c cf.c key value)
      × Affects w (delete wb key) (rocksdb_writebatch_delete wb.c key)
      × Affects w (single_delete wb key) (rocksdb_writebatch_singledelete wb.c key)
      × Affects w (delete_cf wb cf key) (rocksdb_writebatch_delete_cf wb.c cf.c key)
      × Affects w (delete_cf_with_ts wb cf key ts)
          (rocksdb_writebatch_delete_cf_with_ts wb.c cf.c key ts)
      × Affects w (single_delete_cf wb cf key) (rocksdb_writebatch_singledelete_cf wb.c cf.c key)
      × Affects w (single_delete_cf_with_ts wb cf key ts)
          (rocksdb_writebatch_singledelete_cf_with_ts wb.c cf.c key ts)
      × Affects w (delete_range wb start_key end_key)
          (rocksdb_writebatch_delete_range wb.c start_key end_key)
      × Affects w (delete_range_cf wb cf start_key end_key)
          (rocksdb_writebatch_delete_range_cf wb.c cf.c start_key end_key)
      × Affects w (set_save_point wb) (rocksdb_writebatch_set_save_point wb.c)
      × Affects w (clear wb) (rocksdb_writebatch_clear wb.c)
      × Relays w (rollback_to_save_point wb) (rocksdb_writebatch_rollback_to_save_point wb.c)
      × Relays w (pop_save_point wb) (rocksdb_writebatch_pop_save_point wb.c)

  -- Every operation that queues a record in a batch, and every save point operation, runs without a
  -- fault, changes RocksDB as its C function does on exactly the bytes that it is given, returns the
  -- failure of the two that can fail as an error, and leaves the C heap as it was.
  pub queue-Affects :
      (wb : WriteBatch) (key value ts blob start_key end_key : Bytes) (cf : ColumnFamilyHandle)
      (w : World S)
      → IsValid w
      → ForwardsQueue wb key value ts blob start_key end_key cf w
  unfolding put put_cf put_cf_with_ts put_log_data merge merge_cf delete single_delete delete_cf
      delete_cf_with_ts single_delete_cf single_delete_cf_with_ts delete_range delete_range_cf
      set_save_point clear rollback_to_save_point pop_save_point
  queue-Affects wb key value ts blob start_key end_key cf w valid = simp c_view-ref_go_bytes (
    affect _ w valid,
    affect _ w valid,
    affect _ w valid,
    affect _ w valid,
    affect _ w valid,
    affect _ w valid,
    affect _ w valid,
    affect _ w valid,
    affect _ w valid,
    affect _ w valid,
    affect _ w valid,
    affect _ w valid,
    affect _ w valid,
    affect _ w valid,
    affect _ w valid,
    affect _ w valid,
    relay _ w valid,
    relay _ w valid,
  )
