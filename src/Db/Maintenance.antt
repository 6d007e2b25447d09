-- ===== src/Db/Maintenance.antt =====
-- db.go: compaction, flushing, files, and other work that RocksDB does on request.
use grocksdb.Base.{none, refl, List, [], ◌∷◌, map, ℕ, Bool, Option, Bytes, length}
use grocksdb.Cgo.{Ptr, Cmd, World, Status, ◌>>=◌, pure, call_status, call_void}
use grocksdb.Cgo.Returns.{IsValid}
use grocksdb.Util.{c_view, bool_to_char, ref_go_bytes, from_c_error}
use grocksdb.Util.Strings.{c_view-ref_go_bytes}
use grocksdb.Util.Relay.{RelaysSome, Relays, relay, Affects, affect}
use grocksdb.Types.{
  Db, FlushOptions, CompactRangeOptions, ColumnFamilyHandle, WaitForCompactOptions, Range,
}

-- The C functions that are called here.
pub record MaintenanceApi (S : Type 0) : Type 0 where
  pub rocksdb_drop_column_family : Ptr → Ptr → S → Status × S
  pub rocksdb_compact_range : Ptr → Bytes → Bytes → S → S
  pub rocksdb_compact_range_cf : Ptr → Ptr → Bytes → Bytes → S → S
  pub rocksdb_compact_range_opt : Ptr → Ptr → Bytes → Bytes → S → S
  pub rocksdb_compact_range_cf_opt : Ptr → Ptr → Ptr → Bytes → Bytes → S → S
  pub rocksdb_suggest_compact_range : Ptr → Bytes → Bytes → S → Status × S
  pub rocksdb_suggest_compact_range_cf : Ptr → Ptr → Bytes → Bytes → S → Status × S
  pub rocksdb_flush : Ptr → Ptr → S → Status × S
  pub rocksdb_flush_cf : Ptr → Ptr → Ptr → S → Status × S
  pub rocksdb_flush_cfs : Ptr → Ptr → List Ptr → S → Status × S
  pub rocksdb_flush_wal : Ptr → ℕ → S → Status × S
  pub rocksdb_disable_file_deletions : Ptr → S → Status × S
  pub rocksdb_enable_file_deletions : Ptr → ℕ → S → Status × S
  pub rocksdb_delete_file_in_range : Ptr → Bytes → Bytes → S → Status × S
  pub rocksdb_delete_file_in_range_cf : Ptr → Ptr → Bytes → Bytes → S → Status × S
  pub rocksdb_increase_full_history_ts_low : Ptr → Ptr → Bytes → S → Status × S
  pub rocksdb_try_catch_up_with_primary : Ptr → S → Status × S
  pub rocksdb_cancel_all_background_work : Ptr → ℕ → S → S
  pub rocksdb_enable_manual_compaction : Ptr → S → S
  pub rocksdb_disable_manual_compaction : Ptr → S → S
  pub rocksdb_wait_for_compact : Ptr → Ptr → S → Status × S

module _ {S : Type 0} (api : MaintenanceApi S) where
  open api use {
    rocksdb_drop_column_family, rocksdb_compact_range, rocksdb_compact_range_cf,
    rocksdb_compact_range_opt, rocksdb_compact_range_cf_opt, rocksdb_suggest_compact_range,
    rocksdb_suggest_compact_range_cf, rocksdb_flush, rocksdb_flush_cf, rocksdb_flush_cfs,
    rocksdb_flush_wal, rocksdb_disable_file_deletions, rocksdb_enable_file_deletions,
    rocksdb_delete_file_in_range, rocksdb_delete_file_in_range_cf,
    rocksdb_increase_full_history_ts_low, rocksdb_try_catch_up_with_primary,
    rocksdb_cancel_all_background_work, rocksdb_enable_manual_compaction,
    rocksdb_disable_manual_compaction, rocksdb_wait_for_compact,
  }

  unfoldable pub drop_column_family : (db : Db) (c : ColumnFamilyHandle) → Cmd S (Option Bytes)
  drop_column_family db c = do
    c_err ← call_status (rocksdb_drop_column_family db.c c.c)
    from_c_error c_err

  unfoldable pub compact_range : (db : Db) (r : Range) → Cmd S (Unit {0})
  compact_range db r = do
    let c_start = ref_go_bytes r.start
    let c_limit = ref_go_bytes r.limit
    call_void (
        rocksdb_compact_range db.c (c_view c_start (length r.start))
          (c_view c_limit (length r.limit)))

  unfoldable pub compact_range_cf :
      (db : Db) (cf : ColumnFamilyHandle) (r : Range) → Cmd S (Unit {0})
  compact_range_cf db cf r = do
    let c_start = ref_go_bytes r.start
    let c_limit = ref_go_bytes r.limit
    call_void (
        rocksdb_compact_range_cf db.c cf.c (c_view c_start (length r.start))
          (c_view c_limit (length r.limit)))

  unfoldable pub compact_range_opt :
      (db : Db) (r : Range) (opt : CompactRangeOptions) → Cmd S (Unit {0})
  compact_range_opt db r opt = do
    let c_start = ref_go_bytes r.start
    let c_limit = ref_go_bytes r.limit
    call_void (
        rocksdb_compact_range_opt db.c opt.c (c_view c_start (length r.start))
          (c_view c_limit (length r.limit)))

  unfoldable pub compact_range_cf_opt :
      (db : Db) (cf : ColumnFamilyHandle) (r : Range) (opt : CompactRangeOptions) → Cmd S (Unit {0})
  compact_range_cf_opt db cf r opt = do
    let c_start = ref_go_bytes r.start
    let c_limit = ref_go_bytes r.limit
    call_void (
        rocksdb_compact_range_cf_opt db.c cf.c opt.c (c_view c_start (length r.start))
          (c_view c_limit (length r.limit)))

  unfoldable pub suggest_compact_range : (db : Db) (r : Range) → Cmd S (Option Bytes)
  suggest_compact_range db r = do
    let c_start = ref_go_bytes r.start
    let c_limit = ref_go_bytes r.limit
    c_err ← call_status (
        rocksdb_suggest_compact_range db.c (c_view c_start (length r.start))
          (c_view c_limit (length r.limit)))
    from_c_error c_err

  unfoldable pub suggest_compact_range_cf :
      (db : Db) (cf : ColumnFamilyHandle) (r : Range) → Cmd S (Option Bytes)
  suggest_compact_range_cf db cf r = do
    let c_start = ref_go_bytes r.start
    let c_limit = ref_go_bytes r.limit
    c_err ← call_status (
        rocksdb_suggest_compact_range_cf db.c cf.c (c_view c_start (length r.start))
          (c_view c_limit (length r.limit)))
    from_c_error c_err

  unfoldable pub flush : (db : Db) (opts : FlushOptions) → Cmd S (Option Bytes)
  flush db opts = do c_err ← call_status (rocksdb_flush db.c opts.c); from_c_error c_err

  unfoldable pub flush_cf :
      (db : Db) (cf : ColumnFamilyHandle) (opts : FlushOptions) → Cmd S (Option Bytes)
  flush_cf db cf opts = do
    c_err ← call_status (rocksdb_flush_cf db.c opts.c cf.c)
    from_c_error c_err

  unfoldable pub flush_cfs :
      (db : Db) (cfs : List ColumnFamilyHandle) (opts : FlushOptions) → Cmd S (Option Bytes)
  flush_cfs db [] opts = pure none
  flush_cfs db (cf ∷ cfs) opts = do
    c_err ← call_status (rocksdb_flush_cfs db.c opts.c (map (λ cf. cf.c) (cf ∷ cfs)))
    from_c_error c_err

  unfoldable pub flush_wal : (db : Db) (sync : Bool) → Cmd S (Option Bytes)
  flush_wal db sync = do
    c_err ← call_status (rocksdb_flush_wal db.c (bool_to_char sync))
    from_c_error c_err

  unfoldable pub disable_file_deletions : (db : Db) → Cmd S (Option Bytes)
  disable_file_deletions db = do
    c_err ← call_status (rocksdb_disable_file_deletions db.c)
    from_c_error c_err

  unfoldable pub enable_file_deletions : (db : Db) (force : Bool) → Cmd S (Option Bytes)
  enable_file_deletions db force = do
    c_err ← call_status (rocksdb_enable_file_deletions db.c (bool_to_char force))
    from_c_error c_err

  unfoldable pub delete_file_in_range : (db : Db) (r : Range) → Cmd S (Option Bytes)
  delete_file_in_range db r = do
    let c_start_key = ref_go_bytes r.start
    let c_limit_key = ref_go_bytes r.limit
    c_err ← call_status (
        rocksdb_delete_file_in_range db.c (c_view c_start_key (length r.start))
          (c_view c_limit_key (length r.limit)))
    from_c_error c_err

  unfoldable pub delete_file_in_range_cf :
      (db : Db) (cf : ColumnFamilyHandle) (r : Range) → Cmd S (Option Bytes)
  delete_file_in_range_cf db cf r = do
    let c_start_key = ref_go_bytes r.start
    let c_limit_key = ref_go_bytes r.limit
    c_err ← call_status (
        rocksdb_delete_file_in_range_cf db.c cf.c (c_view c_start_key (length r.start))
          (c_view c_limit_key (length r.limit)))
    from_c_error c_err

  unfoldable pub increase_full_history_ts_low :
      (db : Db) (handle : ColumnFamilyHandle) (ts : Bytes) → Cmd S (Option Bytes)
  increase_full_history_ts_low db handle ts = do
    let c_ts = ref_go_bytes ts
    c_err ←
        call_status (rocksdb_increase_full_history_ts_low db.c handle.c (c_view c_ts (length ts)))
    from_c_error c_err

  unfoldable pub try_catch_up_with_primary : (db : Db) → Cmd S (Option Bytes)
  try_catch_up_with_primary db = do
    c_err ← call_status (rocksdb_try_catch_up_with_primary db.c)
    from_c_error c_err

  unfoldable pub cancel_all_background_work : (db : Db) (wait : Bool) → Cmd S (Unit {0})
  cancel_all_background_work db wait =
      call_void (rocksdb_cancel_all_background_work db.c (bool_to_char wait))

  unfoldable pub enable_manual_compaction : (db : Db) → Cmd S (Unit {0})
  enable_manual_compaction db = call_void (rocksdb_enable_manual_compaction db.c)

  unfoldable pub disable_manual_compaction : (db : Db) → Cmd S (Unit {0})
  disable_manual_compaction db = call_void (rocksdb_disable_manual_compaction db.c)

  unfoldable pub wait_for_compact : (db : Db) (opts : WaitForCompactOptions) → Cmd S (Option Bytes)
  wait_for_compact db opts = do
    c_err ← call_status (rocksdb_wait_for_compact db.c opts.p)
    from_c_error c_err

  abbrev pub ForwardsMaintenance :
      (db : Db) (c cf handle : ColumnFamilyHandle) (r : Range) (opts : FlushOptions)
      (sync force : Bool) (ts : Bytes) (opts_wait_for_compact_options : WaitForCompactOptions)
      (w : World S)
      → Type 0
  ForwardsMaintenance db c cf handle r opts sync force ts opts_wait_for_compact_options w =
      Relays w (drop_column_family db c) (rocksdb_drop_column_family db.c c.c)
      × Relays w (suggest_compact_range db r) (rocksdb_suggest_compact_range db.c r.start r.limit)
      × Relays w (suggest_compact_range_cf db cf r)
          (rocksdb_suggest_compact_range_cf db.c cf.c r.start r.limit)
      × Relays w (flush db opts) (rocksdb_flush db.c opts.c)
      × Relays w (flush_cf db cf opts) (rocksdb_flush_cf db.c opts.c cf.c)
      × Relays w (flush_wal db sync) (rocksdb_flush_wal db.c (bool_to_char sync))
      × Relays w (disable_file_deletions db) (rocksdb_disable_file_deletions db.c)
      × Relays w (enable_file_deletions db force)
          (rocksdb_enable_file_deletions db.c (bool_to_char force))
      × Relays w (delete_file_in_range db r) (rocksdb_delete_file_in_range db.c r.start r.limit)
      × Relays w (delete_file_in_range_cf db cf r)
          (rocksdb_delete_file_in_range_cf db.c cf.c r.start r.limit)
      × Relays w (increase_full_history_ts_low db handle ts)
          (rocksdb_increase_full_history_ts_low db.c handle.c ts)
      × Relays w (try_catch_up_with_primary db) (rocksdb_try_catch_up_with_primary db.c)
      × Relays w (wait_for_compact db opts_wait_for_compact_options)
          (rocksdb_wait_for_compact db.c opts_wait_for_compact_options.p)

  -- Every maintenance operation of a database that RocksDB can fail runs without a fault, hands
  -- RocksDB exactly the bytes of the keys and values that it is given, returns RocksDB's failure as an
  -- error and nil otherwise, and leaves the C heap as it was: the message is freed.
  pub maintenance-Relays :
      (db : Db) (c cf handle : ColumnFamilyHandle) (r : Range) (opts : FlushOptions)
      (sync force : Bool) (ts : Bytes) (opts_wait_for_compact_options : WaitForCompactOptions)
      (w : World S)
      → IsValid w
      → ForwardsMaintenance db c cf handle r opts sync force ts opts_wait_for_compact_options w
  unfolding drop_column_family suggest_compact_range suggest_compact_range_cf flush flush_cf
      flush_wal disable_file_deletions enable_file_deletions delete_file_in_range
      delete_file_in_range_cf increase_full_history_ts_low try_catch_up_with_primary
      wait_for_compact
  maintenance-Relays db c cf handle r opts sync force ts opts_wait_for_compact_options w valid =
      simp c_view-ref_go_bytes (
        relay _ w valid,
        relay _ w valid,
        relay _ w valid,
        relay _ w valid,
        relay _ w valid,
        relay _ w valid,
        relay _ w valid,
        relay _ w valid,
        relay _ w valid,
        relay _ w valid,
        relay _ w valid,
        relay _ w valid,
        relay _ w valid,
      )

  abbrev pub ForwardsRequests :
      (db : Db) (r : Range) (cf : ColumnFamilyHandle) (opt : CompactRangeOptions) (wait : Bool)
      (w : World S)
      → Type 0
  ForwardsRequests db r cf opt wait w =
      Affects w (compact_range db r) (rocksdb_compact_range db.c r.start r.limit)
      × Affects w (compact_range_cf db cf r) (rocksdb_compact_range_cf db.c cf.c r.start r.limit)
      × Affects w (compact_range_opt db r opt)
          (rocksdb_compact_range_opt db.c opt.c r.start r.limit)
      × Affects w (compact_range_cf_opt db cf r opt)
          (rocksdb_compact_range_cf_opt db.c cf.c opt.c r.start r.limit)
      × Affects w (cancel_all_background_work db wait)
          (rocksdb_cancel_all_background_work db.c (bool_to_char wait))
      × Affects w (enable_manual_compaction db) (rocksdb_enable_manual_compaction db.c)
      × Affects w (disable_manual_compaction db) (rocksdb_disable_manual_compaction db.c)

  -- Every maintenance operation of a database with no result runs without a fault, changes RocksDB as
  -- its C function does on exactly the keys of its range, and leaves the C heap as it was.
  pub maintenance-Affects :
      (db : Db) (r : Range) (cf : ColumnFamilyHandle) (opt : CompactRangeOptions) (wait : Bool)
      (w : World S)
      → IsValid w
      → ForwardsRequests db r cf opt wait w
  unfolding compact_range compact_range_cf compact_range_opt compact_range_cf_opt
      cancel_all_background_work enable_manual_compaction disable_manual_compaction
  maintenance-Affects db r cf opt wait w valid = simp c_view-ref_go_bytes (
    affect _ w valid,
    affect _ w valid,
    affect _ w valid,
    affect _ w valid,
    affect _ w valid,
    affect _ w valid,
    affect _ w valid,
  )

  flush_cfs-RelaysSome :
      (db : Db) (cfs : List ColumnFamilyHandle) (opts : FlushOptions) (w : World S)
      → IsValid w
      → RelaysSome cfs w
          (flush_cfs db cfs opts)
          (rocksdb_flush_cfs db.c opts.c (map (λ cf. cf.c) cfs))
  unfolding flush_cfs RelaysSome
  flush_cfs-RelaysSome db [] opts w v = refl
  flush_cfs-RelaysSome db (cf ∷ cfs) opts w v = relay _ w v

  -- Every maintenance operation of a database runs without a fault, hands RocksDB exactly the bytes of
  -- the keys and timestamps that it is given, changes RocksDB as its C function does, and leaves the C
  -- heap as it was. Those that RocksDB can fail return its failure as an error and nil otherwise. A flush
  -- of no column families does nothing.
  pub maintenance-Forwards :
      (db : Db) (cf handle : ColumnFamilyHandle) (cfs : List ColumnFamilyHandle) (r : Range)
      (flush_opts : FlushOptions) (sync force wait : Bool) (ts : Bytes)
      (wait_opts : WaitForCompactOptions) (opt : CompactRangeOptions) (w : World S)
      → IsValid w
      → ForwardsMaintenance db cf cf handle r flush_opts sync force ts wait_opts w
        × ForwardsRequests db r cf opt wait w
        × RelaysSome cfs w
            (flush_cfs db cfs flush_opts)
            (rocksdb_flush_cfs db.c flush_opts.c (map (λ cf. cf.c) cfs))
  maintenance-Forwards db cf handle cfs r flush_opts sync force wait ts wait_opts opt w valid = (
    maintenance-Relays db cf cf handle r flush_opts sync force ts wait_opts w valid,
    maintenance-Affects db r cf opt wait w valid,
    flush_cfs-RelaysSome db cfs flush_opts w valid,
  )
