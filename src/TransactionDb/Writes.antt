-- ===== src/TransactionDb/Writes.antt =====
-- transactiondb.go: the writes and flushes outside a transaction.
use grocksdb.Base.{none, refl, List, [], ◌∷◌, map, ℕ, Bool, Option, Bytes, length}
use grocksdb.Cgo.{Ptr, Cmd, World, Status, ◌>>=◌, pure, call_status}
use grocksdb.Cgo.Returns.{IsValid}
use grocksdb.Util.{c_view, bool_to_char, ref_go_bytes, from_c_error}
use grocksdb.Util.Strings.{c_view-ref_go_bytes}
use grocksdb.Util.Relay.{RelaysSome, Relays, relay}
use grocksdb.Types.{
  OptimisticTransactionDb, TransactionDb, WriteOptions, FlushOptions, WriteBatch,
  ColumnFamilyHandle,
}

-- The C functions that are called here.
pub record TransactionDbApi (S : Type 0) : Type 0 where
  pub rocksdb_transactiondb_put : Ptr → Ptr → Bytes → Bytes → S → Status × S
  pub rocksdb_transactiondb_put_cf : Ptr → Ptr → Ptr → Bytes → Bytes → S → Status × S
  pub rocksdb_transactiondb_merge : Ptr → Ptr → Bytes → Bytes → S → Status × S
  pub rocksdb_transactiondb_merge_cf : Ptr → Ptr → Ptr → Bytes → Bytes → S → Status × S
  pub rocksdb_transactiondb_delete : Ptr → Ptr → Bytes → S → Status × S
  pub rocksdb_transactiondb_delete_cf : Ptr → Ptr → Ptr → Bytes → S → Status × S
  pub rocksdb_transactiondb_write : Ptr → Ptr → Ptr → S → Status × S
  pub rocksdb_transactiondb_flush : Ptr → Ptr → S → Status × S
  pub rocksdb_transactiondb_flush_cf : Ptr → Ptr → Ptr → S → Status × S
  pub rocksdb_transactiondb_flush_cfs : Ptr → Ptr → List Ptr → S → Status × S
  pub rocksdb_optimistictransactiondb_write : Ptr → Ptr → Ptr → S → Status × S
  pub rocksdb_transactiondb_flush_wal : Ptr → ℕ → S → Status × S

module _ {S : Type 0} (api : TransactionDbApi S) where
  open api use {
    rocksdb_transactiondb_put, rocksdb_transactiondb_put_cf, rocksdb_transactiondb_merge,
    rocksdb_transactiondb_merge_cf, rocksdb_transactiondb_delete, rocksdb_transactiondb_delete_cf,
    rocksdb_transactiondb_write, rocksdb_transactiondb_flush, rocksdb_transactiondb_flush_cf,
    rocksdb_transactiondb_flush_cfs, rocksdb_transactiondb_flush_wal,
    rocksdb_optimistictransactiondb_write,
  }

  unfoldable pub put :
      (db : TransactionDb) (opts : WriteOptions) (key value : Bytes) → Cmd S (Option Bytes)
  put db opts key value = do
    let c_key = ref_go_bytes key
    let c_value = ref_go_bytes value
    c_err ← call_status (
        rocksdb_transactiondb_put db.c opts.c (c_view c_key (length key))
          (c_view c_value (length value)))
    from_c_error c_err

  unfoldable pub put_cf :
      (db : TransactionDb) (opts : WriteOptions) (cf : ColumnFamilyHandle) (key value : Bytes)
      → Cmd S (Option Bytes)
  put_cf db opts cf key value = do
    let c_key = ref_go_bytes key
    let c_value = ref_go_bytes value
    c_err ← call_status (
        rocksdb_transactiondb_put_cf db.c opts.c cf.c (c_view c_key (length key))
          (c_view c_value (length value)))
    from_c_error c_err

  unfoldable pub merge :
      (db : TransactionDb) (opts : WriteOptions) (key value : Bytes) → Cmd S (Option Bytes)
  merge db opts key value = do
    let c_key = ref_go_bytes key
    let c_value = ref_go_bytes value
    c_err ← call_status (
        rocksdb_transactiondb_merge db.c opts.c (c_view c_key (length key))
          (c_view c_value (length value)))
    from_c_error c_err

  unfoldable pub merge_cf :
      (db : TransactionDb) (opts : WriteOptions) (cf : ColumnFamilyHandle) (key value : Bytes)
      → Cmd S (Option Bytes)
  merge_cf db opts cf key value = do
    let c_key = ref_go_bytes key
    let c_value = ref_go_bytes value
    c_err ← call_status (
        rocksdb_transactiondb_merge_cf db.c opts.c cf.c (c_view c_key (length key))
          (c_view c_value (length value)))
    from_c_error c_err

  unfoldable pub delete :
      (db : TransactionDb) (opts : WriteOptions) (key : Bytes) → Cmd S (Option Bytes)
  delete db opts key = do
    let c_key = ref_go_bytes key
    c_err ← call_status (rocksdb_transactiondb_delete db.c opts.c (c_view c_key (length key)))
    from_c_error c_err

  unfoldable pub delete_cf :
      (db : TransactionDb) (opts : WriteOptions) (cf : ColumnFamilyHandle) (key : Bytes)
      → Cmd S (Option Bytes)
  delete_cf db opts cf key = do
    let c_key = ref_go_bytes key
    c_err ←
        call_status (rocksdb_transactiondb_delete_cf db.c opts.c cf.c (c_view c_key (length key)))
    from_c_error c_err

  unfoldable pub write :
      (db : TransactionDb) (opts : WriteOptions) (batch : WriteBatch) → Cmd S (Option Bytes)
  write db opts batch = do
    c_err ← call_status (rocksdb_transactiondb_write db.c opts.c batch.c)
    from_c_error c_err

  -- `Write` of an optimistic database.
  unfoldable pub optimistic_write :
      (db : OptimisticTransactionDb) (opts : WriteOptions) (batch : WriteBatch)
      → Cmd S (Option Bytes)
  optimistic_write db opts batch = do
    c_err ← call_status (rocksdb_optimistictransactiondb_write db.c opts.c batch.c)
    from_c_error c_err

  unfoldable pub flush : (db : TransactionDb) (opts : FlushOptions) → Cmd S (Option Bytes)
  flush db opts = do
    c_err ← call_status (rocksdb_transactiondb_flush db.c opts.c)
    from_c_error c_err

  unfoldable pub flush_cf :
      (db : TransactionDb) (cf : ColumnFamilyHandle) (opts : FlushOptions) → Cmd S (Option Bytes)
  flush_cf db cf opts = do
    c_err ← call_status (rocksdb_transactiondb_flush_cf db.c opts.c cf.c)
    from_c_error c_err

  unfoldable pub flush_cfs :
      (db : TransactionDb) (cfs : List ColumnFamilyHandle) (opts : FlushOptions)
      → Cmd S (Option Bytes)
  flush_cfs db [] opts = pure none
  flush_cfs db (cf ∷ cfs) opts = do
    c_err ← call_status (rocksdb_transactiondb_flush_cfs db.c opts.c (map (λ cf. cf.c) (cf ∷ cfs)))
    from_c_error c_err

  unfoldable pub flush_wal : (db : TransactionDb) (sync : Bool) → Cmd S (Option Bytes)
  flush_wal db sync = do
    c_err ← call_status (rocksdb_transactiondb_flush_wal db.c (bool_to_char sync))
    from_c_error c_err

  abbrev pub ForwardsTransactionDb :
      (db : TransactionDb) (opts : WriteOptions) (key value : Bytes) (cf : ColumnFamilyHandle)
      (batch : WriteBatch) (opts_flush_options : FlushOptions) (sync : Bool) (w : World S)
      → Type 0
  ForwardsTransactionDb db opts key value cf batch opts_flush_options sync w =
      Relays w (put db opts key value) (rocksdb_transactiondb_put db.c opts.c key value)
      × Relays w (put_cf db opts cf key value)
          (rocksdb_transactiondb_put_cf db.c opts.c cf.c key value)
      × Relays w (merge db opts key value) (rocksdb_transactiondb_merge db.c opts.c key value)
      × Relays w (merge_cf db opts cf key value)
          (rocksdb_transactiondb_merge_cf db.c opts.c cf.c key value)
      × Relays w (delete db opts key) (rocksdb_transactiondb_delete db.c opts.c key)
      × Relays w (delete_cf db opts cf key) (rocksdb_transactiondb_delete_cf db.c opts.c cf.c key)
      × Relays w (write db opts batch) (rocksdb_transactiondb_write db.c opts.c batch.c)
      × Relays w (flush db opts_flush_options)
          (rocksdb_transactiondb_flush db.c opts_flush_options.c)
      × Relays w (flush_cf db cf opts_flush_options)
          (rocksdb_transactiondb_flush_cf db.c opts_flush_options.c cf.c)
      × Relays w (flush_wal db sync) (rocksdb_transactiondb_flush_wal db.c (bool_to_char sync))

  -- Every write and flush of a transaction database runs without a fault, hands
  -- RocksDB exactly the bytes of the keys and values that it is given, returns RocksDB's failure as an
  -- error and nil otherwise, and leaves the C heap as it was: the message is freed.
  pub transactiondb-Relays :
      (db : TransactionDb) (opts : WriteOptions) (key value : Bytes) (cf : ColumnFamilyHandle)
      (batch : WriteBatch) (opts_flush_options : FlushOptions) (sync : Bool) (w : World S)
      → IsValid w
      → ForwardsTransactionDb db opts key value cf batch opts_flush_options sync w
  unfolding put put_cf merge merge_cf delete delete_cf write flush flush_cf flush_wal
  transactiondb-Relays db opts key value cf batch opts_flush_options sync w valid =
      simp c_view-ref_go_bytes (
        relay _ w valid,
        relay _ w valid,
        relay _ w valid,
        relay _ w valid,
        relay _ w valid,
        relay _ w valid,
        relay _ w valid,
        relay _ w valid,
        relay _ w valid,
        relay _ w valid,
      )

  flush_cfs-RelaysSome :
      (db : TransactionDb) (cfs : List ColumnFamilyHandle) (opts : FlushOptions) (w : World S)
      → IsValid w
      → RelaysSome cfs w
          (flush_cfs db cfs opts)
          (rocksdb_transactiondb_flush_cfs db.c opts.c (map (λ cf. cf.c) cfs))
  unfolding flush_cfs RelaysSome
  flush_cfs-RelaysSome db [] opts w v = refl
  flush_cfs-RelaysSome db (cf ∷ cfs) opts w v = relay _ w v

  -- Every write and flush of a transaction database, and the write of a batch to an optimistic one, runs
  -- without a fault, hands RocksDB exactly the bytes of the keys and values that it is given, returns
  -- RocksDB's failure as an error and nil otherwise, and leaves the C heap as it was: the message is
  -- freed. A flush of no column families does nothing.
  pub transactiondb-Forwards :
      (db : TransactionDb) (optimistic : OptimisticTransactionDb) (opts : WriteOptions)
      (key value : Bytes) (cf : ColumnFamilyHandle) (cfs : List ColumnFamilyHandle)
      (batch : WriteBatch) (flush_opts : FlushOptions) (sync : Bool) (w : World S)
      → IsValid w
      → ForwardsTransactionDb db opts key value cf batch flush_opts sync w
        × RelaysSome cfs w
            (flush_cfs db cfs flush_opts)
            (rocksdb_transactiondb_flush_cfs db.c flush_opts.c (map (λ cf. cf.c) cfs))
        × Relays w
            (optimistic_write optimistic opts batch)
            (rocksdb_optimistictransactiondb_write optimistic.c opts.c batch.c)
  unfolding optimistic_write
  transactiondb-Forwards db optimistic opts key value cf cfs batch flush_opts sync w valid = (
    transactiondb-Relays db opts key value cf batch flush_opts sync w valid,
    flush_cfs-RelaysSome db cfs flush_opts w valid,
    relay _ w valid,
  )
