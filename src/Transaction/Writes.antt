-- ===== src/Transaction/Writes.antt =====
-- transaction.go: the writes, the steps of the commit protocol and the save points.
use grocksdb.Base.{ℕ, Option, Bytes, length}
use grocksdb.Cgo.{Ptr, Cmd, World, Status, ◌>>=◌, call_status, call_void}
use grocksdb.Cgo.Returns.{IsValid}
use grocksdb.Util.{ref_go_bytes, c_view, from_c_error}
use grocksdb.Util.Strings.{c_view-ref_go_bytes}
use grocksdb.Util.Relay.{Relays, relay, Affects, affect}
use grocksdb.Types.{Transaction, ColumnFamilyHandle}

-- The C functions that are called here.
pub record TransactionApi (S : Type 0) : Type 0 where
  pub rocksdb_transaction_set_name : Ptr → Bytes → S → Status × S
  pub rocksdb_transaction_prepare : Ptr → S → Status × S
  pub rocksdb_transaction_commit : Ptr → S → Status × S
  pub rocksdb_transaction_rollback : Ptr → S → Status × S
  pub rocksdb_transaction_put : Ptr → Bytes → Bytes → S → Status × S
  pub rocksdb_transaction_put_cf : Ptr → Ptr → Bytes → Bytes → S → Status × S
  pub rocksdb_transaction_merge : Ptr → Bytes → Bytes → S → Status × S
  pub rocksdb_transaction_merge_cf : Ptr → Ptr → Bytes → Bytes → S → Status × S
  pub rocksdb_transaction_delete : Ptr → Bytes → S → Status × S
  pub rocksdb_transaction_delete_cf : Ptr → Ptr → Bytes → S → Status × S
  pub rocksdb_transaction_set_savepoint : Ptr → S → S
  pub rocksdb_transaction_rollback_to_savepoint : Ptr → S → Status × S
  pub rocksdb_transaction_set_commit_timestamp : Ptr → ℕ → S → S
  pub rocksdb_transaction_set_read_timestamp_for_validation : Ptr → ℕ → S → S

module _ {S : Type 0} (api : TransactionApi S) where
  open api use {
    rocksdb_transaction_set_name, rocksdb_transaction_prepare, rocksdb_transaction_commit,
    rocksdb_transaction_rollback, rocksdb_transaction_put, rocksdb_transaction_put_cf,
    rocksdb_transaction_merge, rocksdb_transaction_merge_cf, rocksdb_transaction_delete,
    rocksdb_transaction_delete_cf, rocksdb_transaction_set_savepoint,
    rocksdb_transaction_rollback_to_savepoint, rocksdb_transaction_set_commit_timestamp,
    rocksdb_transaction_set_read_timestamp_for_validation,
  }

  unfoldable pub set_name : (transaction : Transaction) (name : Bytes) → Cmd S (Option Bytes)
  set_name transaction name = do
    let c_name = ref_go_bytes name
    c_err ← call_status (rocksdb_transaction_set_name transaction.c (c_view c_name (length name)))
    from_c_error c_err

  unfoldable pub prepare : (transaction : Transaction) → Cmd S (Option Bytes)
  prepare transaction = do
    c_err ← call_status (rocksdb_transaction_prepare transaction.c)
    from_c_error c_err

  unfoldable pub commit : (transaction : Transaction) → Cmd S (Option Bytes)
  commit transaction = do
    c_err ← call_status (rocksdb_transaction_commit transaction.c)
    from_c_error c_err

  unfoldable pub rollback : (transaction : Transaction) → Cmd S (Option Bytes)
  rollback transaction = do
    c_err ← call_status (rocksdb_transaction_rollback transaction.c)
    from_c_error c_err

  unfoldable pub put : (transaction : Transaction) (key value : Bytes) → Cmd S (Option Bytes)
  put transaction key value = do
    let c_key = ref_go_bytes key
    let c_value = ref_go_bytes value
    c_err ← call_status (
        rocksdb_transaction_put transaction.c (c_view c_key (length key))
          (c_view c_value (length value)))
    from_c_error c_err

  unfoldable pub put_cf :
      (transaction : Transaction) (cf : ColumnFamilyHandle) (key value : Bytes)
      → Cmd S (Option Bytes)
  put_cf transaction cf key value = do
    let c_key = ref_go_bytes key
    let c_value = ref_go_bytes value
    c_err ← call_status (
        rocksdb_transaction_put_cf transaction.c cf.c (c_view c_key (length key))
          (c_view c_value (length value)))
    from_c_error c_err

  unfoldable pub merge : (transaction : Transaction) (key value : Bytes) → Cmd S (Option Bytes)
  merge transaction key value = do
    let c_key = ref_go_bytes key
    let c_value = ref_go_bytes value
    c_err ← call_status (
        rocksdb_transaction_merge transaction.c (c_view c_key (length key))
          (c_view c_value (length value)))
    from_c_error c_err

  unfoldable pub merge_cf :
      (transaction : Transaction) (cf : ColumnFamilyHandle) (key value : Bytes)
      → Cmd S (Option Bytes)
  merge_cf transaction cf key value = do
    let c_key = ref_go_bytes key
    let c_value = ref_go_bytes value
    c_err ← call_status (
        rocksdb_transaction_merge_cf transaction.c cf.c (c_view c_key (length key))
          (c_view c_value (length value)))
    from_c_error c_err

  unfoldable pub delete : (transaction : Transaction) (key : Bytes) → Cmd S (Option Bytes)
  delete transaction key = do
    let c_key = ref_go_bytes key
    c_err ← call_status (rocksdb_transaction_delete transaction.c (c_view c_key (length key)))
    from_c_error c_err

  unfoldable pub delete_cf :
      (transaction : Transaction) (cf : ColumnFamilyHandle) (key : Bytes) → Cmd S (Option Bytes)
  delete_cf transaction cf key = do
    let c_key = ref_go_bytes key
    c_err ←
        call_status (rocksdb_transaction_delete_cf transaction.c cf.c (c_view c_key (length key)))
    from_c_error c_err

  unfoldable pub set_save_point : (transaction : Transaction) → Cmd S (Unit {0})
  set_save_point transaction = call_void (rocksdb_transaction_set_savepoint transaction.c)

  unfoldable pub rollback_to_save_point : (transaction : Transaction) → Cmd S (Option Bytes)
  rollback_to_save_point transaction = do
    c_err ← call_status (rocksdb_transaction_rollback_to_savepoint transaction.c)
    from_c_error c_err

  unfoldable pub set_commit_timestamp : (transaction : Transaction) (ts : ℕ) → Cmd S (Unit {0})
  set_commit_timestamp transaction ts =
      call_void (rocksdb_transaction_set_commit_timestamp transaction.c ts)

  unfoldable pub set_read_timestamp_for_validation :
      (transaction : Transaction) (ts : ℕ) → Cmd S (Unit {0})
  set_read_timestamp_for_validation transaction ts =
      call_void (rocksdb_transaction_set_read_timestamp_for_validation transaction.c ts)

  abbrev pub ForwardsTransaction :
      (transaction : Transaction) (name key value : Bytes) (cf : ColumnFamilyHandle) (ts : ℕ)
      (w : World S)
      → Type 0
  ForwardsTransaction transaction name key value cf ts w =
      Relays w (set_name transaction name) (rocksdb_transaction_set_name transaction.c name)
      × Relays w (prepare transaction) (rocksdb_transaction_prepare transaction.c)
      × Relays w (commit transaction) (rocksdb_transaction_commit transaction.c)
      × Relays w (rollback transaction) (rocksdb_transaction_rollback transaction.c)
      × Relays w (put transaction key value) (rocksdb_transaction_put transaction.c key value)
      × Relays w (put_cf transaction cf key value)
          (rocksdb_transaction_put_cf transaction.c cf.c key value)
      × Relays w (merge transaction key value) (rocksdb_transaction_merge transaction.c key value)
      × Relays w (merge_cf transaction cf key value)
          (rocksdb_transaction_merge_cf transaction.c cf.c key value)
      × Relays w (delete transaction key) (rocksdb_transaction_delete transaction.c key)
      × Relays w (delete_cf transaction cf key)
          (rocksdb_transaction_delete_cf transaction.c cf.c key)
      × Relays w (rollback_to_save_point transaction)
          (rocksdb_transaction_rollback_to_savepoint transaction.c)
      × Affects w (set_save_point transaction) (rocksdb_transaction_set_savepoint transaction.c)
      × Affects w (set_commit_timestamp transaction ts)
          (rocksdb_transaction_set_commit_timestamp transaction.c ts)
      × Affects w (set_read_timestamp_for_validation transaction ts)
          (rocksdb_transaction_set_read_timestamp_for_validation transaction.c ts)

  -- Every write, step of the commit protocol and save point of a transaction runs without a fault, hands
  -- RocksDB exactly the bytes that it is given, returns RocksDB's failure, where it can fail, as an
  -- error and nil otherwise, and leaves the C heap as it was.
  pub transaction-Relays :
      (transaction : Transaction) (name key value : Bytes) (cf : ColumnFamilyHandle) (ts : ℕ)
      (w : World S)
      → IsValid w
      → ForwardsTransaction transaction name key value cf ts w
  unfolding set_name prepare commit rollback put put_cf merge merge_cf delete delete_cf
      rollback_to_save_point set_save_point set_commit_timestamp set_read_timestamp_for_validation
  transaction-Relays transaction name key value cf ts w valid = simp c_view-ref_go_bytes (
    relay _ w valid,
    relay _ w valid,
    relay _ w valid,
    relay _ w valid,
    relay _ w valid,
    relay _ w valid,
    relay _ w valid,
    relay _ w valid,
    relay _ w valid,
    relay _ w valid,
    relay _ w valid,
    affect _ w valid,
    affect _ w valid,
    affect _ w valid,
  )
