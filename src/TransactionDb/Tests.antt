-- ===== src/TransactionDb/Tests.antt =====
-- The forwarding theorems at a concrete RocksDB, which fails when its count is 0.
use grocksdb.Base.{List, [], ◌∷◌, ◌+◌, ℕ, true}
use grocksdb.Fixtures.{
  a_write_options, a_column_family_handle, a_write_batch, a_flush_options, a_transaction_db, small,
  small-IsValid, letter_a, letters_bc, failure,
}
use grocksdb.Types.{OptimisticTransactionDb, ColumnFamilyHandle}
use grocksdb.Util.Relay.{Relays, RelaysSome}
use grocksdb.TransactionDb.Writes.{
  TransactionDbApi, flush_cfs, optimistic_write, transactiondb-Forwards, ForwardsTransactionDb,
}

abbrev transaction_db_api : TransactionDbApi ℕ
transaction_db_api = record {
  rocksdb_transactiondb_put = λ a0 a1 a2 a3 s. (failure s, s + 1);
  rocksdb_transactiondb_put_cf = λ a0 a1 a2 a3 a4 s. (failure s, s + 2);
  rocksdb_transactiondb_merge = λ a0 a1 a2 a3 s. (failure s, s + 3);
  rocksdb_transactiondb_merge_cf = λ a0 a1 a2 a3 a4 s. (failure s, s + 4);
  rocksdb_transactiondb_delete = λ a0 a1 a2 s. (failure s, s + 5);
  rocksdb_transactiondb_delete_cf = λ a0 a1 a2 a3 s. (failure s, s + 6);
  rocksdb_transactiondb_write = λ a0 a1 a2 s. (failure s, s + 7);
  rocksdb_transactiondb_flush = λ a0 a1 s. (failure s, s + 8);
  rocksdb_transactiondb_flush_cf = λ a0 a1 a2 s. (failure s, s + 9);
  rocksdb_transactiondb_flush_cfs = λ a0 a1 a2 s. (failure s, s + 11);
  rocksdb_optimistictransactiondb_write = λ a0 a1 a2 s. (failure s, s + 12);
  rocksdb_transactiondb_flush_wal = λ a0 a1 s. (failure s, s + 10);
}

abbrev an_optimistic_db : OptimisticTransactionDb
an_optimistic_db = record { c = 7 }

abbrev two_handles : List ColumnFamilyHandle
two_handles = a_column_family_handle ∷ a_column_family_handle ∷ []

transactiondb-Forwards_example :
    ForwardsTransactionDb transaction_db_api a_transaction_db a_write_options letter_a letters_bc
      a_column_family_handle a_write_batch a_flush_options true small
    × RelaysSome two_handles small
        (flush_cfs transaction_db_api a_transaction_db two_handles a_flush_options)
        (transaction_db_api.rocksdb_transactiondb_flush_cfs 5 5 (5 ∷ 5 ∷ []))
    × Relays small
        (optimistic_write transaction_db_api an_optimistic_db a_write_options a_write_batch)
        (transaction_db_api.rocksdb_optimistictransactiondb_write 7 5 5)
transactiondb-Forwards_example =
    transactiondb-Forwards transaction_db_api a_transaction_db an_optimistic_db a_write_options
      letter_a letters_bc a_column_family_handle two_handles a_write_batch a_flush_options true
      small small-IsValid
