-- ===== src/TransactionDb/Reads/Tests.antt =====
-- The reads at a concrete RocksDB, which answers once and then fails.
use grocksdb.Base.{◌+◌, ℕ}
use grocksdb.Fixtures.{
  a_column_family_handle, handle_reply, a_read_options, value_reply, a_transaction_db, small,
  small-IsValid, letter_a,
}
use grocksdb.TransactionDb.Reads.{
  TransactionDbReadApi, transactiondb_reads-Fetches, FetchesTransactionDbReads,
}

abbrev transaction_db_read_api : TransactionDbReadApi ℕ
transaction_db_read_api = record {
  rocksdb_transactiondb_get = λ a0 a1 a2 s. (value_reply s, s + 1);
  rocksdb_transactiondb_get_pinned = λ a0 a1 a2 s. (handle_reply s, s + 2);
  rocksdb_transactiondb_get_cf = λ a0 a1 a2 a3 s. (value_reply s, s + 3);
  rocksdb_transactiondb_get_pinned_cf = λ a0 a1 a2 a3 s. (handle_reply s, s + 4);
}

transactiondb_reads-Fetches_example :
    FetchesTransactionDbReads transaction_db_read_api a_transaction_db a_read_options letter_a
      a_column_family_handle small
transactiondb_reads-Fetches_example =
    transactiondb_reads-Fetches transaction_db_read_api a_transaction_db a_read_options letter_a
      a_column_family_handle small small-IsValid
