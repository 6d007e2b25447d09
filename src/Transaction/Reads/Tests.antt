-- ===== src/Transaction/Reads/Tests.antt =====
-- The reads at a concrete RocksDB, which answers once and then fails.
use grocksdb.Base.{◌+◌, ℕ}
use grocksdb.Fixtures.{
  a_column_family_handle, handle_reply, a_read_options, value_reply, a_transaction, small,
  small-IsValid, letter_a,
}
use grocksdb.Transaction.Reads.{
  TransactionReadApi, transaction_reads-Fetches, FetchesTransactionReads,
}

abbrev transaction_read_api : TransactionReadApi ℕ
transaction_read_api = record {
  rocksdb_transaction_get = λ a0 a1 a2 s. (value_reply s, s + 1);
  rocksdb_transaction_get_pinned = λ a0 a1 a2 s. (handle_reply s, s + 2);
  rocksdb_transaction_get_cf = λ a0 a1 a2 a3 s. (value_reply s, s + 3);
  rocksdb_transaction_get_pinned_cf = λ a0 a1 a2 a3 s. (handle_reply s, s + 4);
  rocksdb_transaction_get_for_update = λ a0 a1 a2 a3 s. (value_reply s, s + 5);
  rocksdb_transaction_get_pinned_for_update = λ a0 a1 a2 a3 s. (handle_reply s, s + 6);
  rocksdb_transaction_get_for_update_cf = λ a0 a1 a2 a3 a4 s. (value_reply s, s + 7);
  rocksdb_transaction_get_pinned_for_update_cf = λ a0 a1 a2 a3 a4 s. (handle_reply s, s + 8);
}

transaction_reads-Fetches_example :
    FetchesTransactionReads transaction_read_api a_transaction a_read_options letter_a
      a_column_family_handle small
transaction_reads-Fetches_example =
    transaction_reads-Fetches transaction_read_api a_transaction a_read_options letter_a
      a_column_family_handle small small-IsValid
