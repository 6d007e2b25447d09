-- ===== src/Transaction/Tests.antt =====
-- The forwarding theorems at a concrete RocksDB, which fails when its count is 0.
use grocksdb.Base.{◌+◌, ℕ}
use grocksdb.Fixtures.{
  a_column_family_handle, a_transaction, small, small-IsValid, letter_a, letters_bc, failure,
}
use grocksdb.Transaction.Writes.{TransactionApi, transaction-Relays, ForwardsTransaction}

abbrev transaction_api : TransactionApi ℕ
transaction_api = record {
  rocksdb_transaction_set_name = λ a0 a1 s. (failure s, s + 1);
  rocksdb_transaction_prepare = λ a0 s. (failure s, s + 2);
  rocksdb_transaction_commit = λ a0 s. (failure s, s + 3);
  rocksdb_transaction_rollback = λ a0 s. (failure s, s + 4);
  rocksdb_transaction_put = λ a0 a1 a2 s. (failure s, s + 5);
  rocksdb_transaction_put_cf = λ a0 a1 a2 a3 s. (failure s, s + 6);
  rocksdb_transaction_merge = λ a0 a1 a2 s. (failure s, s + 7);
  rocksdb_transaction_merge_cf = λ a0 a1 a2 a3 s. (failure s, s + 8);
  rocksdb_transaction_delete = λ a0 a1 s. (failure s, s + 9);
  rocksdb_transaction_delete_cf = λ a0 a1 a2 s. (failure s, s + 10);
  rocksdb_transaction_set_savepoint = λ a0 s. s + 11;
  rocksdb_transaction_rollback_to_savepoint = λ a0 s. (failure s, s + 12);
  rocksdb_transaction_set_commit_timestamp = λ a0 a1 s. s + 13;
  rocksdb_transaction_set_read_timestamp_for_validation = λ a0 a1 s. s + 14;
}

transaction-Relays_example :
    ForwardsTransaction transaction_api a_transaction letter_a letter_a letters_bc
      a_column_family_handle 7 small
transaction-Relays_example =
    transaction-Relays transaction_api a_transaction letter_a letter_a letters_bc
      a_column_family_handle 7 small small-IsValid
