-- ===== src/WriteBatchWi/Reads/Tests.antt =====
-- The reads at a concrete RocksDB, which answers once and then fails.
use grocksdb.Base.{◌+◌, ℕ}
use grocksdb.Fixtures.{
  a_db, a_column_family_handle, a_write_batch_wi, an_options, a_read_options, value_reply, small,
  small-IsValid, letter_a,
}
use grocksdb.WriteBatchWi.Reads.{BatchReadApi, batch_reads-Fetches, FetchesBatchReads}

abbrev batch_read_api : BatchReadApi ℕ
batch_read_api = record {
  rocksdb_writebatch_wi_get_from_batch = λ a0 a1 a2 s. (value_reply s, s + 1);
  rocksdb_writebatch_wi_get_from_batch_cf = λ a0 a1 a2 a3 s. (value_reply s, s + 2);
  rocksdb_writebatch_wi_get_from_batch_and_db = λ a0 a1 a2 a3 s. (value_reply s, s + 3);
  rocksdb_writebatch_wi_get_from_batch_and_db_cf = λ a0 a1 a2 a3 a4 s. (value_reply s, s + 4);
}

batch_reads-Fetches_example :
    FetchesBatchReads batch_read_api a_write_batch_wi an_options letter_a a_column_family_handle
      a_db a_read_options small
batch_reads-Fetches_example =
    batch_reads-Fetches batch_read_api a_write_batch_wi an_options letter_a a_column_family_handle
      a_db a_read_options small small-IsValid
