-- ===== src/WriteBatchWi/Tests.antt =====
-- The forwarding theorems at a concrete RocksDB, which fails when its count is 0.
use grocksdb.Base.{◌+◌, ℕ}
use grocksdb.Fixtures.{
  a_column_family_handle, a_write_batch, a_write_batch_wi, small, small-IsValid, letter_a,
  letters_bc, failure,
}
use grocksdb.WriteBatchWi.Queue.{QueueWiApi, queues-Affect, ForwardsQueueWi}
use grocksdb.WriteBatch.Queue.{QueueApi, ForwardsQueue}

abbrev queue_wi_api : QueueWiApi ℕ
queue_wi_api = record {
  rocksdb_writebatch_wi_put = λ a0 a1 a2 s. s + 1;
  rocksdb_writebatch_wi_put_cf = λ a0 a1 a2 a3 s. s + 2;
  rocksdb_writebatch_wi_put_log_data = λ a0 a1 s. s + 3;
  rocksdb_writebatch_wi_merge = λ a0 a1 a2 s. s + 4;
  rocksdb_writebatch_wi_merge_cf = λ a0 a1 a2 a3 s. s + 5;
  rocksdb_writebatch_wi_delete = λ a0 a1 s. s + 6;
  rocksdb_writebatch_wi_singledelete = λ a0 a1 s. s + 7;
  rocksdb_writebatch_wi_delete_cf = λ a0 a1 a2 s. s + 8;
  rocksdb_writebatch_wi_singledelete_cf = λ a0 a1 a2 s. s + 9;
  rocksdb_writebatch_wi_delete_range = λ a0 a1 a2 s. s + 10;
  rocksdb_writebatch_wi_delete_range_cf = λ a0 a1 a2 a3 s. s + 11;
  rocksdb_writebatch_wi_set_save_point = λ a0 s. s + 12;
  rocksdb_writebatch_wi_rollback_to_save_point = λ a0 s. (failure s, s + 13);
  rocksdb_writebatch_wi_clear = λ a0 s. s + 14;
}

abbrev queue_api : QueueApi ℕ
queue_api = record {
  rocksdb_writebatch_put = λ a0 a1 a2 s. s + 1;
  rocksdb_writebatch_put_cf = λ a0 a1 a2 a3 s. s + 2;
  rocksdb_writebatch_put_cf_with_ts = λ a0 a1 a2 a3 a4 s. s + 3;
  rocksdb_writebatch_put_log_data = λ a0 a1 s. s + 4;
  rocksdb_writebatch_merge = λ a0 a1 a2 s. s + 5;
  rocksdb_writebatch_merge_cf = λ a0 a1 a2 a3 s. s + 6;
  rocksdb_writebatch_delete = λ a0 a1 s. s + 7;
  rocksdb_writebatch_singledelete = λ a0 a1 s. s + 8;
  rocksdb_writebatch_delete_cf = λ a0 a1 a2 s. s + 9;
  rocksdb_writebatch_delete_cf_with_ts = λ a0 a1 a2 a3 s. s + 10;
  rocksdb_writebatch_singledelete_cf = λ a0 a1 a2 s. s + 11;
  rocksdb_writebatch_singledelete_cf_with_ts = λ a0 a1 a2 a3 s. s + 12;
  rocksdb_writebatch_delete_range = λ a0 a1 a2 s. s + 13;
  rocksdb_writebatch_delete_range_cf = λ a0 a1 a2 a3 s. s + 14;
  rocksdb_writebatch_set_save_point = λ a0 s. s + 15;
  rocksdb_writebatch_rollback_to_save_point = λ a0 s. (failure s, s + 16);
  rocksdb_writebatch_pop_save_point = λ a0 s. (failure s, s + 17);
  rocksdb_writebatch_clear = λ a0 s. s + 18;
}

queues-Affect_example :
    ForwardsQueue queue_api a_write_batch letter_a letters_bc letter_a letters_bc letter_a
      letters_bc a_column_family_handle small
    × ForwardsQueueWi queue_wi_api a_write_batch_wi letter_a letters_bc letters_bc letter_a
        letters_bc a_column_family_handle small
queues-Affect_example =
    queues-Affect queue_wi_api queue_api a_write_batch a_write_batch_wi letter_a letters_bc letter_a
      letters_bc letter_a letters_bc a_column_family_handle small small-IsValid
