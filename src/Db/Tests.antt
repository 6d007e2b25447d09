-- ===== src/Db/Tests.antt =====
-- The forwarding theorems at a concrete RocksDB, which fails when its count is 0.
use grocksdb.Base.{List, [], ◌∷◌, ◌+◌, ℕ, true}
use grocksdb.Fixtures.{
  a_db, a_write_options, a_column_family_handle, a_write_batch, a_write_batch_wi, a_flush_options,
  small, small-IsValid, letter_a, letters_bc, failure,
}
use grocksdb.Db.Puts.{PutApi, ForwardsPuts}
use grocksdb.Db.Deletes.{DeleteApi, writes-Relays, ForwardsDeletes}
use grocksdb.Db.Maintenance.{
  MaintenanceApi, flush_cfs, maintenance-Forwards, ForwardsMaintenance, ForwardsRequests,
}
use grocksdb.Util.Relay.{RelaysSome}
use grocksdb.Types.{ColumnFamilyHandle, Range, WaitForCompactOptions, CompactRangeOptions}

abbrev a_range : Range
a_range = record { start = letter_a; limit = letters_bc }

abbrev a_wait_for_compact_options : WaitForCompactOptions
a_wait_for_compact_options = record { p = 5 }

abbrev a_compact_range_options : CompactRangeOptions
a_compact_range_options = record { c = 5 }

abbrev put_api : PutApi ℕ
put_api = record {
  rocksdb_put = λ a0 a1 a2 a3 s. (failure s, s + 1);
  rocksdb_put_with_ts = λ a0 a1 a2 a3 a4 s. (failure s, s + 2);
  rocksdb_put_with_current_ts = λ a0 a1 a2 s. (failure s, s + 3);
  rocksdb_put_with_uint64_ts = λ a0 a1 a2 a3 s. (failure s, s + 4);
  rocksdb_put_with_fixed64_ts = λ a0 a1 a2 a3 s. (failure s, s + 5);
  rocksdb_put_cf = λ a0 a1 a2 a3 a4 s. (failure s, s + 6);
  rocksdb_put_cf_with_ts = λ a0 a1 a2 a3 a4 a5 s. (failure s, s + 7);
  rocksdb_merge = λ a0 a1 a2 a3 s. (failure s, s + 8);
  rocksdb_merge_cf = λ a0 a1 a2 a3 a4 s. (failure s, s + 9);
}

abbrev delete_api : DeleteApi ℕ
delete_api = record {
  rocksdb_delete = λ a0 a1 a2 s. (failure s, s + 1);
  rocksdb_delete_cf = λ a0 a1 a2 a3 s. (failure s, s + 2);
  rocksdb_delete_with_ts = λ a0 a1 a2 a3 s. (failure s, s + 3);
  rocksdb_delete_with_current_ts = λ a0 a1 s. (failure s, s + 4);
  rocksdb_delete_with_uint64_ts = λ a0 a1 a2 s. (failure s, s + 5);
  rocksdb_delete_with_fixed64_ts = λ a0 a1 a2 s. (failure s, s + 6);
  rocksdb_delete_cf_with_ts = λ a0 a1 a2 a3 a4 s. (failure s, s + 7);
  rocksdb_singledelete_with_ts = λ a0 a1 a2 a3 s. (failure s, s + 8);
  rocksdb_singledelete_cf_with_ts = λ a0 a1 a2 a3 a4 s. (failure s, s + 9);
  rocksdb_delete_range_cf = λ a0 a1 a2 a3 a4 s. (failure s, s + 10);
  rocksdb_delete_range_cf_uint64_ts = λ a0 a1 a2 a3 a4 s. (failure s, s + 11);
  rocksdb_delete_range_cf_fixed64_ts = λ a0 a1 a2 a3 a4 s. (failure s, s + 12);
  rocksdb_singledelete = λ a0 a1 a2 s. (failure s, s + 13);
  rocksdb_singledelete_cf = λ a0 a1 a2 a3 s. (failure s, s + 14);
  rocksdb_write = λ a0 a1 a2 s. (failure s, s + 15);
  rocksdb_write_writebatch_wi = λ a0 a1 a2 s. (failure s, s + 16);
}

writes-Relays_example :
    ForwardsPuts put_api a_db a_write_options letter_a letters_bc letter_a 7 a_column_family_handle
      small
    × ForwardsDeletes delete_api a_db a_write_options letter_a letter_a letter_a letters_bc
        a_column_family_handle 7 a_write_batch a_write_batch_wi small
writes-Relays_example =
    writes-Relays delete_api put_api a_db a_write_options letter_a letters_bc letter_a letter_a
      letters_bc a_column_family_handle 7 a_write_batch a_write_batch_wi small small-IsValid

abbrev maintenance_api : MaintenanceApi ℕ
maintenance_api = record {
  rocksdb_drop_column_family = λ a0 a1 s. (failure s, s + 1);
  rocksdb_compact_range = λ a0 a1 a2 s. s + 2;
  rocksdb_compact_range_cf = λ a0 a1 a2 a3 s. s + 3;
  rocksdb_compact_range_opt = λ a0 a1 a2 a3 s. s + 4;
  rocksdb_compact_range_cf_opt = λ a0 a1 a2 a3 a4 s. s + 5;
  rocksdb_suggest_compact_range = λ a0 a1 a2 s. (failure s, s + 6);
  rocksdb_suggest_compact_range_cf = λ a0 a1 a2 a3 s. (failure s, s + 7);
  rocksdb_flush = λ a0 a1 s. (failure s, s + 8);
  rocksdb_flush_cf = λ a0 a1 a2 s. (failure s, s + 9);
  rocksdb_flush_cfs = λ a0 a1 a2 s. (failure s, s + 21);
  rocksdb_flush_wal = λ a0 a1 s. (failure s, s + 10);
  rocksdb_disable_file_deletions = λ a0 s. (failure s, s + 11);
  rocksdb_enable_file_deletions = λ a0 a1 s. (failure s, s + 12);
  rocksdb_delete_file_in_range = λ a0 a1 a2 s. (failure s, s + 13);
  rocksdb_delete_file_in_range_cf = λ a0 a1 a2 a3 s. (failure s, s + 14);
  rocksdb_increase_full_history_ts_low = λ a0 a1 a2 s. (failure s, s + 15);
  rocksdb_try_catch_up_with_primary = λ a0 s. (failure s, s + 16);
  rocksdb_cancel_all_background_work = λ a0 a1 s. s + 17;
  rocksdb_enable_manual_compaction = λ a0 s. s + 18;
  rocksdb_disable_manual_compaction = λ a0 s. s + 19;
  rocksdb_wait_for_compact = λ a0 a1 s. (failure s, s + 20);
}

abbrev two_handles : List ColumnFamilyHandle
two_handles = a_column_family_handle ∷ a_column_family_handle ∷ []

maintenance-Forwards_example :
    ForwardsMaintenance maintenance_api a_db a_column_family_handle a_column_family_handle
      a_column_family_handle a_range a_flush_options true true letter_a a_wait_for_compact_options
      small
    × ForwardsRequests maintenance_api a_db a_range a_column_family_handle a_compact_range_options
        true small
    × RelaysSome two_handles small
        (flush_cfs maintenance_api a_db two_handles a_flush_options)
        (maintenance_api.rocksdb_flush_cfs 5 5 (5 ∷ 5 ∷ []))
maintenance-Forwards_example =
    maintenance-Forwards maintenance_api a_db a_column_family_handle a_column_family_handle
      two_handles a_range a_flush_options true true true letter_a a_wait_for_compact_options
      a_compact_range_options small small-IsValid
