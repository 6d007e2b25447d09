-- ===== src/Options/Settings.antt =====
-- options.go: the options that hold one value, with a setter and a getter for each.
pub mod Laws
pub mod Flags
pub mod Words
pub mod Numbers
pub mod FlagsKept
pub mod WordsKept
pub mod NumbersKept
pub mod Kept
mod Tests
use grocksdb.Cgo.{Ptr}

-- Options are named as in rocksdb/c.h: here those with a truth value, a Go uint64 or uint, a Go int.
pub data Flag : Type 0 where
  create_if_missing error_if_exists paranoid_checks allow_concurrent_memtable_write : Flag
  compression_options_use_zstd_dict_trainer level_compaction_dynamic_level_bytes use_fsync : Flag
  disable_auto_compactions enable_pipelined_write allow_mmap_reads allow_mmap_writes : Flag
  use_direct_reads use_direct_io_for_flush_and_compaction is_fd_close_on_exec : Flag
  advise_random_on_open use_adaptive_mutex atomic_flush manual_wal_flush : Flag
  inplace_update_support create_missing_column_families allow_ingest_behind : Flag
  optimize_filters_for_hits skip_stats_update_on_db_open : Flag
  skip_checking_sst_file_sizes_on_db_open enable_blob_files enable_blob_gc : Flag
  enable_write_thread_adaptive_yield report_bg_io_stats avoid_unnecessary_blocking_io : Flag
  unordered_write : Flag

pub data Word : Type 0 where
  write_buffer_size max_total_wal_size compression_options_max_dict_buffer_bytes : Word
  target_file_size_base max_bytes_for_level_base max_compaction_bytes : Word
  soft_pending_compaction_bytes_limit hard_pending_compaction_bytes_limit : Word
  delete_obsolete_files_period_micros max_log_file_size log_file_time_to_roll : Word
  keep_log_file_num max_manifest_file_size arena_block_size wal_ttl_seconds : Word
  wal_size_limit_mb manifest_preallocation_size db_write_buffer_size bytes_per_sync : Word
  max_sequential_skip_in_iterations inplace_update_num_locks memtable_huge_page_size : Word
  max_successive_merges min_blob_size blob_file_size blob_compaction_readahead_size : Word
  recycle_log_file_num wal_bytes_per_sync writable_file_max_buffer_size : Word

pub data Number : Type 0 where
  max_write_buffer_number min_write_buffer_number_to_merge max_open_files : Number
  max_file_opening_threads compression_options_zstd_max_train_bytes : Number
  compression_options_parallel_threads num_levels level0_file_num_compaction_trigger : Number
  level0_slowdown_writes_trigger level0_stop_writes_trigger target_file_size_multiplier : Number
  max_background_compactions max_background_flushes table_cache_numshardbits : Number
  blob_file_starting_level max_write_buffer_number_to_maintain max_background_jobs : Number

-- `rocksdb_options_set x` is the C function of the setter of `x`: rocksdb_options_set_num_levels for
-- `num_levels`. So for the getters.
pub record OptionApi (X C S : Type 0) : Type 0 where
  pub rocksdb_options_set : X → Ptr → C → S → S
  pub rocksdb_options_get : X → Ptr → S → C
