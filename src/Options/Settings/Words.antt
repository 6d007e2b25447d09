-- ===== src/Options/Settings/Words.antt =====
-- options.go: the options with a size or a count, which are 64 bits in Go and in C.
use grocksdb.Base.{ℕ}
use grocksdb.Cgo.{Cmd, call_void, call_read}
use grocksdb.Types.{Options}
use grocksdb.Options.Settings.{Word, OptionApi}

module _ {S : Type 0} (api : OptionApi Word ℕ S) where
  open api use {rocksdb_options_set, rocksdb_options_get}

  unfoldable pub set_write_buffer_size : (opts : Options) (value : ℕ) → Cmd S (Unit {0})
  set_write_buffer_size opts value =
      call_void (rocksdb_options_set Word.write_buffer_size opts.c value)

  unfoldable pub get_write_buffer_size : (opts : Options) → Cmd S ℕ
  get_write_buffer_size opts = call_read (λ s. rocksdb_options_get Word.write_buffer_size opts.c s)

  unfoldable pub set_max_total_wal_size : (opts : Options) (value : ℕ) → Cmd S (Unit {0})
  set_max_total_wal_size opts value =
      call_void (rocksdb_options_set Word.max_total_wal_size opts.c value)

  unfoldable pub get_max_total_wal_size : (opts : Options) → Cmd S ℕ
  get_max_total_wal_size opts =
      call_read (λ s. rocksdb_options_get Word.max_total_wal_size opts.c s)

  unfoldable pub set_compression_options_max_dict_buffer_bytes :
      (opts : Options) (value : ℕ) → Cmd S (Unit {0})
  set_compression_options_max_dict_buffer_bytes opts value =
      call_void (rocksdb_options_set Word.compression_options_max_dict_buffer_bytes opts.c value)

  unfoldable pub get_compression_options_max_dict_buffer_bytes : (opts : Options) → Cmd S ℕ
  get_compression_options_max_dict_buffer_bytes opts =
      call_read (λ s. rocksdb_options_get Word.compression_options_max_dict_buffer_bytes opts.c s)

  unfoldable pub set_target_file_size_base : (opts : Options) (value : ℕ) → Cmd S (Unit {0})
  set_target_file_size_base opts value =
      call_void (rocksdb_options_set Word.target_file_size_base opts.c value)

  unfoldable pub get_target_file_size_base : (opts : Options) → Cmd S ℕ
  get_target_file_size_base opts =
      call_read (λ s. rocksdb_options_get Word.target_file_size_base opts.c s)

  unfoldable pub set_max_bytes_for_level_base : (opts : Options) (value : ℕ) → Cmd S (Unit {0})
  set_max_bytes_for_level_base opts value =
      call_void (rocksdb_options_set Word.max_bytes_for_level_base opts.c value)

  unfoldable pub get_max_bytes_for_level_base : (opts : Options) → Cmd S ℕ
  get_max_bytes_for_level_base opts =
      call_read (λ s. rocksdb_options_get Word.max_bytes_for_level_base opts.c s)

  unfoldable pub set_max_compaction_bytes : (opts : Options) (value : ℕ) → Cmd S (Unit {0})
  set_max_compaction_bytes opts value =
      call_void (rocksdb_options_set Word.max_compaction_bytes opts.c value)

  unfoldable pub get_max_compaction_bytes : (opts : Options) → Cmd S ℕ
  get_max_compaction_bytes opts =
      call_read (λ s. rocksdb_options_get Word.max_compaction_bytes opts.c s)

  unfoldable pub set_soft_pending_compaction_bytes_limit :
      (opts : Options) (value : ℕ) → Cmd S (Unit {0})
  set_soft_pending_compaction_bytes_limit opts value =
      call_void (rocksdb_options_set Word.soft_pending_compaction_bytes_limit opts.c value)

  unfoldable pub get_soft_pending_compaction_bytes_limit : (opts : Options) → Cmd S ℕ
  get_soft_pending_compaction_bytes_limit opts =
      call_read (λ s. rocksdb_options_get Word.soft_pending_compaction_bytes_limit opts.c s)

  unfoldable pub set_hard_pending_compaction_bytes_limit :
      (opts : Options) (value : ℕ) → Cmd S (Unit {0})
  set_hard_pending_compaction_bytes_limit opts value =
      call_void (rocksdb_options_set Word.hard_pending_compaction_bytes_limit opts.c value)

  unfoldable pub get_hard_pending_compaction_bytes_limit : (opts : Options) → Cmd S ℕ
  get_hard_pending_compaction_bytes_limit opts =
      call_read (λ s. rocksdb_options_get Word.hard_pending_compaction_bytes_limit opts.c s)

  unfoldable pub set_delete_obsolete_files_period_micros :
      (opts : Options) (value : ℕ) → Cmd S (Unit {0})
  set_delete_obsolete_files_period_micros opts value =
      call_void (rocksdb_options_set Word.delete_obsolete_files_period_micros opts.c value)

  unfoldable pub get_delete_obsolete_files_period_micros : (opts : Options) → Cmd S ℕ
  get_delete_obsolete_files_period_micros opts =
      call_read (λ s. rocksdb_options_get Word.delete_obsolete_files_period_micros opts.c s)

  unfoldable pub set_max_log_file_size : (opts : Options) (value : ℕ) → Cmd S (Unit {0})
  set_max_log_file_size opts value =
      call_void (rocksdb_options_set Word.max_log_file_size opts.c value)

  unfoldable pub get_max_log_file_size : (opts : Options) → Cmd S ℕ
  get_max_log_file_size opts = call_read (λ s. rocksdb_options_get Word.max_log_file_size opts.c s)

  unfoldable pub set_log_file_time_to_roll : (opts : Options) (value : ℕ) → Cmd S (Unit {0})
  set_log_file_time_to_roll opts value =
      call_void (rocksdb_options_set Word.log_file_time_to_roll opts.c value)

  unfoldable pub get_log_file_time_to_roll : (opts : Options) → Cmd S ℕ
  get_log_file_time_to_roll opts =
      call_read (λ s. rocksdb_options_get Word.log_file_time_to_roll opts.c s)

  unfoldable pub set_keep_log_file_num : (opts : Options) (value : ℕ) → Cmd S (Unit {0})
  set_keep_log_file_num opts value =
      call_void (rocksdb_options_set Word.keep_log_file_num opts.c value)

  unfoldable pub get_keep_log_file_num : (opts : Options) → Cmd S ℕ
  get_keep_log_file_num opts = call_read (λ s. rocksdb_options_get Word.keep_log_file_num opts.c s)

  unfoldable pub set_max_manifest_file_size : (opts : Options) (value : ℕ) → Cmd S (Unit {0})
  set_max_manifest_file_size opts value =
      call_void (rocksdb_options_set Word.max_manifest_file_size opts.c value)

  unfoldable pub get_max_manifest_file_size : (opts : Options) → Cmd S ℕ
  get_max_manifest_file_size opts =
      call_read (λ s. rocksdb_options_get Word.max_manifest_file_size opts.c s)

  unfoldable pub set_arena_block_size : (opts : Options) (value : ℕ) → Cmd S (Unit {0})
  set_arena_block_size opts value =
      call_void (rocksdb_options_set Word.arena_block_size opts.c value)

  unfoldable pub get_arena_block_size : (opts : Options) → Cmd S ℕ
  get_arena_block_size opts = call_read (λ s. rocksdb_options_get Word.arena_block_size opts.c s)

  unfoldable pub set_wal_ttl_seconds : (opts : Options) (value : ℕ) → Cmd S (Unit {0})
  set_wal_ttl_seconds opts value = call_void (rocksdb_options_set Word.wal_ttl_seconds opts.c value)

  unfoldable pub get_wal_ttl_seconds : (opts : Options) → Cmd S ℕ
  get_wal_ttl_seconds opts = call_read (λ s. rocksdb_options_get Word.wal_ttl_seconds opts.c s)

  unfoldable pub set_wal_size_limit_mb : (opts : Options) (value : ℕ) → Cmd S (Unit {0})
  set_wal_size_limit_mb opts value =
      call_void (rocksdb_options_set Word.wal_size_limit_mb opts.c value)

  unfoldable pub get_wal_size_limit_mb : (opts : Options) → Cmd S ℕ
  get_wal_size_limit_mb opts = call_read (λ s. rocksdb_options_get Word.wal_size_limit_mb opts.c s)

  unfoldable pub set_manifest_preallocation_size : (opts : Options) (value : ℕ) → Cmd S (Unit {0})
  set_manifest_preallocation_size opts value =
      call_void (rocksdb_options_set Word.manifest_preallocation_size opts.c value)

  unfoldable pub get_manifest_preallocation_size : (opts : Options) → Cmd S ℕ
  get_manifest_preallocation_size opts =
      call_read (λ s. rocksdb_options_get Word.manifest_preallocation_size opts.c s)

  unfoldable pub set_db_write_buffer_size : (opts : Options) (value : ℕ) → Cmd S (Unit {0})
  set_db_write_buffer_size opts value =
      call_void (rocksdb_options_set Word.db_write_buffer_size opts.c value)

  unfoldable pub get_db_write_buffer_size : (opts : Options) → Cmd S ℕ
  get_db_write_buffer_size opts =
      call_read (λ s. rocksdb_options_get Word.db_write_buffer_size opts.c s)

  unfoldable pub set_bytes_per_sync : (opts : Options) (value : ℕ) → Cmd S (Unit {0})
  set_bytes_per_sync opts value = call_void (rocksdb_options_set Word.bytes_per_sync opts.c value)

  unfoldable pub get_bytes_per_sync : (opts : Options) → Cmd S ℕ
  get_bytes_per_sync opts = call_read (λ s. rocksdb_options_get Word.bytes_per_sync opts.c s)

  unfoldable pub set_max_sequential_skip_in_iterations :
      (opts : Options) (value : ℕ) → Cmd S (Unit {0})
  set_max_sequential_skip_in_iterations opts value =
      call_void (rocksdb_options_set Word.max_sequential_skip_in_iterations opts.c value)

  unfoldable pub get_max_sequential_skip_in_iterations : (opts : Options) → Cmd S ℕ
  get_max_sequential_skip_in_iterations opts =
      call_read (λ s. rocksdb_options_get Word.max_sequential_skip_in_iterations opts.c s)

  unfoldable pub set_inplace_update_num_locks : (opts : Options) (value : ℕ) → Cmd S (Unit {0})
  set_inplace_update_num_locks opts value =
      call_void (rocksdb_options_set Word.inplace_update_num_locks opts.c value)

  unfoldable pub get_inplace_update_num_locks : (opts : Options) → Cmd S ℕ
  get_inplace_update_num_locks opts =
      call_read (λ s. rocksdb_options_get Word.inplace_update_num_locks opts.c s)

  unfoldable pub set_memtable_huge_page_size : (opts : Options) (value : ℕ) → Cmd S (Unit {0})
  set_memtable_huge_page_size opts value =
      call_void (rocksdb_options_set Word.memtable_huge_page_size opts.c value)

  unfoldable pub get_memtable_huge_page_size : (opts : Options) → Cmd S ℕ
  get_memtable_huge_page_size opts =
      call_read (λ s. rocksdb_options_get Word.memtable_huge_page_size opts.c s)

  unfoldable pub set_max_successive_merges : (opts : Options) (value : ℕ) → Cmd S (Unit {0})
  set_max_successive_merges opts value =
      call_void (rocksdb_options_set Word.max_successive_merges opts.c value)

  unfoldable pub get_max_successive_merges : (opts : Options) → Cmd S ℕ
  get_max_successive_merges opts =
      call_read (λ s. rocksdb_options_get Word.max_successive_merges opts.c s)

  unfoldable pub set_min_blob_size : (opts : Options) (value : ℕ) → Cmd S (Unit {0})
  set_min_blob_size opts value = call_void (rocksdb_options_set Word.min_blob_size opts.c value)

  unfoldable pub get_min_blob_size : (opts : Options) → Cmd S ℕ
  get_min_blob_size opts = call_read (λ s. rocksdb_options_get Word.min_blob_size opts.c s)

  unfoldable pub set_blob_file_size : (opts : Options) (value : ℕ) → Cmd S (Unit {0})
  set_blob_file_size opts value = call_void (rocksdb_options_set Word.blob_file_size opts.c value)

  unfoldable pub get_blob_file_size : (opts : Options) → Cmd S ℕ
  get_blob_file_size opts = call_read (λ s. rocksdb_options_get Word.blob_file_size opts.c s)

  unfoldable pub set_blob_compaction_readahead_size : (opts : Options) (val : ℕ) → Cmd S (Unit {0})
  set_blob_compaction_readahead_size opts val =
      call_void (rocksdb_options_set Word.blob_compaction_readahead_size opts.c val)

  unfoldable pub get_blob_compaction_readahead_size : (opts : Options) → Cmd S ℕ
  get_blob_compaction_readahead_size opts =
      call_read (λ s. rocksdb_options_get Word.blob_compaction_readahead_size opts.c s)

  unfoldable pub set_recycle_log_file_num : (opts : Options) (value : ℕ) → Cmd S (Unit {0})
  set_recycle_log_file_num opts value =
      call_void (rocksdb_options_set Word.recycle_log_file_num opts.c value)

  unfoldable pub get_recycle_log_file_num : (opts : Options) → Cmd S ℕ
  get_recycle_log_file_num opts =
      call_read (λ s. rocksdb_options_get Word.recycle_log_file_num opts.c s)

  unfoldable pub set_wal_bytes_per_sync : (opts : Options) (value : ℕ) → Cmd S (Unit {0})
  set_wal_bytes_per_sync opts value =
      call_void (rocksdb_options_set Word.wal_bytes_per_sync opts.c value)

  unfoldable pub get_wal_bytes_per_sync : (opts : Options) → Cmd S ℕ
  get_wal_bytes_per_sync opts =
      call_read (λ s. rocksdb_options_get Word.wal_bytes_per_sync opts.c s)

  unfoldable pub set_writable_file_max_buffer_size : (opts : Options) (value : ℕ) → Cmd S (Unit {0})
  set_writable_file_max_buffer_size opts value =
      call_void (rocksdb_options_set Word.writable_file_max_buffer_size opts.c value)

  unfoldable pub get_writable_file_max_buffer_size : (opts : Options) → Cmd S ℕ
  get_writable_file_max_buffer_size opts =
      call_read (λ s. rocksdb_options_get Word.writable_file_max_buffer_size opts.c s)
