-- ===== src/Options/Settings/WordsKept.antt =====
-- options.go: the options with a size or a count, which are 64 bits in Go and in C are kept.
use grocksdb.Base.{ℕ, ◌≡◌, ◌≢◌, ◌<◌, ◌^◌, refl}
use grocksdb.Cgo.{Cmd, World, call_void, call_read}
use grocksdb.Types.{Options}
use grocksdb.Options.Settings.{Word, OptionApi}
use grocksdb.Options.Settings.Laws.{Stores, Kept, kept}
use grocksdb.Options.Settings.Words.{
  set_write_buffer_size, set_max_total_wal_size, set_compression_options_max_dict_buffer_bytes,
  set_target_file_size_base, set_max_bytes_for_level_base, set_max_compaction_bytes,
  set_soft_pending_compaction_bytes_limit, set_hard_pending_compaction_bytes_limit,
  set_delete_obsolete_files_period_micros, set_max_log_file_size, set_log_file_time_to_roll,
  set_keep_log_file_num, set_max_manifest_file_size, set_arena_block_size, set_wal_ttl_seconds,
  set_wal_size_limit_mb, set_manifest_preallocation_size, set_db_write_buffer_size,
  set_bytes_per_sync, set_max_sequential_skip_in_iterations, set_inplace_update_num_locks,
  set_memtable_huge_page_size, set_max_successive_merges, set_min_blob_size, set_blob_file_size,
  set_blob_compaction_readahead_size, set_recycle_log_file_num, set_wal_bytes_per_sync,
  set_writable_file_max_buffer_size, get_write_buffer_size, get_max_total_wal_size,
  get_compression_options_max_dict_buffer_bytes, get_target_file_size_base,
  get_max_bytes_for_level_base, get_max_compaction_bytes, get_soft_pending_compaction_bytes_limit,
  get_hard_pending_compaction_bytes_limit, get_delete_obsolete_files_period_micros,
  get_max_log_file_size, get_log_file_time_to_roll, get_keep_log_file_num,
  get_max_manifest_file_size, get_arena_block_size, get_wal_ttl_seconds, get_wal_size_limit_mb,
  get_manifest_preallocation_size, get_db_write_buffer_size, get_bytes_per_sync,
  get_max_sequential_skip_in_iterations, get_inplace_update_num_locks, get_memtable_huge_page_size,
  get_max_successive_merges, get_min_blob_size, get_blob_file_size,
  get_blob_compaction_readahead_size, get_recycle_log_file_num, get_wal_bytes_per_sync,
  get_writable_file_max_buffer_size,
}

module _ {S : Type 0} (api : OptionApi Word ℕ S) where
  open api use {rocksdb_options_set, rocksdb_options_get}

  -- The setter and the getter of each option.
  unfoldable pub set_word : Word → (opts : Options) (v : ℕ) → Cmd S (Unit {0})
  set_word Word.write_buffer_size opts v = set_write_buffer_size api opts v
  set_word Word.max_total_wal_size opts v = set_max_total_wal_size api opts v
  set_word Word.compression_options_max_dict_buffer_bytes opts v =
      set_compression_options_max_dict_buffer_bytes api opts v
  set_word Word.target_file_size_base opts v = set_target_file_size_base api opts v
  set_word Word.max_bytes_for_level_base opts v = set_max_bytes_for_level_base api opts v
  set_word Word.max_compaction_bytes opts v = set_max_compaction_bytes api opts v
  set_word Word.soft_pending_compaction_bytes_limit opts v =
      set_soft_pending_compaction_bytes_limit api opts v
  set_word Word.hard_pending_compaction_bytes_limit opts v =
      set_hard_pending_compaction_bytes_limit api opts v
  set_word Word.delete_obsolete_files_period_micros opts v =
      set_delete_obsolete_files_period_micros api opts v
  set_word Word.max_log_file_size opts v = set_max_log_file_size api opts v
  set_word Word.log_file_time_to_roll opts v = set_log_file_time_to_roll api opts v
  set_word Word.keep_log_file_num opts v = set_keep_log_file_num api opts v
  set_word Word.max_manifest_file_size opts v = set_max_manifest_file_size api opts v
  set_word Word.arena_block_size opts v = set_arena_block_size api opts v
  set_word Word.wal_ttl_seconds opts v = set_wal_ttl_seconds api opts v
  set_word Word.wal_size_limit_mb opts v = set_wal_size_limit_mb api opts v
  set_word Word.manifest_preallocation_size opts v = set_manifest_preallocation_size api opts v
  set_word Word.db_write_buffer_size opts v = set_db_write_buffer_size api opts v
  set_word Word.bytes_per_sync opts v = set_bytes_per_sync api opts v
  set_word Word.max_sequential_skip_in_iterations opts v =
      set_max_sequential_skip_in_iterations api opts v
  set_word Word.inplace_update_num_locks opts v = set_inplace_update_num_locks api opts v
  set_word Word.memtable_huge_page_size opts v = set_memtable_huge_page_size api opts v
  set_word Word.max_successive_merges opts v = set_max_successive_merges api opts v
  set_word Word.min_blob_size opts v = set_min_blob_size api opts v
  set_word Word.blob_file_size opts v = set_blob_file_size api opts v
  set_word Word.blob_compaction_readahead_size opts v =
      set_blob_compaction_readahead_size api opts v
  set_word Word.recycle_log_file_num opts v = set_recycle_log_file_num api opts v
  set_word Word.wal_bytes_per_sync opts v = set_wal_bytes_per_sync api opts v
  set_word Word.writable_file_max_buffer_size opts v = set_writable_file_max_buffer_size api opts v

  unfoldable pub get_word : Word → (opts : Options) → Cmd S ℕ
  get_word Word.write_buffer_size opts = get_write_buffer_size api opts
  get_word Word.max_total_wal_size opts = get_max_total_wal_size api opts
  get_word Word.compression_options_max_dict_buffer_bytes opts =
      get_compression_options_max_dict_buffer_bytes api opts
  get_word Word.target_file_size_base opts = get_target_file_size_base api opts
  get_word Word.max_bytes_for_level_base opts = get_max_bytes_for_level_base api opts
  get_word Word.max_compaction_bytes opts = get_max_compaction_bytes api opts
  get_word Word.soft_pending_compaction_bytes_limit opts =
      get_soft_pending_compaction_bytes_limit api opts
  get_word Word.hard_pending_compaction_bytes_limit opts =
      get_hard_pending_compaction_bytes_limit api opts
  get_word Word.delete_obsolete_files_period_micros opts =
      get_delete_obsolete_files_period_micros api opts
  get_word Word.max_log_file_size opts = get_max_log_file_size api opts
  get_word Word.log_file_time_to_roll opts = get_log_file_time_to_roll api opts
  get_word Word.keep_log_file_num opts = get_keep_log_file_num api opts
  get_word Word.max_manifest_file_size opts = get_max_manifest_file_size api opts
  get_word Word.arena_block_size opts = get_arena_block_size api opts
  get_word Word.wal_ttl_seconds opts = get_wal_ttl_seconds api opts
  get_word Word.wal_size_limit_mb opts = get_wal_size_limit_mb api opts
  get_word Word.manifest_preallocation_size opts = get_manifest_preallocation_size api opts
  get_word Word.db_write_buffer_size opts = get_db_write_buffer_size api opts
  get_word Word.bytes_per_sync opts = get_bytes_per_sync api opts
  get_word Word.max_sequential_skip_in_iterations opts =
      get_max_sequential_skip_in_iterations api opts
  get_word Word.inplace_update_num_locks opts = get_inplace_update_num_locks api opts
  get_word Word.memtable_huge_page_size opts = get_memtable_huge_page_size api opts
  get_word Word.max_successive_merges opts = get_max_successive_merges api opts
  get_word Word.min_blob_size opts = get_min_blob_size api opts
  get_word Word.blob_file_size opts = get_blob_file_size api opts
  get_word Word.blob_compaction_readahead_size opts = get_blob_compaction_readahead_size api opts
  get_word Word.recycle_log_file_num opts = get_recycle_log_file_num api opts
  get_word Word.wal_bytes_per_sync opts = get_wal_bytes_per_sync api opts
  get_word Word.writable_file_max_buffer_size opts = get_writable_file_max_buffer_size api opts

  set_word_call :
      (x : Word) (opts : Options) (v : ℕ)
      → set_word x opts v ≡ call_void (rocksdb_options_set x opts.c v)
  unfolding set_word set_write_buffer_size set_max_total_wal_size
      set_compression_options_max_dict_buffer_bytes set_target_file_size_base
      set_max_bytes_for_level_base set_max_compaction_bytes set_soft_pending_compaction_bytes_limit
      set_hard_pending_compaction_bytes_limit set_delete_obsolete_files_period_micros
      set_max_log_file_size set_log_file_time_to_roll set_keep_log_file_num
      set_max_manifest_file_size set_arena_block_size set_wal_ttl_seconds set_wal_size_limit_mb
      set_manifest_preallocation_size set_db_write_buffer_size set_bytes_per_sync
      set_max_sequential_skip_in_iterations set_inplace_update_num_locks set_memtable_huge_page_size
      set_max_successive_merges set_min_blob_size set_blob_file_size
      set_blob_compaction_readahead_size set_recycle_log_file_num set_wal_bytes_per_sync
      set_writable_file_max_buffer_size
  set_word_call Word.write_buffer_size opts v = refl
  set_word_call Word.max_total_wal_size opts v = refl
  set_word_call Word.compression_options_max_dict_buffer_bytes opts v = refl
  set_word_call Word.target_file_size_base opts v = refl
  set_word_call Word.max_bytes_for_level_base opts v = refl
  set_word_call Word.max_compaction_bytes opts v = refl
  set_word_call Word.soft_pending_compaction_bytes_limit opts v = refl
  set_word_call Word.hard_pending_compaction_bytes_limit opts v = refl
  set_word_call Word.delete_obsolete_files_period_micros opts v = refl
  set_word_call Word.max_log_file_size opts v = refl
  set_word_call Word.log_file_time_to_roll opts v = refl
  set_word_call Word.keep_log_file_num opts v = refl
  set_word_call Word.max_manifest_file_size opts v = refl
  set_word_call Word.arena_block_size opts v = refl
  set_word_call Word.wal_ttl_seconds opts v = refl
  set_word_call Word.wal_size_limit_mb opts v = refl
  set_word_call Word.manifest_preallocation_size opts v = refl
  set_word_call Word.db_write_buffer_size opts v = refl
  set_word_call Word.bytes_per_sync opts v = refl
  set_word_call Word.max_sequential_skip_in_iterations opts v = refl
  set_word_call Word.inplace_update_num_locks opts v = refl
  set_word_call Word.memtable_huge_page_size opts v = refl
  set_word_call Word.max_successive_merges opts v = refl
  set_word_call Word.min_blob_size opts v = refl
  set_word_call Word.blob_file_size opts v = refl
  set_word_call Word.blob_compaction_readahead_size opts v = refl
  set_word_call Word.recycle_log_file_num opts v = refl
  set_word_call Word.wal_bytes_per_sync opts v = refl
  set_word_call Word.writable_file_max_buffer_size opts v = refl

  get_word_call :
      (x : Word) (opts : Options)
      → get_word x opts ≡ call_read (λ s. rocksdb_options_get x opts.c s)
  unfolding get_word get_write_buffer_size get_max_total_wal_size
      get_compression_options_max_dict_buffer_bytes get_target_file_size_base
      get_max_bytes_for_level_base get_max_compaction_bytes get_soft_pending_compaction_bytes_limit
      get_hard_pending_compaction_bytes_limit get_delete_obsolete_files_period_micros
      get_max_log_file_size get_log_file_time_to_roll get_keep_log_file_num
      get_max_manifest_file_size get_arena_block_size get_wal_ttl_seconds get_wal_size_limit_mb
      get_manifest_preallocation_size get_db_write_buffer_size get_bytes_per_sync
      get_max_sequential_skip_in_iterations get_inplace_update_num_locks get_memtable_huge_page_size
      get_max_successive_merges get_min_blob_size get_blob_file_size
      get_blob_compaction_readahead_size get_recycle_log_file_num get_wal_bytes_per_sync
      get_writable_file_max_buffer_size
  get_word_call Word.write_buffer_size opts = refl
  get_word_call Word.max_total_wal_size opts = refl
  get_word_call Word.compression_options_max_dict_buffer_bytes opts = refl
  get_word_call Word.target_file_size_base opts = refl
  get_word_call Word.max_bytes_for_level_base opts = refl
  get_word_call Word.max_compaction_bytes opts = refl
  get_word_call Word.soft_pending_compaction_bytes_limit opts = refl
  get_word_call Word.hard_pending_compaction_bytes_limit opts = refl
  get_word_call Word.delete_obsolete_files_period_micros opts = refl
  get_word_call Word.max_log_file_size opts = refl
  get_word_call Word.log_file_time_to_roll opts = refl
  get_word_call Word.keep_log_file_num opts = refl
  get_word_call Word.max_manifest_file_size opts = refl
  get_word_call Word.arena_block_size opts = refl
  get_word_call Word.wal_ttl_seconds opts = refl
  get_word_call Word.wal_size_limit_mb opts = refl
  get_word_call Word.manifest_preallocation_size opts = refl
  get_word_call Word.db_write_buffer_size opts = refl
  get_word_call Word.bytes_per_sync opts = refl
  get_word_call Word.max_sequential_skip_in_iterations opts = refl
  get_word_call Word.inplace_update_num_locks opts = refl
  get_word_call Word.memtable_huge_page_size opts = refl
  get_word_call Word.max_successive_merges opts = refl
  get_word_call Word.min_blob_size opts = refl
  get_word_call Word.blob_file_size opts = refl
  get_word_call Word.blob_compaction_readahead_size opts = refl
  get_word_call Word.recycle_log_file_num opts = refl
  get_word_call Word.wal_bytes_per_sync opts = refl
  get_word_call Word.writable_file_max_buffer_size opts = refl

  pub word-Kept :
      Stores api (λ c. c < 2 ^ 64)
      → (x y : Word) (opts : Options) (v : ℕ) (w : World S) → y ≢ x
      → v < 2 ^ 64
      → Kept set_word get_word x y opts v v w
  word-Kept laws x y opts v w ne h =
      kept api (λ c. c < 2 ^ 64) laws set_word get_word (λ v. v) (λ c. c) set_word_call
        get_word_call x y opts v v w ne (h) (refl)
