-- ===== src/Options/Settings/FlagsKept.antt =====
-- options.go: the options with a truth value are kept.
use grocksdb.Base.{ℕ, Bool, true, false, ◌≡◌, ◌≢◌, ◌≤◌, refl, arith}
use grocksdb.Util.Strings.{char_to_bool-bool_to_char}
use grocksdb.Cgo.{Cmd, World, call_void, call_read}
use grocksdb.Util.{bool_to_char, char_to_bool}
use grocksdb.Types.{Options}
use grocksdb.Options.Settings.{Flag, OptionApi}
use grocksdb.Options.Settings.Laws.{Stores, Kept, kept}
use grocksdb.Options.Settings.Flags.{
  set_create_if_missing, set_error_if_exists, set_paranoid_checks,
  set_allow_concurrent_memtable_writes, set_compression_options_zstd_dict_trainer,
  set_level_compaction_dynamic_level_bytes, set_use_fsync, set_disable_auto_compactions,
  set_enable_pipelined_write, set_allow_mmap_reads, set_allow_mmap_writes, set_use_direct_reads,
  set_use_direct_io_for_flush_and_compaction, set_is_fd_close_on_exec, set_advise_random_on_open,
  set_use_adaptive_mutex, set_atomic_flush, set_manual_wal_flush, set_inplace_update_support,
  set_create_if_missing_column_families, set_allow_ingest_behind, set_optimize_filters_for_hits,
  set_skip_stats_update_on_db_open, set_skip_checking_sst_file_sizes_on_db_open, enable_blob_files,
  enable_blob_gc, set_enable_write_thread_adaptive_yield, set_report_background_io_stats,
  avoid_unnecessary_blocking_io, set_unordered_write, create_if_missing, error_if_exists,
  paranoid_checks, allow_concurrent_memtable_writes, get_compression_options_zstd_dict_trainer,
  get_level_compaction_dynamic_level_bytes, use_fsync, disabled_auto_compactions,
  enabled_pipelined_write, allow_mmap_reads, allow_mmap_writes, use_direct_reads,
  use_direct_io_for_flush_and_compaction, is_fd_close_on_exec, advise_random_on_open,
  use_adaptive_mutex, is_atomic_flush, is_manual_wal_flush, inplace_update_support,
  create_if_missing_column_families, allow_ingest_behind, optimize_filters_for_hits,
  skip_stats_update_on_db_open, skip_checking_sst_file_sizes_on_db_open, is_blob_files_enabled,
  is_blob_gc_enabled, enabled_write_thread_adaptive_yield, report_background_io_stats,
  get_avoid_unnecessary_blocking_io_flag, unordered_write,
}

flag_fits : (b : Bool) → bool_to_char b ≤ 1
unfolding bool_to_char
flag_fits true = omega arith
flag_fits false = omega arith

module _ {S : Type 0} (api : OptionApi Flag ℕ S) where
  open api use {rocksdb_options_set, rocksdb_options_get}

  -- The setter and the getter of each option.
  unfoldable pub set_flag : Flag → (opts : Options) (v : Bool) → Cmd S (Unit {0})
  set_flag Flag.create_if_missing opts v = set_create_if_missing api opts v
  set_flag Flag.error_if_exists opts v = set_error_if_exists api opts v
  set_flag Flag.paranoid_checks opts v = set_paranoid_checks api opts v
  set_flag Flag.allow_concurrent_memtable_write opts v =
      set_allow_concurrent_memtable_writes api opts v
  set_flag Flag.compression_options_use_zstd_dict_trainer opts v =
      set_compression_options_zstd_dict_trainer api opts v
  set_flag Flag.level_compaction_dynamic_level_bytes opts v =
      set_level_compaction_dynamic_level_bytes api opts v
  set_flag Flag.use_fsync opts v = set_use_fsync api opts v
  set_flag Flag.disable_auto_compactions opts v = set_disable_auto_compactions api opts v
  set_flag Flag.enable_pipelined_write opts v = set_enable_pipelined_write api opts v
  set_flag Flag.allow_mmap_reads opts v = set_allow_mmap_reads api opts v
  set_flag Flag.allow_mmap_writes opts v = set_allow_mmap_writes api opts v
  set_flag Flag.use_direct_reads opts v = set_use_direct_reads api opts v
  set_flag Flag.use_direct_io_for_flush_and_compaction opts v =
      set_use_direct_io_for_flush_and_compaction api opts v
  set_flag Flag.is_fd_close_on_exec opts v = set_is_fd_close_on_exec api opts v
  set_flag Flag.advise_random_on_open opts v = set_advise_random_on_open api opts v
  set_flag Flag.use_adaptive_mutex opts v = set_use_adaptive_mutex api opts v
  set_flag Flag.atomic_flush opts v = set_atomic_flush api opts v
  set_flag Flag.manual_wal_flush opts v = set_manual_wal_flush api opts v
  set_flag Flag.inplace_update_support opts v = set_inplace_update_support api opts v
  set_flag Flag.create_missing_column_families opts v =
      set_create_if_missing_column_families api opts v
  set_flag Flag.allow_ingest_behind opts v = set_allow_ingest_behind api opts v
  set_flag Flag.optimize_filters_for_hits opts v = set_optimize_filters_for_hits api opts v
  set_flag Flag.skip_stats_update_on_db_open opts v = set_skip_stats_update_on_db_open api opts v
  set_flag Flag.skip_checking_sst_file_sizes_on_db_open opts v =
      set_skip_checking_sst_file_sizes_on_db_open api opts v
  set_flag Flag.enable_blob_files opts v = enable_blob_files api opts v
  set_flag Flag.enable_blob_gc opts v = enable_blob_gc api opts v
  set_flag Flag.enable_write_thread_adaptive_yield opts v =
      set_enable_write_thread_adaptive_yield api opts v
  set_flag Flag.report_bg_io_stats opts v = set_report_background_io_stats api opts v
  set_flag Flag.avoid_unnecessary_blocking_io opts v = avoid_unnecessary_blocking_io api opts v
  set_flag Flag.unordered_write opts v = set_unordered_write api opts v

  unfoldable pub get_flag : Flag → (opts : Options) → Cmd S Bool
  get_flag Flag.create_if_missing opts = create_if_missing api opts
  get_flag Flag.error_if_exists opts = error_if_exists api opts
  get_flag Flag.paranoid_checks opts = paranoid_checks api opts
  get_flag Flag.allow_concurrent_memtable_write opts = allow_concurrent_memtable_writes api opts
  get_flag Flag.compression_options_use_zstd_dict_trainer opts =
      get_compression_options_zstd_dict_trainer api opts
  get_flag Flag.level_compaction_dynamic_level_bytes opts =
      get_level_compaction_dynamic_level_bytes api opts
  get_flag Flag.use_fsync opts = use_fsync api opts
  get_flag Flag.disable_auto_compactions opts = disabled_auto_compactions api opts
  get_flag Flag.enable_pipelined_write opts = enabled_pipelined_write api opts
  get_flag Flag.allow_mmap_reads opts = allow_mmap_reads api opts
  get_flag Flag.allow_mmap_writes opts = allow_mmap_writes api opts
  get_flag Flag.use_direct_reads opts = use_direct_reads api opts
  get_flag Flag.use_direct_io_for_flush_and_compaction opts =
      use_direct_io_for_flush_and_compaction api opts
  get_flag Flag.is_fd_close_on_exec opts = is_fd_close_on_exec api opts
  get_flag Flag.advise_random_on_open opts = advise_random_on_open api opts
  get_flag Flag.use_adaptive_mutex opts = use_adaptive_mutex api opts
  get_flag Flag.atomic_flush opts = is_atomic_flush api opts
  get_flag Flag.manual_wal_flush opts = is_manual_wal_flush api opts
  get_flag Flag.inplace_update_support opts = inplace_update_support api opts
  get_flag Flag.create_missing_column_families opts = create_if_missing_column_families api opts
  get_flag Flag.allow_ingest_behind opts = allow_ingest_behind api opts
  get_flag Flag.optimize_filters_for_hits opts = optimize_filters_for_hits api opts
  get_flag Flag.skip_stats_update_on_db_open opts = skip_stats_update_on_db_open api opts
  get_flag Flag.skip_checking_sst_file_sizes_on_db_open opts =
      skip_checking_sst_file_sizes_on_db_open api opts
  get_flag Flag.enable_blob_files opts = is_blob_files_enabled api opts
  get_flag Flag.enable_blob_gc opts = is_blob_gc_enabled api opts
  get_flag Flag.enable_write_thread_adaptive_yield opts =
      enabled_write_thread_adaptive_yield api opts
  get_flag Flag.report_bg_io_stats opts = report_background_io_stats api opts
  get_flag Flag.avoid_unnecessary_blocking_io opts = get_avoid_unnecessary_blocking_io_flag api opts
  get_flag Flag.unordered_write opts = unordered_write api opts

  set_flag_call :
      (x : Flag) (opts : Options) (v : Bool)
      → set_flag x opts v ≡ call_void (rocksdb_options_set x opts.c (bool_to_char v))
  unfolding set_flag set_create_if_missing set_error_if_exists set_paranoid_checks
      set_allow_concurrent_memtable_writes set_compression_options_zstd_dict_trainer
      set_level_compaction_dynamic_level_bytes set_use_fsync set_disable_auto_compactions
      set_enable_pipelined_write set_allow_mmap_reads set_allow_mmap_writes set_use_direct_reads
      set_use_direct_io_for_flush_and_compaction set_is_fd_close_on_exec set_advise_random_on_open
      set_use_adaptive_mutex set_atomic_flush set_manual_wal_flush set_inplace_update_support
      set_create_if_missing_column_families set_allow_ingest_behind set_optimize_filters_for_hits
      set_skip_stats_update_on_db_open set_skip_checking_sst_file_sizes_on_db_open enable_blob_files
      enable_blob_gc set_enable_write_thread_adaptive_yield set_report_background_io_stats
      avoid_unnecessary_blocking_io set_unordered_write
  set_flag_call Flag.create_if_missing opts v = refl
  set_flag_call Flag.error_if_exists opts v = refl
  set_flag_call Flag.paranoid_checks opts v = refl
  set_flag_call Flag.allow_concurrent_memtable_write opts v = refl
  set_flag_call Flag.compression_options_use_zstd_dict_trainer opts v = refl
  set_flag_call Flag.level_compaction_dynamic_level_bytes opts v = refl
  set_flag_call Flag.use_fsync opts v = refl
  set_flag_call Flag.disable_auto_compactions opts v = refl
  set_flag_call Flag.enable_pipelined_write opts v = refl
  set_flag_call Flag.allow_mmap_reads opts v = refl
  set_flag_call Flag.allow_mmap_writes opts v = refl
  set_flag_call Flag.use_direct_reads opts v = refl
  set_flag_call Flag.use_direct_io_for_flush_and_compaction opts v = refl
  set_flag_call Flag.is_fd_close_on_exec opts v = refl
  set_flag_call Flag.advise_random_on_open opts v = refl
  set_flag_call Flag.use_adaptive_mutex opts v = refl
  set_flag_call Flag.atomic_flush opts v = refl
  set_flag_call Flag.manual_wal_flush opts v = refl
  set_flag_call Flag.inplace_update_support opts v = refl
  set_flag_call Flag.create_missing_column_families opts v = refl
  set_flag_call Flag.allow_ingest_behind opts v = refl
  set_flag_call Flag.optimize_filters_for_hits opts v = refl
  set_flag_call Flag.skip_stats_update_on_db_open opts v = refl
  set_flag_call Flag.skip_checking_sst_file_sizes_on_db_open opts v = refl
  set_flag_call Flag.enable_blob_files opts v = refl
  set_flag_call Flag.enable_blob_gc opts v = refl
  set_flag_call Flag.enable_write_thread_adaptive_yield opts v = refl
  set_flag_call Flag.report_bg_io_stats opts v = refl
  set_flag_call Flag.avoid_unnecessary_blocking_io opts v = refl
  set_flag_call Flag.unordered_write opts v = refl

  get_flag_call :
      (x : Flag) (opts : Options)
      → get_flag x opts ≡ call_read (λ s. char_to_bool (rocksdb_options_get x opts.c s))
  unfolding get_flag create_if_missing error_if_exists paranoid_checks
      allow_concurrent_memtable_writes get_compression_options_zstd_dict_trainer
      get_level_compaction_dynamic_level_bytes use_fsync disabled_auto_compactions
      enabled_pipelined_write allow_mmap_reads allow_mmap_writes use_direct_reads
      use_direct_io_for_flush_and_compaction is_fd_close_on_exec advise_random_on_open
      use_adaptive_mutex is_atomic_flush is_manual_wal_flush inplace_update_support
      create_if_missing_column_families allow_ingest_behind optimize_filters_for_hits
      skip_stats_update_on_db_open skip_checking_sst_file_sizes_on_db_open is_blob_files_enabled
      is_blob_gc_enabled enabled_write_thread_adaptive_yield report_background_io_stats
      get_avoid_unnecessary_blocking_io_flag unordered_write
  get_flag_call Flag.create_if_missing opts = refl
  get_flag_call Flag.error_if_exists opts = refl
  get_flag_call Flag.paranoid_checks opts = refl
  get_flag_call Flag.allow_concurrent_memtable_write opts = refl
  get_flag_call Flag.compression_options_use_zstd_dict_trainer opts = refl
  get_flag_call Flag.level_compaction_dynamic_level_bytes opts = refl
  get_flag_call Flag.use_fsync opts = refl
  get_flag_call Flag.disable_auto_compactions opts = refl
  get_flag_call Flag.enable_pipelined_write opts = refl
  get_flag_call Flag.allow_mmap_reads opts = refl
  get_flag_call Flag.allow_mmap_writes opts = refl
  get_flag_call Flag.use_direct_reads opts = refl
  get_flag_call Flag.use_direct_io_for_flush_and_compaction opts = refl
  get_flag_call Flag.is_fd_close_on_exec opts = refl
  get_flag_call Flag.advise_random_on_open opts = refl
  get_flag_call Flag.use_adaptive_mutex opts = refl
  get_flag_call Flag.atomic_flush opts = refl
  get_flag_call Flag.manual_wal_flush opts = refl
  get_flag_call Flag.inplace_update_support opts = refl
  get_flag_call Flag.create_missing_column_families opts = refl
  get_flag_call Flag.allow_ingest_behind opts = refl
  get_flag_call Flag.optimize_filters_for_hits opts = refl
  get_flag_call Flag.skip_stats_update_on_db_open opts = refl
  get_flag_call Flag.skip_checking_sst_file_sizes_on_db_open opts = refl
  get_flag_call Flag.enable_blob_files opts = refl
  get_flag_call Flag.enable_blob_gc opts = refl
  get_flag_call Flag.enable_write_thread_adaptive_yield opts = refl
  get_flag_call Flag.report_bg_io_stats opts = refl
  get_flag_call Flag.avoid_unnecessary_blocking_io opts = refl
  get_flag_call Flag.unordered_write opts = refl

  pub flag-Kept :
      Stores api (λ c. c ≤ 1)
      → (x y : Flag) (opts : Options) (v : Bool) (w : World S) → y ≢ x
      → Kept set_flag get_flag x y opts v v w
  flag-Kept laws x y opts v w ne =
      kept api (λ c. c ≤ 1) laws set_flag get_flag (λ v. bool_to_char v) (λ c. char_to_bool (c))
        set_flag_call get_flag_call x y opts v v w ne (flag_fits v) (char_to_bool-bool_to_char v)
