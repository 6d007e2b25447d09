-- ===== src/Options/Settings/Flags.antt =====
-- options.go: the options with a truth value.
use grocksdb.Base.{ℕ, Bool}
use grocksdb.Cgo.{Cmd, call_void, call_read}
use grocksdb.Util.{bool_to_char, char_to_bool}
use grocksdb.Types.{Options}
use grocksdb.Options.Settings.{Flag, OptionApi}

module _ {S : Type 0} (api : OptionApi Flag ℕ S) where
  open api use {rocksdb_options_set, rocksdb_options_get}

  unfoldable pub set_create_if_missing : (opts : Options) (value : Bool) → Cmd S (Unit {0})
  set_create_if_missing opts value =
      call_void (rocksdb_options_set Flag.create_if_missing opts.c (bool_to_char value))

  unfoldable pub create_if_missing : (opts : Options) → Cmd S Bool
  create_if_missing opts =
      call_read (λ s. char_to_bool (rocksdb_options_get Flag.create_if_missing opts.c s))

  unfoldable pub set_error_if_exists : (opts : Options) (value : Bool) → Cmd S (Unit {0})
  set_error_if_exists opts value =
      call_void (rocksdb_options_set Flag.error_if_exists opts.c (bool_to_char value))

  unfoldable pub error_if_exists : (opts : Options) → Cmd S Bool
  error_if_exists opts =
      call_read (λ s. char_to_bool (rocksdb_options_get Flag.error_if_exists opts.c s))

  unfoldable pub set_paranoid_checks : (opts : Options) (value : Bool) → Cmd S (Unit {0})
  set_paranoid_checks opts value =
      call_void (rocksdb_options_set Flag.paranoid_checks opts.c (bool_to_char value))

  unfoldable pub paranoid_checks : (opts : Options) → Cmd S Bool
  paranoid_checks opts =
      call_read (λ s. char_to_bool (rocksdb_options_get Flag.paranoid_checks opts.c s))

  unfoldable pub set_allow_concurrent_memtable_writes :
      (opts : Options) (allow : Bool) → Cmd S (Unit {0})
  set_allow_concurrent_memtable_writes opts allow =
      call_void
        (rocksdb_options_set Flag.allow_concurrent_memtable_write opts.c (bool_to_char allow))

  unfoldable pub allow_concurrent_memtable_writes : (opts : Options) → Cmd S Bool
  allow_concurrent_memtable_writes opts =
      call_read
        (λ s. char_to_bool (rocksdb_options_get Flag.allow_concurrent_memtable_write opts.c s))

  unfoldable pub set_compression_options_zstd_dict_trainer :
      (opts : Options) (enabled : Bool) → Cmd S (Unit {0})
  set_compression_options_zstd_dict_trainer opts enabled = call_void (
      rocksdb_options_set Flag.compression_options_use_zstd_dict_trainer opts.c
        (bool_to_char enabled))

  unfoldable pub get_compression_options_zstd_dict_trainer : (opts : Options) → Cmd S Bool
  get_compression_options_zstd_dict_trainer opts = call_read (λ s.
      char_to_bool (rocksdb_options_get Flag.compression_options_use_zstd_dict_trainer opts.c s))

  unfoldable pub set_level_compaction_dynamic_level_bytes :
      (opts : Options) (value : Bool) → Cmd S (Unit {0})
  set_level_compaction_dynamic_level_bytes opts value =
      call_void
        (rocksdb_options_set Flag.level_compaction_dynamic_level_bytes opts.c (bool_to_char value))

  unfoldable pub get_level_compaction_dynamic_level_bytes : (opts : Options) → Cmd S Bool
  get_level_compaction_dynamic_level_bytes opts =
      call_read
        (λ s. char_to_bool (rocksdb_options_get Flag.level_compaction_dynamic_level_bytes opts.c s))

  unfoldable pub set_use_fsync : (opts : Options) (value : Bool) → Cmd S (Unit {0})
  set_use_fsync opts value =
      call_void (rocksdb_options_set Flag.use_fsync opts.c (bool_to_char value))

  unfoldable pub use_fsync : (opts : Options) → Cmd S Bool
  use_fsync opts = call_read (λ s. char_to_bool (rocksdb_options_get Flag.use_fsync opts.c s))

  unfoldable pub set_disable_auto_compactions : (opts : Options) (value : Bool) → Cmd S (Unit {0})
  set_disable_auto_compactions opts value =
      call_void (rocksdb_options_set Flag.disable_auto_compactions opts.c (bool_to_char value))

  unfoldable pub disabled_auto_compactions : (opts : Options) → Cmd S Bool
  disabled_auto_compactions opts =
      call_read (λ s. char_to_bool (rocksdb_options_get Flag.disable_auto_compactions opts.c s))

  unfoldable pub set_enable_pipelined_write : (opts : Options) (value : Bool) → Cmd S (Unit {0})
  set_enable_pipelined_write opts value =
      call_void (rocksdb_options_set Flag.enable_pipelined_write opts.c (bool_to_char value))

  unfoldable pub enabled_pipelined_write : (opts : Options) → Cmd S Bool
  enabled_pipelined_write opts =
      call_read (λ s. char_to_bool (rocksdb_options_get Flag.enable_pipelined_write opts.c s))

  unfoldable pub set_allow_mmap_reads : (opts : Options) (value : Bool) → Cmd S (Unit {0})
  set_allow_mmap_reads opts value =
      call_void (rocksdb_options_set Flag.allow_mmap_reads opts.c (bool_to_char value))

  unfoldable pub allow_mmap_reads : (opts : Options) → Cmd S Bool
  allow_mmap_reads opts =
      call_read (λ s. char_to_bool (rocksdb_options_get Flag.allow_mmap_reads opts.c s))

  unfoldable pub set_allow_mmap_writes : (opts : Options) (value : Bool) → Cmd S (Unit {0})
  set_allow_mmap_writes opts value =
      call_void (rocksdb_options_set Flag.allow_mmap_writes opts.c (bool_to_char value))

  unfoldable pub allow_mmap_writes : (opts : Options) → Cmd S Bool
  allow_mmap_writes opts =
      call_read (λ s. char_to_bool (rocksdb_options_get Flag.allow_mmap_writes opts.c s))

  unfoldable pub set_use_direct_reads : (opts : Options) (value : Bool) → Cmd S (Unit {0})
  set_use_direct_reads opts value =
      call_void (rocksdb_options_set Flag.use_direct_reads opts.c (bool_to_char value))

  unfoldable pub use_direct_reads : (opts : Options) → Cmd S Bool
  use_direct_reads opts =
      call_read (λ s. char_to_bool (rocksdb_options_get Flag.use_direct_reads opts.c s))

  unfoldable pub set_use_direct_io_for_flush_and_compaction :
      (opts : Options) (value : Bool) → Cmd S (Unit {0})
  set_use_direct_io_for_flush_and_compaction opts value =
      call_void (
        rocksdb_options_set Flag.use_direct_io_for_flush_and_compaction opts.c (bool_to_char value))

  unfoldable pub use_direct_io_for_flush_and_compaction : (opts : Options) → Cmd S Bool
  use_direct_io_for_flush_and_compaction opts =
      call_read (λ s.
        char_to_bool (rocksdb_options_get Flag.use_direct_io_for_flush_and_compaction opts.c s))

  unfoldable pub set_is_fd_close_on_exec : (opts : Options) (value : Bool) → Cmd S (Unit {0})
  set_is_fd_close_on_exec opts value =
      call_void (rocksdb_options_set Flag.is_fd_close_on_exec opts.c (bool_to_char value))

  unfoldable pub is_fd_close_on_exec : (opts : Options) → Cmd S Bool
  is_fd_close_on_exec opts =
      call_read (λ s. char_to_bool (rocksdb_options_get Flag.is_fd_close_on_exec opts.c s))

  unfoldable pub set_advise_random_on_open : (opts : Options) (value : Bool) → Cmd S (Unit {0})
  set_advise_random_on_open opts value =
      call_void (rocksdb_options_set Flag.advise_random_on_open opts.c (bool_to_char value))

  unfoldable pub advise_random_on_open : (opts : Options) → Cmd S Bool
  advise_random_on_open opts =
      call_read (λ s. char_to_bool (rocksdb_options_get Flag.advise_random_on_open opts.c s))

  unfoldable pub set_use_adaptive_mutex : (opts : Options) (value : Bool) → Cmd S (Unit {0})
  set_use_adaptive_mutex opts value =
      call_void (rocksdb_options_set Flag.use_adaptive_mutex opts.c (bool_to_char value))

  unfoldable pub use_adaptive_mutex : (opts : Options) → Cmd S Bool
  use_adaptive_mutex opts =
      call_read (λ s. char_to_bool (rocksdb_options_get Flag.use_adaptive_mutex opts.c s))

  unfoldable pub set_atomic_flush : (opts : Options) (value : Bool) → Cmd S (Unit {0})
  set_atomic_flush opts value =
      call_void (rocksdb_options_set Flag.atomic_flush opts.c (bool_to_char value))

  unfoldable pub is_atomic_flush : (opts : Options) → Cmd S Bool
  is_atomic_flush opts =
      call_read (λ s. char_to_bool (rocksdb_options_get Flag.atomic_flush opts.c s))

  unfoldable pub set_manual_wal_flush : (opts : Options) (v : Bool) → Cmd S (Unit {0})
  set_manual_wal_flush opts v =
      call_void (rocksdb_options_set Flag.manual_wal_flush opts.c (bool_to_char v))

  unfoldable pub is_manual_wal_flush : (opts : Options) → Cmd S Bool
  is_manual_wal_flush opts =
      call_read (λ s. char_to_bool (rocksdb_options_get Flag.manual_wal_flush opts.c s))

  unfoldable pub set_inplace_update_support : (opts : Options) (value : Bool) → Cmd S (Unit {0})
  set_inplace_update_support opts value =
      call_void (rocksdb_options_set Flag.inplace_update_support opts.c (bool_to_char value))

  unfoldable pub inplace_update_support : (opts : Options) → Cmd S Bool
  inplace_update_support opts =
      call_read (λ s. char_to_bool (rocksdb_options_get Flag.inplace_update_support opts.c s))

  unfoldable pub set_create_if_missing_column_families :
      (opts : Options) (value : Bool) → Cmd S (Unit {0})
  set_create_if_missing_column_families opts value =
      call_void
        (rocksdb_options_set Flag.create_missing_column_families opts.c (bool_to_char value))

  unfoldable pub create_if_missing_column_families : (opts : Options) → Cmd S Bool
  create_if_missing_column_families opts =
      call_read
        (λ s. char_to_bool (rocksdb_options_get Flag.create_missing_column_families opts.c s))

  unfoldable pub set_allow_ingest_behind : (opts : Options) (value : Bool) → Cmd S (Unit {0})
  set_allow_ingest_behind opts value =
      call_void (rocksdb_options_set Flag.allow_ingest_behind opts.c (bool_to_char value))

  unfoldable pub allow_ingest_behind : (opts : Options) → Cmd S Bool
  allow_ingest_behind opts =
      call_read (λ s. char_to_bool (rocksdb_options_get Flag.allow_ingest_behind opts.c s))

  unfoldable pub set_optimize_filters_for_hits : (opts : Options) (value : Bool) → Cmd S (Unit {0})
  set_optimize_filters_for_hits opts value =
      call_void (rocksdb_options_set Flag.optimize_filters_for_hits opts.c (bool_to_char value))

  unfoldable pub optimize_filters_for_hits : (opts : Options) → Cmd S Bool
  optimize_filters_for_hits opts =
      call_read (λ s. char_to_bool (rocksdb_options_get Flag.optimize_filters_for_hits opts.c s))

  unfoldable pub set_skip_stats_update_on_db_open :
      (opts : Options) (value : Bool) → Cmd S (Unit {0})
  set_skip_stats_update_on_db_open opts value =
      call_void (rocksdb_options_set Flag.skip_stats_update_on_db_open opts.c (bool_to_char value))

  unfoldable pub skip_stats_update_on_db_open : (opts : Options) → Cmd S Bool
  skip_stats_update_on_db_open opts =
      call_read (λ s. char_to_bool (rocksdb_options_get Flag.skip_stats_update_on_db_open opts.c s))

  unfoldable pub set_skip_checking_sst_file_sizes_on_db_open :
      (opts : Options) (value : Bool) → Cmd S (Unit {0})
  set_skip_checking_sst_file_sizes_on_db_open opts value =
      call_void (
        rocksdb_options_set Flag.skip_checking_sst_file_sizes_on_db_open opts.c
          (bool_to_char value))

  unfoldable pub skip_checking_sst_file_sizes_on_db_open : (opts : Options) → Cmd S Bool
  skip_checking_sst_file_sizes_on_db_open opts = call_read (λ s.
      char_to_bool (rocksdb_options_get Flag.skip_checking_sst_file_sizes_on_db_open opts.c s))

  unfoldable pub enable_blob_files : (opts : Options) (value : Bool) → Cmd S (Unit {0})
  enable_blob_files opts value =
      call_void (rocksdb_options_set Flag.enable_blob_files opts.c (bool_to_char value))

  unfoldable pub is_blob_files_enabled : (opts : Options) → Cmd S Bool
  is_blob_files_enabled opts =
      call_read (λ s. char_to_bool (rocksdb_options_get Flag.enable_blob_files opts.c s))

  unfoldable pub enable_blob_gc : (opts : Options) (value : Bool) → Cmd S (Unit {0})
  enable_blob_gc opts value =
      call_void (rocksdb_options_set Flag.enable_blob_gc opts.c (bool_to_char value))

  unfoldable pub is_blob_gc_enabled : (opts : Options) → Cmd S Bool
  is_blob_gc_enabled opts =
      call_read (λ s. char_to_bool (rocksdb_options_get Flag.enable_blob_gc opts.c s))

  unfoldable pub set_enable_write_thread_adaptive_yield :
      (opts : Options) (value : Bool) → Cmd S (Unit {0})
  set_enable_write_thread_adaptive_yield opts value =
      call_void
        (rocksdb_options_set Flag.enable_write_thread_adaptive_yield opts.c (bool_to_char value))

  unfoldable pub enabled_write_thread_adaptive_yield : (opts : Options) → Cmd S Bool
  enabled_write_thread_adaptive_yield opts =
      call_read
        (λ s. char_to_bool (rocksdb_options_get Flag.enable_write_thread_adaptive_yield opts.c s))

  unfoldable pub set_report_background_io_stats : (opts : Options) (value : Bool) → Cmd S (Unit {0})
  set_report_background_io_stats opts value =
      call_void (rocksdb_options_set Flag.report_bg_io_stats opts.c (bool_to_char value))

  unfoldable pub report_background_io_stats : (opts : Options) → Cmd S Bool
  report_background_io_stats opts =
      call_read (λ s. char_to_bool (rocksdb_options_get Flag.report_bg_io_stats opts.c s))

  unfoldable pub avoid_unnecessary_blocking_io : (opts : Options) (v : Bool) → Cmd S (Unit {0})
  avoid_unnecessary_blocking_io opts v =
      call_void (rocksdb_options_set Flag.avoid_unnecessary_blocking_io opts.c (bool_to_char v))

  unfoldable pub get_avoid_unnecessary_blocking_io_flag : (opts : Options) → Cmd S Bool
  get_avoid_unnecessary_blocking_io_flag opts =
      call_read
        (λ s. char_to_bool (rocksdb_options_get Flag.avoid_unnecessary_blocking_io opts.c s))

  unfoldable pub set_unordered_write : (opts : Options) (value : Bool) → Cmd S (Unit {0})
  set_unordered_write opts value =
      call_void (rocksdb_options_set Flag.unordered_write opts.c (bool_to_char value))

  unfoldable pub unordered_write : (opts : Options) → Cmd S Bool
  unordered_write opts =
      call_read (λ s. char_to_bool (rocksdb_options_get Flag.unordered_write opts.c s))
