-- ===== src/Options/Settings/Numbers.antt =====
-- options.go: the options with a Go int, which is a 32-bit int in C.
use grocksdb.Base.Int.{ℤ, c_int}
use grocksdb.Cgo.{Cmd, call_void, call_read}
use grocksdb.Types.{Options}
use grocksdb.Options.Settings.{Number, OptionApi}

module _ {S : Type 0} (api : OptionApi Number ℤ S) where
  open api use {rocksdb_options_set, rocksdb_options_get}

  unfoldable pub set_max_write_buffer_number : (opts : Options) (value : ℤ) → Cmd S (Unit {0})
  set_max_write_buffer_number opts value =
      call_void (rocksdb_options_set Number.max_write_buffer_number opts.c (c_int value))

  unfoldable pub get_max_write_buffer_number : (opts : Options) → Cmd S ℤ
  get_max_write_buffer_number opts =
      call_read (λ s. rocksdb_options_get Number.max_write_buffer_number opts.c s)

  unfoldable pub set_min_write_buffer_number_to_merge :
      (opts : Options) (value : ℤ) → Cmd S (Unit {0})
  set_min_write_buffer_number_to_merge opts value =
      call_void (rocksdb_options_set Number.min_write_buffer_number_to_merge opts.c (c_int value))

  unfoldable pub get_min_write_buffer_number_to_merge : (opts : Options) → Cmd S ℤ
  get_min_write_buffer_number_to_merge opts =
      call_read (λ s. rocksdb_options_get Number.min_write_buffer_number_to_merge opts.c s)

  unfoldable pub set_max_open_files : (opts : Options) (value : ℤ) → Cmd S (Unit {0})
  set_max_open_files opts value =
      call_void (rocksdb_options_set Number.max_open_files opts.c (c_int value))

  unfoldable pub get_max_open_files : (opts : Options) → Cmd S ℤ
  get_max_open_files opts = call_read (λ s. rocksdb_options_get Number.max_open_files opts.c s)

  unfoldable pub set_max_file_opening_threads : (opts : Options) (value : ℤ) → Cmd S (Unit {0})
  set_max_file_opening_threads opts value =
      call_void (rocksdb_options_set Number.max_file_opening_threads opts.c (c_int value))

  unfoldable pub get_max_file_opening_threads : (opts : Options) → Cmd S ℤ
  get_max_file_opening_threads opts =
      call_read (λ s. rocksdb_options_get Number.max_file_opening_threads opts.c s)

  unfoldable pub set_compression_options_zstd_max_train_bytes :
      (opts : Options) (value : ℤ) → Cmd S (Unit {0})
  set_compression_options_zstd_max_train_bytes opts value =
      call_void
        (rocksdb_options_set Number.compression_options_zstd_max_train_bytes opts.c (c_int value))

  unfoldable pub get_compression_options_zstd_max_train_bytes : (opts : Options) → Cmd S ℤ
  get_compression_options_zstd_max_train_bytes opts =
      call_read (λ s. rocksdb_options_get Number.compression_options_zstd_max_train_bytes opts.c s)

  unfoldable pub set_compression_options_parallel_threads :
      (opts : Options) (n : ℤ) → Cmd S (Unit {0})
  set_compression_options_parallel_threads opts n =
      call_void (rocksdb_options_set Number.compression_options_parallel_threads opts.c (c_int n))

  unfoldable pub get_compression_options_parallel_threads : (opts : Options) → Cmd S ℤ
  get_compression_options_parallel_threads opts =
      call_read (λ s. rocksdb_options_get Number.compression_options_parallel_threads opts.c s)

  unfoldable pub set_num_levels : (opts : Options) (value : ℤ) → Cmd S (Unit {0})
  set_num_levels opts value = call_void (rocksdb_options_set Number.num_levels opts.c (c_int value))

  unfoldable pub get_num_levels : (opts : Options) → Cmd S ℤ
  get_num_levels opts = call_read (λ s. rocksdb_options_get Number.num_levels opts.c s)

  unfoldable pub set_level0_file_num_compaction_trigger :
      (opts : Options) (value : ℤ) → Cmd S (Unit {0})
  set_level0_file_num_compaction_trigger opts value =
      call_void (rocksdb_options_set Number.level0_file_num_compaction_trigger opts.c (c_int value))

  unfoldable pub get_level0_file_num_compaction_trigger : (opts : Options) → Cmd S ℤ
  get_level0_file_num_compaction_trigger opts =
      call_read (λ s. rocksdb_options_get Number.level0_file_num_compaction_trigger opts.c s)

  unfoldable pub set_level0_slowdown_writes_trigger :
      (opts : Options) (value : ℤ) → Cmd S (Unit {0})
  set_level0_slowdown_writes_trigger opts value =
      call_void (rocksdb_options_set Number.level0_slowdown_writes_trigger opts.c (c_int value))

  unfoldable pub get_level0_slowdown_writes_trigger : (opts : Options) → Cmd S ℤ
  get_level0_slowdown_writes_trigger opts =
      call_read (λ s. rocksdb_options_get Number.level0_slowdown_writes_trigger opts.c s)

  unfoldable pub set_level0_stop_writes_trigger : (opts : Options) (value : ℤ) → Cmd S (Unit {0})
  set_level0_stop_writes_trigger opts value =
      call_void (rocksdb_options_set Number.level0_stop_writes_trigger opts.c (c_int value))

  unfoldable pub get_level0_stop_writes_trigger : (opts : Options) → Cmd S ℤ
  get_level0_stop_writes_trigger opts =
      call_read (λ s. rocksdb_options_get Number.level0_stop_writes_trigger opts.c s)

  unfoldable pub set_target_file_size_multiplier : (opts : Options) (value : ℤ) → Cmd S (Unit {0})
  set_target_file_size_multiplier opts value =
      call_void (rocksdb_options_set Number.target_file_size_multiplier opts.c (c_int value))

  unfoldable pub get_target_file_size_multiplier : (opts : Options) → Cmd S ℤ
  get_target_file_size_multiplier opts =
      call_read (λ s. rocksdb_options_get Number.target_file_size_multiplier opts.c s)

  unfoldable pub set_max_background_compactions : (opts : Options) (value : ℤ) → Cmd S (Unit {0})
  set_max_background_compactions opts value =
      call_void (rocksdb_options_set Number.max_background_compactions opts.c (c_int value))

  unfoldable pub get_max_background_compactions : (opts : Options) → Cmd S ℤ
  get_max_background_compactions opts =
      call_read (λ s. rocksdb_options_get Number.max_background_compactions opts.c s)

  unfoldable pub set_max_background_flushes : (opts : Options) (value : ℤ) → Cmd S (Unit {0})
  set_max_background_flushes opts value =
      call_void (rocksdb_options_set Number.max_background_flushes opts.c (c_int value))

  unfoldable pub get_max_background_flushes : (opts : Options) → Cmd S ℤ
  get_max_background_flushes opts =
      call_read (λ s. rocksdb_options_get Number.max_background_flushes opts.c s)

  unfoldable pub set_table_cache_numshardbits : (opts : Options) (value : ℤ) → Cmd S (Unit {0})
  set_table_cache_numshardbits opts value =
      call_void (rocksdb_options_set Number.table_cache_numshardbits opts.c (c_int value))

  unfoldable pub get_table_cache_numshardbits : (opts : Options) → Cmd S ℤ
  get_table_cache_numshardbits opts =
      call_read (λ s. rocksdb_options_get Number.table_cache_numshardbits opts.c s)

  unfoldable pub set_blob_file_starting_level : (opts : Options) (level : ℤ) → Cmd S (Unit {0})
  set_blob_file_starting_level opts level =
      call_void (rocksdb_options_set Number.blob_file_starting_level opts.c (c_int level))

  unfoldable pub get_blob_file_starting_level : (opts : Options) → Cmd S ℤ
  get_blob_file_starting_level opts =
      call_read (λ s. rocksdb_options_get Number.blob_file_starting_level opts.c s)

  unfoldable pub set_max_write_buffer_number_to_maintain :
      (opts : Options) (value : ℤ) → Cmd S (Unit {0})
  set_max_write_buffer_number_to_maintain opts value =
      call_void
        (rocksdb_options_set Number.max_write_buffer_number_to_maintain opts.c (c_int value))

  unfoldable pub get_max_write_buffer_number_to_maintain : (opts : Options) → Cmd S ℤ
  get_max_write_buffer_number_to_maintain opts =
      call_read (λ s. rocksdb_options_get Number.max_write_buffer_number_to_maintain opts.c s)

  unfoldable pub set_max_background_jobs : (opts : Options) (value : ℤ) → Cmd S (Unit {0})
  set_max_background_jobs opts value =
      call_void (rocksdb_options_set Number.max_background_jobs opts.c (c_int value))

  unfoldable pub get_max_background_jobs : (opts : Options) → Cmd S ℤ
  get_max_background_jobs opts =
      call_read (λ s. rocksdb_options_get Number.max_background_jobs opts.c s)
