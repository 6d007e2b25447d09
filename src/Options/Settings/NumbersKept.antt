-- ===== src/Options/Settings/NumbersKept.antt =====
-- options.go: the options with a Go int, which is a 32-bit int in C are kept.
use grocksdb.Base.{◌≡◌, ◌≢◌, refl, arith}
use grocksdb.Base.Int.{ℤ, c_int, pos, negsuc}
use grocksdb.Cgo.{Cmd, World, call_void, call_read}
use grocksdb.Types.{Options}
use grocksdb.Options.Settings.{Number, OptionApi}
use grocksdb.Options.Settings.Laws.{Stores, Kept, kept}
use grocksdb.Options.Settings.Numbers.{
  set_max_write_buffer_number, set_min_write_buffer_number_to_merge, set_max_open_files,
  set_max_file_opening_threads, set_compression_options_zstd_max_train_bytes,
  set_compression_options_parallel_threads, set_num_levels, set_level0_file_num_compaction_trigger,
  set_level0_slowdown_writes_trigger, set_level0_stop_writes_trigger,
  set_target_file_size_multiplier, set_max_background_compactions, set_max_background_flushes,
  set_table_cache_numshardbits, set_blob_file_starting_level,
  set_max_write_buffer_number_to_maintain, set_max_background_jobs, get_max_write_buffer_number,
  get_min_write_buffer_number_to_merge, get_max_open_files, get_max_file_opening_threads,
  get_compression_options_zstd_max_train_bytes, get_compression_options_parallel_threads,
  get_num_levels, get_level0_file_num_compaction_trigger, get_level0_slowdown_writes_trigger,
  get_level0_stop_writes_trigger, get_target_file_size_multiplier, get_max_background_compactions,
  get_max_background_flushes, get_table_cache_numshardbits, get_blob_file_starting_level,
  get_max_write_buffer_number_to_maintain, get_max_background_jobs,
}

c_int-c_int : (z : ℤ) → c_int (c_int z) ≡ c_int z
unfolding c_int
c_int-c_int (pos n) = ground arith
c_int-c_int (negsuc n) = ground arith

module _ {S : Type 0} (api : OptionApi Number ℤ S) where
  open api use {rocksdb_options_set, rocksdb_options_get}

  -- The setter and the getter of each option.
  unfoldable pub set_number : Number → (opts : Options) (v : ℤ) → Cmd S (Unit {0})
  set_number Number.max_write_buffer_number opts v = set_max_write_buffer_number api opts v
  set_number Number.min_write_buffer_number_to_merge opts v =
      set_min_write_buffer_number_to_merge api opts v
  set_number Number.max_open_files opts v = set_max_open_files api opts v
  set_number Number.max_file_opening_threads opts v = set_max_file_opening_threads api opts v
  set_number Number.compression_options_zstd_max_train_bytes opts v =
      set_compression_options_zstd_max_train_bytes api opts v
  set_number Number.compression_options_parallel_threads opts v =
      set_compression_options_parallel_threads api opts v
  set_number Number.num_levels opts v = set_num_levels api opts v
  set_number Number.level0_file_num_compaction_trigger opts v =
      set_level0_file_num_compaction_trigger api opts v
  set_number Number.level0_slowdown_writes_trigger opts v =
      set_level0_slowdown_writes_trigger api opts v
  set_number Number.level0_stop_writes_trigger opts v = set_level0_stop_writes_trigger api opts v
  set_number Number.target_file_size_multiplier opts v = set_target_file_size_multiplier api opts v
  set_number Number.max_background_compactions opts v = set_max_background_compactions api opts v
  set_number Number.max_background_flushes opts v = set_max_background_flushes api opts v
  set_number Number.table_cache_numshardbits opts v = set_table_cache_numshardbits api opts v
  set_number Number.blob_file_starting_level opts v = set_blob_file_starting_level api opts v
  set_number Number.max_write_buffer_number_to_maintain opts v =
      set_max_write_buffer_number_to_maintain api opts v
  set_number Number.max_background_jobs opts v = set_max_background_jobs api opts v

  unfoldable pub get_number : Number → (opts : Options) → Cmd S ℤ
  get_number Number.max_write_buffer_number opts = get_max_write_buffer_number api opts
  get_number Number.min_write_buffer_number_to_merge opts =
      get_min_write_buffer_number_to_merge api opts
  get_number Number.max_open_files opts = get_max_open_files api opts
  get_number Number.max_file_opening_threads opts = get_max_file_opening_threads api opts
  get_number Number.compression_options_zstd_max_train_bytes opts =
      get_compression_options_zstd_max_train_bytes api opts
  get_number Number.compression_options_parallel_threads opts =
      get_compression_options_parallel_threads api opts
  get_number Number.num_levels opts = get_num_levels api opts
  get_number Number.level0_file_num_compaction_trigger opts =
      get_level0_file_num_compaction_trigger api opts
  get_number Number.level0_slowdown_writes_trigger opts =
      get_level0_slowdown_writes_trigger api opts
  get_number Number.level0_stop_writes_trigger opts = get_level0_stop_writes_trigger api opts
  get_number Number.target_file_size_multiplier opts = get_target_file_size_multiplier api opts
  get_number Number.max_background_compactions opts = get_max_background_compactions api opts
  get_number Number.max_background_flushes opts = get_max_background_flushes api opts
  get_number Number.table_cache_numshardbits opts = get_table_cache_numshardbits api opts
  get_number Number.blob_file_starting_level opts = get_blob_file_starting_level api opts
  get_number Number.max_write_buffer_number_to_maintain opts =
      get_max_write_buffer_number_to_maintain api opts
  get_number Number.max_background_jobs opts = get_max_background_jobs api opts

  set_number_call :
      (x : Number) (opts : Options) (v : ℤ)
      → set_number x opts v ≡ call_void (rocksdb_options_set x opts.c (c_int v))
  unfolding set_number set_max_write_buffer_number set_min_write_buffer_number_to_merge
      set_max_open_files set_max_file_opening_threads set_compression_options_zstd_max_train_bytes
      set_compression_options_parallel_threads set_num_levels set_level0_file_num_compaction_trigger
      set_level0_slowdown_writes_trigger set_level0_stop_writes_trigger
      set_target_file_size_multiplier set_max_background_compactions set_max_background_flushes
      set_table_cache_numshardbits set_blob_file_starting_level
      set_max_write_buffer_number_to_maintain set_max_background_jobs
  set_number_call Number.max_write_buffer_number opts v = refl
  set_number_call Number.min_write_buffer_number_to_merge opts v = refl
  set_number_call Number.max_open_files opts v = refl
  set_number_call Number.max_file_opening_threads opts v = refl
  set_number_call Number.compression_options_zstd_max_train_bytes opts v = refl
  set_number_call Number.compression_options_parallel_threads opts v = refl
  set_number_call Number.num_levels opts v = refl
  set_number_call Number.level0_file_num_compaction_trigger opts v = refl
  set_number_call Number.level0_slowdown_writes_trigger opts v = refl
  set_number_call Number.level0_stop_writes_trigger opts v = refl
  set_number_call Number.target_file_size_multiplier opts v = refl
  set_number_call Number.max_background_compactions opts v = refl
  set_number_call Number.max_background_flushes opts v = refl
  set_number_call Number.table_cache_numshardbits opts v = refl
  set_number_call Number.blob_file_starting_level opts v = refl
  set_number_call Number.max_write_buffer_number_to_maintain opts v = refl
  set_number_call Number.max_background_jobs opts v = refl

  get_number_call :
      (x : Number) (opts : Options)
      → get_number x opts ≡ call_read (λ s. rocksdb_options_get x opts.c s)
  unfolding get_number get_max_write_buffer_number get_min_write_buffer_number_to_merge
      get_max_open_files get_max_file_opening_threads get_compression_options_zstd_max_train_bytes
      get_compression_options_parallel_threads get_num_levels get_level0_file_num_compaction_trigger
      get_level0_slowdown_writes_trigger get_level0_stop_writes_trigger
      get_target_file_size_multiplier get_max_background_compactions get_max_background_flushes
      get_table_cache_numshardbits get_blob_file_starting_level
      get_max_write_buffer_number_to_maintain get_max_background_jobs
  get_number_call Number.max_write_buffer_number opts = refl
  get_number_call Number.min_write_buffer_number_to_merge opts = refl
  get_number_call Number.max_open_files opts = refl
  get_number_call Number.max_file_opening_threads opts = refl
  get_number_call Number.compression_options_zstd_max_train_bytes opts = refl
  get_number_call Number.compression_options_parallel_threads opts = refl
  get_number_call Number.num_levels opts = refl
  get_number_call Number.level0_file_num_compaction_trigger opts = refl
  get_number_call Number.level0_slowdown_writes_trigger opts = refl
  get_number_call Number.level0_stop_writes_trigger opts = refl
  get_number_call Number.target_file_size_multiplier opts = refl
  get_number_call Number.max_background_compactions opts = refl
  get_number_call Number.max_background_flushes opts = refl
  get_number_call Number.table_cache_numshardbits opts = refl
  get_number_call Number.blob_file_starting_level opts = refl
  get_number_call Number.max_write_buffer_number_to_maintain opts = refl
  get_number_call Number.max_background_jobs opts = refl

  pub number-Kept :
      Stores api (λ c. c_int c ≡ c)
      → (x y : Number) (opts : Options) (v : ℤ) (w : World S) → y ≢ x
      → Kept set_number get_number x y opts v (c_int v) w
  number-Kept laws x y opts v w ne =
      kept api (λ c. c_int c ≡ c) laws set_number get_number (λ v. c_int v) (λ c. c) set_number_call
        get_number_call x y opts v (c_int v) w ne (c_int-c_int v) (refl)
