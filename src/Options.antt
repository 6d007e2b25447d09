-- ===== src/Options.antt =====
-- options.go: the native objects that options own: the options themselves, a comparator, a merge
-- operator, a prefix extractor, a compaction filter and an environment.
pub mod Ownership
pub mod Histories
pub mod Written
pub mod Clones
pub mod Settings
mod Tests
use grocksdb.Base.{ℕ, [], ◌∷◌, List, ◌==◌, if◌then◌else◌}
use grocksdb.Cgo.{Ptr, null, Cmd, ◌>>=◌, ◌>>◌, pure, malloc, free, call_void}
use grocksdb.Types.{Options, Env}
use grocksdb.Callbacks.Comparator.{Comparator}
use grocksdb.Callbacks.MergeOperator.{MergeOperator, MergeOperators, register_merge_operator}
use grocksdb.Callbacks.CompactionFilter.{
  CompactionFilter, CompactionFilters, register_compaction_filter,
}
use grocksdb.Callbacks.SliceTransform.{SliceTransform, SliceTransforms, register_slice_transform}

-- The C functions that are called here on options. They take pointers to objects that Go owns.
pub record OptionsApi (S : Type 0) : Type 0 where
  pub rocksdb_options_set_comparator : Ptr → Ptr → S → S
  pub rocksdb_options_set_merge_operator : Ptr → Ptr → S → S
  pub rocksdb_options_set_prefix_extractor : Ptr → Ptr → S → S
  pub rocksdb_options_set_compaction_filter : Ptr → Ptr → S → S
  pub rocksdb_options_set_env : Ptr → Ptr → S → S

-- A value of an interface such as MergeOperator: a native object, or one that is written in Go.
pub data Given (A : Type 0) : Type 0 where
  native : Ptr → Given A
  written : A → Given A

unfoldable pub new_native_options : Ptr → Options
new_native_options c = record { c = c; env = null; ccmp = null; cmo = null; cst = null; ccf = null }

module _ {S : Type 0} where
  -- `rocksdb_options_create` and its like make an object; nothing is known of its contents.
  unfoldable pub new_default_options : Cmd S Options
  unfolding new_native_options
  new_default_options = do c ← malloc []; pure (new_native_options c)

  -- The copy has the same objects.
  unfoldable pub clone : (opts : Options) → Cmd S Options
  clone opts = do c ← malloc []; pure (record opts { c = c })

  -- The object that C makes for a callback holds its index.
  unfoldable pub merge_operator_of :
      MergeOperators → Given MergeOperator → Cmd S (MergeOperators × Ptr)
  merge_operator_of merge_operators (native c) = pure (merge_operators, c)
  merge_operator_of merge_operators (written m) = do
    (merge_operators', idx) ← register_merge_operator merge_operators m
    c ← malloc (idx ∷ [])
    pure (merge_operators', c)

  unfoldable pub slice_transform_of :
      SliceTransforms → Given SliceTransform → Cmd S (SliceTransforms × Ptr)
  slice_transform_of slice_transforms (native c) = pure (slice_transforms, c)
  slice_transform_of slice_transforms (written st) = do
    (slice_transforms', idx) ← register_slice_transform slice_transforms st
    c ← malloc (idx ∷ [])
    pure (slice_transforms', c)

  unfoldable pub compaction_filter_of :
      CompactionFilters → Given CompactionFilter → Cmd S (CompactionFilters × Ptr)
  compaction_filter_of compaction_filters (native c) = pure (compaction_filters, c)
  compaction_filter_of compaction_filters (written f) = do
    (compaction_filters', idx) ← register_compaction_filter compaction_filters f
    c ← malloc (idx ∷ [])
    pure (compaction_filters', c)

module _ {S : Type 0} (api : OptionsApi S) where
  open api use {
    rocksdb_options_set_comparator, rocksdb_options_set_merge_operator,
    rocksdb_options_set_prefix_extractor, rocksdb_options_set_compaction_filter,
    rocksdb_options_set_env,
  }

  unfoldable pub set_native_comparator : (opts : Options) (cmp : Ptr) → Cmd S Options
  set_native_comparator opts cmp = do
    free opts.ccmp
    call_void (rocksdb_options_set_comparator opts.c cmp)
    pure (record opts { ccmp = cmp })

  -- The options and the comparator, which has given its object away.
  unfoldable pub set_comparator : (opts : Options) (cmp : Comparator) → Cmd S (Options × Comparator)
  unfolding set_native_comparator
  set_comparator opts cmp = do
    opts' ← set_native_comparator opts cmp.c
    pure (opts', record cmp { c = null })

  unfoldable pub set_merge_operator :
      MergeOperators
      → (opts : Options) (value : Given MergeOperator) → Cmd S (MergeOperators × Options)
  unfolding merge_operator_of
  set_merge_operator merge_operators opts value = do
    free opts.cmo
    (merge_operators', cmo) ← merge_operator_of merge_operators value
    call_void (rocksdb_options_set_merge_operator opts.c cmo)
    pure (merge_operators', record opts { cmo = cmo })

  unfoldable pub set_prefix_extractor :
      SliceTransforms
      → (opts : Options) (value : Given SliceTransform) → Cmd S (SliceTransforms × Options)
  unfolding slice_transform_of
  set_prefix_extractor slice_transforms opts value = do
    free opts.cst
    (slice_transforms', cst) ← slice_transform_of slice_transforms value
    call_void (rocksdb_options_set_prefix_extractor opts.c cst)
    pure (slice_transforms', record opts { cst = cst })

  unfoldable pub set_compaction_filter :
      CompactionFilters
      → (opts : Options) (value : Given CompactionFilter) → Cmd S (CompactionFilters × Options)
  unfolding compaction_filter_of
  set_compaction_filter compaction_filters opts value = do
    free opts.ccf
    (compaction_filters', ccf) ← compaction_filter_of compaction_filters value
    call_void (rocksdb_options_set_compaction_filter opts.c ccf)
    pure (compaction_filters', record opts { ccf = ccf })

  -- The options and the environment, which has given its object away.
  unfoldable pub set_env : (opts : Options) (env : Env) → Cmd S (Options × Env)
  set_env opts env = do
    if opts.env == null then pure tt else free opts.env
    call_void (rocksdb_options_set_env opts.c env.c)
    pure (record opts { env = env.c }, record env { c = null })

module _ {S : Type 0} where
  unfoldable pub destroy : (opts : Options) → Cmd S Options
  destroy opts = do
    free opts.c
    free opts.ccmp
    free opts.cst
    free opts.ccf
    free opts.cmo
    if opts.env == null then pure tt else free opts.env
    pure (record opts { c = null; ccmp = null; cst = null; ccf = null; cmo = null; env = null })
