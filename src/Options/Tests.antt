-- ===== src/Options/Tests.antt =====
-- Options at a concrete world, in which they own a comparator.
use grocksdb.Base.{ℕ, ◌≡◌, refl, arith, true, suc, none, List, [], ◌∷◌}
use grocksdb.Cgo.{Heap, World, ◌>>=◌, fault, Fault}
use grocksdb.Cgo.Laws.{after_malloc}
use grocksdb.Cgo.Returns.{Returns, IsValid}
use grocksdb.Cgo.Objects.{Owned, erase}
use grocksdb.Cgo.Objects.Owners.{malloc-Owned, null-Owned}
use grocksdb.Fixtures.{letter_a}
use grocksdb.Types.{Options, Env}
use grocksdb.Callbacks.Comparator.{Comparator}
use grocksdb.Callbacks.MergeOperator.{MergeOperator}
use grocksdb.Callbacks.CompactionFilter.{CompactionFilter}
use grocksdb.Callbacks.SliceTransform.{SliceTransform}
use grocksdb.Options.{OptionsApi, clone, destroy}
use grocksdb.Options.Ownership.{owned}
use grocksdb.Options.Histories.{Op, comparator, merge_operator, environment}
use grocksdb.Options.Clones.{clone_bad_free}

abbrev empty : World ℕ
empty = record { heap = λ p. none; next = 5; rocks = 0 }

empty-IsValid : IsValid empty
empty-IsValid = record { nonzero = omega arith; fresh = λ p h. refl; no_null = refl }

abbrev nowhere : Heap
nowhere p = none

-- The comparator at 5, the options at 6.
abbrev started : World ℕ
started = after_malloc [] (after_malloc [] empty)

abbrev with_comparator : Options
with_comparator = record { c = 6; env = 0; ccmp = 5; cmo = 0; cst = 0; ccf = 0 }

with_comparator-Owned : Owned nowhere started (owned with_comparator)
unfolding erase
with_comparator-Owned =
    let h : Owned nowhere empty [] = record {
      valid = empty-IsValid;
      live = tt;
      rest = λ r. refl;
    } in
    let n = null-Owned nowhere empty in
    malloc-Owned nowhere (after_malloc [] empty) [] _
      (malloc-Owned nowhere empty [] _ (n _ (n _ (n _ (n _ h)))))

-- An object of the caller at 7.
abbrev offered : World ℕ
offered = after_malloc [] started

-- Counts the calls.
abbrev counting : OptionsApi ℕ
counting = record {
  rocksdb_options_set_comparator = λ o q s. suc s;
  rocksdb_options_set_merge_operator = λ o q s. suc s;
  rocksdb_options_set_prefix_extractor = λ o q s. suc s;
  rocksdb_options_set_compaction_filter = λ o q s. suc s;
  rocksdb_options_set_env = λ o q s. suc s;
}

abbrev a_comparator : Comparator
a_comparator = record {
  c = 7;
  name = letter_a;
  ts_size = 0;
  compare = none;
  compare_ts = none;
  compare_without_ts = none;
}

abbrev an_env : Env
an_env = record { c = 7 }

-- Two comparators, a merge operator and an environment.
abbrev a_history : List Op
a_history = comparator ∷ merge_operator ∷ comparator ∷ environment ∷ []

abbrev a_merge_operator : MergeOperator
a_merge_operator = record {
  name = letter_a;
  full_merge = λ key existing operands. (key, true);
  partial_merge_multi = none;
  partial_merge = none;
}

abbrev a_slice_transform : SliceTransform
a_slice_transform = record {
  name = letter_a;
  transform = λ key. key;
  in_domain = λ key. true;
  in_range = λ key. true;
}

abbrev a_compaction_filter : CompactionFilter
a_compaction_filter = record { name = letter_a; filter = λ level key val. (true, none) }

clone_bad_free_example :
    (clone with_comparator >>= λ o'. destroy with_comparator >>= λ _. destroy o') started
    ≡ fault Fault.bad_free
clone_bad_free_example =
    clone_bad_free nowhere with_comparator started with_comparator-Owned (λ e. omega (arith, e))
