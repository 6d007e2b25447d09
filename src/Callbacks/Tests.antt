-- ===== src/Callbacks/Tests.antt =====
-- The callbacks at concrete registries and keys.
use grocksdb.Base.{
  ℕ, ◌≡◌, ◌≤◌, ◌<◌, ◌^◌, ◌-◌, ◌*◌, ◌++◌, refl, arith, true, false, some, none, [], ◌∷◌,
}
use grocksdb.Base.{◌+◌, Bytes, length, ltb, if◌then◌else◌, inl}
use grocksdb.Base.Int.{ℤ, pos, negsuc}
use grocksdb.Cgo.{done}
use grocksdb.Cgo.Returns.{Returns}
use grocksdb.CowList.{get}
use grocksdb.Fixtures.{small, small-IsValid, holds_a, holds_bc, letter_a, letters_bc}
use grocksdb.Util.{bool_to_char, char_to_bool}
use grocksdb.Util.Views.{Holds}
use grocksdb.Callbacks.Comparator.{ComparatorWrapper, ComparatorApi}
use grocksdb.Callbacks.Comparator.{gorocksdb_comparator_compare, gorocksdb_comparator_compare_ts}
use grocksdb.Callbacks.Comparator.{gorocksdb_comparator_compare_without_ts}
use grocksdb.Callbacks.Comparator.{gorocksdb_comparator_name}
use grocksdb.Callbacks.Comparator.Calls.{comparator_callbacks, comparator_compare_wraps}
use grocksdb.Callbacks.MergeOperator.{MergeOperatorWrapper, Merged}
use grocksdb.Callbacks.MergeOperator.{gorocksdb_mergeoperator_full_merge}
use grocksdb.Callbacks.MergeOperator.{gorocksdb_mergeoperator_partial_merge_multi}
use grocksdb.Callbacks.MergeOperator.Calls.{Answers, MergedBy, full_merge-Answers}
use grocksdb.Callbacks.MergeOperator.Calls.{partial_merge-Answers}
use grocksdb.Callbacks.CompactionFilter.{CompactionFilterWrapper, FilterOut}
use grocksdb.Callbacks.CompactionFilter.{gorocksdb_compactionfilter_filter, decision_of, intended}
use grocksdb.Callbacks.CompactionFilter.{filter_decision}
use grocksdb.Callbacks.SliceTransform.{SliceTransformWrapper, transform_callbacks}
use grocksdb.Callbacks.SliceTransform.{gorocksdb_slicetransform_transform}
use grocksdb.Callbacks.SliceTransform.{gorocksdb_slicetransform_in_domain}
use grocksdb.Callbacks.SliceTransform.{gorocksdb_slicetransform_in_range}

-- Compares lengths; with timestamps, answers 1.
abbrev by_length : Bytes → Bytes → ℤ
by_length a b = if ltb (length a) (length b) then negsuc 0 else pos 0

abbrev wrapper : ComparatorWrapper
wrapper = record {
  name = 1;
  comparator = record {
    c = 5;
    name = letter_a;
    ts_size = 8;
    compare = some by_length;
    compare_ts = some (λ a b. pos 1);
    compare_without_ts = some (λ a x b y. if x then pos 1 else by_length a b);
  };
}

wrapper-get : get (wrapper ∷ []) 0 ≡ some wrapper
unfolding get
wrapper-get = refl

comparator_callbacks_example :
    (gorocksdb_comparator_compare (wrapper ∷ []) 0 1 1 2 2 small ≡ done (negsuc 0) small)
    × (gorocksdb_comparator_compare_ts (wrapper ∷ []) 0 1 1 2 2 small ≡ done (pos 1) small)
    × (gorocksdb_comparator_compare_without_ts
          (wrapper ∷ [])
          0
          1
          1
          (bool_to_char true)
          2
          2
          (bool_to_char false)
          small
        ≡ done (pos 1) small)
    × (gorocksdb_comparator_name (wrapper ∷ []) 0 small ≡ done 1 small)
comparator_callbacks_example =
    comparator_callbacks small small-IsValid (wrapper ∷ []) 0 wrapper wrapper-get 1 2 letter_a
      letters_bc holds_a holds_bc by_length (λ a b. pos 1)
      (λ a x b y. if x then pos 1 else by_length a b) true false refl refl refl (omega arith)
      (omega arith) (omega arith)

-- A comparator whose answer is 2^31.
abbrev wide : ComparatorWrapper
wide = record {
  name = 1;
  comparator = record {
    c = 5;
    name = letter_a;
    ts_size = 0;
    compare = some (λ a b. pos (2 ^ 31));
    compare_ts = none;
    compare_without_ts = none;
  };
}

wide-get : get (wide ∷ []) 0 ≡ some wide
unfolding get
wide-get = refl

comparator_compare_wraps_example :
    ((pos (2 ^ 31) ≡ pos (2 ^ 31)
      → 2 ^ 31 ≤ 2 ^ 31
      → 2 ^ 31 < 2 ^ 32
      → gorocksdb_comparator_compare (wide ∷ []) 0 1 1 2 2 small
        ≡ done (negsuc (2 ^ 32 - 2 ^ 31 - 1)) small))
    × (pos (2 ^ 31) ≡ pos (2 ^ 31 * 2 ^ 32)
        → gorocksdb_comparator_compare (wide ∷ []) 0 1 1 2 2 small ≡ done (pos 0) small)
comparator_compare_wraps_example =
    comparator_compare_wraps small small-IsValid (wide ∷ []) 0 wide wide-get 1 2 letter_a letters_bc
      holds_a holds_bc (λ a b. pos (2 ^ 31)) (2 ^ 31) refl

abbrev api : ComparatorApi ℕ
api = record {
  gorocksdb_comparator_create = λ idx s. (100 + idx, s + 1);
  gorocksdb_comparator_with_ts_create = λ idx size s. (200 + idx, s + 1);
}

-- Merges by concatenation; a single merge fails on equal operands.
abbrev concat : MergeOperatorWrapper
concat = record {
  name = 1;
  merge_operator = record {
    name = letter_a;
    full_merge = λ key existing operands. (key, true);
    partial_merge_multi = none;
    partial_merge = some (λ key l r. (l ++ r, true));
  };
}

concat-get : get (concat ∷ []) 0 ≡ some concat
unfolding get
concat-get = refl

full_merge-Answers_example :
    Returns
      (λ r w'. Answers (letter_a, true) small r w')
      (gorocksdb_mergeoperator_full_merge
        (concat ∷ [])
        0
        1
        1
        0
        0
        (1 ∷ 2 ∷ [])
        (1 ∷ 2 ∷ [])
        (pos 2)
        small)
full_merge-Answers_example =
    full_merge-Answers small small-IsValid (concat ∷ []) 0 concat concat-get 1 letter_a holds_a 0 []
      (1 ∷ 2 ∷ []) (letter_a ∷ letters_bc ∷ []) (inl (refl, refl)) (holds_a, (holds_bc, tt))

partial_merge-Answers_example :
    (m : Merged) × MergedBy concat.merge_operator letter_a letter_a letters_bc [] m
    × Returns
        (λ r w'. Answers m small r w')
        (gorocksdb_mergeoperator_partial_merge_multi
          (concat ∷ [])
          0
          1
          1
          (1 ∷ 2 ∷ [])
          (1 ∷ 2 ∷ [])
          (pos 2)
          small)
partial_merge-Answers_example =
    partial_merge-Answers small small-IsValid (concat ∷ []) 0 concat concat-get 1 letter_a holds_a
      (1 ∷ 2 ∷ []) letter_a letters_bc [] (holds_a, (holds_bc, tt))

-- Changes every value to the key.
abbrev rekey : CompactionFilterWrapper
rekey = record { name = 1; filter = record { name = letter_a; filter = λ l k v. (false, some k) } }

rekey-get : get (rekey ∷ []) 0 ≡ some rekey
unfolding get
rekey-get = refl

abbrev cleared : FilterOut
cleared = record { new_val = none; new_val_len = 0; val_changed = 0 }

filter_decision_example :
    (r : ℤ × FilterOut) × (gorocksdb_compactionfilter_filter
        (rekey ∷ [])
        0
        (pos 3)
        1
        1
        2
        2
        cleared
        small
      ≡ done r small)
    × (decision_of r ≡ intended (false, some letter_a))
filter_decision_example =
    filter_decision small small-IsValid (rekey ∷ []) 0 rekey (pos 3) 1 2 letter_a letters_bc cleared
      rekey-get holds_a holds_bc refl

abbrev whole : SliceTransformWrapper
whole = record {
  name = 1;
  slice_transform = record {
    name = letter_a;
    transform = λ b. b;
    in_domain = λ b. true;
    in_range = λ b. false;
  };
}

whole-get : get (whole ∷ []) 0 ≡ some whole
unfolding get
whole-get = refl

transform_callbacks_example :
    Returns
      (λ r w'. Holds w' r.0 letters_bc × (r.1 ≡ 2) × (w'.rocks ≡ 0))
      (gorocksdb_slicetransform_transform (whole ∷ []) 0 2 2 small)
    × Returns
        (λ r w'. (char_to_bool r ≡ true) × (w' ≡ small))
        (gorocksdb_slicetransform_in_domain (whole ∷ []) 0 2 2 small)
    × Returns
        (λ r w'. (char_to_bool r ≡ false) × (w' ≡ small))
        (gorocksdb_slicetransform_in_range (whole ∷ []) 0 2 2 small)
transform_callbacks_example =
    transform_callbacks small small-IsValid (whole ∷ []) 0 whole 2 letters_bc whole-get holds_bc
