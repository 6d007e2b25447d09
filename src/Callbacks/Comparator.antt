-- ===== src/Callbacks/Comparator.antt =====
-- comparator.go: comparators written in Go.
pub mod Calls
use grocksdb.Base.{ℕ, suc, ◌+◌, ◌*◌, ◌^◌, ◌-◌, ◌≤◌, ◌<◌, ◌≡◌, refl, arith, Bool, Option, none, some}
use grocksdb.Base.{List, [], ◌∷◌, ◌++◌, Bytes, length, get_elem?-append_last, true, false, ◌==◌}
use grocksdb.Base.Int.{ℤ, pos, negsuc, c_int, c_int-pos, c_int-negsuc}
use grocksdb.Cgo.{
  Ptr, null, Cmd, World, Fault, done, ◌>>=◌, pure, crash, invoke, c_string_of, c_string,
}
use grocksdb.Cgo.{malloc, update}
use grocksdb.Cgo.Returns.{IsValid}
use grocksdb.CowList.{append, get}
use grocksdb.Callbacks.{registered}
use grocksdb.Util.{ref_c_bytes, char_to_bool, bool_to_char}
use grocksdb.Util.Strings.{char_to_bool-bool_to_char}
use grocksdb.Util.Views.{Holds, ref_c_bytes-Holds}
use mathlib.Core.List.{append_assoc}

abbrev pub Comparing : Type 0
Comparing = Bytes → Bytes → ℤ

abbrev pub ComparingWithoutTimestamp : Type 0
ComparingWithoutTimestamp = Bytes → Bool → Bytes → Bool → ℤ

-- A nil function is `none`.
pub record Comparator : Type 0 where
  pub c : Ptr
  pub name : Bytes
  pub ts_size : ℕ
  pub compare : Option Comparing
  pub compare_ts : Option Comparing
  pub compare_without_ts : Option ComparingWithoutTimestamp

pub record ComparatorWrapper : Type 0 where
  pub name : Ptr
  pub comparator : Comparator

-- `comperators`, the list of what is registered.
abbrev pub Comparators : Type 0
Comparators = List ComparatorWrapper

-- The C functions that are called here.
pub record ComparatorApi (S : Type 0) : Type 0 where
  pub gorocksdb_comparator_create : ℕ → S → Ptr × S
  pub gorocksdb_comparator_with_ts_create : ℕ → ℕ → S → Ptr × S

module _ {S : Type 0} where
  -- A call of a nil function panics.
  unfoldable pub call : {A : Type 0} → Option A → Cmd S A
  call none = crash Fault.panic
  call (some f) = pure f

  -- The list after `registerComperator`, and the index.
  unfoldable pub register_comperator : Comparators → Comparator → Cmd S (Comparators × ℕ)
  unfolding append
  register_comperator comperators cmp = do
    name ← c_string_of cmp.name
    pure (append comperators (record { name = name; comparator = cmp }))

  module _ (comperators : Comparators) where
    unfoldable pub gorocksdb_comparator_compare : ℕ → Ptr → ℕ → Ptr → ℕ → Cmd S ℤ
    unfolding call registered
    gorocksdb_comparator_compare idx c_key_a c_key_a_len c_key_b c_key_b_len = do
      key_a ← ref_c_bytes c_key_a c_key_a_len
      key_b ← ref_c_bytes c_key_b c_key_b_len
      wrapper ← registered comperators idx
      compare ← call wrapper.comparator.compare
      pure (c_int (compare key_a key_b))

    unfoldable pub gorocksdb_comparator_compare_ts : ℕ → Ptr → ℕ → Ptr → ℕ → Cmd S ℤ
    unfolding call registered
    gorocksdb_comparator_compare_ts idx c_ts_a c_ts_a_len c_ts_b c_ts_b_len = do
      ts_a ← ref_c_bytes c_ts_a c_ts_a_len
      ts_b ← ref_c_bytes c_ts_b c_ts_b_len
      wrapper ← registered comperators idx
      compare_ts ← call wrapper.comparator.compare_ts
      pure (c_int (compare_ts ts_a ts_b))

    unfoldable pub gorocksdb_comparator_compare_without_ts : ℕ → Ptr → ℕ → ℕ → Ptr → ℕ → ℕ → Cmd S ℤ
    unfolding call registered
    gorocksdb_comparator_compare_without_ts idx c_key_a c_key_a_len c_a_has_ts c_key_b c_key_b_len
          c_b_has_ts =
        do
          key_a ← ref_c_bytes c_key_a c_key_a_len
          key_b ← ref_c_bytes c_key_b c_key_b_len
          let key_a_has_ts = char_to_bool c_a_has_ts
          let key_b_has_ts = char_to_bool c_b_has_ts
          wrapper ← registered comperators idx
          compare_without_ts ← call wrapper.comparator.compare_without_ts
          pure (c_int (compare_without_ts key_a key_a_has_ts key_b key_b_has_ts))

    unfoldable pub gorocksdb_comparator_name : ℕ → Cmd S Ptr
    unfolding registered
    gorocksdb_comparator_name idx = do wrapper ← registered comperators idx; pure wrapper.name

module _ {S : Type 0} (api : ComparatorApi S) where
  open api use {gorocksdb_comparator_create, gorocksdb_comparator_with_ts_create}

  -- The registry holds a pointer to the comparator, of which only the functions and the name are read
  -- through it; so it holds the value before `cmp.c` is set.
  unfoldable pub new_comparator :
      Comparators → (name : Bytes) → Comparing → Cmd S (Comparator × Comparators)
  unfolding register_comperator
  new_comparator comperators name compare = do
    let cmp : Comparator = record {
      c = null;
      name = name;
      ts_size = 0;
      compare = some compare;
      compare_ts = none;
      compare_without_ts = none;
    }
    (registry, idx) ← register_comperator comperators cmp
    c ← invoke (gorocksdb_comparator_create idx)
    pure (record cmp { c = c }, registry)

  unfoldable pub new_comparator_with_timestamp :
      Comparators
      → (name : Bytes) (ts_size : ℕ) (compare compare_ts : Comparing) → ComparingWithoutTimestamp
      → Cmd S (Comparator × Comparators)
  unfolding register_comperator
  new_comparator_with_timestamp comperators name ts_size compare compare_ts compare_without_ts = do
    let cmp : Comparator = record {
      c = null;
      name = name;
      ts_size = ts_size;
      compare = some compare;
      compare_ts = some compare_ts;
      compare_without_ts = some compare_without_ts;
    }
    (registry, idx) ← register_comperator comperators cmp
    c ← invoke (gorocksdb_comparator_with_ts_create idx ts_size)
    pure (record cmp { c = c }, registry)
