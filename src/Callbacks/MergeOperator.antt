-- ===== src/Callbacks/MergeOperator.antt =====
-- merge_operator.go: merge operators written in Go, and gorocksdb_mergeoperator_delete_value of
-- grocksdb.c.
pub mod Folds
pub mod Calls
use grocksdb.Base.{
  ℕ, suc, Bool, true, false, Option, none, some, List, [], ◌∷◌, Bytes, length, ◌==◌,
}
use grocksdb.Base.{if◌then◌else◌}
use grocksdb.Base.Int.{ℤ}
use grocksdb.Cgo.{Ptr, null, Cmd, Fault, ◌>>=◌, pure, crash, free, c_string_of}
use grocksdb.CowList.{append}
use grocksdb.Callbacks.{registered}
use grocksdb.Util.{ref_c_bytes, c_byte_slice, char_slice, size_slice, bool_to_char}

-- `([]byte, bool)`: the new value and whether the merge succeeded.
abbrev pub Merged : Type 0
Merged = Bytes × Bool

-- A value of the interface MergeOperator. The last two fields say whether its type has the method of
-- MultiMerger or of PartialMerger too. `none` for the existing value is nil.
pub record MergeOperator : Type 0 where
  pub name : Bytes
  pub full_merge : (key : Bytes) (existing_value : Option Bytes) (operands : List Bytes) → Merged
  pub partial_merge_multi : Option ((key : Bytes) (operands : List Bytes) → Merged)
  pub partial_merge : Option ((key left_operand right_operand : Bytes) → Merged)

pub record MergeOperatorWrapper : Type 0 where
  pub name : Ptr
  pub merge_operator : MergeOperator

abbrev pub MergeOperators : Type 0
MergeOperators = List MergeOperatorWrapper

-- What the callback returns, and what it writes through its out parameters.
pub record MergeReply : Type 0 where
  pub new_value : Ptr
  pub new_value_len : ℕ
  pub success : ℕ

-- The loop of the PartialMerger case, on the operands from index 1 on; it stops at the first failure.
unfoldable pub partial_loop : (Bytes → Bytes → Merged) → Bytes → Merged → List Bytes → Merged
partial_loop merge left_operand last [] = last
partial_loop merge left_operand last (operand ∷ operands) =
    let (new_value, success) = merge left_operand operand in
    let rest = partial_loop merge new_value (new_value, success) operands in
    if success then rest else (new_value, success)

module _ {S : Type 0} where
  unfoldable pub register_merge_operator :
      MergeOperators → MergeOperator → Cmd S (MergeOperators × ℕ)
  unfolding append
  register_merge_operator merge_operators merger = do
    name ← c_string_of merger.name
    pure (append merge_operators (record { name = name; merge_operator = merger }))

  -- `for i, len := range operandsLen { operands[i] = refCBytes(rawOperands[i], len) }`
  unfoldable pub read_operands : List Ptr → List ℕ → Cmd S (List Bytes)
  read_operands raw [] = pure []
  read_operands [] (len ∷ lens) = crash Fault.panic
  read_operands (p ∷ ps) (len ∷ lens) = do
    operand ← ref_c_bytes p len
    operands ← read_operands ps lens
    pure (operand ∷ operands)

  -- The new value is copied into C memory, which RocksDB frees by `delete_value`.
  unfoldable pub reply_with : Merged → Cmd S MergeReply
  reply_with (new_value, success) = do
    p ← c_byte_slice new_value
    pure
        (record { new_value = p; new_value_len = length new_value; success = bool_to_char success })

  -- The switch on the dynamic type of the merger; `operands[0]` panics if there is none.
  unfoldable pub partial_merge_by : MergeOperator → (key : Bytes) → List Bytes → Cmd S Merged
  unfolding partial_loop
  partial_merge_by merger key operands = elim (merger.partial_merge_multi) [
    | some multi ↦ pure (multi key operands)
    | none ↦ elim (merger.partial_merge) [
      | some merge ↦ elim operands [
        | [] ↦ crash Fault.panic
        | first ∷ others ↦ pure (partial_loop (merge key) first ([], true) others)
      ]
      | none ↦ pure ([], false)
    ]
  ]

  module _ (merge_operators : MergeOperators) where
    unfoldable pub gorocksdb_mergeoperator_full_merge :
        ℕ → Ptr → ℕ → Ptr → ℕ → List Ptr → List ℕ → ℤ → Cmd S MergeReply
    unfolding read_operands reply_with char_slice size_slice
    gorocksdb_mergeoperator_full_merge idx c_key c_key_len c_existing_value c_existing_value_len
          c_operands c_operands_len c_num_operands =
        do
          key ← ref_c_bytes c_key c_key_len
          raw_operands ← char_slice c_operands c_num_operands
          operands_len ← size_slice c_operands_len c_num_operands
          existing ← ref_c_bytes c_existing_value c_existing_value_len
          operands ← read_operands raw_operands operands_len
          wrapper ← registered merge_operators idx
          -- `unsafe.Slice` of a nil pointer is nil.
          let existing_value = if c_existing_value == null then none else some existing
          reply_with (wrapper.merge_operator.full_merge key existing_value operands)

    unfoldable pub gorocksdb_mergeoperator_partial_merge_multi :
        ℕ → Ptr → ℕ → List Ptr → List ℕ → ℤ → Cmd S MergeReply
    unfolding read_operands reply_with char_slice size_slice partial_merge_by
    gorocksdb_mergeoperator_partial_merge_multi idx c_key c_key_len c_operands c_operands_len
          c_num_operands =
        do
          key ← ref_c_bytes c_key c_key_len
          raw_operands ← char_slice c_operands c_num_operands
          operands_len ← size_slice c_operands_len c_num_operands
          operands ← read_operands raw_operands operands_len
          wrapper ← registered merge_operators idx
          merged ← partial_merge_by wrapper.merge_operator key operands
          reply_with merged

    unfoldable pub gorocksdb_mergeoperator_name : ℕ → Cmd S Ptr
    gorocksdb_mergeoperator_name idx = do
      wrapper ← registered merge_operators idx
      pure wrapper.name

  unfoldable pub gorocksdb_mergeoperator_delete_value : Ptr → ℕ → Cmd S (Unit {0})
  gorocksdb_mergeoperator_delete_value v s = free v
