-- ===== src/Callbacks.antt =====
-- comparator.go, merge_operator.go, compaction_filter.go and slice_transform.go: Go values that
-- RocksDB calls back. A value is registered in a copy-on-write list; C keeps its index.
pub mod Comparator
pub mod MergeOperator
pub mod CompactionFilter
pub mod SliceTransform
mod Tests
use grocksdb.Base.{ℕ, Option, none, some, List, ◌≡◌}
use grocksdb.Cgo.{Cmd, Fault, pure, crash, World, done}
use grocksdb.CowList.{get}

-- `list.Get(idx)`, in the callbacks: an index out of range panics.
unfoldable pub registered : {S A : Type 0} → List A → ℕ → Cmd S A
unfolding get
registered list idx = elim (get list idx) [ none ↦ crash Fault.panic | some a ↦ pure a ]

pub registered-done :
    {S A : Type 0} (list : List A) (idx : ℕ) (a : A) (w : World S)
    → get list idx ≡ some a
    → registered list idx w ≡ done a w
unfolding registered
registered-done list idx a w e = rw (e, registered)
