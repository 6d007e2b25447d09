-- ===== src/Options/Written.antt =====
-- Callbacks that are written in Go, as the objects of options.
use grocksdb.Base.{ℕ, ◌≡◌, some, List, [], ◌∷◌, Bytes}
use grocksdb.Cgo.{Ptr, Heap, World}
use grocksdb.Cgo.Returns.{Returns}
use grocksdb.Cgo.Objects.{Owned}
use grocksdb.CowList.{get}
use grocksdb.Types.{Options}
use grocksdb.Callbacks.MergeOperator.{MergeOperator}
use grocksdb.Callbacks.CompactionFilter.{CompactionFilter}
use grocksdb.Callbacks.SliceTransform.{SliceTransform}
use grocksdb.Options.Ownership.{owned}

-- The heap `h` has the blocks of `g`, and perhaps more.
abbrev pub Extends : Heap → Heap → Type 0
Extends g h = (r : Ptr) (b : Bytes) → g r ≡ some b → h r ≡ some b

-- In the world `u` the options own their objects, nothing else has gone, and the object at `p` holds an
-- index at which the registry `list` has an entry with `P`.
pub record Installed {S A : Type 0} (g : Heap) (u : World S) (o : Options) (p : Ptr) (list : List A)
    (P : A → Type 0) : Type 0 where
  pub kept : Heap
  pub extends : Extends g kept
  pub owns : Owned kept u (owned o)
  pub idx : ℕ
  pub holds : u.heap p ≡ some (idx ∷ [])
  pub entry : A
  pub entered : get list idx ≡ some entry
  pub has : P entry
