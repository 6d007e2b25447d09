-- ===== src/CowList.antt =====
-- cow.go: the copy-on-write list that holds the callbacks, its sequential operations, and any number
-- of goroutines that append to it and read it.
pub mod Steps
pub mod Invariant
pub mod Sequential
mod Tests
use grocksdb.Base.{ℕ, suc, Option, List, [], ◌∷◌, ◌++◌, length, get_elem?}

module _ {ℓ} {A : Type ℓ} where
  -- The list that `v` stores. A stored slice is never written again.
  abbrev pub new_cow_list : List A
  new_cow_list = []

  -- `Append` with no other goroutine between its lock and its unlock: the new list and the index.
  unfoldable pub append : List A → A → List A × ℕ
  append list i = (list ++ (i ∷ []), length list)

  -- `Get`; an index out of range panics, which is `none`.
  unfoldable pub get : List A → ℕ → Option A
  get list index = get_elem? list index
