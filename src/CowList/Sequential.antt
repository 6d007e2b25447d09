-- ===== src/CowList/Sequential.antt =====
-- What users of the list rely on: indices that are never given twice and stay good for ever.
use grocksdb.Base.{ℕ, ◌≡◌, some, List, [], ◌∷◌, length}
use grocksdb.Base.{get_elem?, get_elem?-append}
use grocksdb.CowList.{get}
use grocksdb.CowList.Steps.{Shared, Step, Reach, initial, here, later, loaded}
use grocksdb.CowList.Steps.{lock, load, store, unlock, get_load, get_return}
use grocksdb.CowList.Invariant.{Registered, Descending, Inv, Inv-initial, Reach-Inv}

module _ {A : Type 0} where
  -- Whatever goroutines append and read, in every state that they reach the item of each `Append`
  -- that has returned stands at the index that it returned, and no two of them returned the same
  -- index.
  pub appended-Registered :
      (s : Shared A)
      → Reach initial s
      → Registered s.v s.appended × Descending (length s.v) s.appended
  appended-Registered s r = let inv = Reach-Inv r Inv-initial in (inv.registered, inv.descending)

  loaded-fresh :
      {s : Shared A} {t : ℕ} {i : A} {list : List A} → Inv s → s.pc t ≡ loaded i list → list ≡ s.v
  loaded-fresh {t = t} inv e = let own = rw e at (inv.local t) in own.1

  Step-get :
      {s s' : Shared A} (k : ℕ) (a : A)
      → Step s s'
      → Inv s
      → get_elem? s.v k ≡ some a
      → get_elem? s'.v k ≡ some a
  Step-get k a (store t i list e) inv h =
      get_elem?-append list (i ∷ []) k a (rw (loaded-fresh inv e) h)
  Step-get k a (lock t i e n) inv h = h
  Step-get k a (load t i e) inv h = h
  Step-get k a (unlock t i index e) inv h = h
  Step-get k a (get_load t index e) inv h = h
  Step-get k a (get_return t index list e) inv h = h

  Reach-get :
      {s s' : Shared A} (k : ℕ) (a : A)
      → Reach s s'
      → Inv s
      → get_elem? s.v k ≡ some a
      → get_elem? s'.v k ≡ some a
  Reach-get k a here inv h = h
  Reach-get k a (later r st) inv h = Step-get k a st (Reach-Inv r inv) (Reach-get k a r inv h)

  -- From any state that goroutines can reach, an item found at an index is found there by every
  -- `Get` that loads the list in a later state, whatever is appended in between.
  pub get-Reach :
      (s s' : Shared A) (k : ℕ) (a : A)
      → Reach initial s
      → Reach s s'
      → get s.v k ≡ some a
      → get s'.v k ≡ some a
  unfolding get
  get-Reach s s' k a r r' h = Reach-get k a r' (Reach-Inv r Inv-initial) h
