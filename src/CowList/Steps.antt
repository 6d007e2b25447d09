-- ===== src/CowList/Steps.antt =====
-- Goroutines over one list. Each step is one access to shared memory: the lock, the atomic load, the
-- atomic store, the unlock; the copy between load and store is local.
use grocksdb.Base.{ℕ, ◌≡◌, Option, none, some, List, [], ◌∷◌, ◌++◌, length, ◌==◌}
use grocksdb.Base.{if◌then◌else◌}

-- Where a goroutine stands in `Append` or `Get`, with its locals.
pub data Pc (A : Type 0) : Type 0 where
  idle : Pc A
  locked : (i : A) → Pc A
  loaded : (i : A) (list : List A) → Pc A
  stored : (i : A) (index : ℕ) → Pc A
  reading : (index : ℕ) (list : List A) → Pc A

-- `mu` names the goroutine that holds the mutex. `appended` is no variable of the program: it lists
-- the results of the `Append` calls that have returned, the latest first, with their items.
pub record Shared (A : Type 0) : Type 0 where
  pub v : List A
  pub mu : Option ℕ
  pub pc : ℕ → Pc A
  pub appended : List (ℕ × A)

abbrev pub at : {A : Type 0} → (ℕ → Pc A) → ℕ → Pc A → ℕ → Pc A
at pc t p u = if u == t then p else pc u

pub data Step {A : Type 0} (s : Shared A) : Shared A → Type 0 where
  lock :
      (t : ℕ) (i : A)
      → s.pc t ≡ idle
      → s.mu ≡ none
      → Step s (record s { mu = some t; pc = at s.pc t (locked i) })
  load : (t : ℕ) (i : A) → s.pc t ≡ locked i → Step s (record s { pc = at s.pc t (loaded i s.v) })
  store :
      (t : ℕ) (i : A) (list : List A)
      → s.pc t ≡ loaded i list
      → Step s (record s { v = list ++ (i ∷ []); pc = at s.pc t (stored i (length list)) })
  unlock :
      (t : ℕ) (i : A) (index : ℕ)
      → s.pc t ≡ stored i index
      → Step s (record s { mu = none; pc = at s.pc t idle; appended = (index, i) ∷ s.appended })
  get_load :
      (t index : ℕ) → s.pc t ≡ idle → Step s (record s { pc = at s.pc t (reading index s.v) })
  get_return :
      (t index : ℕ) (list : List A)
      → s.pc t ≡ reading index list
      → Step s (record s { pc = at s.pc t idle })

abbrev pub initial : {A : Type 0} → Shared A
initial = record { v = []; mu = none; pc = λ _. idle; appended = [] }

pub data Reach {A : Type 0} (s : Shared A) : Shared A → Type 0 where
  here : Reach s s
  later : {t u : Shared A} → Reach s t → Step t u → Reach s u
