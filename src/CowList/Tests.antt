-- ===== src/CowList/Tests.antt =====
-- A run in which two goroutines append, and the theorems at concrete inputs.
use grocksdb.Base.{List, ℕ, ◌≡◌, refl, some, none, [], ◌∷◌, length}
use grocksdb.CowList.{get}
use grocksdb.CowList.Steps.{Shared, Reach, at, initial, here, later, idle, locked, loaded}
use grocksdb.CowList.Steps.{stored, lock, load, store, unlock}
use grocksdb.CowList.Invariant.{Registered, Descending}
use grocksdb.CowList.Sequential.{appended-Registered, get-Reach}

-- Goroutine 0 appends 7.
abbrev one : Shared ℕ
one = record {
  v = 7 ∷ [];
  mu = none;
  pc = at (at (at (at (λ _. idle) 0 (locked 7)) 0 (loaded 7 [])) 0 (stored 7 0)) 0 idle;
  appended = (0, 7) ∷ [];
}

one-Reach : Reach initial one
one-Reach =
    later (later (later (later here (lock 0 7 refl refl)) (load 0 7 refl)) (store 0 7 [] refl))
      (unlock 0 7 0 refl)

-- Then goroutine 1 takes the lock to append 8.
abbrev two : Shared ℕ
two = record one { mu = some 1; pc = at one.pc 1 (locked 8) }

two-Reach : Reach one two
two-Reach = later here (lock 1 8 refl refl)

appended-Registered_example : Registered one.v one.appended × Descending (length one.v) one.appended
appended-Registered_example = appended-Registered one one-Reach

get-Reach_example : get two.v 0 ≡ some 7
get-Reach_example = get-Reach one two 0 7 one-Reach two-Reach (unfold get in refl)

abbrev sevens : List ℕ
sevens = 7 ∷ []
