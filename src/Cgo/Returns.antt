-- ===== src/Cgo/Returns.antt =====
-- Total correctness of a command: no fault, and a postcondition.
use grocksdb.Base.{◌≤◌, ◌≡◌, ◌≢◌, refl, none, arith}
use grocksdb.Cgo.Memory.{Ptr, null, World, Run, done, Cmd, and_then}

pub data Returns {S A : Type 0} (P : A → World S → Type 0) : Run S A → Type 0 where
  returns : {a : A} {w : World S} → P a w → Returns P (done a w)

module _ {S A : Type 0} {P : A → World S → Type 0} where
  pub bind :
      {B : Type 0} {Q : B → World S → Type 0} {r : Run S A} {k : A → Cmd S B}
      → Returns P r
      → ((a : A) (w : World S) → P a w → Returns Q (k a w))
      → Returns Q (and_then r k)
  bind (returns p) next = next _ _ p

  pub mono :
      {Q : A → World S → Type 0} {r : Run S A}
      → Returns P r
      → ((a : A) (w : World S) → P a w → Q a w)
      → Returns Q r
  mono (returns p) weaken = returns (weaken _ _ p)

-- What a run returns, by its equation.
pub returned :
    {S A : Type 0} {P : A → World S → Type 0} {r : Run S A}
    → Returns P r
    → (a : A) × (w : World S) × (r ≡ done a w) × P a w
returned (returns p) = (_, _, refl, p)

-- No block lies at NULL or from the next address on.
pub record IsValid {S : Type 0} (w : World S) : Type 0 where
  pub nonzero : w.next ≢ 0
  pub fresh : (p : Ptr) → w.next ≤ p → w.heap p ≡ none
  pub no_null : w.heap null ≡ none

-- The heap is as it was: every block still there, and none leaked.
pub record Clean {S : Type 0} (w w' : World S) : Type 0 where
  pub same : (p : Ptr) → w'.heap p ≡ w.heap p
  pub grows : w.next ≤ w'.next

pub Clean-refl : {S : Type 0} (w : World S) → Clean w w
Clean-refl w = record { same = λ p. refl; grows = omega arith }
