-- ===== src/Callbacks/MergeOperator/Folds.antt =====
-- merge_operator.go: the loop over the operands is a fold from the left.
use grocksdb.Base.{◌≡◌, refl, true, false, Option, none, some, List, [], ◌∷◌, Bytes}
use grocksdb.Base.{if◌then◌else◌, Bool-cases, inl, inr}
use grocksdb.Callbacks.MergeOperator.{Merged, partial_loop}

-- The fold: each operand is merged into what the ones before it came to, and a failure is final.
unfoldable pub fold_merge : (Bytes → Bytes → Merged) → Bytes → List Bytes → Option Bytes
fold_merge merge left [] = some left
fold_merge merge left (operand ∷ operands) =
    let rest = fold_merge merge (merge left operand).0 operands in
    if (merge left operand).1 then rest else none

-- A reply agrees with the fold: on success the value is the fold's.
abbrev pub Agrees : Option Bytes → Merged → Type 0
Agrees (some b) m = (m.0 ≡ b) × (m.1 ≡ true)
Agrees none m = m.1 ≡ false

partial_loop-next :
    (merge : Bytes → Bytes → Merged) (left : Bytes) (operands : List Bytes)
    → Agrees (fold_merge merge left operands) (partial_loop merge left (left, true) operands)
unfolding partial_loop fold_merge
partial_loop-next merge left [] = (refl, refl)
partial_loop-next merge left (operand ∷ operands) = elim (Bool-cases (merge left operand).1) [
  | inl e ↦ rw e (partial_loop-next merge (merge left operand).0 operands)
  | inr e ↦ rw e
]

-- With two operands or more the loop succeeds exactly if every merge from the left does, and then its
-- value is the left fold of the operands.
pub partial_loop-Agrees :
    (merge : Bytes → Bytes → Merged) (first second : Bytes) (others : List Bytes)
    → Agrees
        (fold_merge merge first (second ∷ others))
        (partial_loop merge first ([], true) (second ∷ others))
unfolding partial_loop fold_merge
partial_loop-Agrees merge first second others = elim (Bool-cases (merge first second).1) [
  | inl e ↦ rw e (partial_loop-next merge (merge first second).0 others)
  | inr e ↦ rw e
]
