-- ===== src/MultiGet/Given.antt =====
-- The slices of the values that C answers for several keys.
use grocksdb.Base.{◌≡◌, refl, ◌∙◌, Option, some, List, [], ◌∷◌, ◌++◌, Bytes, length}
use grocksdb.Base.{append_assoc, append-nil, arith}
use grocksdb.Base.Int.{go_int}
use grocksdb.Cgo
use grocksdb.Cgo.{Ptr, null, Heap, World, Block, Reply, failed, replied, done}
use grocksdb.Cgo.Returns.{Returns, returns, bind}
use grocksdb.Cgo.Laws.{ne_null}
use grocksdb.Cgo.Cells.{Cell, Cells, Cells-free, Cells-there}
use grocksdb.Array.Stacks.{ref_c_bytes-Cells}
use grocksdb.Slice.{Slice, new_slice, data_of, size, exists, free, destroy}
use grocksdb.Slice.Owns.{size_of}
use grocksdb.MultiGet.{slices_of}
use grocksdb.MultiGet.Rows.{Rows, message_row, empty_row, value_row, no_rows, more_rows}
use grocksdb.MultiGet.Errs.{failures}

-- In the world `u` each slice gives the value that C answered for its key, nil if there is none.
pub data Given {S : Type 0} (u : World S) : List Slice → List (Reply (Option Bytes)) → Type 0 where
  no_values : Given u [] []
  more_values :
      {s : Slice} {ss : List Slice} {v : Option Bytes} {rs : List (Reply (Option Bytes))}
      → data_of s u ≡ done v u
      → size s ≡ go_int (size_of v)
      → Given u ss rs
      → Given u (s ∷ ss) (replied v ∷ rs)

module _ {S : Type 0} (g : Heap) where
  value-Cells :
      (u : World S) (xs : List Cell) (p : Ptr) (v : Bytes) (ys : List Cell)
      → Cells g u (xs ++ (p, v) ∷ ys)
      → data_of (new_slice p (length v)) u ≡ done (some v) u
  unfolding data_of exists new_slice
  value-Cells u xs p v ys c =
      rw (ne_null p c.valid (Cells-there g u xs p v ys c), ref_c_bytes-Cells g u xs p v ys c) refl

  pub slices_of-Given :
      (u : World S) (keys : List Bytes) {rs : List (Reply (Option Bytes))} {xs : List (Block × Ptr)}
      {cs ks : List Cell} (ys : List Cell)
      → length keys ≡ length rs
      → failures keys rs ≡ []
      → Rows rs xs cs ks
      → Cells g u (ks ++ ys)
      → Given u (slices_of xs) rs
  unfolding slices_of failures data_of exists new_slice size
  slices_of-Given u keys ys l e no_rows c = no_values
  slices_of-Given u [] ys l e (more_rows row rows) c = absurd (omega (arith, l))
  slices_of-Given u (key ∷ keys) ys l e (more_rows (message_row m p) rows) c =
      absurd (ground (arith, e))
  slices_of-Given u (key ∷ keys) ys l e (more_rows {ks = ks} empty_row rows) c =
      more_values refl refl
        (slices_of-Given u keys ys (omega (arith, l)) e rows (rw (append-nil ks) at c))
  slices_of-Given u (key ∷ keys) ys l e (more_rows {ks = ks} (value_row v p) rows) c =
      let c' = rw (append_assoc ks ((p, v) ∷ []) ys) at c in
      more_values (value-Cells u ks p v ys c') refl
        (slices_of-Given u keys ((p, v) ∷ ys) (omega (arith, l)) e rows c')

  free-Cells :
      (u : World S) (xs : List Cell) (p : Ptr) (v : Bytes) (ys : List Cell)
      → Cells g u (xs ++ (p, v) ∷ ys)
      → Returns
          (λ _ z. (z.rocks ≡ u.rocks) × Cells g z (xs ++ ys))
          (free (new_slice p (length v)) u)
  unfolding free new_slice
  free-Cells u xs p v ys c = bind (Cells-free g u xs p v ys c) (λ _ z d. returns d)

  -- Destroying the slices frees every value.
  pub destroy_slices-Cells :
      (u : World S) {rs : List (Reply (Option Bytes))} {xs : List (Block × Ptr)} {cs ks : List Cell}
      (ys : List Cell)
      → Rows rs xs cs ks
      → Cells g u (ks ++ ys)
      → Returns (λ _ z. (z.rocks ≡ u.rocks) × Cells g z ys) (destroy (slices_of xs) u)
  unfolding slices_of destroy free new_slice Cgo.free
  destroy_slices-Cells u ys no_rows c = returns (refl, c)
  destroy_slices-Cells u ys (more_rows {ks = ks} (message_row m p) rows) c =
      bind (destroy_slices-Cells u ys rows (rw (append-nil ks) at c)) (λ _ z d. returns d)
  destroy_slices-Cells u ys (more_rows {ks = ks} empty_row rows) c =
      bind (destroy_slices-Cells u ys rows (rw (append-nil ks) at c)) (λ _ z d. returns d)
  destroy_slices-Cells u ys (more_rows {ks = ks} (value_row v p) rows) c =
      let c' = rw (append_assoc ks ((p, v) ∷ []) ys) at c in
      bind (free-Cells u ks p v ys c') (λ _ z (rocks, d).
        bind (destroy_slices-Cells z ys rows d) (λ _ t (rocks', f). returns (rocks' ∙ rocks, f)))
