-- ===== src/MultiGet/Errs.antt =====
-- The errors and the values among what C answers for several keys.
use grocksdb.Base.{◌≡◌, refl, ◌∙◌, ap, Option, none, some, List, [], ◌∷◌, ◌++◌, map, Bytes, length}
use grocksdb.Base.{append_assoc, append-nil, map-append, arith}
use grocksdb.Cgo.{Ptr, Heap, World, Block, Reply, failed, replied, c_string, until_nul}
use grocksdb.Cgo.Returns.{Returns, returns, bind}
use grocksdb.Cgo.Laws.{go_string-done, ne_null}
use grocksdb.Cgo.Cells.{Cell, Cells, Cells-free, Cells-there}
use grocksdb.Util.{from_c_error}
use grocksdb.Util.Strings.{has_nul-c_string, until_nul-c_string}
use grocksdb.MultiGet.{GetError, errors_of, add_error}
use grocksdb.MultiGet.Rows.{Rows, message_row, empty_row, value_row, no_rows, more_rows}

-- The failures among the answers, in order, with their keys.
unfoldable pub failures : List Bytes → List (Reply (Option Bytes)) → List GetError
failures [] rs = []
failures (key ∷ keys) [] = []
failures (key ∷ keys) (failed m ∷ rs) =
    record { key = key; message = until_nul m } ∷ failures keys rs
failures (key ∷ keys) (replied v ∷ rs) = failures keys rs

-- The values among the answers, the last one first.
unfoldable pub found : List (Reply (Option Bytes)) → List Bytes
found [] = []
found (failed m ∷ rs) = found rs
found (replied none ∷ rs) = found rs
found (replied (some v) ∷ rs) = found rs ++ v ∷ []

module _ {S : Type 0} (g : Heap) where
  from_c_error-Cells :
      (w : World S) (xs : List Cell) (e : Ptr) (m : Bytes) (ys : List Cell)
      → Cells g w (xs ++ (e, c_string m) ∷ ys)
      → Returns
          (λ err u. (u.rocks ≡ w.rocks) × (err ≡ some (until_nul m)) × Cells g u (xs ++ ys))
          (from_c_error e w)
  unfolding from_c_error
  from_c_error-Cells w xs e m ys c =
      let here = Cells-there g w xs e _ ys c in
      let n = ne_null e c.valid here in
      rw (n, go_string-done w e _ n here (has_nul-c_string m))
        (bind (Cells-free g w xs e _ ys c)
          (λ _ u (rocks, d). returns (rocks, ap some (until_nul-c_string m), d)))

  -- The loop over the errors frees the messages and nothing else.
  pub errors_of-failures :
      (w : World S) (keys : List Bytes) {rs : List (Reply (Option Bytes))} {xs : List (Block × Ptr)}
      {cs ks : List Cell} (ys : List Cell)
      → length keys ≡ length rs
      → Rows rs xs cs ks
      → Cells g w (cs ++ ys)
      → Returns
          (λ errs u. (u.rocks ≡ w.rocks) × (errs ≡ failures keys rs) × Cells g u (ks ++ ys))
          (errors_of keys xs w)
  unfolding errors_of from_c_error add_error failures
  errors_of-failures w [] ys l no_rows c = returns (refl, refl, c)
  errors_of-failures w (key ∷ keys) ys l no_rows c = returns (refl, refl, c)
  errors_of-failures w [] ys l (more_rows row rows) c = absurd (omega (arith, l))
  errors_of-failures w (key ∷ keys) ys l (more_rows {cs = cs} {ks = ks} (message_row m e) rows) c =
      bind (from_c_error-Cells w cs e m ys (rw (append_assoc cs ((e, c_string m) ∷ []) ys) at c))
        (λ err u (rocks, is, d).
          bind (errors_of-failures u keys ys (omega (arith, l)) rows d) (λ errs z (rocks', are, f).
            returns (rocks' ∙ rocks, rw (is, are) refl, rw (append-nil ks) f)))
  errors_of-failures w (key ∷ keys) ys l (more_rows {cs = cs} {ks = ks} empty_row rows) c =
      bind (errors_of-failures w keys ys (omega (arith, l)) rows (rw (append-nil cs) at c))
        (λ errs z (rocks, are, f). returns (rocks, are, rw (append-nil ks) f))
  errors_of-failures w (key ∷ keys) ys l (more_rows {cs = cs} {ks = ks} (value_row v p) rows) c =
      bind
        (errors_of-failures w keys ((p, v) ∷ ys) (omega (arith, l)) rows
          (rw (append_assoc cs ((p, v) ∷ []) ys) at c))
        (λ errs z (rocks, are, f). returns (rocks, are, rw (append_assoc ks ((p, v) ∷ []) ys) f))

pub Rows-found :
    {rs : List (Reply (Option Bytes))} {xs : List (Block × Ptr)} {cs ks : List Cell}
    → Rows rs xs cs ks
    → map (λ c. c.1) ks ≡ found rs
unfolding found
Rows-found no_rows = refl
Rows-found (more_rows {ks = ks} (message_row m e) rows) = rw (append-nil ks) (Rows-found rows)
Rows-found (more_rows {ks = ks} empty_row rows) = rw (append-nil ks) (Rows-found rows)
Rows-found (more_rows {ks = ks} (value_row v p) rows) =
    map-append (λ c. c.1) ks ((p, v) ∷ []) ∙ ap (λ l. l ++ v ∷ []) (Rows-found rows)
