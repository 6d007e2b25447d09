-- ===== src/MultiGet/Rows.antt =====
-- What C writes for several keys: for each key a block for its value or for a message, or nothing.
use grocksdb.Base.{◌≡◌, refl, ◌∙◌, none, some, List, [], ◌∷◌, ◌++◌, Bytes, length, Option}
use grocksdb.Cgo.{
  Ptr, null, World, Block, Reply, failed, replied, no_block, malloc, c_string, c_string_of,
  c_bytes_of, out_error, out_block, deliver_value,
}
use grocksdb.Cgo.Returns.{Returns, returns, bind, IsValid}
use grocksdb.Cgo.Cells.{Cell, Cells, Cells-none, Cells-malloc, Cells-append}
use grocksdb.MultiGet.{deliver_all}

-- The answer for a key, what C writes for it, the block of it, and this block once more if it is a value.
pub data Row : Reply (Option Bytes) → Block × Ptr → List Cell → List Cell → Type 0 where
  message_row : (m : Bytes) (e : Ptr) → Row (failed m) (no_block, e) ((e, c_string m) ∷ []) []
  empty_row : Row (replied none) (no_block, null) [] []
  value_row :
      (v : Bytes) (p : Ptr)
      → Row
          (replied (some v))
          (record { chars = p; size = length v }, null)
          ((p, v) ∷ [])
          ((p, v) ∷ [])

pub data Rows
    : List (Reply (Option Bytes)) → List (Block × Ptr) → List Cell → List Cell → Type 0 where
  no_rows : Rows [] [] [] []
  more_rows :
      {r : Reply (Option Bytes)} {rs : List (Reply (Option Bytes))} {x : Block × Ptr}
      {xs : List (Block × Ptr)} {c cs k ks : List Cell}
      → Row r x c k
      → Rows rs xs cs ks
      → Rows (r ∷ rs) (x ∷ xs) (cs ++ c) (ks ++ k)

module _ {S : Type 0} where
  deliver_value-Row :
      (r : Reply (Option Bytes)) (w : World S)
      → IsValid w
      → Returns
          (λ x u.
            (u.rocks ≡ w.rocks)
            × ((c : List Cell) × (k : List Cell) × Row r x c k × Cells w.heap u c))
          (deliver_value r w)
  unfolding deliver_value out_error out_block c_string_of c_bytes_of malloc
  deliver_value-Row (failed m) w v =
      returns (refl, (_, _, message_row m w.next, Cells-malloc (c_string m) w v))
  deliver_value-Row (replied none) w v = returns (refl, (_, _, empty_row, Cells-none w v))
  deliver_value-Row (replied (some b)) w v =
      returns (refl, (_, _, value_row b w.next, Cells-malloc b w v))

  pub deliver_all-Rows :
      (rs : List (Reply (Option Bytes))) (w : World S)
      → IsValid w
      → Returns
          (λ xs u.
            (u.rocks ≡ w.rocks)
            × ((cs : List Cell) × (ks : List Cell) × Rows rs xs cs ks × Cells w.heap u cs))
          (deliver_all rs w)
  unfolding deliver_all
  deliver_all-Rows [] w v = returns (refl, ([], [], no_rows, Cells-none w v))
  deliver_all-Rows (r ∷ rs) w v = bind (deliver_value-Row r w v) (λ x u (rocks, (c, k, row, here)).
      bind (deliver_all-Rows rs u here.valid) (λ xs z (rocks', (cs, ks, rows, there)).
        returns
          (rocks' ∙ rocks, (_, _, more_rows row rows, Cells-append w.heap u z c cs here there))))
