-- ===== src/Util/Views.antt =====
-- util.go: `refCBytes` and the slices of arrays on memory that holds what C promises.
use grocksdb.Base.{◌≡◌, ◌≤◌, some, arith, false, ◌⊎◌, inl, inr, List, []}
use grocksdb.Base.{Bytes, length, take, take-length, ◌==◌}
use grocksdb.Base.Int.{pos}
use grocksdb.Cgo.{Ptr, null, World, done}
use grocksdb.Cgo.Returns.{IsValid}
use grocksdb.Cgo.Laws.{ne_null, load-done}
use grocksdb.Util.{ref_c_bytes, c_array}

-- At `p` stand the bytes `b`: nothing, by a NULL pointer, or the first bytes of a block.
abbrev pub Holds : {S : Type 0} → World S → Ptr → Bytes → Type 0
Holds w p b =
    ((p ≡ null) × (b ≡ []))
    ⊎ ((block : Bytes) × (w.heap p ≡ some block)
        × (length b ≤ length block)
        × (take (length b) block ≡ b))

module _ {S : Type 0} (w : World S) (valid : IsValid w) where
  -- A view of bytes that are there reads them and changes nothing.
  pub ref_c_bytes-Holds :
      (p : Ptr) (b : Bytes) → Holds w p b → ref_c_bytes p (length b) w ≡ done b w
  unfolding ref_c_bytes
  ref_c_bytes-Holds p b (inl (n, e)) = rw (n, e)
  ref_c_bytes-Holds p b (inr (block, e, fits, same)) =
      let n : (p == null) ≡ false = ne_null p valid e in
      rw (n, load-done w p block n e) (ground arith)

pub c_array-length :
    {S A : Type 0} (w : World S) (xs : List A) → c_array xs (pos (length xs)) w ≡ done xs w
unfolding c_array
c_array-length w xs = ground (arith, take-length xs)
