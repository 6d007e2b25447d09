-- ===== src/Array.antt =====
-- array.go: arrays of byte strings in C memory.
pub mod Stacks
use grocksdb.Base.{ℕ, List, [], ◌∷◌, map, Bytes, length}
use grocksdb.Cgo.{Ptr, Cmd, ◌>>=◌, ◌>>◌, pure, free, c_bytes_of}
use grocksdb.Util.{ref_c_bytes}

module _ {S : Type 0} where
  -- `for i, val := range vals { chars[i] = (*C.char)(C.CBytes(val)) }`
  unfoldable pub c_bytes_all : List Bytes → Cmd S (List Ptr)
  c_bytes_all [] = pure []
  c_bytes_all (val ∷ vals) = do p ← c_bytes_of val; ps ← c_bytes_all vals; pure (p ∷ ps)

  unfoldable pub byte_slices_to_c_slices : List Bytes → Cmd S (List Ptr × List ℕ)
  byte_slices_to_c_slices vals = do chars ← c_bytes_all vals; pure (chars, map length vals)

  -- `charsSlice.Destroy`
  unfoldable pub destroy : List Ptr → Cmd S (Unit {0})
  destroy [] = pure tt
  destroy (p ∷ ps) = free p >> destroy ps

  -- What C reads at an array of pointers and one of sizes.
  unfoldable pub c_reads : List Ptr → List ℕ → Cmd S (List Bytes)
  c_reads (p ∷ ps) (n ∷ ns) = do b ← ref_c_bytes p n; bs ← c_reads ps ns; pure (b ∷ bs)
  c_reads [] ns = pure []
  c_reads (p ∷ ps) [] = pure []
