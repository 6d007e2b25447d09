-- ===== src/Slice.antt =====
-- slice.go: values in C memory that Go owns, and handles of pinned values.
pub mod Owns
pub mod Fetch
pub mod Copies
pub mod Pairs
pub mod Finds
use grocksdb.Base.{ℕ, Bool, true, false, not, Option, none, some, List, [], ◌∷◌, Bytes, ◌==◌}
use grocksdb.Base.{if◌then◌else◌}
use grocksdb.Base.Int.{ℤ, pos, go_int, c_int}
use grocksdb.Cgo
use grocksdb.Cgo.{Ptr, null, Cmd, Block, ◌>>=◌, ◌>>◌, pure, go_bytes}
use grocksdb.Util.{ref_c_bytes, char_to_bool}
use grocksdb.Types.{PinnableSliceHandle}

pub record Slice : Type 0 where
  pub chars : Ptr
  pub length : ℕ
  pub freed : Bool

unfoldable pub new_slice : Ptr → ℕ → Slice
new_slice data_ size = record { chars = data_; length = size; freed = false }

unfoldable pub exists : Slice → Bool
exists s = not (s.chars == null)

unfoldable pub size : Slice → ℤ
size s = go_int s.length

module _ {S : Type 0} where
  -- The nil slice is `none`.
  unfoldable pub data_of : Slice → Cmd S (Option Bytes)
  unfolding exists
  data_of s = if exists s then (ref_c_bytes s.chars s.length >>= λ b. pure (some b)) else pure none

  -- The slice after `Free`.
  unfoldable pub free : Slice → Cmd S Slice
  free s =
      if not s.freed
      then Cgo.free s.chars >> pure (record { chars = null; length = s.length; freed = true })
      else pure s

  -- `Slices.Destroy`, on slices that are different objects.
  unfoldable pub destroy : List Slice → Cmd S (List Slice)
  destroy [] = pure []
  destroy (s ∷ ss) = do s' ← free s; rest ← destroy ss; pure (s' ∷ rest)

unfoldable pub new_native_pinnable_slice_handle : Ptr → PinnableSliceHandle
new_native_pinnable_slice_handle c = record { c = c }

unfoldable pub handle_exists : PinnableSliceHandle → Bool
handle_exists h = not (h.c == null)

module _ {S : Type 0} where
  -- The end of `GetBytes`: a value is copied to Go memory and freed.
  unfoldable pub copy_unless : Option Bytes → Block → Cmd S (Option Bytes × Option Bytes)
  copy_unless (some err) b = pure (none, some err)
  copy_unless none b =
      if b.chars == null
      then pure (none, none)
      else (go_bytes b.chars (c_int (pos b.size)) >>= λ data_.
          Cgo.free b.chars >> pure (some data_, none))

-- `if charToBool(cFound) { slice = NewSlice(cValue, cValLen) }`.
unfoldable pub slice_if : ℕ → Block → Option Slice
slice_if found b = if char_to_bool found then some (new_slice b.chars b.size) else none
