-- ===== src/Util.antt =====
-- util.go: conversions between Go values and C values.
pub mod Strings
pub mod Errors
pub mod Relay
pub mod Views
pub mod Opens
pub mod Names
pub mod Answers
use grocksdb.Base.{ℕ, Bool, not, Option, none, some, List, [], ◌∷◌}
use grocksdb.Base.{Bytes, length, take, ltb, ◌==◌, if◌then◌else◌}
use grocksdb.Base.Int.{ℤ, pos, negsuc}
use grocksdb.Cgo.{Ptr, null, Cmd, Fault, ◌>>=◌, ◌>>◌, pure, crash, load, free, go_string, go_bytes}
use grocksdb.Cgo.{c_bytes_of, c_string_of}

-- A `C.uchar` is a number below 256.
unfoldable pub bool_to_char : Bool → ℕ
bool_to_char b = if b then 1 else 0

unfoldable pub char_to_bool : ℕ → Bool
char_to_bool c = not (c == 0)

-- What the pointer of `refGoBytes` points to: nothing for nil, else the bytes of the Go slice.
abbrev pub GoPtr : Type 0
GoPtr = Option Bytes

unfoldable pub ref_go_bytes : Bytes → GoPtr
ref_go_bytes [] = none
ref_go_bytes (b ∷ bs) = some (b ∷ bs)

-- What C reads through such a pointer and a length.
unfoldable pub c_view : GoPtr → ℕ → Bytes
c_view none n = []
c_view (some b) n = take n b

module _ {S : Type 0} where
  -- A view of `n` bytes of C memory; `unsafe.Slice` panics at nil unless `n` is 0.
  unfoldable pub ref_c_bytes : Ptr → ℕ → Cmd S Bytes
  ref_c_bytes p n =
      if p == null
      then (if n == 0 then pure [] else crash Fault.panic)
      else do b ← load p; if ltb (length b) n then crash Fault.bad_read else pure (take n b)

  unfoldable pub c_byte_slice : Bytes → Cmd S Ptr
  c_byte_slice [] = pure null
  c_byte_slice (b ∷ bs) = c_bytes_of (b ∷ bs)

  -- A C array of pointers or sizes is the list of its elements; a view past its end is a fault.
  unfoldable pub c_array : {A : Type 0} → List A → ℤ → Cmd S (List A)
  c_array xs (pos n) = if ltb (length xs) n then crash Fault.bad_read else pure (take n xs)
  c_array xs (negsuc n) = crash Fault.panic

  unfoldable pub char_slice : List Ptr → ℤ → Cmd S (List Ptr)
  unfolding c_array
  char_slice = c_array

  unfoldable pub size_slice : List ℕ → ℤ → Cmd S (List ℕ)
  unfolding c_array
  size_slice = c_array

  unfoldable pub go_strings : List Ptr → Cmd S (List Bytes)
  go_strings [] = pure []
  go_strings (p ∷ ps) = do s ← go_string p; rest ← go_strings ps; pure (s ∷ rest)

  unfoldable pub char_slice_into_string_slice : List Ptr → ℤ → Cmd S (List Bytes)
  char_slice_into_string_slice data_ len = do s ← char_slice data_ len; go_strings s

  -- `none` is the nil error. The message is copied and the C string freed.
  unfoldable pub from_c_error : Ptr → Cmd S (Option Bytes)
  from_c_error c_err =
      if c_err == null then pure none else do s ← go_string c_err; free c_err; pure (some s)

  -- `C.GoStringN` copies up to `len` bytes, and the C string is freed.
  unfoldable pub to_string : Ptr → ℤ → Cmd S Bytes
  to_string c_val len = do s ← go_bytes c_val len; free c_val; pure s

-- `if err = fromCError(cErr); err == nil { x = ... }`, where nil is `none`.
unfoldable pub unless : {A : Type 0} → Option Bytes → A → Option A
unless none a = some a
unless (some err) a = none

-- `C.CString` on each of several texts, and the texts that C then reads at such pointers.
module _ {S : Type 0} where
  unfoldable pub c_strings_of : List Bytes → Cmd S (List Ptr)
  c_strings_of [] = pure []
  c_strings_of (s ∷ ss) = do p ← c_string_of s; ps ← c_strings_of ss; pure (p ∷ ps)
