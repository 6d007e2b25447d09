-- ===== src/Cgo/Calls.antt =====
-- How a function of rocksdb/c.h answers. Its effect on the library's state and its answer are a
-- parameter; what is fixed here is the header's convention: a failure is a malloc'ed message behind
-- `errptr` and no result, a value is a malloc'ed block with its size, or NULL.
use grocksdb.Base.{ℕ, Option, none, some, Bytes, length}
use grocksdb.Cgo.Memory.{Ptr, null, Cmd, ◌>>=◌, pure, invoke, c_string_of, c_bytes_of}

-- The message of a failure, if there is one.
abbrev pub Status : Type 0
Status = Option Bytes

pub data Reply (A : Type 0) : Type 0 where
  failed : Bytes → Reply A
  replied : A → Reply A

-- A value with its size.
pub record Block : Type 0 where
  pub chars : Ptr
  pub size : ℕ

abbrev pub no_block : Block
no_block = record { chars = null; size = 0 }

module _ {S : Type 0} where
  unfoldable pub out_error : Status → Cmd S Ptr
  out_error none = pure null
  out_error (some m) = c_string_of m

  unfoldable pub out_block : Option Bytes → Cmd S Block
  out_block none = pure no_block
  out_block (some v) = do p ← c_bytes_of v; pure (record { chars = p; size = length v })

  -- A function whose only result is `errptr`.
  unfoldable pub call_status : (S → Status × S) → Cmd S Ptr
  call_status f = do st ← invoke f; out_error st

  -- A function that returns an opaque pointer and sets `errptr`.
  unfoldable pub deliver_handle : Reply Ptr → Cmd S (Ptr × Ptr)
  deliver_handle (failed m) = do e ← out_error (some m); pure (null, e)
  deliver_handle (replied h) = pure (h, null)

  unfoldable pub call_handle : (S → Reply Ptr × S) → Cmd S (Ptr × Ptr)
  call_handle f = do r ← invoke f; deliver_handle r

  -- A function that returns a value and its size, and sets `errptr`.
  unfoldable pub deliver_value : Reply (Option Bytes) → Cmd S (Block × Ptr)
  deliver_value (failed m) = do e ← out_error (some m); pure (no_block, e)
  deliver_value (replied v) = do b ← out_block v; pure (b, null)

  unfoldable pub call_value : (S → Reply (Option Bytes) × S) → Cmd S (Block × Ptr)
  call_value f = do r ← invoke f; deliver_value r

  -- The same with a second value, the timestamp.
  unfoldable pub deliver_pair : Reply (Option Bytes × Option Bytes) → Cmd S (Block × Block × Ptr)
  deliver_pair (failed m) = do e ← out_error (some m); pure (no_block, no_block, e)
  deliver_pair (replied (v, t)) = do b ← out_block v; c ← out_block t; pure (b, c, null)

  unfoldable pub call_pair :
      (S → Reply (Option Bytes × Option Bytes) × S) → Cmd S (Block × Block × Ptr)
  call_pair f = do r ← invoke f; deliver_pair r

  -- A function with a value that it may have at hand, its size, and whether it had it.
  unfoldable pub deliver_found : Option Bytes → Cmd S (Block × ℕ)
  deliver_found none = pure (no_block, 0)
  deliver_found (some v) = do b ← out_block (some v); pure (b, 1)

  unfoldable pub call_found : (S → Option Bytes × S) → Cmd S (Block × ℕ)
  call_found f = do r ← invoke f; deliver_found r

  -- A function that answers through several results, which are `zero` when it fails.
  unfoldable pub deliver_answer : {A : Type 0} → A → Reply A → Cmd S (A × Ptr)
  deliver_answer zero (failed m) = do e ← out_error (some m); pure (zero, e)
  deliver_answer zero (replied a) = pure (a, null)

  unfoldable pub call_answer : {A : Type 0} → A → (S → Reply A × S) → Cmd S (A × Ptr)
  call_answer zero f = do r ← invoke f; deliver_answer zero r
