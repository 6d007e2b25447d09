-- ===== src/MultiGet.antt =====
-- db.go, transaction.go, transactiondb.go: the reads of several keys at once, whose bodies are the same
-- but for the C function.
pub mod Rows
pub mod Errs
pub mod Given
pub mod Works
pub mod Families
pub mod Reads
mod Tests
use grocksdb.Base.{ℕ, suc, zero, Option, none, some, List, [], ◌∷◌, map, Bytes, length}
use grocksdb.Base.Int.{pos}
use grocksdb.Cgo.{Ptr, Cmd, Block, Reply, Fault, ◌>>=◌, ◌>>◌, pure, crash, invoke, deliver_value}
use grocksdb.Types.{ColumnFamilyHandle}
use grocksdb.Util.{from_c_error, c_array}
use grocksdb.Array.{byte_slices_to_c_slices, destroy, c_reads}
use grocksdb.Slice.{Slice, new_slice}

-- "getting %q failed: %v"
pub record GetError : Type 0 where
  pub key : Bytes
  pub message : Bytes

-- "failed to get %d keys, first error: %v"
pub record MultiGetError : Type 0 where
  pub count : ℕ
  pub first : GetError

-- What C answers for each of `n` keys.
unfoldable pub each : {A : Type 0} → ℕ → (ℕ → A) → List A
each zero f = []
each (suc n) f = f 0 ∷ each n (λ i. f (suc i))

-- A function of C that is given several keys answers for each: a value or NULL, or a message.
abbrev pub Answering : Type 0 → Type 0
Answering S = List Bytes → S → (ℕ → Reply (Option Bytes)) × S

-- The `nil` slices are empty.
abbrev pub Got : Type 0
Got = List Slice × Option MultiGetError

-- `if err := …; err != nil { errs = append(errs, …) }`
unfoldable pub add_error : Bytes → Option Bytes → List GetError → List GetError
add_error key none errs = errs
add_error key (some message) errs = record { key = key; message = message } ∷ errs

-- `for i, val := range vals { slices[i] = NewSlice(val, valSizes[i]) }`
unfoldable pub slices_of : List (Block × Ptr) → List Slice
slices_of xs = map (λ (val, _). new_slice val.chars val.size) xs

module _ {S : Type 0} where
  unfoldable pub deliver_all : List (Reply (Option Bytes)) → Cmd S (List (Block × Ptr))
  deliver_all [] = pure []
  deliver_all (r ∷ rs) = do x ← deliver_value r; xs ← deliver_all rs; pure (x ∷ xs)

  -- C fills `vals`, `valSizes` and `rocksErrs`.
  unfoldable pub call_multi : Answering S → List Ptr → List ℕ → Cmd S (List (Block × Ptr))
  unfolding each deliver_all
  call_multi f c_keys c_key_sizes = do
    keys ← c_reads c_keys c_key_sizes
    reply ← invoke (f keys)
    deliver_all (each (length keys) reply)

  -- The loop over `rocksErrs`; `keys[i]` is read when there is an error.
  unfoldable pub errors_of : List Bytes → List (Block × Ptr) → Cmd S (List GetError)
  unfolding add_error
  errors_of keys [] = pure []
  errors_of [] ((_, rocks_err) ∷ xs) = from_c_error rocks_err >>= λ err. elim err [
    | none ↦ errors_of [] xs
    | some _ ↦ crash Fault.panic
  ]
  errors_of (key ∷ keys) ((_, rocks_err) ∷ xs) = do
    err ← from_c_error rocks_err
    errs ← errors_of keys xs
    pure (add_error key err errs)

  -- `if len(errs) > 0 { … }` and what follows.
  unfoldable pub result_of : List GetError → List Ptr → List (Block × Ptr) → Cmd S Got
  unfolding slices_of
  result_of (err ∷ errs) c_keys xs = do
    destroy c_keys
    pure ([], some (record { count = suc (length errs); first = err }))
  result_of [] c_keys xs = do destroy c_keys; pure (slices_of xs, none)

  unfoldable pub multi_get_by : Answering S → List Bytes → Cmd S Got
  multi_get_by f keys = do
    (c_keys, c_key_sizes) ← byte_slices_to_c_slices keys
    xs ← call_multi f c_keys c_key_sizes
    errs ← errors_of keys xs
    result_of errs c_keys xs

  -- C reads a column family for each key.
  unfoldable pub multi_get_cf_by :
      (List Ptr → Answering S) → List ColumnFamilyHandle → List Bytes → Cmd S Got
  unfolding multi_get_by
  multi_get_cf_by f cfs keys = do
    c_cfs ← c_array (map (λ cf. cf.c) cfs) (pos (length keys))
    multi_get_by (f c_cfs) keys
