-- ===== src/WriteBatch/Records.antt =====
-- write_batch.go: the iterator over the records of a serialized batch.
pub mod Format
pub mod Reads
pub mod RoundTrip
pub mod Progress
pub mod Panics
mod Tests
use grocksdb.Base.{ℕ, zero, suc, Bool, false, not, ◌||◌, Option, none, some, is_none}
use grocksdb.Base.{[], ◌∷◌, Bytes, length, take, drop, ltb, ◌==◌, if◌then◌else◌}
use grocksdb.Base.Int.{ℤ, pos, negsuc, go_int}
use grocksdb.Binary.{uvarint}
use grocksdb.WriteBatch.RecordType

-- What a Go function does: it returns, or it panics.
pub data Outcome (A : Type 0) : Type 0 where
  returned : A → Outcome A
  panics : Outcome A

infixl 5 ◌>>=◌
abbrev pub ◌>>=◌ : {A B : Type 0} → Outcome A → (A → Outcome B) → Outcome B
returned a >>= f = f a
panics >>= f = panics

-- The errors that the iterator sets.
pub data BatchError : Type 0 where
  short_buffer malformed_varint unsupported_wal_record_type : BatchError

-- A nil slice is `none`.
pub record WriteBatchRecord : Type 0 where
  pub cf : ℤ
  pub key : Option Bytes
  pub value : Option Bytes
  pub type : ℕ

pub record WriteBatchIterator : Type 0 where
  pub rest : Bytes
  pub current : WriteBatchRecord
  pub err : Option BatchError

-- What follows the type byte of a record; the cases of the switch in `Next`.
pub data Layout : Type 0 where
  key_only cf_key key_value cf_key_value value_only bare unsupported : Layout

unfoldable pub layout_of : ℕ → Layout
layout_of t =
    if t == RecordType.deletion || t == RecordType.single_deletion
    then key_only
    else if t == RecordType.cf_deletion || t == RecordType.cf_single_deletion
    then cf_key
    else if t == RecordType.value
        || t == RecordType.merge
        || t == RecordType.range_deletion
        || t == RecordType.blob_index
    then key_value
    else if t == RecordType.cf_value
        || t == RecordType.cf_range_deletion
        || t == RecordType.cf_merge
        || t == RecordType.cf_blob_index
    then cf_key_value
    else if t == RecordType.log_data
    then value_only
    else if t == RecordType.noop
        || t == RecordType.begin_prepare_xid
        || t == RecordType.begin_persisted_prepare_xid
    then bare
    else if t == RecordType.end_prepare_xid
        || t == RecordType.commit_xid
        || t == RecordType.rollback_xid
    then value_only
    else unsupported

unfoldable pub decode_rec_type : WriteBatchIterator → ℕ × WriteBatchIterator
decode_rec_type iter = elim (iter.rest) [
  | [] ↦ (RecordType.not_used, record iter { err = some short_buffer })
  | t ∷ rest ↦ (t, record iter { rest = rest })
]

-- The iterator after `n`, the count that `Uvarint` returned.
abbrev pub advance : ℤ → WriteBatchIterator → WriteBatchIterator
advance (pos zero) iter = record iter { err = some short_buffer }
advance (pos (suc n)) iter = record iter { rest = drop (suc n) iter.rest }
advance (negsuc n) iter = record iter { err = some malformed_varint }

unfoldable pub decode_varint : WriteBatchIterator → ℕ × WriteBatchIterator
decode_varint iter = let (v, n) = uvarint iter.rest in (v, advance n iter)

-- `l > len(iter.data)`
abbrev pub exceeds : ℤ → ℕ → Bool
exceeds (pos l) n = ltb n l
exceeds (negsuc l) n = false

-- `iter.data[:l]` and `iter.data[l:]`, which panic for a negative bound.
abbrev pub split_at : ℤ → WriteBatchIterator → Outcome (Option Bytes × WriteBatchIterator)
split_at (pos l) iter = returned (some (take l iter.rest), record iter { rest = drop l iter.rest })
split_at (negsuc l) iter = panics

-- The rest of `decodeSlice`, after the call of `decodeVarint`.
unfoldable pub slice_of : ℕ × WriteBatchIterator → Outcome (Option Bytes × WriteBatchIterator)
slice_of (v, it) =
    let l = go_int v in
    let it' = if exceeds l (length it.rest) then record it { err = some short_buffer } else it in
    if is_none it'.err then split_at l it' else returned (some [], it')

unfoldable pub decode_slice : WriteBatchIterator → Outcome (Option Bytes × WriteBatchIterator)
unfolding slice_of
decode_slice iter = slice_of (decode_varint iter)

-- `iter.record.CF = int(iter.decodeVarint())`
unfoldable pub decode_cf : WriteBatchIterator → WriteBatchIterator
decode_cf iter =
    let (v, it) = decode_varint iter in
    record it { current = record (it.current) { cf = go_int v } }

-- `iter.record.Key = iter.decodeSlice()`, and the same for the value.
unfoldable pub decode_key : WriteBatchIterator → Outcome WriteBatchIterator
decode_key iter = do
  (k, it) ← decode_slice iter
  returned (record it { current = record (it.current) { key = k } })

unfoldable pub decode_value : WriteBatchIterator → Outcome WriteBatchIterator
decode_value iter = do
  (v, it) ← decode_slice iter
  returned (record it { current = record (it.current) { value = v } })

-- `if iter.err == nil { … }`
abbrev pub unless_failed :
    (WriteBatchIterator → Outcome WriteBatchIterator)
    → WriteBatchIterator
    → Outcome WriteBatchIterator
unless_failed step iter = if is_none iter.err then step iter else returned iter

-- The body of the switch in `Next`.
unfoldable pub decode_body : Layout → WriteBatchIterator → Outcome WriteBatchIterator
decode_body key_only iter = decode_key iter
decode_body cf_key iter = unless_failed decode_key (decode_cf iter)
decode_body key_value iter = do it ← decode_key iter; unless_failed decode_value it
decode_body cf_key_value iter = do
  it ← unless_failed decode_key (decode_cf iter)
  unless_failed decode_value it
decode_body value_only iter = decode_value iter
decode_body bare iter = returned iter
decode_body unsupported iter = returned (record iter { err = some unsupported_wal_record_type })

-- `Next`, past its guard: the current record is reset, and its type and body are read.
unfoldable pub decode_record : WriteBatchIterator → Outcome WriteBatchIterator
decode_record iter =
    let blank : WriteBatchRecord = record (iter.current) { cf = pos 0; key = none; value = none } in
    let (t, it) = decode_rec_type (record iter { current = blank }) in
    decode_body (layout_of t) (record it { current = record (it.current) { type = t } })

unfoldable pub next : WriteBatchIterator → Outcome (Bool × WriteBatchIterator)
next iter =
    if not (is_none iter.err) || length iter.rest == 0
    then returned (false, iter)
    else (do it ← decode_record iter; returned (is_none it.err, it))

-- The zero values of Go.
abbrev pub no_record : WriteBatchRecord
no_record = record { cf = pos 0; key = none; value = none; type = 0 }

abbrev pub iterator_over : Bytes → WriteBatchIterator
iterator_over rest = record { rest = rest; current = no_record; err = none }

-- `NewIterator` on the data of the batch: the 12 bytes of its header are skipped.
unfoldable pub new_iterator : Bytes → WriteBatchIterator
new_iterator contents =
    if ltb (length contents) 12 then iterator_over [] else iterator_over (drop 12 contents)
