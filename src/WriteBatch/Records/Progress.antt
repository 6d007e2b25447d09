-- ===== src/WriteBatch/Records/Progress.antt =====
-- The iterator moves forward, so reading ends on any input; and where it panics.
use grocksdb.Base.{ℕ, zero, suc, ◌≤◌, ◌<◌, ◌≡◌, ◌⊎◌, inl, inr, refl, arith, true, false, some}
use grocksdb.Base.{Bool, Option, List, [], ◌∷◌, Bytes, length, length-drop}
use grocksdb.Base.Int.{ℤ, pos, negsuc, go_int}
use grocksdb.Binary.{uvarint}
use grocksdb.WriteBatch.Records.{WriteBatchRecord, WriteBatchIterator, Layout, layout_of, advance}
use grocksdb.WriteBatch.Records.{Outcome, returned, panics, decode_varint, decode_slice, slice_of}
use grocksdb.WriteBatch.Records.{decode_cf, decode_key, decode_value, decode_record, next}
use grocksdb.WriteBatch.Records.{decode_body, decode_rec_type, split_at, short_buffer, ◌>>=◌}
use grocksdb.WriteBatch.Records.{unless_failed, key_only, cf_key, key_value, cf_key_value, bare}
use grocksdb.WriteBatch.Records.{value_only, unsupported, BatchError}
use grocksdb.WriteBatch.Records.Reads.{Reads, stop, crash, more}

-- `it'` is not further from the end than `it`.
abbrev Behind : WriteBatchIterator → WriteBatchIterator → Type 0
Behind it' it = length it'.rest ≤ length it.rest

advance-Behind : (n : ℤ) (it : WriteBatchIterator) → Behind (advance n it) it
advance-Behind (pos zero) it = omega arith
advance-Behind (pos (suc n)) it = omega (arith, length-drop (suc n) it.rest)
advance-Behind (negsuc n) it = omega arith

decode_varint-Behind : (it : WriteBatchIterator) → Behind (decode_varint it).1 it
unfolding decode_varint
decode_varint-Behind it = advance-Behind (uvarint it.rest).1 it

split_at-Behind :
    (l : ℤ) (it it' : WriteBatchIterator) (o : Option Bytes)
    → split_at l it ≡ returned (o, it')
    → Behind it' it
split_at-Behind (pos l) it it' o e = ground (arith, length-drop l it.rest)
split_at-Behind (negsuc l) it it' o e = ground arith

slice_of-Behind :
    (v : ℕ) (it it' : WriteBatchIterator) (o : Option Bytes)
    → slice_of (v, it) ≡ returned (o, it')
    → Behind it' it
unfolding slice_of
slice_of-Behind v it it' o e = ground (
  arith,
  split_at-Behind (go_int v) it it' o,
  split_at-Behind (go_int v) (record it { err = some short_buffer }) it' o,
)

decode_slice-Behind :
    (it it' : WriteBatchIterator) (o : Option Bytes)
    → decode_slice it ≡ returned (o, it')
    → Behind it' it
unfolding decode_slice
decode_slice-Behind it it' o e = omega (
  arith,
  slice_of-Behind (decode_varint it).0 (decode_varint it).1 it' o e,
  decode_varint-Behind it,
)

-- What a successful bind went through.
>>=-eq-returned :
    {A B : Type 0} (m : Outcome A) (f : A → Outcome B) {b : B}
    → (m >>= f) ≡ returned b
    → (a : A) × (m ≡ returned a) × (f a ≡ returned b)
>>=-eq-returned (returned a) f e = (a, refl, e)
>>=-eq-returned panics f e = cc

decode_key-Behind : (it it' : WriteBatchIterator) → decode_key it ≡ returned it' → Behind it' it
unfolding decode_key
decode_key-Behind it it' e =
    let ((o, it''), read, kept) = >>=-eq-returned (decode_slice it) _ e in
    ground (arith, decode_slice-Behind it it'' o read)

decode_value-Behind : (it it' : WriteBatchIterator) → decode_value it ≡ returned it' → Behind it' it
unfolding decode_value
decode_value-Behind it it' e =
    let ((o, it''), read, kept) = >>=-eq-returned (decode_slice it) _ e in
    ground (arith, decode_slice-Behind it it'' o read)

decode_cf-Behind : (it : WriteBatchIterator) → Behind (decode_cf it) it
unfolding decode_cf
decode_cf-Behind it = decode_varint-Behind it

unless_failed-key :
    (it it' : WriteBatchIterator) → unless_failed decode_key it ≡ returned it' → Behind it' it
unless_failed-key it it' e = ground (arith, decode_key-Behind it it')

unless_failed-value :
    (it it' : WriteBatchIterator) → unless_failed decode_value it ≡ returned it' → Behind it' it
unless_failed-value it it' e = ground (arith, decode_value-Behind it it')

decode_body-Behind :
    (l : Layout) (it it' : WriteBatchIterator) → decode_body l it ≡ returned it' → Behind it' it
unfolding decode_body
decode_body-Behind key_only it it' e = decode_key-Behind it it' e
decode_body-Behind value_only it it' e = decode_value-Behind it it' e
decode_body-Behind bare it it' e = ground arith
decode_body-Behind unsupported it it' e = ground arith
decode_body-Behind cf_key it it' e =
    omega (arith, unless_failed-key (decode_cf it) it' e, decode_cf-Behind it)
decode_body-Behind key_value it it' e =
    let (mid, first, second) = >>=-eq-returned (decode_key it) _ e in
    omega (arith, decode_key-Behind it mid first, unless_failed-value mid it' second)
decode_body-Behind cf_key_value it it' e =
    let (mid, first, second) = >>=-eq-returned (unless_failed decode_key (decode_cf it)) _ e in
    omega (
      arith,
      decode_cf-Behind it,
      unless_failed-key (decode_cf it) mid first,
      unless_failed-value mid it' second,
    )

-- A byte at least is read.
decode_record-shrinks :
    (rest : Bytes) (t : ℕ) (r : WriteBatchRecord) (err : Option BatchError)
    (it' : WriteBatchIterator)
    → decode_record (record { rest = t ∷ rest; current = r; err = err }) ≡ returned it'
    → length it'.rest ≤ length rest
unfolding decode_record decode_rec_type
decode_record-shrinks rest t r err it' e = decode_body-Behind (layout_of t) _ it' e

next-shrinks_of :
    (rest : Bytes) (r : WriteBatchRecord) (err : Option BatchError) (it' : WriteBatchIterator)
    → next (record { rest = rest; current = r; err = err }) ≡ returned (true, it')
    → length it'.rest < length rest
unfolding next
next-shrinks_of [] r err it' e = ground arith
next-shrinks_of (t ∷ rest) r err it' e = ground (arith, decode_record-shrinks rest t r err it')

-- A record that `Next` yields takes at least one byte of the data.
pub next-shrinks :
    (it it' : WriteBatchIterator)
    → next it ≡ returned (true, it')
    → length it'.rest < length it.rest
next-shrinks it it' e = next-shrinks_of it.rest it.current it.err it' e

next_cases :
    (o : Outcome (Bool × WriteBatchIterator))
    → (o ≡ panics)
      ⊎ ((it' : WriteBatchIterator) × (o ≡ returned (false, it')))
      ⊎ ((it' : WriteBatchIterator) × (o ≡ returned (true, it')))
next_cases panics = inl refl
next_cases (returned (false, it')) = inr (inl (it', refl))
next_cases (returned (true, it')) = inr (inr (it', refl))

Reads_within :
    (n : ℕ) (it : WriteBatchIterator)
    → length it.rest < n
    → (rs : List WriteBatchRecord) × (o : Outcome WriteBatchIterator) × Reads it rs o
Reads_within zero it h = absurd (omega arith)
Reads_within (suc n) it h = elim (next_cases (next it)) [
  | inl e ↦ ([], panics, crash e)
  | inr (inl (it', e)) ↦ ([], returned it', stop e)
  | inr (inr (it', e)) ↦
      let (rs, o, reads) = Reads_within n it' (omega (arith, next-shrinks it it' e)) in
      (it'.current ∷ rs, o, more e reads)
]

-- Reading a batch ends on any input, well formed or not: with the iterator stopped, or by a panic.
pub Reads_total :
    (it : WriteBatchIterator)
    → (rs : List WriteBatchRecord) × (o : Outcome WriteBatchIterator) × Reads it rs o
Reads_total it = Reads_within (suc (length it.rest)) it (omega arith)
