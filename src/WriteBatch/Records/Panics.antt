-- ===== src/WriteBatch/Records/Panics.antt =====
-- Where the iterator of write_batch.go panics: a length of 2^63 or more is negative as an int, passes
-- the test against the data that is left, and is used as a bound.
use grocksdb.Base.{suc, ℕ, ◌+◌, ◌*◌, ◌%◌, ◌^◌, ◌≤◌, ◌<◌, ◌≡◌, ◌↔◌, refl, arith, none}
use grocksdb.Base.{[], ◌∷◌, ◌++◌, ◌⊎◌, Bytes}
use grocksdb.Base.Int.{ℤ, pos, go_int}
use grocksdb.Binary.{uvarint, uvarint_loop, put_uvarint}
use grocksdb.WriteBatch.Records.{WriteBatchRecord, WriteBatchIterator, Layout, layout_of}
use grocksdb.WriteBatch.Records.{panics, decode_varint, decode_slice, slice_of}
use grocksdb.WriteBatch.Records.{decode_key, decode_value, decode_record, next, decode_body}
use grocksdb.WriteBatch.Records.{decode_rec_type, key_only, key_value, value_only}
use grocksdb.WriteBatch.Records.RoundTrip.{reader, decode_varint-put}

-- A number other than 0 comes with a positive count.
uvarint_loop_nonzero :
    (bs : Bytes) (x s i v : ℕ) (n : ℤ)
    → uvarint_loop bs x s i ≡ (v, n)
    → 0 < v
    → (m : ℕ) × (n ≡ pos (suc m))
unfolding uvarint_loop
uvarint_loop_nonzero [] x s i v n e h = ground arith
uvarint_loop_nonzero (b ∷ bs) x s i v n e h =
    ground (arith, uvarint_loop_nonzero bs (x + b % 128 * 2 ^ s % 2 ^ 64) (s + 7) (i + 1) v n)

slice_of_large :
    (v : ℕ) (it : WriteBatchIterator) → it.err ≡ none → 2 ^ 63 ≤ v → slice_of (v, it) ≡ panics
unfolding slice_of go_int
slice_of_large v it h l = ground arith

slice_of_small : (v : ℕ) (it : WriteBatchIterator) → slice_of (v, it) ≡ panics → 2 ^ 63 ≤ v
unfolding slice_of go_int
slice_of_small v it e = ground arith

decode_varint-err :
    (it : WriteBatchIterator)
    → it.err ≡ none
    → 2 ^ 63 ≤ (decode_varint it).0
    → (decode_varint it).1.err ≡ none
unfolding decode_varint uvarint
decode_varint-err it h l =
    let (m, e) = uvarint_loop_nonzero it.rest 0 0 0 _ _ refl (omega arith) in rw e h

-- A slice that is read before any error panics exactly if its length, as it is encoded, is 2^63 or
-- more.
pub decode_slice_panics :
    (it : WriteBatchIterator)
    → it.err ≡ none
    → (decode_slice it ≡ panics) ↔ (2 ^ 63 ≤ (decode_varint it).0)
unfolding decode_slice
decode_slice_panics it h =
    (λ e. slice_of_small _ _ e, λ l. slice_of_large _ _ (decode_varint-err it h l) l)

decode_slice-put_large :
    (v : ℕ) (rest : Bytes) (r : WriteBatchRecord)
    → 2 ^ 63 ≤ v
    → v < 2 ^ 64
    → decode_slice (reader (put_uvarint v ++ rest) r) ≡ panics
unfolding decode_slice
decode_slice-put_large v rest r lo hi =
    rw (decode_varint-put v rest r hi) (slice_of_large v (reader rest r) refl lo)

module _ (it : WriteBatchIterator) (bad : decode_slice it ≡ panics) where
  decode_body_panics :
      (l : Layout) → (l ≡ key_only) ⊎ (l ≡ key_value) ⊎ (l ≡ value_only) → decode_body l it ≡ panics
  unfolding decode_body decode_key decode_value
  decode_body_panics key_only h = rw bad
  decode_body_panics key_value h = rw bad
  decode_body_panics value_only h = rw bad
  decode_body_panics _ h = ground arith

-- `Next` panics on a record that begins with a slice whose length is encoded as 2^63 or more,
-- whatever follows.
pub next_panics :
    (t v : ℕ) (rest : Bytes) (r : WriteBatchRecord)
    → (layout_of t ≡ key_only) ⊎ (layout_of t ≡ key_value) ⊎ (layout_of t ≡ value_only)
    → 2 ^ 63 ≤ v
    → v < 2 ^ 64
    → next (reader (t ∷ (put_uvarint v ++ rest)) r) ≡ panics
unfolding next decode_record decode_rec_type
next_panics t v rest r first lo hi =
    let r' : WriteBatchRecord = record { cf = pos 0; key = none; value = none; type = t } in
    ground (
      arith,
      decode_body_panics (reader (put_uvarint v ++ rest) r')
          (decode_slice-put_large v rest r' lo hi) (layout_of t) first,
    )
