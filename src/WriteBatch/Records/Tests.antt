-- ===== src/WriteBatch/Records/Tests.antt =====
-- Concrete runs of the record iterator, and the theorems at concrete inputs.
use grocksdb.Base.{◌≡◌, refl, false, none, some, [], ◌∷◌, ◌++◌, inl, arith, ◌^◌, ◌≤◌}
use grocksdb.Base.{List, ◌↔◌}
use grocksdb.Base.Int.{pos, go_int}
use grocksdb.Binary.{put_uvarint, uvarint}
use grocksdb.WriteBatch.RecordType
use grocksdb.WriteBatch.Records.{WriteBatchRecord, WriteBatchIterator, layout_of, key_only}
use grocksdb.WriteBatch.Records.{Outcome, returned, panics, next, decode_record}
use grocksdb.WriteBatch.Records.{decode_rec_type, decode_body, decode_key, decode_value}
use grocksdb.WriteBatch.Records.{
  decode_slice, decode_varint, iterator_over, no_record, short_buffer,
}
use grocksdb.WriteBatch.Records.Format.{Entry, encode}
use grocksdb.WriteBatch.Records.Format.{encode_body}
use grocksdb.WriteBatch.Records.Reads.{Reads}
use grocksdb.WriteBatch.Records.RoundTrip.{reader}
use grocksdb.WriteBatch.Records.Progress.{Reads_total}
use grocksdb.WriteBatch.Records.Panics.{decode_slice_panics, next_panics}

-- Put("a", "xy") in the default column family, and Delete("b") in column family 300.
abbrev put_a : Entry
put_a = record { type = RecordType.value; cf = 0; key = 97 ∷ []; value = 120 ∷ 121 ∷ [] }

abbrev delete_b : Entry
delete_b = record { type = RecordType.cf_deletion; cf = 300; key = 98 ∷ []; value = [] }

put_a_bytes : encode put_a ≡ 1 ∷ 1 ∷ 97 ∷ 2 ∷ 120 ∷ 121 ∷ []
unfolding encode encode_body layout_of put_uvarint
put_a_bytes = refl

delete_b_bytes : encode delete_b ≡ 4 ∷ 0xac ∷ 0x02 ∷ 1 ∷ 98 ∷ []
unfolding encode encode_body layout_of put_uvarint
delete_b_bytes = refl

-- A buffer that ends inside a slice is refused.
next_short :
    next (iterator_over (1 ∷ 5 ∷ 97 ∷ []))
    ≡ returned (
      false,
      record {
        rest = 97 ∷ [];
        current = record { cf = pos 0; key = some []; value = none; type = 1 };
        err = some short_buffer;
      },
    )
unfolding next decode_record decode_rec_type decode_body decode_key decode_value decode_slice
    decode_varint uvarint go_int layout_of
next_short = refl

Reads_total_example :
    (rs : List WriteBatchRecord) × (o : Outcome WriteBatchIterator) × Reads
      (iterator_over (1 ∷ 5 ∷ 97 ∷ []))
      rs
      o
Reads_total_example = Reads_total (iterator_over (1 ∷ 5 ∷ 97 ∷ []))

decode_slice_panics_example :
    (decode_slice (iterator_over (5 ∷ 97 ∷ [])) ≡ panics)
    ↔ (2 ^ 63 ≤ (decode_varint (iterator_over (5 ∷ 97 ∷ []))).0)
decode_slice_panics_example = decode_slice_panics (iterator_over (5 ∷ 97 ∷ [])) refl

next_panics_example : next (reader (0 ∷ (put_uvarint (2 ^ 63) ++ [])) no_record) ≡ panics
next_panics_example = next_panics 0 (2 ^ 63) [] no_record (inl first) (omega arith) (omega arith)
  where
    first : layout_of 0 ≡ key_only
    first = unfold layout_of in refl
