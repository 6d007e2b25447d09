-- ===== src/WriteBatch/Records/RoundTrip.antt =====
-- The iterator reads back what was encoded.
use grocksdb.Base.{ℕ, zero, suc, ◌^◌, ◌≤◌, ◌<◌, ◌≡◌, refl, arith, true, none}
use grocksdb.Base.{some, ◌++◌, Bytes, length, drop, take-append, drop-append}
use mathlib.Core.List.{append_assoc}
use grocksdb.Base.{length-append, ◌≢◌, List}
use grocksdb.Base.Int.{pos, go_int}
use grocksdb.Binary.{put_uvarint}
use grocksdb.Binary.RoundTrip.{uvarint-put_uvarint, length-groups}
use grocksdb.WriteBatch.Records.{WriteBatchRecord, WriteBatchIterator, Layout, layout_of, advance}
use grocksdb.WriteBatch.Records.{returned, decode_varint, decode_slice, decode_body}
use grocksdb.WriteBatch.Records.{decode_cf, decode_key, decode_value, decode_record, next}
use grocksdb.WriteBatch.Records.{key_only, cf_key, key_value, cf_key_value, value_only, bare}
use grocksdb.WriteBatch.Records.{unsupported}
use grocksdb.WriteBatch.Records.Format.{
  Entry, encode_slice, encode_body, encode, seen_as, record_of,
}
use grocksdb.WriteBatch.Records.Format.{IsEncodable}
use grocksdb.WriteBatch.Records.{decode_rec_type}
use grocksdb.WriteBatch.Records.Reads.{Reads}

abbrev pub reader : Bytes → WriteBatchRecord → WriteBatchIterator
reader rest r = record { rest = rest; current = r; err = none }

advance-pos :
    (n : ℕ) (it : WriteBatchIterator)
    → 1 ≤ n
    → advance (pos n) it ≡ record it { rest = drop n it.rest }
advance-pos zero it h = absurd (omega arith)
advance-pos (suc n) it h = refl

length-put_uvarint : (v : ℕ) → 1 ≤ length (put_uvarint v)
unfolding put_uvarint
length-put_uvarint v = (length-groups 9 v).0

pub decode_varint-put :
    (v : ℕ) (rest : Bytes) (r : WriteBatchRecord)
    → v < 2 ^ 64
    → decode_varint (reader (put_uvarint v ++ rest) r) ≡ (v, reader rest r)
unfolding decode_varint
decode_varint-put v rest r h =
    rw (uvarint-put_uvarint v rest h) (rw (advance-pos _ _ (length-put_uvarint v)) (rw drop-append))

go_int-small : (v : ℕ) → v < 2 ^ 63 → go_int v ≡ pos v
unfolding go_int
go_int-small v h = ground arith

decode_slice-encode :
    (b rest : Bytes) (r : WriteBatchRecord)
    → length b < 2 ^ 63
    → decode_slice (reader (encode_slice b ++ rest) r) ≡ returned (some b, reader rest r)
unfolding decode_slice
decode_slice-encode b rest r h = rw append_assoc (
    rw (decode_varint-put (length b) (b ++ rest) r (omega arith)) (
      ground (
        arith,
        go_int-small (length b),
        length-append b rest,
        take-append b rest,
        drop-append b rest,
      )))

decode_cf-put :
    (v : ℕ) (rest : Bytes) (r : WriteBatchRecord)
    → v < 2 ^ 63
    → decode_cf (reader (put_uvarint v ++ rest) r) ≡ reader rest (record r { cf = pos v })
unfolding decode_cf
decode_cf-put v rest r h = rw (decode_varint-put v rest r (omega arith)) (rw (go_int-small v h))

decode_key-encode :
    (b rest : Bytes) (r : WriteBatchRecord)
    → length b < 2 ^ 63
    → decode_key (reader (encode_slice b ++ rest) r)
      ≡ returned (reader rest (record r { key = some b }))
unfolding decode_key
decode_key-encode b rest r h = rw (decode_slice-encode b rest r h)

decode_value-encode :
    (b rest : Bytes) (r : WriteBatchRecord)
    → length b < 2 ^ 63
    → decode_value (reader (encode_slice b ++ rest) r)
      ≡ returned (reader rest (record r { value = some b }))
unfolding decode_value
decode_value-encode b rest r h = rw (decode_slice-encode b rest r h)

abbrev blank : Entry → WriteBatchRecord
blank e = record { cf = pos 0; key = none; value = none; type = e.type }

decode_body-encode :
    (l : Layout) (e : Entry) (rest : Bytes)
    → IsEncodable e
    → l ≢ unsupported
    → decode_body l (reader (encode_body l e ++ rest) (blank e))
      ≡ returned (reader rest (seen_as l e))
unfolding decode_body encode_body seen_as
decode_body-encode key_only e rest v s = decode_key-encode e.key rest (blank e) v.key_fits
decode_body-encode value_only e rest v s = decode_value-encode e.value rest (blank e) v.value_fits
decode_body-encode bare e rest v s = refl
decode_body-encode unsupported e rest v s = absurd (s refl)
decode_body-encode cf_key e rest v s = rw append_assoc (
    rw (decode_cf-put e.cf (encode_slice e.key ++ rest) (blank e) v.cf_fits)
      (decode_key-encode e.key rest _ v.key_fits))
decode_body-encode key_value e rest v s = simp append_assoc (
    rw (← append_assoc (put_uvarint (length e.key)) e.key _) (
      rw (decode_key-encode e.key _ (blank e) v.key_fits) (
        rw (← append_assoc (put_uvarint (length e.value)) e.value _)
          (decode_value-encode e.value rest _ v.value_fits))))
decode_body-encode cf_key_value e rest v s = simp append_assoc (
    rw (decode_cf-put e.cf _ (blank e) v.cf_fits) (
      rw (← append_assoc (put_uvarint (length e.key)) e.key _) (
        rw (decode_key-encode e.key _ (record (blank e) { cf = pos e.cf }) v.key_fits) (
          rw (← append_assoc (put_uvarint (length e.value)) e.value _)
            (decode_value-encode e.value rest _ v.value_fits)))))

decode_record-encode :
    (e : Entry) (rest : Bytes) (r : WriteBatchRecord)
    → IsEncodable e
    → decode_record (reader (encode e ++ rest) r) ≡ returned (reader rest (record_of e))
unfolding encode decode_record decode_rec_type record_of
decode_record-encode e rest r v = decode_body-encode (layout_of e.type) e rest v v.supported

-- On a record of a supported type `Next` answers true, and holds the record and what follows it.
pub next-encode :
    (e : Entry) (rest : Bytes) (r : WriteBatchRecord)
    → IsEncodable e
    → next (reader (encode e ++ rest) r) ≡ returned (true, reader rest (record_of e))
unfolding next encode
next-encode e rest r v = ground (arith, decode_record-encode e rest r v)
