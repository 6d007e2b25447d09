-- ===== src/WriteBatch/Records/Format.antt =====
-- The format of a batch's records as RocksDB documents it, against which the iterator of
-- write_batch.go is held: a type byte, then the column family and the slices that the type has.
use grocksdb.Base.{ℕ, ◌^◌, ◌<◌, ◌≢◌, some, none, [], ◌∷◌, ◌++◌, List, Bytes, length}
use grocksdb.Base.Int.{pos}
use grocksdb.Binary.{put_uvarint}
use grocksdb.WriteBatch.Records.{WriteBatchRecord, Layout, layout_of}
use grocksdb.WriteBatch.Records.{key_only, cf_key, key_value, cf_key_value, value_only, bare}
use grocksdb.WriteBatch.Records.{unsupported}

-- What is queued; a field that the type does not have is ignored.
pub record Entry : Type 0 where
  pub type : ℕ
  pub cf : ℕ
  pub key : Bytes
  pub value : Bytes

abbrev pub encode_slice : Bytes → Bytes
encode_slice b = put_uvarint (length b) ++ b

unfoldable pub encode_body : Layout → Entry → Bytes
encode_body key_only e = encode_slice e.key
encode_body cf_key e = put_uvarint e.cf ++ encode_slice e.key
encode_body key_value e = encode_slice e.key ++ encode_slice e.value
encode_body cf_key_value e = put_uvarint e.cf ++ (encode_slice e.key ++ encode_slice e.value)
encode_body value_only e = encode_slice e.value
encode_body bare e = []
encode_body unsupported e = []

unfoldable pub encode : Entry → Bytes
encode e = e.type ∷ encode_body (layout_of e.type) e

unfoldable pub encode_all : List Entry → Bytes
encode_all [] = []
encode_all (e ∷ es) = encode e ++ encode_all es

-- The record that a reader sees for an entry.
unfoldable pub seen_as : Layout → Entry → WriteBatchRecord
seen_as key_only e = record { cf = pos 0; key = some e.key; value = none; type = e.type }
seen_as cf_key e = record { cf = pos e.cf; key = some e.key; value = none; type = e.type }
seen_as key_value e = record { cf = pos 0; key = some e.key; value = some e.value; type = e.type }
seen_as cf_key_value e = record {
  cf = pos e.cf;
  key = some e.key;
  value = some e.value;
  type = e.type;
}
seen_as value_only e = record { cf = pos 0; key = none; value = some e.value; type = e.type }
seen_as _ e = record { cf = pos 0; key = none; value = none; type = e.type }

unfoldable pub record_of : Entry → WriteBatchRecord
record_of e = seen_as (layout_of e.type) e

-- A type that the iterator supports, and numbers that an int holds.
pub record IsEncodable (e : Entry) : Type 0 where
  pub supported : layout_of e.type ≢ unsupported
  pub cf_fits : e.cf < 2 ^ 63
  pub key_fits : length e.key < 2 ^ 63
  pub value_fits : length e.value < 2 ^ 63

-- A serialized batch: the sequence number and the count, in 12 bytes, and the records.
unfoldable pub serialize : (header : Bytes) → List Entry → Bytes
serialize header es = header ++ encode_all es
