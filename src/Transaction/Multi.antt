-- ===== src/Transaction/Multi.antt =====
-- transaction.go: the reads of several keys.
use grocksdb.Base.{List, map, Bytes}
use grocksdb.Cgo.{Ptr, Cmd, World}
use grocksdb.Cgo.Returns.{IsValid}
use grocksdb.Types.{ColumnFamilyHandle, ReadOptions, Transaction}
use grocksdb.MultiGet.Works.{Gets, multi_get_by-Gets}
use grocksdb.MultiGet.Families.{multi_get_one_cf-Gets}
use grocksdb.MultiGet.{Answering, Got, multi_get_by, multi_get_cf_by}

-- The C functions that are called here; the second is given a column family for each key.
pub record TransactionMultiApi (S : Type 0) : Type 0 where
  pub rocksdb_transaction_multi_get : Ptr → Ptr → Answering S
  pub rocksdb_transaction_multi_get_cf : Ptr → Ptr → List Ptr → Answering S

module _ {S : Type 0} (api : TransactionMultiApi S) (transaction : Transaction)
    (opts : ReadOptions) where
  open api use {rocksdb_transaction_multi_get, rocksdb_transaction_multi_get_cf}

  unfoldable pub multi_get : (keys : List Bytes) → Cmd S Got
  unfolding multi_get_by
  multi_get keys = multi_get_by (rocksdb_transaction_multi_get transaction.c opts.c) keys

  unfoldable pub multi_get_with_cf : (cf : ColumnFamilyHandle) (keys : List Bytes) → Cmd S Got
  unfolding multi_get_cf_by
  multi_get_with_cf cf keys =
      multi_get_cf_by (rocksdb_transaction_multi_get_cf transaction.c opts.c) (map (λ _. cf) keys)
        keys

  abbrev pub TransactionMulti : (cf : ColumnFamilyHandle) (keys : List Bytes) (w : World S) → Type 0
  TransactionMulti cf keys w =
      Gets w keys (multi_get keys) (rocksdb_transaction_multi_get transaction.c opts.c)
      × Gets w keys (multi_get_with_cf cf keys)
          (rocksdb_transaction_multi_get_cf transaction.c opts.c (map (λ _. cf.c) keys))

  pub transaction_all-Gets :
      (cf : ColumnFamilyHandle) (keys : List Bytes) (w : World S)
      → IsValid w
      → TransactionMulti cf keys w
  unfolding multi_get multi_get_with_cf
  transaction_all-Gets cf keys w v =
      (multi_get_by-Gets _ keys w v, multi_get_one_cf-Gets _ cf keys w v)
