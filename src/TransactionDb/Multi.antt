-- ===== src/TransactionDb/Multi.antt =====
-- transactiondb.go: the reads of several keys.
use grocksdb.Base.{List, map, Bytes}
use grocksdb.Cgo.{Ptr, Cmd, World}
use grocksdb.Cgo.Returns.{IsValid}
use grocksdb.Types.{ColumnFamilyHandle, ReadOptions, TransactionDb}
use grocksdb.MultiGet.Works.{Gets, multi_get_by-Gets}
use grocksdb.MultiGet.Families.{multi_get_one_cf-Gets}
use grocksdb.MultiGet.{Answering, Got, multi_get_by, multi_get_cf_by}

-- The C functions that are called here; the second is given a column family for each key.
pub record TransactionDbMultiApi (S : Type 0) : Type 0 where
  pub rocksdb_transactiondb_multi_get : Ptr → Ptr → Answering S
  pub rocksdb_transactiondb_multi_get_cf : Ptr → Ptr → List Ptr → Answering S

module _ {S : Type 0} (api : TransactionDbMultiApi S) (db : TransactionDb)
    (opts : ReadOptions) where
  open api use {rocksdb_transactiondb_multi_get, rocksdb_transactiondb_multi_get_cf}

  unfoldable pub multi_get : (keys : List Bytes) → Cmd S Got
  unfolding multi_get_by
  multi_get keys = multi_get_by (rocksdb_transactiondb_multi_get db.c opts.c) keys

  unfoldable pub multi_get_with_cf : (cf : ColumnFamilyHandle) (keys : List Bytes) → Cmd S Got
  unfolding multi_get_cf_by
  multi_get_with_cf cf keys =
      multi_get_cf_by (rocksdb_transactiondb_multi_get_cf db.c opts.c) (map (λ _. cf) keys) keys

  abbrev pub TransactionDbMulti :
      (cf : ColumnFamilyHandle) (keys : List Bytes) (w : World S) → Type 0
  TransactionDbMulti cf keys w =
      Gets w keys (multi_get keys) (rocksdb_transactiondb_multi_get db.c opts.c)
      × Gets w keys (multi_get_with_cf cf keys)
          (rocksdb_transactiondb_multi_get_cf db.c opts.c (map (λ _. cf.c) keys))

  pub transactiondb_all-Gets :
      (cf : ColumnFamilyHandle) (keys : List Bytes) (w : World S)
      → IsValid w
      → TransactionDbMulti cf keys w
  unfolding multi_get multi_get_with_cf
  transactiondb_all-Gets cf keys w v =
      (multi_get_by-Gets _ keys w v, multi_get_one_cf-Gets _ cf keys w v)
