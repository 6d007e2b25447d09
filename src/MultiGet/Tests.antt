-- ===== src/MultiGet/Tests.antt =====
-- Reads of several keys at a RocksDB that fails for the first of three.
use grocksdb.Base.{ℕ, suc, ◌==◌, if◌then◌else◌, List, [], ◌∷◌, Bytes, some, none, Option}
use grocksdb.Cgo.{Reply, failed, replied}
use grocksdb.Fixtures.{letter_a, letters_bc}
use grocksdb.Db.Multi.{DbMultiApi}
use grocksdb.Transaction.Multi.{TransactionMultiApi}
use grocksdb.TransactionDb.Multi.{TransactionDbMultiApi}

abbrev three_keys : List Bytes
three_keys = letter_a ∷ letters_bc ∷ [] ∷ []

-- A failure, a value and no value.
abbrev answers : ℕ → Reply (Option Bytes)
answers i =
    if i == 0 then failed letter_a else if i == 1 then replied (some letters_bc) else replied none

abbrev dbs : DbMultiApi ℕ
dbs = record {
  rocksdb_multi_get = λ db opts keys s. (answers, suc s);
  rocksdb_multi_get_cf = λ db opts cfs keys s. (answers, suc s);
}

abbrev transactions : TransactionMultiApi ℕ
transactions = record {
  rocksdb_transaction_multi_get = λ db opts keys s. (answers, suc s);
  rocksdb_transaction_multi_get_cf = λ db opts cfs keys s. (answers, suc s);
}

abbrev transaction_dbs : TransactionDbMultiApi ℕ
transaction_dbs = record {
  rocksdb_transactiondb_multi_get = λ db opts keys s. (answers, suc s);
  rocksdb_transactiondb_multi_get_cf = λ db opts cfs keys s. (answers, suc s);
}
