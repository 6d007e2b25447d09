-- ===== src/TransactionDb/Opening/Tests.antt =====
-- Opening at a concrete RocksDB, which answers once and then fails.
use grocksdb.Base.{ℕ, ◌+◌, ◌==◌, if◌then◌else◌, List, [], ◌∷◌, Bytes}
use grocksdb.Cgo.{Reply, failed, replied}
use grocksdb.Fixtures.{an_options, handle_reply, small, small-IsValid, letter_a, letters_bc}
use grocksdb.Types.{Options, TransactionDbOptions}
use grocksdb.Db.Families.{Families}
use grocksdb.TransactionDb.Opening.{TransactionOpenApi, OpensTransactions, transaction_dbs-Open}

abbrev families_reply : ℕ → Reply Families
families_reply s = if s == 0 then replied (9, 10 ∷ 11 ∷ []) else failed letter_a

abbrev open_api : TransactionOpenApi ℕ
open_api = record {
  rocksdb_transactiondb_open = λ a b c s. (handle_reply s, s + 1);
  rocksdb_transactiondb_open_column_families = λ a b c d e s. (families_reply s, s + 2);
  rocksdb_optimistictransactiondb_open = λ a b s. (handle_reply s, s + 3);
  rocksdb_optimistictransactiondb_open_column_families = λ a b c d s. (families_reply s, s + 4);
}

abbrev transaction_db_options : TransactionDbOptions
transaction_db_options = record { c = 8 }

abbrev two_names : List Bytes
two_names = letter_a ∷ letters_bc ∷ []

abbrev two_options : List Options
two_options = an_options ∷ an_options ∷ []

transaction_dbs-Open_example :
    OpensTransactions open_api an_options transaction_db_options letters_bc two_names two_options
      small
transaction_dbs-Open_example =
    transaction_dbs-Open open_api an_options transaction_db_options letters_bc two_names two_options
      small small-IsValid
