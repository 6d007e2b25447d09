-- ===== src/MultiGet/Reads.antt =====
-- db.go, transaction.go, transactiondb.go: every read of several keys keeps its promise.
use grocksdb.Types.{Db, Transaction, TransactionDb}
