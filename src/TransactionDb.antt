-- ===== src/TransactionDb.antt =====
-- transactiondb.go: the database with transactions.
mod Tests
pub mod Writes
pub mod Reads
pub mod Multi
pub mod Opening
