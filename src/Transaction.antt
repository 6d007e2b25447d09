-- ===== src/Transaction.antt =====
-- transaction.go: transactions.
mod Tests
pub mod Writes
pub mod Reads
pub mod Multi
