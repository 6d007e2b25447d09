-- ===== src/WriteBatch.antt =====
-- write_batch.go: batches of writes.
pub mod Queue
pub mod RecordType
pub mod Records
