-- ===== src/WriteBatchWi.antt =====
-- write_batch_wi.go: batches of writes with an index.
mod Tests
pub mod Queue
pub mod Reads
