-- ===== src/Iterator.antt =====
-- iterator.go: iterators over a database.
mod Tests
pub mod Moves
