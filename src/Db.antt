-- ===== src/Db.antt =====
-- db.go: the operations of an open database.
mod Tests
pub mod Puts
pub mod Deletes
pub mod Maintenance
pub mod Reads
pub mod Multi
pub mod History
pub mod Opening
pub mod Settings
pub mod Families
