-- ===== src/Cgo.antt =====
-- The C memory that the wrapper shares with RocksDB (the cgo helpers C.CString, C.CBytes,
-- C.GoString, C.GoBytes, C.free): blocks at addresses, with faults, and commands over it.
mod Memory
mod Calls
pub mod Returns
pub mod Laws
pub mod Blocks
pub mod Objects
pub mod Cells
unfoldable pub use Memory.*
unfoldable pub use Calls.*
