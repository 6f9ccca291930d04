-- ===== src/Lsm.antt =====
-- code/lsm_memtable/lsm.go: the write path and the read path of an LSM tree.
mod Memtable
mod Links
mod Sorted
mod Weights
mod Search
mod Map
mod Linking
mod Inserts
mod Table
mod Scans
mod Offsets
mod Index
mod Tree
mod Flushing
mod Operations
mod Refinement
mod Examples
pub use Memtable.*
pub use Inserts.*
pub use Table.*
pub use Tree.*
pub use Operations.*
pub use Refinement.*
