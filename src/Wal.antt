-- ===== src/Wal.antt =====
-- code/wal/wal.go: the write-ahead log.
mod Log
mod Frames
mod Crash
mod Writes
mod Appends
mod Recovery
mod Oversized
mod Examples
pub use Log.*
pub use Frames.*
pub use Crash.*
pub use Writes.*
pub use Appends.*
pub use Recovery.*
pub use Oversized.*
