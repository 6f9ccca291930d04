-- ===== src/Snowflake.antt =====
-- code/snowflake_id/snowflake.go: the ID generator and the parser of IDs.
mod Generator
mod Layout
mod Monotone
mod Ids
mod Waiting
mod Examples
pub use Generator.*
pub use Layout.*
pub use Monotone.*
pub use Ids.*
pub use Waiting.*
