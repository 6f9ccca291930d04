-- ===== src/Bloom.antt =====
-- code/bloom_filter/bloom.go: approximate membership.
mod Filter
mod Words
mod Growth
mod Positions
mod Members
mod Answers
mod Examples
pub use Filter.*
pub use Words.*
pub use Growth.*
pub use Positions.*
pub use Members.*
pub use Answers.*
