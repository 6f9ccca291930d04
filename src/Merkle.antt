-- ===== src/Merkle.antt =====
-- code/merkle_tree/merkle.go: the Merkle tree for anti-entropy.
mod Tree
mod Plans
mod Seen
mod Covers
mod Levels
mod Pairs
mod Repair
mod Changes
mod Cost
mod Separator
mod Examples
pub use Tree.*
pub use Plans.*
pub use Seen.*
pub use Covers.*
pub use Levels.*
pub use Pairs.*
pub use Repair.*
pub use Changes.*
pub use Cost.*
pub use Separator.*
