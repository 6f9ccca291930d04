-- ===== src/Ring.antt =====
-- code/consistent_hashing/ring.go: the consistent-hashing ring.
mod Positions
mod Owners
mod Sorted
mod Joining
mod Leaving
mod Replicas
mod Examples
pub use Positions.*
pub use Sorted.*
pub use Joining.*
pub use Leaving.*
pub use Replicas.*
