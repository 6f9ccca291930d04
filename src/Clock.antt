-- ===== src/Clock.antt =====
-- code/vector_clock/clock.go: vector clocks, and replicas that keep concurrent versions.
mod Maps
mod Vector
mod Order
mod Replica
mod Kept
mod Siblings
mod Examples
pub use Maps.*
pub use Vector.*
pub use Order.*
pub use Replica.*
pub use Kept.*
pub use Siblings.*
