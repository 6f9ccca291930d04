-- ===== src/Bulkhead.antt =====
-- code/bulkhead_semaphore/bulkhead.go: bounded concurrency.
mod Slots
mod Counts
mod Safety
mod Capacity
mod Examples
pub use Slots.*
pub use Counts.*
pub use Safety.*
pub use Capacity.*
