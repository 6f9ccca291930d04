-- ===== src/Sketch.antt =====
-- code/count_min_sketch/cms.go: approximate counting.
mod Counters
mod Bounds
mod Heavy
mod Examples
pub use Counters.*
pub use Bounds.*
pub use Heavy.*
