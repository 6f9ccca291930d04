-- ===== src/Lru.antt =====
-- code/lru_cache/lru.go: the least-recently-used cache.
mod Cache
mod Recency
mod Refinement
mod History
mod Examples
pub use Cache.*
pub use Recency.*
pub use Refinement.*
pub use History.*
