-- ===== src/Limiter.antt =====
-- code/rate_limiter/limiter.go: the fixed-window limiter.
mod Window
mod Bursts
mod Examples
pub use Window.*
pub use Bursts.*
