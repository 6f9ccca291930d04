-- ===== src/Idempotency.antt =====
-- code/idempotency_keys/idempotency.go: idempotent request handling.
mod Store
mod System
mod Once
mod Replay
mod Examples
pub use Store.*
pub use System.*
pub use Once.*
pub use Replay.*
