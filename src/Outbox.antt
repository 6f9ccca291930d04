-- ===== src/Outbox.antt =====
-- code/outbox_pattern/outbox.go: the transactional outbox and its relay.
mod Database
mod Relay
mod Atomic
mod Pending
mod Delivery
mod Drain
mod Life
mod Examples
pub use Database.*
pub use Relay.*
pub use Atomic.*
pub use Pending.*
pub use Delivery.*
pub use Drain.*
pub use Life.*
