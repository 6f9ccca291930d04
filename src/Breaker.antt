-- ===== src/Breaker.antt =====
-- code/circuit_breaker/breaker.go: the breaker's state and every method of it.
-- A method that reads the clock takes the reading as an argument, in nanoseconds; the wrapped call
-- is its result. `beforeCall` and `afterCall` each hold the mutex, so they are the atomic steps.
mod Steps
mod Safety
mod Trips
mod Recovery
mod Examples
pub use Steps.*
pub use Safety.*
pub use Trips.*
pub use Recovery.*
