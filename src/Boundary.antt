-- ===== src/Boundary.antt =====
-- The crate `pbm-secret-boundary`: errors, secrets, providers, the policy engine, the broker, the
-- HTTP adapter and the JSON wire form (crates/pbm-secret-boundary/src).
pub mod Error
pub mod Secret
pub mod Operation
pub mod Policy
pub mod Event
pub mod Broker
pub mod Http
pub mod Provider
pub mod OnePassword
pub mod Wire
mod Tests
