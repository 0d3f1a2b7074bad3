-- ===== src/Shield.antt =====
-- The proxy `mcp-shield`: fingerprints of tool schemas, the store of trusted baselines, the
-- sanitizer, the decisions about messages, the secret-bound tools, and the events and their outbox
-- (mcp-shield/src).
pub mod Fingerprint
pub mod Baseline
pub mod JsonRpc
pub mod Outbox
pub mod Proxy
pub mod Events
pub mod Revocations
pub mod Sanitizer
pub mod SecretTools
mod Tests
