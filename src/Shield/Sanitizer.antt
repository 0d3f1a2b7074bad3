-- ===== src/Shield/Sanitizer.antt =====
-- sanitizer.rs: what a tool's description and the arguments of a call are searched for.
pub mod Credentials
pub mod AwsSecrets
pub mod AwsRuns
pub mod AwsContext
pub mod Scan
pub mod VendorLoop
pub mod VendorTokens
pub mod OpenAiKeys
pub mod Tokens
pub mod Detection
pub mod Arguments
pub mod Collected
pub mod Report
pub mod TokenDetectors
mod Tests
