-- ===== src/Boundary/OnePassword.antt =====
-- provider/onepassword.rs: the provider that runs the command line program of 1Password.
pub mod Reference
pub mod Settings
pub mod Command
pub mod Runs
mod Tests
