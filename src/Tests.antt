-- ===== src/Tests.antt =====
-- Runs at concrete inputs: a small environment, and the theorems applied to it.
pub mod Env
pub mod Store
pub mod Tasks
pub mod Identity
pub mod Links
pub mod Adapter
pub mod Provider
pub mod Freshness
pub mod Callbacks
pub mod Requests
pub mod Verification
pub mod Completion
pub mod Login
pub mod Logins
pub mod Service
