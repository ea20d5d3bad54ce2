-- ===== src/Client.antt =====
-- src/client.rs: the client.
pub mod Keys
pub mod Provider
pub mod Entry
pub mod Logins
pub mod Service
pub mod Refresh
pub mod Complete
pub mod Info
