-- ===== src/Transport.antt =====
-- src/transport: the key-value store and the HTTP types.
pub mod Http
pub mod Store
pub mod Hyper
pub mod Kv
