-- ===== src/Types.antt =====
-- src/types: identifiers and URLs.
pub mod Identifiers
pub mod Url
