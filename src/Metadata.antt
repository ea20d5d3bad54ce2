-- ===== src/Metadata.antt =====
-- src/metadata: the provider's discovery document, its validation, and its HTTP freshness.
pub mod Cache
pub mod Discovery
pub mod Provider
