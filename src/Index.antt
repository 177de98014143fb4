-- ===== src/Index.antt =====
-- The index manifests of the knowledge bases, and what a finished synchronisation does to them.
pub mod Manifest
pub mod Drift
pub mod RoundTrip
pub mod Completion
