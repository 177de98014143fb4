-- ===== src/Workers.antt =====
-- The handlers of the workers' messages, and the ingestion that waits for metadata.
pub mod Deferral
pub mod Handlers
pub mod Indexing
pub mod Preparation
pub mod Reindex
pub mod Sources
pub mod SourceHandlers
