-- ===== src/Sync.antt =====
-- sync/worker/src/worker.py: the ingestion of a knowledge base's files into its index.
pub mod Inventory
pub mod Ingestion
pub mod Polling
