-- ===== src/Store.antt =====
-- The state that the API keeps: database rows (api/app/models/tables.py), the Prometheus
-- observations (api/app/core/metrics.py) and the messages handed to the broker.
--
-- A UUID is a number and an instant is a number of microseconds (UTC, as `_job_age_seconds`
-- assumes of rows without a zone). A table is the list of its rows in the order of insertion.
-- Columns that no modelled code reads are left out: the ids of JobFile and JobEvent rows, and the
-- columns of User, DataSource and Chatbot that only other routes show. Relationships of the ORM
-- are queries on the foreign keys. The commits and flushes of one session are not told apart: a
-- write is seen by every later read, and the database itself does not fail.
pub mod Enums
pub mod Json
pub mod Rows
pub mod Metrics
pub use Enums.*
pub use Rows.*
use alice_skilltech_tools.Prelude.{ℕ, List, [], ◌∷◌, ◌++◌}
use alice_skilltech_tools.Prelude.Table.{modify}
use alice_skilltech_tools.Store.Metrics.{Metric}

-- What is published: job payloads by routing key, and cancellations on the fanout exchange.
pub data Message : Type 0 where
  ingestion_jobs metadata_sync_jobs content_sync_jobs : Json.Json → Message
  cancel_job : ℕ → Message

pub record Store : Type 0 where
  pub jobs : List Job
  pub job_files : List JobFile
  pub job_events : List JobEvent
  pub knowledge_bases : List KnowledgeBase
  pub datasources : List DataSource
  pub links : List Link
  pub metrics : List Metric
  pub published : List Message

-- Attribute writes to a row that was loaded, and their flush.
unfoldable pub save_job : Job → Store → Store
save_job job s = record s { jobs = modify job.id (λ _. job) s.jobs }

unfoldable pub save_kb : KnowledgeBase → Store → Store
save_kb kb s = record s { knowledge_bases = modify kb.id (λ _. kb) s.knowledge_bases }

unfoldable pub save_datasource : DataSource → Store → Store
save_datasource ds s = record s { datasources = modify ds.id (λ _. ds) s.datasources }

-- .inc() and .observe() of a metric.
unfoldable pub observe : Metric → Store → Store
observe m s = record s { metrics = s.metrics ++ m ∷ [] }

unfoldable pub publish : Message → Store → Store
publish m s = record s { published = s.published ++ m ∷ [] }
