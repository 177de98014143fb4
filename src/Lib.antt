-- ===== src/Lib.antt =====
-- The core logic of the ALICE tools: background jobs that synchronise knowledge bases, the index
-- manifests that tell when a collection must be rebuilt, the access checks, the reports of leaked rows
-- and objects, the scheduled reindexing, the ingestion of files by the worker, and the PII filter.
--
-- Files and the code that they are about:
--   Prelude          shared names, Boolean tests, lists, tables with a primary key.
--   Store            api/app/models/tables.py and enums.py, api/app/core/metrics.py: the rows, the
--                    observations and the published messages, as one record of lists.
--   Jobs             api/app/repositories/job.py: Lifecycle (create_job, start_job, complete_job,
--                    fail_job), Progress (update_progress and the percentages), Stalled
--                    (mark_stalled_jobs, mark_all_running_as_stalled), Cleanup (cleanup_old_jobs) and
--                    Queries; Calls has the calls of the repository as data, so that sequences of
--                    them are lists.
--   Index            api/app/services/index_manifest.py (Manifest, Drift) and, in Completion,
--                    update_knowledge_base of api/app/repositories/knowledge_base.py and the handlers
--                    of finished synchronisations of api/app/services/knowledgebase_service.py.
--   Workers          api/app/api_v2/routes/workers.py: Handlers (the ingestion handlers) and Deferral
--                    (_maybe_fire_deferred_ingestion); Indexing is cancel_job and two helpers, Reindex is
--                    trigger_reindex of api/app/services/indexing_service.py; Preparation is
--                    prepare_haystack_sync of knowledgebase_service.py and
--                    prepare_metadata_sync_job of datasource_service.py; Sources and
--                    SourceHandlers are the triggers and the handlers of metadata and content
--                    synchronisations.
--   Access           Url is api/app/services/url_validation.py, Chat is
--                    api/app/services/access_service.py.
--   Orphans          api/app/services/orphan_detection.py and selection_service.py.
--   Pii              services/pii-filter/src/pii_filter: Spans is postprocess.py and detector.py,
--                    Redaction is redaction.py; Stream (StreamUnredactor) and Conversation
--                    (redact_messages) are api/app/services/pii_filter_service.py.
--   Scheduler        api/app/services/scheduler_service.py: the registry of reindex triggers.
--   Sync             sync/worker/src/worker.py: Inventory (_partition_by_inventory and the index's
--                    inventory) and Ingestion (_sync_with_hayhooks and what it calls); Polling is
--                    _await_ingestion of sync/worker/src/api/haystack.py.
--   Examples         the theorems applied to concrete inputs.
--
-- How the parts interact: the handlers of Workers call the functions of Jobs and Index on one Store;
-- Jobs writes the status of knowledge bases and data sources when it gives up a job; a parked ingestion
-- is a job whose parameters hold a payload and a waiting list, which Deferral shortens. The published
-- payload makes the worker of Sync ingest the files; its report comes back to Workers.Handlers.
--
-- A function that changes the database takes the Store and returns it, with its result in front. UUIDs
-- are numbers, instants are microseconds, texts that are looked into are lists of code points, JSON is
-- a data type. An exception that leaves a function is `none` or a constructor of the function's result.
-- What is outside of the repository (the broker, DNS, the ipaddress and bcrypt libraries, the digest,
-- the PII model, what Python says of characters) is a parameter, and so are the answers that a part gets
-- from another process: the storage and the ingestion service for Sync, the PII filter for Pii.
--
-- Loops are recursions on their lists. Fuel stands in two places: `decimal` has a number's value plus
-- one, which is more than its digits, and the polling loop has two rounds more than its timeout has
-- milliseconds, which is enough as each round sleeps. The floats of the percentages are a parameter with
-- the laws of IEEE doubles; scores of the PII filter, which are only compared, are numbers.
--
-- Not modelled: HTTP routes, object storage, OAuth, Moodle and Nextcloud clients, the parsers,
-- downloads and message handlers of the sync worker, the RAG pipeline, migrations and the frontend;
-- the interleaving of two handlers within one function; failures of the database.
pub mod Prelude
pub mod Store
pub mod Access
pub mod Examples
pub mod Index
pub mod Jobs
pub mod Orphans
pub mod Pii
pub mod Scheduler
pub mod Sync
pub mod Workers
