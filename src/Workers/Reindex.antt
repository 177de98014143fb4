-- ===== src/Workers/Reindex.antt =====
-- `trigger_reindex` of api/app/services/indexing_service.py.
pub mod Counting
pub mod Active
pub mod Outcome
use alice_skilltech_tools.Prelude.{
  ℕ, String, Bool, true, false, not, ◌&&◌, ◌||◌, Option, none, some, List, [], ◌∷◌, ◌++◌,
  if◌then◌else◌, ◌==◌,
}
use alice_skilltech_tools.Prelude.Table.{get}
use alice_skilltech_tools.Store.{
  Store, Message, metadata_sync_jobs, ingestion_jobs, publish, save_job, save_kb, save_datasource,
  Job, JobStatus, ingestion, job_key, knowledge_base_key, datasource_key, KnowledgeBase,
  KnowledgeBaseStatus, is_processing, DataSource, DataSourceSyncStatus, Link, SourceType, moodle,
  nextcloud, file,
}
use alice_skilltech_tools.Store.Json.{
  Json, boolean, number, string, ident, array, object, Items, nil, cons, Fields, field, end,
  fields_get, fields_set, JsonText, malformed, text, truthy,
}
use alice_skilltech_tools.Index.Manifest.{
  Settings, Wire, wire_embedding_config, wire_config_for_manifest,
}
use alice_skilltech_tools.Index.Drift.{is_stale, rebuild_decision}
use alice_skilltech_tools.Index.Completion.{KbUpdate, update_knowledge_base}
use alice_skilltech_tools.Jobs.Lifecycle.{create_job, fail_job}
use alice_skilltech_tools.Jobs.Queries.{get_active_for_knowledge_base}
use alice_skilltech_tools.Workers.Indexing.{kb_repo_reset_to_error, get_moodle_datasource_ids}
use alice_skilltech_tools.Workers.Preparation.{
  User, Environment, prepare_haystack_sync, publish_metadata_syncs,
}

-- How the call ends. `unbroadcast` is the exception before anything is committed.
pub data Triggered : Type 0 where
  unbroadcast : Triggered
  failed_to_trigger : Store → Triggered
  triggered : Store → Triggered

module _ (env : Environment) where
  unfoldable pub superseded : Job → Job
  superseded job = record job {
    status = JobStatus.cancelled;
    error_message = some "Cancelled: new ingestion triggered";
  }

  -- The active job of the knowledge base is cancelled; none where the broker refuses the broadcast.
  unfoldable pub cancel_existing : ℕ → Store → Option Store
  cancel_existing kb s = elim (get_active_for_knowledge_base kb s) [
    | none ↦ some s
    | some job ↦ elim (env.refusal (Message.cancel_job job.id)) [
      | none ↦ some (publish (Message.cancel_job job.id) (save_job (superseded job) s))
      | some _ ↦ none
    ]
  ]

  unfoldable pub reset_processing : ℕ → Store → Store
  reset_processing id s = elim (get id s.knowledge_bases) [
    | none ↦ s
    | some kb ↦
        if is_processing kb.status
        then save_kb (record kb { status = KnowledgeBaseStatus.ready }) s
        else s
  ]

  -- Whether the job is a full rebuild.
  unfoldable pub escalated : ℕ → Bool → Store → Bool
  escalated id force s =
      let stored : Option JsonText = elim (get id s.knowledge_bases) [
        | none ↦ none
        | some kb ↦ kb.index_manifest
      ] in
      force || is_stale (rebuild_decision env.digest env.parse_int env.str_of env.settings stored)

  unfoldable pub idents : List ℕ → Items
  idents [] = nil
  idents (id ∷ ids) = cons (ident id) (idents ids)

  unfoldable pub reindex_params : Bool → ℕ → Fields → Fields
  reindex_params force kb more =
      field "force" (boolean force) (field "knowledge_base_id" (ident kb) more)

  unfoldable pub deferral : Fields → List ℕ → Fields
  deferral sync_job waiting =
      field "deferred_ingestion"
        (object (
          field "sync_job" (object sync_job)
            (field "waiting_for_datasources" (array (idents waiting)) end)))
        end

  -- The handler of the exceptions, which raises the exception again.
  unfoldable pub give_up : ℕ → ℕ → ℕ → String → Store → Triggered
  give_up now job_id kb error s =
      failed_to_trigger (kb_repo_reset_to_error kb (fail_job now job_id error none none s).1)

  -- From the payload on: the ingestion is parked, or published at once.
  unfoldable pub park_or_publish : ℕ → Job → ℕ → Bool → Fields → List ℕ × Store → Triggered
  park_or_publish now job kb force sync_job ([], s) =
      elim (env.refusal (ingestion_jobs (object sync_job))) [
        | none ↦ triggered (publish (ingestion_jobs (object sync_job)) s)
        | some error ↦ give_up now job.id kb error s
      ]
  park_or_publish now job kb force sync_job (id ∷ ids, s) = triggered (
      save_job
        (record job {
          input_params =
              some (text (object (reindex_params force kb (deferral sync_job (id ∷ ids)))));
        })
        s)

  -- From the new job on.
  unfoldable pub start_reindex : ℕ → Job → ℕ → User → Bool → Bool → Store → Triggered
  start_reindex now job kb user force force_ocr s =
      let prepared = prepare_haystack_sync env kb user force force_ocr s in
      elim prepared.0 [
        | none ↦ give_up now job.id kb env.unprepared prepared.1
        | some payload ↦
            park_or_publish now job kb force (fields_set "job_id" (ident job.id) payload)
              (publish_metadata_syncs env (get_moodle_datasource_ids kb prepared.1) user prepared.1)
      ]

  unfoldable pub create_and_start : (now id kb : ℕ) → User → Bool → Bool → Store → Triggered
  create_and_start now id kb user force force_ocr s =
      let created =
        create_job now id ingestion user.id none (some kb)
          (some (object (reindex_params force kb end))) s in
      start_reindex now created.0 kb user force force_ocr created.1

  -- `id` is the id of the new job.
  unfoldable pub trigger_reindex : (now id kb : ℕ) → User → Bool → Bool → Store → Triggered
  trigger_reindex now id kb user force force_ocr s = elim (cancel_existing kb s) [
    | none ↦ unbroadcast
    | some s₁ ↦
        let s₂ = reset_processing kb s₁ in
        create_and_start now id kb user (escalated kb force s₂) force_ocr s₂
  ]
