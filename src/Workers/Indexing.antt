-- ===== src/Workers/Indexing.antt =====
-- `cancel_job`, `kb_repo_reset_to_error` and `_get_moodle_datasource_ids` of IndexingService
-- (api/app/services/indexing_service.py).
--
-- `refusal` tells whether the broker refuses a message; `none` as the result of `cancel_job` is then
-- the broker's exception.
use alice_skilltech_tools.Prelude.{
  ℕ, String, Bool, true, false, ◌||◌, Option, none, some, List, [], ◌∷◌, if◌then◌else◌, ◌==◌,
}
use alice_skilltech_tools.Prelude.Table.{get}
use alice_skilltech_tools.Store.{
  Store, Message, publish, observe, save_job, save_kb, Job, JobStatus, pending, running, status_eq,
  job_key, knowledge_base_key, datasource_key, KnowledgeBaseStatus, is_processing, SyncErrorCode,
  Link, is_moodle, DataSource,
}
use alice_skilltech_tools.Store.Metrics.{jobs_completed, job_total_duration_seconds}
use alice_skilltech_tools.Jobs.Lifecycle.{job_age}

unfoldable pub cancelled_row : Job → Job
cancelled_row job = record job {
  status = JobStatus.cancelled;
  error_message = some "Job cancelled by user";
}

unfoldable pub record_cancellation : ℕ → Job → Store → Store
record_cancellation now job s =
    observe (job_total_duration_seconds job.job_type JobStatus.cancelled (job_age job now))
      (observe (jobs_completed job.job_type JobStatus.cancelled) (save_job (cancelled_row job) s))

unfoldable pub broadcast : (Message → Option String) → ℕ → Store → Option Bool × Store
broadcast refusal id s = elim (refusal (Message.cancel_job id)) [
  | none ↦ (some true, publish (Message.cancel_job id) s)
  | some _ ↦ (none, s)
]

unfoldable pub cancel_indexing_job :
    (Message → Option String) → (now id : ℕ) → Store → Option Bool × Store
cancel_indexing_job refusal now id s = elim (get id s.jobs) [
  | none ↦ (some false, s)
  | some job ↦
      if status_eq job.status pending || status_eq job.status running
      then broadcast refusal id (record_cancellation now job s)
      else (some false, s)
]

unfoldable pub kb_repo_reset_to_error : ℕ → Store → Store
kb_repo_reset_to_error id s = elim (get id s.knowledge_bases) [
  | none ↦ s
  | some kb ↦
      if is_processing kb.status
      then save_kb
          (record kb {
            status = KnowledgeBaseStatus.error;
            last_sync_error = some SyncErrorCode.failed;
          })
          s
      else s
]

-- The id of a link's data source, if it is a Moodle one.
unfoldable pub moodle_id : List DataSource → Link → Option ℕ
moodle_id datasources link = elim (get link.datasource_id datasources) [
  | none ↦ none
  | some ds ↦ if is_moodle ds.source_type then some ds.id else none
]

unfoldable pub moodle_ids : ℕ → List DataSource → List Link → List ℕ
moodle_ids kb datasources [] = []
moodle_ids kb datasources (link ∷ links) =
    let rest = moodle_ids kb datasources links in
    if link.knowledge_base_id == kb
    then elim (moodle_id datasources link) [ none ↦ rest | some id ↦ id ∷ rest ]
    else rest

unfoldable pub get_moodle_datasource_ids : ℕ → Store → List ℕ
get_moodle_datasource_ids kb s = moodle_ids kb s.datasources s.links
