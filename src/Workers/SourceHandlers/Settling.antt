-- ===== src/Workers/SourceHandlers/Settling.antt =====
-- The status of the data source after a message about its synchronisation.
use mathlib.Core.Option
use alice_skilltech_tools.Prelude.{
  ℕ, String, ◌≡◌, refl, ◌∙◌, ap, Option, none, some, arith, Bool-cases, Option-cases, inl, inr,
}
use alice_skilltech_tools.Prelude.Table.{get, get-modify, key-get}
use alice_skilltech_tools.Store.{
  Store, JobStatus, status_eq, save_job, observe, DataSource, DataSourceSyncStatus, SyncErrorCode,
  save_datasource, datasource_key, job_key,
}
use alice_skilltech_tools.Store.Json.{Json, null, ident, Fields}
use alice_skilltech_tools.Index.Manifest.{get_or}
use alice_skilltech_tools.Jobs.Lifecycle.{complete_job, complete_row, fail_job, fail_row, log_event}
use alice_skilltech_tools.Workers.Handlers.{
  get_job_id, complete_from, fail_from, or_text, FailureTexts,
}
use alice_skilltech_tools.Workers.Sources.Triggers.{sync_status_of}
use alice_skilltech_tools.Workers.SourceHandlers.{
  ready_source, fail_source, source_id, handle_sync_completion, handle_sync_failure,
  content_summary, content_sync_complete, content_sync_failed,
}

complete_job-datasources :
    (now id : ℕ) (summary : Option Json) (s : Store)
    → (complete_job now id summary s).1.datasources ≡ s.datasources
unfolding complete_job complete_row observe log_event save_job
complete_job-datasources now id summary s = elim (Option-cases (get id s.jobs)) [
  | inl e ↦ ground (arith, e)
  | inr (job, e) ↦ ground (arith, e, Bool-cases (status_eq job.status JobStatus.cancelled))
]

fail_job-datasources :
    (now id : ℕ) (error : String) (detail kind : Option String) (s : Store)
    → (fail_job now id error detail kind s).1.datasources ≡ s.datasources
unfolding fail_job fail_row observe log_event save_job
fail_job-datasources now id error detail kind s = elim (Option-cases (get id s.jobs)) [
  | inl e ↦ ground (arith, e)
  | inr (job, e) ↦ ground (arith, e, Bool-cases (status_eq job.status JobStatus.cancelled))
]

ready_source-status :
    (id : ℕ) (ds : DataSource) (s : Store)
    → get id s.datasources ≡ some ds
    → sync_status_of id (ready_source id s) ≡ some DataSourceSyncStatus.ready
unfolding ready_source save_datasource
ready_source-status id ds s h =
    let row : DataSource = record ds {
      sync_status = DataSourceSyncStatus.ready;
      last_sync_error = none;
    } in
    ground (
      arith,
      h,
      key-get id s.datasources ds h,
      get-modify ds.id id (λ _. row) s.datasources (λ _ _. refl),
    )

fail_source-status :
    (id : ℕ) (ds : DataSource) (s : Store)
    → get id s.datasources ≡ some ds
    → sync_status_of id (fail_source id s) ≡ some DataSourceSyncStatus.error
unfolding fail_source save_datasource
fail_source-status id ds s h =
    let row : DataSource = record ds {
      sync_status = DataSourceSyncStatus.error;
      last_sync_error = some SyncErrorCode.failed;
    } in
    ground (
      arith,
      h,
      key-get id s.datasources ds h,
      get-modify ds.id id (λ _. row) s.datasources (λ _ _. refl),
    )

-- For a message that names a data source which exists, and whose job id can be read or is
-- missing: the handler of a finished content synchronisation returns and the data source is
-- ready, the handler of a failed one returns and the data source is in error, whatever the
-- status of the job is.
pub content_sync-status :
    (now id : ℕ) (message : Fields) (texts : FailureTexts) (s : Store) (found : Option ℕ)
    (ds : DataSource)
    → get_or "datasource_id" null message ≡ ident id
    → get_job_id message ≡ some found
    → get id s.datasources ≡ some ds
    → (Option.map (sync_status_of id) (content_sync_complete now message s)
        ≡ some (some DataSourceSyncStatus.ready))
      × (Option.map (sync_status_of id) (content_sync_failed now message texts s)
          ≡ some (some DataSourceSyncStatus.error))
unfolding content_sync_complete content_sync_failed complete_from fail_from handle_sync_completion
    handle_sync_failure source_id
content_sync-status now id message texts s none ds m j h = (
  ground (arith, m, j, ready_source-status id ds s h),
  ground (arith, m, j, fail_source-status id ds s h),
)
content_sync-status now id message texts s (some job) ds m j h =
    let completed = complete_job now job (some (content_summary message)) s in
    let error : String = elim texts.error [ none ↦ "Content sync failed" | some e ↦ e ] in
    let detail = or_text texts.error_detail (or_text texts.traceback texts.error_details) in
    let failed = fail_job now job error detail texts.error_kind s in
    (
      ground (
        arith,
        m,
        j,
        ready_source-status id ds completed.1
            (ap (get id) (complete_job-datasources now job (some (content_summary message)) s) ∙ h),
      ),
      ground (
        arith,
        m,
        j,
        fail_source-status id ds failed.1
            (ap (get id) (fail_job-datasources now job error detail texts.error_kind s) ∙ h),
      ),
    )
