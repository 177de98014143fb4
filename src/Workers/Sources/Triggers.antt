-- ===== src/Workers/Sources/Triggers.antt =====
-- The new job and the data source after a trigger, on every branch.
pub mod Content
use mathlib.Core.Option
use alice_skilltech_tools.Prelude.{
  ℕ, String, Bool, true, false, not, ◌||◌, ◌≡◌, refl, sym, ◌∙◌, ap, Option, none, some, List, [],
  ◌∷◌, ◌++◌, if◌then◌else◌, ◌==◌, ==_refl, arith, Bool-cases, Option-cases, inl, inr,
}
use alice_skilltech_tools.Prelude.Table.{get, has, modify, get-modify, get-append_fresh, key-get}
use alice_skilltech_tools.Store.{
  Store, Message, metadata_sync_jobs, content_sync_jobs, publish, save_job, status_eq,
  save_datasource, observe, Job, JobStatus, metadata_sync, content_sync, job_key, datasource_key,
  DataSource, DataSourceSyncStatus, is_syncing,
}
use alice_skilltech_tools.Store.Json.{
  Json, object, Fields, fields_set, ident, field, boolean, number, end,
}
use alice_skilltech_tools.Jobs.Lifecycle.{create_job, new_job, log_event, fail_job, fail_row}
use alice_skilltech_tools.Workers.Preparation.{User, Environment, prepare_metadata_sync_job}
use alice_skilltech_tools.Workers.Sources.{
  is_file_source, files_to_sync, content_job, prepare_content_sync_job, fail_trigger, publish_job,
  publish_prepared, trigger_metadata_sync, trigger_content_sync,
}

-- The status of the new job, as the result of the trigger tells it.
abbrev pub job_status : Bool → JobStatus
job_status ok = if ok then JobStatus.pending else JobStatus.failed

abbrev pub status_of : ℕ → Store → Option JobStatus
status_of id s = Option.map (λ (job : Job). job.status) (get id s.jobs)

abbrev pub sync_status_of : ℕ → Store → Option DataSourceSyncStatus
sync_status_of id s = Option.map (λ (ds : DataSource). ds.sync_status) (get id s.datasources)

fail_job-status :
    (now : ℕ) (error : String) (job : Job) (s : Store)
    → get job.id s.jobs ≡ some job
    → job.status ≡ JobStatus.pending
    → status_of job.id (fail_job now job.id error none none s).1 ≡ some JobStatus.failed
unfolding fail_job fail_row observe log_event save_job
fail_job-status now error job s h p =
    let row : Job = record job {
      status = JobStatus.failed;
      completed_at = some now;
      error_message = some error;
      error_details = none;
    } in
    ground (arith, h, p, ==_refl job.id, get-modify job.id job.id (λ _. row) s.jobs (λ _ _. refl))

fail_job-datasources :
    (now id : ℕ) (error : String) (s : Store)
    → (fail_job now id error none none s).1.datasources ≡ s.datasources
unfolding fail_job fail_row observe log_event save_job
fail_job-datasources now id error s = elim (Option-cases (get id s.jobs)) [
  | inl e ↦ ground (arith, e)
  | inr (job, e) ↦ ground (arith, e, Bool-cases (status_eq job.status JobStatus.cancelled))
]

pub publish_prepared-status :
    (env : Environment) (queue : Json → Message) (now : ℕ) (job : Job)
    (prepared : Option Fields × Store)
    → get job.id prepared.1.jobs ≡ some job
    → job.status ≡ JobStatus.pending
    → status_of job.id (publish_prepared env queue now job prepared).1
      ≡ some (job_status (publish_prepared env queue now job prepared).0)
unfolding publish_prepared publish_job publish fail_trigger
publish_prepared-status env queue now job (none, s) h p =
    fail_job-status now env.unprepared job s h p
publish_prepared-status env queue now job (some payload, s) h p =
    let m = queue (object (fields_set "job_id" (ident job.id) payload)) in
    elim (Option-cases (env.refusal m)) [
      | inl e ↦ ground (arith, e, h, p)
      | inr (error, e) ↦ ground (arith, e, fail_job-status now error job s h p)
    ]

pub publish_prepared-datasources :
    (env : Environment) (queue : Json → Message) (now : ℕ) (job : Job)
    (prepared : Option Fields × Store)
    → (publish_prepared env queue now job prepared).1.datasources ≡ prepared.1.datasources
unfolding publish_prepared publish_job publish fail_trigger
publish_prepared-datasources env queue now job (none, s) =
    fail_job-datasources now job.id env.unprepared s
publish_prepared-datasources env queue now job (some payload, s) =
    let m = queue (object (fields_set "job_id" (ident job.id) payload)) in
    elim (Option-cases (env.refusal m)) [
      | inl e ↦ ground (arith, e)
      | inr (error, e) ↦ ground (arith, e, fail_job-datasources now job.id error s)
    ]

-- Writing the status "processing" to a data source that is there.
pub get-save_processing :
    (id : ℕ) (ds : DataSource) (s : Store)
    → get id s.datasources ≡ some ds
    → sync_status_of id
        (save_datasource (record ds { sync_status = DataSourceSyncStatus.processing }) s)
      ≡ some DataSourceSyncStatus.processing
unfolding save_datasource
get-save_processing id ds s h =
    let row : DataSource = record ds { sync_status = DataSourceSyncStatus.processing } in
    ground (
      arith,
      h,
      key-get id s.datasources ds h,
      get-modify ds.id id (λ _. row) s.datasources (λ _ _. refl),
    )

prepare_metadata_sync_job-jobs :
    (env : Environment) (id : ℕ) (user : User) (force : Bool) (s : Store)
    → (prepare_metadata_sync_job env id user force s).1.jobs ≡ s.jobs
unfolding prepare_metadata_sync_job save_datasource
prepare_metadata_sync_job-jobs env id user force s = elim (Option-cases (get id s.datasources)) [
  | inl e ↦ ground (arith, e)
  | inr (ds, e) ↦ ground (arith, e, Bool-cases ((env.owner_of ds.id).id == user.id))
]

prepare_metadata_sync_job-status :
    (env : Environment) (id : ℕ) (user : User) (force : Bool) (s : Store)
    → sync_status_of id (prepare_metadata_sync_job env id user force s).1
      ≡ elim (get id s.datasources) [
        | none ↦ none
        | some ds ↦ some (
            if (env.owner_of ds.id).id == user.id
            then DataSourceSyncStatus.processing
            else ds.sync_status)
      ]
unfolding prepare_metadata_sync_job
prepare_metadata_sync_job-status env id user force s = elim (Option-cases (get id s.datasources)) [
  | inl e ↦ ground (arith, e)
  | inr (ds, e) ↦
      ground
        (arith, e, Bool-cases ((env.owner_of ds.id).id == user.id), get-save_processing id ds s e)
]

-- For an id of the new job that no job has: after trigger_metadata_sync the new job is pending
-- if the call returns and failed if it raises; a data source that the user owns is processing
-- either way, also when the broker refused the message, and a data source of someone else keeps
-- its status.
pub trigger_metadata_sync_lem :
    (env : Environment) (now id datasource : ℕ) (user : User) (force : Bool) (s : Store)
    → has id s.jobs ≡ false
    → (status_of id (trigger_metadata_sync env now id datasource user force s).1
        ≡ some (job_status (trigger_metadata_sync env now id datasource user force s).0))
      × (sync_status_of datasource (trigger_metadata_sync env now id datasource user force s).1
          ≡ elim (get datasource s.datasources) [
            | none ↦ none
            | some ds ↦ some (
                if (env.owner_of ds.id).id == user.id
                then DataSourceSyncStatus.processing
                else ds.sync_status)
          ])
unfolding trigger_metadata_sync create_job new_job observe log_event
trigger_metadata_sync_lem env now id datasource user force s fresh =
    let created =
      create_job now id metadata_sync user.id (some datasource) none
        (some
          (object (field "force" (boolean force) (field "datasource_id" (ident datasource) end))))
        s in
    let prepared = prepare_metadata_sync_job env datasource user force created.1 in
    (
      publish_prepared-status env metadata_sync_jobs now created.0 prepared
          (ap (get id) (prepare_metadata_sync_job-jobs env datasource user force created.1)
            ∙ get-append_fresh id s.jobs created.0 fresh refl)
          refl,
      ap
            (λ (rows : List DataSource).
              Option.map (λ (ds : DataSource). ds.sync_status) (get datasource rows))
            (publish_prepared-datasources env metadata_sync_jobs now created.0 prepared)
          ∙ prepare_metadata_sync_job-status env datasource user force created.1,
    )
