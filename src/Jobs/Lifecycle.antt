-- ===== src/Jobs/Lifecycle.antt =====
-- api/app/repositories/job.py: creating, starting, completing and failing a job.
--
-- `now` is the reading of the clock in the call (one reading, where the source takes one for the row
-- and one for the event), `id` the fresh uuid4. A method returns its result and the new store.
pub mod Audit
use alice_skilltech_tools.Prelude.{
  ℕ, ℤ, sub_ℕ, String, Bool, Option, none, some, List, [], ◌∷◌, ◌++◌, if◌then◌else◌,
}
use alice_skilltech_tools.Prelude.Table.{get, modify}
use alice_skilltech_tools.Store.{
  JobType, JobStatus, pending, running, completed, failed, cancelled, status_eq, Job, job_key,
  Store, save_job, observe,
}
use alice_skilltech_tools.Store.Json.{Json, JsonText, text, truthy}
use alice_skilltech_tools.Store.Metrics.{
  jobs_enqueued, jobs_completed, job_pending_seconds, job_total_duration_seconds, job_failures,
  error_kind_label,
}

-- _job_age_seconds; a clock that went back gives a negative age.
abbrev pub job_age : Job → ℕ → ℤ
job_age job until = sub_ℕ until job.created_at

-- `json.dumps(value) if value else None`
unfoldable pub dumps_or_none : Option Json → Option JsonText
unfolding truthy
dumps_or_none none = none
dumps_or_none (some value) = if truthy value then some (text value) else none

unfoldable pub log_event :
    ℕ → ℕ → String → Option JobStatus → Option JobStatus → Option String → Store → Store
log_event now job_id event_type old_status new_status message s = record s {
  job_events =
      s.job_events
      ++ record {
        job_id = job_id;
        event_type = event_type;
        old_status = old_status;
        new_status = new_status;
        message = message;
        created_at = now;
      }
        ∷ [];
}

-- The row that `create_job` adds: what it is given, and the columns' defaults.
unfoldable pub new_job : ℕ → ℕ → JobType → ℕ → Option ℕ → Option ℕ → Option Json → Job
unfolding dumps_or_none
new_job now id job_type user_id datasource_id knowledge_base_id input_params = record {
  id = id;
  job_type = job_type;
  status = pending;
  user_id = user_id;
  datasource_id = datasource_id;
  knowledge_base_id = knowledge_base_id;
  created_at = now;
  started_at = none;
  completed_at = none;
  progress_updated_at = none;
  progress_current = 0;
  progress_total = 0;
  progress_message = none;
  result_summary = none;
  error_message = none;
  error_details = none;
  input_params = dumps_or_none input_params;
  retry_count = 0;
}

unfoldable pub create_job :
    ℕ → ℕ → JobType → ℕ → Option ℕ → Option ℕ → Option Json → Store → Job × Store
unfolding new_job log_event observe
create_job now id job_type user_id datasource_id knowledge_base_id input_params s =
    let job = new_job now id job_type user_id datasource_id knowledge_base_id input_params in
    let s₁ = record s { jobs = s.jobs ++ job ∷ [] } in
    let s₂ = log_event now job.id "created" none (some pending) none s₁ in
    (job, observe (jobs_enqueued job.job_type) s₂)

-- The body of `start_job` for a row that was found.
unfoldable pub start_row : ℕ → Job → Store → Option Job × Store
unfolding save_job log_event observe
start_row now job s =
    let job' = record job {
      status = running;
      started_at = some now;
      progress_updated_at = some now;
    } in
    let s₁ =
      log_event now job.id "status_change" (some job.status) (some running) none
        (save_job job' s) in
    (some job', observe (job_pending_seconds job'.job_type (job_age job' now)) s₁)

unfoldable pub start_job : ℕ → ℕ → Store → Option Job × Store
unfolding start_row
start_job now job_id s = elim (get job_id s.jobs) [
  | none ↦ (none, s)
  | some job ↦ start_row now job s
]

unfoldable pub complete_row : ℕ → Option Json → Job → Store → Option Job × Store
unfolding save_job log_event observe dumps_or_none
complete_row now result_summary job s =
    if status_eq job.status cancelled
    then (none, s)
    else let job' = record job {
      status = completed;
      completed_at = some now;
      result_summary = dumps_or_none result_summary;
    } in
      let s₁ =
        log_event now job.id "status_change" (some job.status) (some completed) none
          (save_job job' s) in
      let s₂ = observe (jobs_completed job'.job_type completed) s₁ in
      (
        some job',
        observe (job_total_duration_seconds job'.job_type completed (job_age job' now)) s₂,
      )

unfoldable pub complete_job : ℕ → ℕ → Option Json → Store → Option Job × Store
unfolding complete_row
complete_job now job_id result_summary s = elim (get job_id s.jobs) [
  | none ↦ (none, s)
  | some job ↦ complete_row now result_summary job s
]

unfoldable pub fail_row :
    ℕ → String → Option String → Option String → Job → Store → Option Job × Store
unfolding save_job log_event observe
fail_row now error_message error_details error_kind job s =
    if status_eq job.status cancelled
    then (none, s)
    else let job' = record job {
      status = failed;
      completed_at = some now;
      error_message = some error_message;
      error_details = error_details;
    } in
      let s₁ =
        log_event now job.id "status_change" (some job.status) (some failed) (some error_message)
          (save_job job' s) in
      let s₂ = observe (jobs_completed job'.job_type failed) s₁ in
      let s₃ = observe (job_total_duration_seconds job'.job_type failed (job_age job' now)) s₂ in
      (
        some job',
        observe (job_failures job'.job_type (error_kind_label error_kind error_message)) s₃,
      )

unfoldable pub fail_job :
    ℕ → ℕ → String → Option String → Option String → Store → Option Job × Store
unfolding fail_row
fail_job now job_id error_message error_details error_kind s = elim (get job_id s.jobs) [
  | none ↦ (none, s)
  | some job ↦ fail_row now error_message error_details error_kind job s
]
