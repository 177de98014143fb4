-- ===== src/Jobs/Stalled.antt =====
-- api/app/repositories/job.py: the sweeps that give up on jobs.
--
-- An instant is a number of microseconds, and `row < now - window` is `row + window < now`, which is
-- the same before the epoch too. `Printer` is how Python prints a number and an instant.
pub mod Marking
pub mod Sweeping
use Prim.Native.String.{◌++◌ as ◌⧺◌}
use alice_skilltech_tools.Prelude.{
  ℕ, ◌+◌, ◌*◌, String, Bool, true, false, ◌&&◌, ◌||◌, Option, none, some, List, [], ◌∷◌, ◌++◌, ltb,
  if◌then◌else◌, ◌==◌, filter, elem,
}
use alice_skilltech_tools.Prelude.Table.{get}
use alice_skilltech_tools.Store.{
  Job, job_key, JobStatus, pending, running, stalled, status_eq, KnowledgeBase, knowledge_base_key,
  DataSource, datasource_key, KnowledgeBaseStatus, DataSourceSyncStatus, SyncErrorCode,
  is_processing, is_syncing, Store, save_job, save_kb, save_datasource, observe,
}
use alice_skilltech_tools.Store.Metrics.{jobs_completed, job_total_duration_seconds}
use alice_skilltech_tools.Jobs.Lifecycle.{job_age, log_event}

pub record Printer : Type 0 where
  pub number : ℕ → String
  pub instant : Option ℕ → String

-- The row of a job that is given up.
unfoldable pub stall : String → Job → Job
stall reason job = record job { status = JobStatus.stalled; error_message = some reason }

unfoldable pub reset_kb : KnowledgeBase → KnowledgeBase
reset_kb kb =
    if is_processing kb.status
    then record kb {
      status = KnowledgeBaseStatus.error;
      last_sync_error = some SyncErrorCode.stalled;
    }
    else kb

unfoldable pub reset_datasource : DataSource → DataSource
reset_datasource ds =
    if is_syncing ds.sync_status
    then record ds {
      sync_status = DataSourceSyncStatus.error;
      last_sync_error = some SyncErrorCode.stalled;
    }
    else ds

unfoldable pub reset_linked_kb : Option ℕ → Store → Store
reset_linked_kb none s = s
reset_linked_kb (some id) s = elim (get id s.knowledge_bases) [
  | none ↦ s
  | some kb ↦ save_kb (reset_kb kb) s
]

unfoldable pub reset_linked_datasource : Option ℕ → Store → Store
reset_linked_datasource none s = s
reset_linked_datasource (some id) s = elim (get id s.datasources) [
  | none ↦ s
  | some ds ↦ save_datasource (reset_datasource ds) s
]

-- _mark_stalled
unfoldable pub mark_stalled : ℕ → Job → String → Store → Store
mark_stalled now job reason s =
    let s₁ =
      observe (jobs_completed job.job_type JobStatus.stalled) (save_job (stall reason job) s) in
    let s₂ =
      observe (job_total_duration_seconds job.job_type JobStatus.stalled (job_age job now)) s₁ in
    let s₃ = reset_linked_datasource job.datasource_id (reset_linked_kb job.knowledge_base_id s₂) in
    log_event now job.id "stalled" (some job.status) (some JobStatus.stalled) (some reason) s₃

-- What the three loops of a sweep share.
pub record Sweep : Type 0 where
  pub seen : List ℕ
  pub stalled_jobs : List Job
  pub store : Store

unfoldable pub sweep_job : ℕ → (Job → String) → Job → Sweep → Sweep
sweep_job now reason job w = if elem job.id w.seen then w else record {
  seen = job.id ∷ w.seen;
  stalled_jobs = w.stalled_jobs ++ stall (reason job) job ∷ [];
  store = mark_stalled now job (reason job) w.store;
}

unfoldable pub sweep_jobs : ℕ → (Job → String) → List Job → Sweep → Sweep
sweep_jobs now reason [] w = w
sweep_jobs now reason (job ∷ jobs) w = sweep_jobs now reason jobs (sweep_job now reason job w)

-- timedelta(minutes=m), in microseconds
abbrev pub minutes : ℕ → ℕ
minutes m = 60000000 * m

-- A column that is NULL compares as false.
unfoldable pub is_before : Option ℕ → ℕ → ℕ → Bool
is_before none window now = false
is_before (some t) window now = ltb (t + window) now

-- coalesce(a, b), and `a or b` of instants
unfoldable pub coalesce : Option ℕ → Option ℕ → Option ℕ
coalesce none b = b
coalesce (some a) b = some a

-- The conditions of the three queries.
unfoldable pub is_stuck_absolute : ℕ → ℕ → Job → Bool
is_stuck_absolute now window job =
    status_eq job.status running && is_before job.started_at window now

unfoldable pub is_stuck_stale : ℕ → ℕ → Job → Bool
is_stuck_stale now window job =
    status_eq job.status running
    && is_before (coalesce job.progress_updated_at job.started_at) window now

unfoldable pub is_stuck_pending : ℕ → ℕ → Job → Bool
is_stuck_pending now window job = status_eq job.status pending && ltb (job.created_at + window) now

module _ (print : Printer) where
  open print use {number, instant}

  unfoldable pub absolute_reason : ℕ → Job → String
  absolute_reason limit job = "Job exceeded absolute runtime of " ⧺ number limit ⧺ "min"

  unfoldable pub stale_reason : ℕ → Job → String
  stale_reason limit job =
      "Job stalled: no progress since "
      ⧺ instant (coalesce job.progress_updated_at job.started_at)
      ⧺ " (stale window "
      ⧺ number limit
      ⧺ "min)"

  unfoldable pub pending_reason : ℕ → Job → String
  pending_reason limit job = "Pending job stalled: not picked up within " ⧺ number limit ⧺ "min"

  unfoldable pub mark_stalled_jobs : ℕ → ℕ → ℕ → ℕ → Store → List Job × Store
  mark_stalled_jobs now running_stale running_absolute pending_timeout s =
      let stuck_absolute = filter (is_stuck_absolute now (minutes running_absolute)) s.jobs in
      let stuck_stale = filter (is_stuck_stale now (minutes running_stale)) s.jobs in
      let stuck_pending = filter (is_stuck_pending now (minutes pending_timeout)) s.jobs in
      let start : Sweep = record { seen = []; stalled_jobs = []; store = s } in
      let w₁ = sweep_jobs now (absolute_reason running_absolute) stuck_absolute start in
      let w₂ = sweep_jobs now (stale_reason running_stale) stuck_stale w₁ in
      let w₃ = sweep_jobs now (pending_reason pending_timeout) stuck_pending w₂ in
      (w₃.stalled_jobs, w₃.store)

-- Job.status in (RUNNING, PENDING)
unfoldable pub is_active : Job → Bool
is_active job = status_eq job.status running || status_eq job.status pending

abbrev pub restart_reason : String
restart_reason = "Job orphaned by API restart: retry to re-run."

unfoldable pub mark_all : ℕ → List Job → Store → Store
mark_all now [] s = s
mark_all now (job ∷ jobs) s = mark_all now jobs (mark_stalled now job restart_reason s)

unfoldable pub stall_all : List Job → List Job
stall_all [] = []
stall_all (job ∷ jobs) = stall restart_reason job ∷ stall_all jobs

unfoldable pub mark_all_running_as_stalled : ℕ → Store → List Job × Store
mark_all_running_as_stalled now s =
    let stuck = filter is_active s.jobs in (stall_all stuck, mark_all now stuck s)
