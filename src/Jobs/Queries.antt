-- ===== src/Jobs/Queries.antt =====
-- The queries of JobRepository (api/app/repositories/job.py) that only read.
--
-- `order_by(created_at.desc())` is a stable sort of the rows; the database may put rows of the same
-- instant in another order. A query without an order gives the rows in the order of the table.
-- get_job_stats, get_job_files and get_job_events are left out.
pub mod Latest
use alice_skilltech_tools.Prelude.{
  ℕ, zero, suc, ◌+◌, ◌-◌, ◌*◌, String, Bool, true, false, not, ◌&&◌, ◌||◌, Option, none, some, List,
  [], ◌∷◌, if◌then◌else◌, ◌==◌, ltb, leb, filter, first, count_if, length,
}
use alice_skilltech_tools.Store.{
  Store, Job, JobType, JobStatus, JobFile, JobEvent, pending, running, completed, failed, status_eq,
  job_type_eq,
}
use alice_skilltech_tools.Store.Json.{
  Json, null, array, object, Items, JsonText, malformed, text, truthy,
}
use alice_skilltech_tools.Index.Manifest.{get_or}

-- order_by(col(Job.created_at).desc())
unfoldable pub insert_newest : Job → List Job → List Job
insert_newest job [] = job ∷ []
insert_newest job (other ∷ jobs) =
    if ltb job.created_at other.created_at
    then other ∷ insert_newest job jobs
    else job ∷ other ∷ jobs

unfoldable pub newest_first : List Job → List Job
newest_first [] = []
newest_first (job ∷ jobs) = insert_newest job (newest_first jobs)

-- .offset(skip) and .limit(limit)
unfoldable pub offset : ℕ → List Job → List Job
offset zero jobs = jobs
offset (suc skip) [] = []
offset (suc skip) (job ∷ jobs) = offset skip jobs

unfoldable pub limit_to : ℕ → List Job → List Job
limit_to zero jobs = []
limit_to (suc limit) [] = []
limit_to (suc limit) (job ∷ jobs) = job ∷ limit_to limit jobs

-- `if filter: statement.where(...)`
unfoldable pub has_type : Option JobType → Job → Bool
has_type none job = true
has_type (some t) job = job_type_eq job.job_type t

unfoldable pub has_status : Option JobStatus → Job → Bool
has_status none job = true
has_status (some st) job = status_eq job.status st

-- A filter by an id, where None is no filter.
unfoldable pub is_wanted : Option ℕ → Option ℕ → Bool
is_wanted none column = true
is_wanted (some id) none = false
is_wanted (some id) (some j) = j == id

-- WHERE column = id, for a column that may be null
unfoldable pub refers_to : ℕ → Option ℕ → Bool
refers_to id none = false
refers_to id (some j) = j == id

unfoldable pub get_by_user :
    ℕ → Option JobType → Option JobStatus → (skip limit : ℕ) → Store → List Job
get_by_user user type st skip limit s = limit_to limit (
    offset skip (
      newest_first
        (filter (λ job. (job.user_id == user) && has_type type job && has_status st job) s.jobs)))

unfoldable pub get_all_jobs :
    Option JobType → Option JobStatus → (skip limit : ℕ) → Store → List Job
get_all_jobs type st skip limit s =
    limit_to limit
      (offset skip (newest_first (filter (λ job. has_type type job && has_status st job) s.jobs)))

unfoldable pub is_running_or_pending : Job → Bool
is_running_or_pending job = status_eq job.status pending || status_eq job.status running

unfoldable pub get_active_jobs : Option ℕ → Store → List Job
get_active_jobs user s =
    filter (λ job. is_running_or_pending job && is_wanted user (some job.user_id)) s.jobs

unfoldable pub get_active_for_knowledge_base : ℕ → Store → Option Job
get_active_for_knowledge_base kb s =
    first (filter (λ job. refers_to kb job.knowledge_base_id && is_running_or_pending job) s.jobs)

unfoldable pub get_latest_for_knowledge_base : ℕ → Store → Option Job
get_latest_for_knowledge_base kb s = elim (get_active_for_knowledge_base kb s) [
  | some job ↦ some job
  | none ↦ first (newest_first (filter (λ job. refers_to kb job.knowledge_base_id) s.jobs))
]

-- An hour in microseconds.
abbrev hour : ℕ
hour = 3600000000

unfoldable pub get_recent_jobs : ℕ → ℕ → Option JobType → Store → List Job
get_recent_jobs now hours type s =
    newest_first
      (filter (λ job. leb (now - hours * hour) job.created_at && has_type type job) s.jobs)

unfoldable pub find_by_entity : Option ℕ → Option ℕ → Option JobStatus → Store → List Job
find_by_entity datasource kb st s = newest_first (
    filter
      (λ job.
        is_wanted datasource job.datasource_id
        && is_wanted kb job.knowledge_base_id
        && has_status st job)
      s.jobs)

-- Deferred-ingestion details: the waiting list of a parked job. `waiting` is then turned into a list;
-- only an array is one that the program writes.
unfoldable pub get_deferred_state : Job → Option Json
get_deferred_state job = elim job.input_params [
  | some (text (object params)) ↦ elim (get_or "deferred_ingestion" null params) [
    | object deferred ↦
        let waiting = get_or "waiting_for_datasources" null deferred in
        if truthy waiting then some waiting else none
    | _ ↦ none
  ]
  | _ ↦ none
]
