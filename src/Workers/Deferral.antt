-- ===== src/Workers/Deferral.antt =====
-- `_maybe_fire_deferred_ingestion` of api/app/api_v2/routes/workers.py: an ingestion job that is
-- parked behind the metadata synchronisations of some data sources.
--
-- The data source is given by its UUID, and a UUID stands in JSON as `ident`. `raise` stands for the
-- exceptions that leave the function (AttributeError on parameters that are no object, TypeError on a
-- waiting list that cannot be searched). A waiting list that is a text or an object, which the
-- program never writes, counts as one without the data source. `refusal` tells whether the broker
-- refuses a message, and then the text that `fail_job` is called with.
pub mod Waiting
pub mod Firing
use alice_skilltech_tools.Prelude.{
  ℕ, String, Bool, true, false, not, ◌&&◌, Option, none, some, List, [], ◌∷◌, if◌then◌else◌, ◌==◌,
  filter, ◌>>=◌,
}
use alice_skilltech_tools.Store.{
  Store, Message, ingestion_jobs, publish, save_job, Job, ingestion, pending, job_type_eq,
  status_eq,
}
use alice_skilltech_tools.Store.Json.{
  Json, null, ident, array, object, Items, nil, cons, Fields, fields_get, fields_set, fields_pop,
  JsonText, malformed, text, truthy, boolean, number,
}
use alice_skilltech_tools.Index.Manifest.{get_or}
use alice_skilltech_tools.Jobs.Lifecycle.{fail_job}

-- datasource_id in waiting
unfoldable pub is_ident : ℕ → Json → Bool
is_ident id (ident j) = j == id
is_ident id _ = false

unfoldable pub mentions : ℕ → Items → Bool
mentions id nil = false
mentions id (cons v items) = if is_ident id v then true else mentions id items

-- [d for d in waiting if d != datasource_id]
unfoldable pub without : ℕ → Items → Items
without id nil = nil
without id (cons v items) =
    let rest = without id items in if is_ident id v then rest else cons v rest

-- What is done with one job.
pub data Advance : Type 0 where
  skip : Advance
  raise : Advance
  keep_waiting : Fields → Advance
  drop_deferral : Fields → Advance
  fire : Fields → Fields → Advance

-- The last data source has reported.
unfoldable pub release : Fields → Fields → Advance
release params deferred = elim (get_or "sync_job" null deferred) [
  | object sync_job ↦ fire (fields_pop "deferred_ingestion" params) sync_job
  | _ ↦ drop_deferral (fields_pop "deferred_ingestion" params)
]

unfoldable pub wait_on : Fields → Fields → Items → Advance
wait_on params deferred (cons v items) = keep_waiting (
    fields_set "deferred_ingestion"
      (object (fields_set "waiting_for_datasources" (array (cons v items)) deferred)) params)
wait_on params deferred nil = release params deferred

unfoldable pub advance_deferred : ℕ → Fields → Fields → Advance
advance_deferred id params deferred = elim (get_or "waiting_for_datasources" null deferred) [
  | array items ↦ if mentions id items then wait_on params deferred (without id items) else skip
  | boolean true ↦ raise
  | number n ↦ if n == 0 then skip else raise
  | _ ↦ skip
]

unfoldable pub advance : ℕ → Option JsonText → Advance
advance id none = skip
advance id (some malformed) = skip
advance id (some (text (object params))) = elim (get_or "deferred_ingestion" null params) [
  | object deferred ↦ advance_deferred id params deferred
  | _ ↦ skip
]
advance id (some (text v)) = raise

unfoldable pub set_params : Fields → Job → Job
set_params params job = record job { input_params = some (text (object params)) }

unfoldable pub publish_or_fail : (Message → Option String) → ℕ → Job → Message → Store → Store
publish_or_fail refusal now job m s = elim (refusal m) [
  | none ↦ publish m s
  | some error ↦ (fail_job now job.id error none none s).1
]

unfoldable pub advance_job : (Message → Option String) → ℕ → ℕ → Job → Store → Option Store
advance_job refusal now id job s = elim (advance id job.input_params) [
  | skip ↦ some s
  | raise ↦ none
  | keep_waiting params ↦ some (save_job (set_params params job) s)
  | drop_deferral params ↦ some (save_job (set_params params job) s)
  | fire params sync_job ↦ some (
      publish_or_fail refusal now job (ingestion_jobs (object sync_job))
        (save_job (set_params params job) s))
]

unfoldable pub advance_jobs : (Message → Option String) → ℕ → ℕ → List Job → Store → Option Store
advance_jobs refusal now id [] s = some s
advance_jobs refusal now id (job ∷ jobs) s =
    advance_job refusal now id job s >>= λ t. advance_jobs refusal now id jobs t

unfoldable pub is_pending_ingestion : Job → Bool
is_pending_ingestion job = status_eq job.status pending && job_type_eq job.job_type ingestion

unfoldable pub maybe_fire_deferred_ingestion :
    (Message → Option String) → ℕ → Option ℕ → Store → Option Store
maybe_fire_deferred_ingestion refusal now none s = some s
maybe_fire_deferred_ingestion refusal now (some id) s =
    advance_jobs refusal now id (filter is_pending_ingestion s.jobs) s
