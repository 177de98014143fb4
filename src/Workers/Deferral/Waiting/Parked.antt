-- ===== src/Workers/Deferral/Waiting/Parked.antt =====
-- A parked job: what its payload waits for, and its row when the waiting list is written back.
use alice_skilltech_tools.Prelude.{
  ℕ, String, Bool, true, false, ◌≡◌, refl, Option, some, List, [], ◌∷◌, if◌then◌else◌, any, arith,
  str_eq, eq_iff, filter, ==_refl,
}
use alice_skilltech_tools.Prelude.Table.{has, modify, HasUniqueKeys, modify-HasUniqueKeys}
use alice_skilltech_tools.Store.{Store, save_job, Job, job_key}
use alice_skilltech_tools.Store.Json.{
  Json, null, array, object, Items, nil, cons, Fields, end, field, fields_get, fields_set,
  fields_pop, JsonText, text,
}
use alice_skilltech_tools.Index.Manifest.{get_or}
use alice_skilltech_tools.Workers.Deferral.{
  is_ident, mentions, without, Advance, skip, keep_waiting, drop_deferral, fire, wait_on,
  advance_deferred, advance, set_params, is_pending_ingestion,
}

pub get_or-set :
    (k : String) (d v : Json) (fields : Fields) → get_or k d (fields_set k v fields) ≡ v
unfolding get_or fields_get fields_set
get_or-set k d v end = ground (arith, eq_iff k k)
get_or-set k d v (field j w rest) = ground (arith, eq_iff k k, eq_iff j k, get_or-set k d v rest)

pub get_or-set_ne :
    (k j : String) (d v : Json) (fields : Fields)
    → str_eq j k ≡ false
    → get_or k d (fields_set j v fields) ≡ get_or k d fields
unfolding get_or fields_get fields_set
get_or-set_ne k j d v end apart = ground (arith, apart)
get_or-set_ne k j d v (field i w rest) apart =
    ground (arith, apart, eq_iff i j, eq_iff j k, eq_iff i k, get_or-set_ne k j d v rest apart)

pub get_or-pop : (k : String) (d : Json) (fields : Fields) → get_or k d (fields_pop k fields) ≡ d
unfolding get_or fields_get fields_pop
get_or-pop k d end = refl
get_or-pop k d (field j w rest) = ground (arith, get_or-pop k d rest)

-- With unique ids, one job is the only pending ingestion.
abbrev pub IsOnlyPending : Job → Store → Type 0
IsOnlyPending job s = HasUniqueKeys s.jobs × (filter is_pending_ingestion s.jobs ≡ job ∷ [])

-- Parameters with a payload that waits for data sources.
abbrev pub IsParked : Option JsonText → Fields → Items → Type 0
IsParked column sync_job items =
    (params deferred : Fields) × (column ≡ some (text (object params)))
    × (get_or "deferred_ingestion" null params ≡ object deferred)
    × (get_or "waiting_for_datasources" null deferred ≡ array items)
    × (get_or "sync_job" null deferred ≡ object sync_job)

-- Whether every awaited data source is among those that report.
unfoldable pub are_reported : List ℕ → Items → Bool
are_reported ids nil = true
are_reported ids (cons v items) =
    let rest = are_reported ids items in if any (λ id. is_ident id v) ids then rest else false

pub are_reported-without :
    (id : ℕ) (ids : List ℕ) (items : Items)
    → are_reported (id ∷ ids) items ≡ are_reported ids (without id items)
unfolding are_reported without
are_reported-without id ids nil = refl
are_reported-without id ids (cons v items) = ground (arith, are_reported-without id ids items)

pub without_of_not_mentions :
    (id : ℕ) (items : Items) → mentions id items ≡ false → without id items ≡ items
unfolding mentions without
without_of_not_mentions id nil h = refl
without_of_not_mentions id (cons v items) h = grind (arith, h, without_of_not_mentions id items)

pub advance_parked :
    (id : ℕ) (column : Option JsonText) (params deferred : Fields) (items : Items)
    → column ≡ some (text (object params))
    → get_or "deferred_ingestion" null params ≡ object deferred
    → get_or "waiting_for_datasources" null deferred ≡ array items
    → advance id column
      ≡ (if mentions id items then wait_on params deferred (without id items) else skip)
unfolding advance advance_deferred
advance_parked id column params deferred items c d w = ground (arith, c, d, w)

-- What one report leaves of the job.
abbrev pub settle : Advance → Job → Job
settle (keep_waiting params) job = set_params params job
settle (drop_deferral params) job = set_params params job
settle (fire params sync_job) job = set_params params job
settle _ job = job

has-first :
    (p : Job → Bool) (job : Job) (jobs rest : List Job)
    → filter p jobs ≡ job ∷ rest
    → has job.id jobs ≡ true
unfolding has
has-first p job [] rest h = cc
has-first p job (other ∷ jobs) rest h = ground (arith, has-first p job jobs rest, ==_refl other.id)

modify_of_not_has :
    (job : Job) (id : ℕ) (jobs : List Job) → has id jobs ≡ false → modify id (λ _. job) jobs ≡ jobs
unfolding has modify
modify_of_not_has job id [] h = refl
modify_of_not_has job id (other ∷ jobs) h = ground (arith, modify_of_not_has job id jobs)

filter-save :
    (p : Job → Bool) (job saved : Job) (jobs : List Job)
    → HasUniqueKeys jobs
    → p saved ≡ true
    → filter p jobs ≡ job ∷ []
    → filter p (modify job.id (λ _. saved) jobs) ≡ saved ∷ []
unfolding modify
filter-save p job saved [] u k h = cc
filter-save p job saved (other ∷ jobs) u k h = ground (
  arith,
  filter-save p job saved jobs u.1 k,
  has-first p job jobs [],
  modify_of_not_has saved other.id jobs u.0,
  ==_refl other.id,
)

first-passes :
    (p : Job → Bool) (job : Job) (jobs rest : List Job) → filter p jobs ≡ job ∷ rest → p job ≡ true
first-passes p job [] rest h = cc
first-passes p job (other ∷ jobs) rest h = ground (arith, first-passes p job jobs rest)

pub save_job-IsOnlyPending :
    (job : Job) (params : Fields) (s : Store)
    → IsOnlyPending job s
    → IsOnlyPending (set_params params job) (save_job (set_params params job) s)
unfolding save_job set_params is_pending_ingestion
save_job-IsOnlyPending job params s (u, only) = (
  modify-HasUniqueKeys job.id (λ _. set_params params job) s.jobs (λ row e. refl) u,
  filter-save is_pending_ingestion job (set_params params job) s.jobs u
      (first-passes is_pending_ingestion job s.jobs [] only) only,
)
