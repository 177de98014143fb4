-- ===== src/Jobs/Lifecycle/Audit.antt =====
-- The audit log (JobEvent) against the status column, for the transitions of the repository.
use alice_skilltech_tools.Prelude.{
  ℕ, String, false, ◌≡◌, refl, Option, none, some, List, [], ◌∷◌, ◌++◌, arith, if◌then◌else◌, ◌==◌,
  Bool-cases, inl, inr,
}
use alice_skilltech_tools.Prelude.Table.{
  get, has, modify, get-modify, get-append_fresh, get-append_ne,
}
use alice_skilltech_tools.Store.{
  JobType, JobStatus, cancelled, status_eq, Job, job_key, JobEvent, Store,
}
use alice_skilltech_tools.Store.Json.{Json}
use alice_skilltech_tools.Jobs.Lifecycle.{
  create_job, start_job, start_row, complete_job, complete_row, fail_job, fail_row,
}

-- The status that the last status event of a job records.
abbrev pub last_status : ℕ → List JobEvent → Option JobStatus
last_status id [] = none
last_status id (event ∷ events) = elim (last_status id events) [
  | some status ↦ some status
  | none ↦ if event.job_id == id then event.new_status else none
]

pub last_status-append :
    (id : ℕ) (events : List JobEvent) (event : JobEvent) (status : JobStatus)
    → event.new_status ≡ some status
    → last_status id (events ++ event ∷ [])
      ≡ (if event.job_id == id then some status else last_status id events)
last_status-append id [] event status h = ground arith
last_status-append id (e ∷ events) event status h =
    ground (arith, last_status-append id events event status)

-- The log tells the status of every job.
pub record IsAudited (s : Store) : Type 0 where
  pub logged :
      (id : ℕ) (job : Job)
      → get id s.jobs ≡ some job
      → last_status id s.job_events ≡ some job.status

-- A row that is saved together with the event of its new status.
pub logged-save :
    (s : Store) (job : Job) (event : JobEvent)
    → event.job_id ≡ job.id
    → event.new_status ≡ some job.status
    → IsAudited s
    → (id : ℕ) (row : Job) → get id (modify job.id (λ _. job) s.jobs) ≡ some row
    → last_status id (s.job_events ++ event ∷ []) ≡ some row.status
logged-save s job event e n a id row h = ground (
  arith,
  last_status-append id s.job_events event job.status,
  get-modify job.id id (λ _. job) s.jobs (λ r p. refl),
  a.logged id row,
)

-- A new row that is added together with the event of its status.
logged-append :
    (s : Store) (job : Job) (event : JobEvent)
    → event.job_id ≡ job.id
    → event.new_status ≡ some job.status
    → has job.id s.jobs ≡ false
    → IsAudited s
    → (id : ℕ) (row : Job) → get id (s.jobs ++ job ∷ []) ≡ some row
    → last_status id (s.job_events ++ event ∷ []) ≡ some row.status
logged-append s job event e n fresh a id row h = ground (
  arith,
  last_status-append id s.job_events event job.status,
  get-append_fresh id s.jobs job,
  get-append_ne id s.jobs job,
  a.logged id row,
)

-- An action on a row that is found, or nothing.
on_row-IsAudited :
    {B : Type 0} (act : Job → Store → Option B × Store)
    → ((job : Job) (s : Store) → IsAudited s → IsAudited (act job s).1)
    → (found : Option Job) (s : Store) → IsAudited s
    → IsAudited
        (elim found as (λ _. Option B × Store) [ none ↦ (none, s) | some job ↦ act job s ]).1
on_row-IsAudited act keeps none s a = a
on_row-IsAudited act keeps (some job) s a = keeps job s a

-- The parameters of `create_job`, whose id is new.
module _ (now id : ℕ) (job_type : JobType) (user_id : ℕ)
    (datasource_id knowledge_base_id : Option ℕ) (input_params : Option Json) (s : Store)
    (fresh : has id s.jobs ≡ false) where
  pub create_job-IsAudited :
      IsAudited s
      → IsAudited
          (create_job now id job_type user_id datasource_id knowledge_base_id input_params s).1
  unfolding create_job
  create_job-IsAudited a = record { logged = logged-append s _ _ refl refl fresh a }

start_row-IsAudited :
    (now : ℕ) (job : Job) (s : Store) → IsAudited s → IsAudited (start_row now job s).1
unfolding start_row
start_row-IsAudited now job s a = record { logged = logged-save s _ _ refl refl a }

complete_row-IsAudited :
    (now : ℕ) (result : Option Json) (job : Job) (s : Store)
    → IsAudited s
    → IsAudited (complete_row now result job s).1
unfolding complete_row
complete_row-IsAudited now result job s a = elim (Bool-cases (status_eq job.status cancelled)) [
  | inl e ↦ rw e a
  | inr e ↦ rw e (record { logged = logged-save s _ _ refl refl a })
]

fail_row-IsAudited :
    (now : ℕ) (message : String) (details kind : Option String) (job : Job) (s : Store)
    → IsAudited s
    → IsAudited (fail_row now message details kind job s).1
unfolding fail_row
fail_row-IsAudited now message details kind job s a =
    elim (Bool-cases (status_eq job.status cancelled)) [
      | inl e ↦ rw e a
      | inr e ↦ rw e (record { logged = logged-save s _ _ refl refl a })
    ]

module _ (now job_id : ℕ) (s : Store) where
  pub start_job-IsAudited : IsAudited s → IsAudited (start_job now job_id s).1
  unfolding start_job
  start_job-IsAudited =
      on_row-IsAudited (start_row now) (start_row-IsAudited now) (get job_id s.jobs) s

  pub complete_job-IsAudited :
      (result : Option Json) → IsAudited s → IsAudited (complete_job now job_id result s).1
  unfolding complete_job
  complete_job-IsAudited result =
      on_row-IsAudited (complete_row now result) (complete_row-IsAudited now result)
        (get job_id s.jobs) s

  pub fail_job-IsAudited :
      (message : String) (details kind : Option String)
      → IsAudited s
      → IsAudited (fail_job now job_id message details kind s).1
  unfolding fail_job
  fail_job-IsAudited message details kind =
      on_row-IsAudited (fail_row now message details kind)
        (fail_row-IsAudited now message details kind) (get job_id s.jobs) s
