-- ===== src/Jobs/Stalled/Sweeping.antt =====
-- Which jobs a sweep gives up, and with which reason.
use mathlib.Core.Option
use mathlib.Core.Path.{subst}
use alice_skilltech_tools.Prelude.{
  ℕ, String, Bool, true, false, ◌||◌, ◌≡◌, refl, sym, ◌∙◌, Option, none, some, List, [], ◌∷◌, arith,
  if◌then◌else◌, ◌==◌, Bool-cases, inl, inr, elem, filter,
}
use alice_skilltech_tools.Prelude.Table.{
  get, get_of_not_has, filter-HasUniqueKeys, get-filter, HasUniqueKeys,
}
use alice_skilltech_tools.Store.{Job, job_key, Store}
use alice_skilltech_tools.Jobs.Lifecycle.Audit.{IsAudited}
use alice_skilltech_tools.Jobs.Stalled.{
  Printer, stall, Sweep, sweep_job, sweep_jobs, minutes, is_stuck_absolute, is_stuck_stale,
  is_stuck_pending, absolute_reason, stale_reason, pending_reason, mark_stalled_jobs, is_active,
  restart_reason, mark_all, mark_stalled, mark_all_running_as_stalled,
}
use alice_skilltech_tools.Jobs.Stalled.Marking.{get-mark_stalled, mark_stalled-IsAudited}

-- What becomes of a row that a phase finds under its id.
abbrev given_up : (Job → String) → Option Job → Option Job → Option Job
given_up reason none row = row
given_up reason (some job) row = Option.map (λ _. stall (reason job) job) row

abbrev is_found : Option Job → Bool
is_found none = false
is_found (some job) = true

module _ (now : ℕ) (reason : Job → String) (id : ℕ) where
  get-sweep_job :
      (job : Job) (w : Sweep)
      → get id (sweep_job now reason job w).store.jobs ≡ (
          if elem id w.seen
          then get id w.store.jobs
          else if job.id == id
          then Option.map (λ _. stall (reason job) job) (get id w.store.jobs)
          else get id w.store.jobs)
  unfolding sweep_job
  get-sweep_job job w = ground (arith, get-mark_stalled now job (reason job) w.store id)

  seen-sweep_job :
      (job : Job) (w : Sweep)
      → elem id (sweep_job now reason job w).seen ≡ (elem id w.seen || job.id == id)
  unfolding sweep_job
  seen-sweep_job job w = ground arith

  get-sweep_jobs :
      (jobs : List Job) (w : Sweep)
      → get id (sweep_jobs now reason jobs w).store.jobs ≡ (
          if elem id w.seen
          then get id w.store.jobs
          else given_up reason (get id jobs) (get id w.store.jobs))
  unfolding sweep_jobs get
  get-sweep_jobs [] w = ground arith
  get-sweep_jobs (job ∷ jobs) w = ground (
    arith,
    get-sweep_jobs jobs (sweep_job now reason job w),
    get-sweep_job job w,
    seen-sweep_job job w,
  )

  seen-sweep_jobs :
      (jobs : List Job) (w : Sweep)
      → elem id (sweep_jobs now reason jobs w).seen ≡ (elem id w.seen || is_found (get id jobs))
  unfolding sweep_jobs get
  seen-sweep_jobs [] w = ground arith
  seen-sweep_jobs (job ∷ jobs) w =
      ground (arith, seen-sweep_jobs jobs (sweep_job now reason job w), seen-sweep_job job w)

-- The reason for which a job is given up: the absolute ceiling first, then silence, then a queue
-- that never moved.
module _ (print : Printer) (now running_stale running_absolute pending_timeout : ℕ) where
  abbrev pub verdict : Job → Option String
  verdict job =
      if is_stuck_absolute now (minutes running_absolute) job
      then some (absolute_reason print running_absolute job)
      else if is_stuck_stale now (minutes running_stale) job
      then some (stale_reason print running_stale job)
      else if is_stuck_pending now (minutes pending_timeout) job
      then some (pending_reason print pending_timeout job)
      else none

  abbrev pub swept : Job → Job
  swept job = elim (verdict job) [ none ↦ job | some reason ↦ stall reason job ]

  -- With unique job ids, a sweep leaves every row as it is but for the overdue ones, each of
  -- which it gives up with the reason that comes first: absolute runtime, then silence, then
  -- not being picked up.
  pub get-mark_stalled_jobs :
      (s : Store) (id : ℕ)
      → HasUniqueKeys s.jobs
      → get id (mark_stalled_jobs print now running_stale running_absolute pending_timeout s).1.jobs
        ≡ Option.map swept (get id s.jobs)
  unfolding mark_stalled_jobs
  get-mark_stalled_jobs s id u =
      simp
        (
          get-sweep_jobs,
          seen-sweep_jobs,
          get-filter id (is_stuck_absolute now (minutes running_absolute)) s.jobs u,
          get-filter id (is_stuck_stale now (minutes running_stale)) s.jobs u,
          get-filter id (is_stuck_pending now (minutes pending_timeout)) s.jobs u,
        )
        (ground arith)

  verdict-stall : (reason : String) (job : Job) → verdict (stall reason job) ≡ none
  unfolding is_stuck_absolute is_stuck_stale is_stuck_pending stall
  verdict-stall reason job = refl

  verdict-given_up :
      (job : Job) (o : Option String)
      → verdict job ≡ o
      → verdict (elim o as (λ _. Job) [ none ↦ job | some reason ↦ stall reason job ]) ≡ none
  verdict-given_up job none e = e
  verdict-given_up job (some reason) e = verdict-stall reason job

  verdict-map :
      (found : Option Job) (row : Job) → Option.map swept found ≡ some row → verdict row ≡ none
  verdict-map none row h = cc
  verdict-map (some job) row h =
      let same : swept job ≡ row = cc in
      subst (λ r. verdict r ≡ none) same (verdict-given_up job (verdict job) refl)

  -- With unique job ids, no job is overdue right after a sweep.
  pub verdict-mark_stalled_jobs :
      (s : Store) (id : ℕ) (row : Job)
      → HasUniqueKeys s.jobs
      → get id (mark_stalled_jobs print now running_stale running_absolute pending_timeout s).1.jobs
        ≡ some row
      → verdict row ≡ none
  verdict-mark_stalled_jobs s id row u h =
      verdict-map (get id s.jobs) row (sym (get-mark_stalled_jobs s id u) ∙ h)

sweep_jobs-IsAudited :
    (now : ℕ) (reason : Job → String) (jobs : List Job) (w : Sweep)
    → IsAudited w.store
    → IsAudited (sweep_jobs now reason jobs w).store
unfolding sweep_jobs sweep_job
sweep_jobs-IsAudited now reason [] w a = a
sweep_jobs-IsAudited now reason (job ∷ jobs) w a =
    sweep_jobs-IsAudited now reason jobs (sweep_job now reason job w)
      (elim (Bool-cases (elem job.id w.seen)) [
        | inl e ↦ rw e a
        | inr e ↦ rw e (mark_stalled-IsAudited now job (reason job) w.store a)
      ])

pub mark_stalled_jobs-IsAudited :
    (print : Printer) (now running_stale running_absolute pending_timeout : ℕ) (s : Store)
    → IsAudited s
    → IsAudited (mark_stalled_jobs print now running_stale running_absolute pending_timeout s).1
unfolding mark_stalled_jobs
mark_stalled_jobs-IsAudited print now stale absolute pending s a =
    sweep_jobs-IsAudited now _ _ _
      (sweep_jobs-IsAudited now _ _ _ (sweep_jobs-IsAudited now _ _ _ a))

get-mark_all :
    (now id : ℕ) (jobs : List Job) (s : Store)
    → HasUniqueKeys jobs
    → get id (mark_all now jobs s).jobs
      ≡ given_up (λ _. restart_reason) (get id jobs) (get id s.jobs)
unfolding mark_all get
get-mark_all now id [] s u = refl
get-mark_all now id (job ∷ jobs) s u = ground (
  arith,
  get-mark_all now id jobs (mark_stalled now job restart_reason s) u.1,
  get-mark_stalled now job restart_reason s id,
  get_of_not_has job.id jobs u.0,
)

-- With unique job ids, the sweep at startup gives up every pending or running job and leaves
-- every other row as it is.
pub get-mark_all_running_as_stalled :
    (now : ℕ) (s : Store) (id : ℕ)
    → HasUniqueKeys s.jobs
    → get id (mark_all_running_as_stalled now s).1.jobs
      ≡ Option.map (λ job. if is_active job then stall restart_reason job else job) (get id s.jobs)
unfolding mark_all_running_as_stalled
get-mark_all_running_as_stalled now s id u =
    rw
      (
        get-mark_all now id (filter is_active s.jobs) s (filter-HasUniqueKeys is_active s.jobs u),
        get-filter id is_active s.jobs u,
      )
      (ground arith)
