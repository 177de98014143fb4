-- ===== src/Jobs/Calls/Keys.antt =====
-- The calls keep the primary key of the jobs, and what each reads of a row afterwards.
use mathlib.Core.Option
use alice_skilltech_tools.Prelude.{
  ℕ, String, ◌≡◌, refl, Option, none, some, List, [], ◌∷◌, if◌then◌else◌, ◌==◌, Bool-cases,
  Option-cases, inl, inr, filter, elem, length,
}
use alice_skilltech_tools.Prelude.Table.{
  get, modify, HasUniqueKeys, modify-HasUniqueKeys, append-HasUniqueKeys, filter-HasUniqueKeys,
  get-modify,
}
use alice_skilltech_tools.Store.{Job, job_key, cancelled, status_eq, Store, save_job}
use alice_skilltech_tools.Jobs.Lifecycle.{
  create_job, start_job, start_row, complete_job, complete_row, fail_job, fail_row,
}
use alice_skilltech_tools.Jobs.Progress.{update_progress_row}
use alice_skilltech_tools.Jobs.Progress.Counters.{update_progress_found, update_progress_missing}
use alice_skilltech_tools.Jobs.Stalled.{
  Printer, stall, Sweep, sweep_job, sweep_jobs, mark_all, mark_stalled_jobs,
  mark_all_running_as_stalled,
}
use alice_skilltech_tools.Jobs.Stalled.Marking.{jobs-mark_stalled}
use alice_skilltech_tools.Jobs.Cleanup.{cleanup_old_jobs, is_reapable}
use alice_skilltech_tools.Jobs.Calls.{
  Call, create, start, complete, fail, progress, sweep, restart, cleanup, run, IsFresh,
}

-- The rows after a row was saved.
save-HasUniqueKeys :
    (job : Job) (jobs : List Job)
    → HasUniqueKeys jobs
    → HasUniqueKeys (modify job.id (λ _. job) jobs)
save-HasUniqueKeys job jobs = modify-HasUniqueKeys job.id (λ _. job) jobs (λ r e. refl)

module _ (now : ℕ) (reason : Job → String) where
  sweep_jobs-HasUniqueKeys :
      (jobs : List Job) (w : Sweep)
      → HasUniqueKeys w.store.jobs
      → HasUniqueKeys (sweep_jobs now reason jobs w).store.jobs
  unfolding sweep_jobs sweep_job
  sweep_jobs-HasUniqueKeys [] w u = u
  sweep_jobs-HasUniqueKeys (job ∷ jobs) w u =
      sweep_jobs-HasUniqueKeys jobs (sweep_job now reason job w)
        (elim (Bool-cases (elem job.id w.seen)) [
          | inl e ↦ rw e u
          | inr e ↦
              rw (e, jobs-mark_stalled now job (reason job) w.store)
                (modify-HasUniqueKeys job.id (λ _. stall (reason job) job) w.store.jobs
                  (λ r k. unfold stall in refl) u)
        ])

mark_all-HasUniqueKeys :
    (now : ℕ) (jobs : List Job) (s : Store)
    → HasUniqueKeys s.jobs
    → HasUniqueKeys (mark_all now jobs s).jobs
unfolding mark_all
mark_all-HasUniqueKeys now [] s u = u
mark_all-HasUniqueKeys now (job ∷ jobs) s u = mark_all-HasUniqueKeys now jobs _ (
    rw (jobs-mark_stalled now job _ s)
      (modify-HasUniqueKeys job.id _ s.jobs (λ r k. unfold stall in refl) u))

on_row-HasUniqueKeys :
    {B : Type 0} (act : Job → Store → Option B × Store) (s : Store)
    → ((job : Job) → HasUniqueKeys (act job s).1.jobs)
    → (found : Option Job) → HasUniqueKeys s.jobs
    → HasUniqueKeys
        (elim found as (λ _. Option B × Store) [ none ↦ (none, s) | some job ↦ act job s ]).1.jobs
on_row-HasUniqueKeys act s keeps none u = u
on_row-HasUniqueKeys act s keeps (some job) u = keeps job

cleanup-HasUniqueKeys :
    (now days : ℕ) (s : Store)
    → HasUniqueKeys s.jobs
    → HasUniqueKeys (cleanup_old_jobs now days s).1.jobs
unfolding cleanup_old_jobs
cleanup-HasUniqueKeys now days s u =
    elim (Bool-cases (length (filter (is_reapable now days) s.jobs) == 0)) [
      | inl e ↦ rw e u
      | inr e ↦ rw e (filter-HasUniqueKeys _ s.jobs u)
    ]

pub run-HasUniqueKeys :
    (print : Printer) (call : Call) (s : Store)
    → IsFresh call s
    → HasUniqueKeys s.jobs
    → HasUniqueKeys (run print call s).jobs
unfolding run create_job start_job start_row complete_job complete_row fail_job fail_row
run-HasUniqueKeys print (create now id type user ds kb params) s f u =
    append-HasUniqueKeys s.jobs _ f u
run-HasUniqueKeys print (start now id) s f u =
    on_row-HasUniqueKeys (start_row now) s (λ job. save-HasUniqueKeys _ s.jobs u) (get id s.jobs) u
run-HasUniqueKeys print (complete now id result) s f u =
    on_row-HasUniqueKeys (complete_row now result) s
      (λ job. elim (Bool-cases (status_eq job.status cancelled)) [
        | inl e ↦ rw e u
        | inr e ↦ rw e (save-HasUniqueKeys _ s.jobs u)
      ])
      (get id s.jobs) u
run-HasUniqueKeys print (fail now id message details kind) s f u =
    on_row-HasUniqueKeys (fail_row now message details kind) s
      (λ job. elim (Bool-cases (status_eq job.status cancelled)) [
        | inl e ↦ rw e u
        | inr e ↦ rw e (save-HasUniqueKeys _ s.jobs u)
      ])
      (get id s.jobs) u
run-HasUniqueKeys print (progress now id message total file) s f u =
    elim (Option-cases (get id s.jobs)) [
      | inl e ↦ rw (update_progress_missing now id message total file s e) u
      | inr (job, e) ↦
          rw (update_progress_found now id job message total file s e)
            (unfold update_progress_row save_job in save-HasUniqueKeys _ s.jobs u)
    ]
run-HasUniqueKeys print (sweep now stale absolute timeout) s f u =
    unfold mark_stalled_jobs in
    sweep_jobs-HasUniqueKeys now _ _ _
      (sweep_jobs-HasUniqueKeys now _ _ _ (sweep_jobs-HasUniqueKeys now _ _ _ u))
run-HasUniqueKeys print (restart now) s f u =
    unfold mark_all_running_as_stalled in mark_all-HasUniqueKeys now _ s u
run-HasUniqueKeys print (cleanup now days) s f u = cleanup-HasUniqueKeys now days s u

-- The job's row when one is saved.
pub get-save :
    (job : Job) (jobs : List Job) (id : ℕ)
    → get id (modify job.id (λ _. job) jobs)
      ≡ (if job.id == id then Option.map (λ _. job) (get id jobs) else get id jobs)
get-save job jobs id = get-modify job.id id (λ _. job) jobs (λ r e. refl)
