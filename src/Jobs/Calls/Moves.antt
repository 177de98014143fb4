-- ===== src/Jobs/Calls/Moves.antt =====
-- The state machine of a job's status, which every call of the repository follows.
use mathlib.Core.Option
use alice_skilltech_tools.Prelude.{
  ℕ, String, Bool, true, false, ◌||◌, not, ◌≡◌, refl, Option, none, some, arith, ◌==◌, Bool-cases,
  Option-cases, inl, inr,
}
use alice_skilltech_tools.Prelude.Table.{
  get, has, modify, HasUniqueKeys, get-append_fresh, get-append_ne, get_of_not_has, get_self,
  key-get,
}
use alice_skilltech_tools.Store.{
  Job, job_key, JobStatus, pending, running, completed, failed, cancelled, status_eq, Store,
  save_job, JobType,
}
use alice_skilltech_tools.Store.Json.{Json}
use alice_skilltech_tools.Jobs.Lifecycle.{
  create_job, new_job, start_job, start_row, complete_job, complete_row, fail_job, fail_row,
}
use alice_skilltech_tools.Jobs.Progress.{FileUpdate, update_progress, update_progress_row}
use alice_skilltech_tools.Jobs.Progress.Counters.{
  id-update_progress_row, status-update_progress_row, update_progress_found,
  update_progress_missing,
}
use alice_skilltech_tools.Jobs.Stalled.{
  Printer, stall, is_active, is_stuck_absolute, is_stuck_stale, is_stuck_pending, mark_stalled_jobs,
  mark_all_running_as_stalled,
}
use alice_skilltech_tools.Jobs.Stalled.Sweeping.{
  get-mark_stalled_jobs, get-mark_all_running_as_stalled,
}
use alice_skilltech_tools.Jobs.Cleanup.{is_reapable, cleanup_old_jobs}
use alice_skilltech_tools.Jobs.Cleanup.References.{get-cleanup_old_jobs}
use alice_skilltech_tools.Jobs.Calls.{
  Call, create, start, complete, fail, progress, sweep, restart, cleanup, run, IsFresh,
}
use alice_skilltech_tools.Jobs.Calls.Keys.{get-save}

-- The status of a job, if its row is there.
abbrev pub status_of : ℕ → Store → Option JobStatus
status_of id s = Option.map (λ (job : Job). job.status) (get id s.jobs)

-- What one call may do to the status of one job: leave it; start it, from whatever status,
-- if it is a start (`b`); finish
-- it, but not once it is cancelled; give up a pending or running one; add a pending one; delete a
-- completed or failed one.
unfoldable pub may_become : Bool → Option JobStatus → Option JobStatus → Bool
may_become b none none = true
may_become b none (some after) = status_eq after pending
may_become b (some before) none = status_eq before completed || status_eq before failed
may_become b (some before) (some running) = b || status_eq before running
may_become b (some before) (some completed) = not (status_eq before cancelled)
may_become b (some before) (some failed) = not (status_eq before cancelled)
may_become b (some before) (some JobStatus.stalled) =
    status_eq before pending || status_eq before running || status_eq before JobStatus.stalled
may_become b (some before) (some after) = status_eq before after

may_become_refl : (b : Bool) (o : Option JobStatus) → may_become b o o ≡ true
unfolding may_become
may_become_refl b none = refl
may_become_refl b (some pending) = refl
may_become_refl true (some running) = refl
may_become_refl false (some running) = refl
may_become_refl b (some completed) = refl
may_become_refl b (some failed) = refl
may_become_refl b (some cancelled) = refl
may_become_refl b (some JobStatus.stalled) = refl

-- A row that is saved moves from its own status; the other rows stay.
save-may_become :
    (b : Bool) (old new : Job) (s : Store) (id : ℕ)
    → get old.id s.jobs ≡ some old
    → new.id ≡ old.id
    → ((old.id == id) ≡ true → may_become b (some old.status) (some new.status) ≡ true)
    → may_become b
        (status_of id s)
        (Option.map (λ (job : Job). job.status) (get id (modify new.id (λ _. new) s.jobs)))
      ≡ true
save-may_become b old new s id found same allowed =
    rw (get-save new s.jobs id)
      (ground (arith, may_become_refl b (status_of id s), found, same, allowed))

module _ (b : Bool) (s : Store) (id : ℕ) where
  -- An action on the row that a call finds.
  on_row-may_become :
      {B : Type 0} (act : Job → Store → Option B × Store) (job_id : ℕ)
      → ((job : Job)
          → get job.id s.jobs ≡ some job
          → may_become b (status_of id s) (status_of id (act job s).1) ≡ true)
      → (found : Option Job) → get job_id s.jobs ≡ found
      → may_become b (status_of id s) (
          status_of id
            (elim found as (λ _. Option B × Store) [ none ↦ (none, s) | some job ↦ act job s ]).1)
        ≡ true
  on_row-may_become act job_id moves none e = may_become_refl b (status_of id s)
  on_row-may_become act job_id moves (some job) e = moves job (get_self job_id s.jobs job e)

  start_row-may_become :
      (now : ℕ) (job : Job)
      → get job.id s.jobs ≡ some job
      → ((job.id == id) ≡ true → b ≡ true)
      → may_become b (status_of id s) (status_of id (start_row now job s).1) ≡ true
  unfolding start_row
  start_row-may_become now job e started =
      save-may_become b job _ s id e refl
        (λ hit. unfold may_become in rw (started hit) (ground arith))

  complete_row-may_become :
      (now : ℕ) (result : Option Json) (job : Job)
      → get job.id s.jobs ≡ some job
      → may_become b (status_of id s) (status_of id (complete_row now result job s).1) ≡ true
  unfolding complete_row
  complete_row-may_become now result job e = elim (Bool-cases (status_eq job.status cancelled)) [
    | inl c ↦ rw c (may_become_refl b (status_of id s))
    | inr c ↦ rw c (save-may_become b job _ s id e refl (λ _. unfold may_become in rw c))
  ]

  fail_row-may_become :
      (now : ℕ) (message : String) (details kind : Option String) (job : Job)
      → get job.id s.jobs ≡ some job
      → may_become b (status_of id s) (status_of id (fail_row now message details kind job s).1)
        ≡ true
  unfolding fail_row
  fail_row-may_become now message details kind job e =
      elim (Bool-cases (status_eq job.status cancelled)) [
        | inl c ↦ rw c (may_become_refl b (status_of id s))
        | inr c ↦ rw c (save-may_become b job _ s id e refl (λ _. unfold may_become in rw c))
      ]

  update_progress-may_become :
      (now job_id : ℕ) (message : Option String) (total : Option ℕ) (file : Option FileUpdate)
      → may_become b
          (status_of id s)
          (status_of id (update_progress now job_id message total file s).1)
        ≡ true
  update_progress-may_become now job_id message total file =
      elim (Option-cases (get job_id s.jobs)) [
        | inl e ↦
            rw (update_progress_missing now job_id message total file s e)
              (may_become_refl b (status_of id s))
        | inr (job, e) ↦ rw (update_progress_found now job_id job message total file s e) (
            unfold update_progress_row save_job in
            save-may_become b job _ s id (get_self job_id s.jobs job e)
              (id-update_progress_row now job message total file s)
              (rw (status-update_progress_row now job message total file s)
                (λ _. may_become_refl b (some job.status))))
      ]

  create_job-may_become :
      (now new_id : ℕ) (type : JobType) (user : ℕ) (ds kb : Option ℕ) (params : Option Json)
      → has new_id s.jobs ≡ false
      → may_become b
          (status_of id s)
          (status_of id (create_job now new_id type user ds kb params s).1)
        ≡ true
  unfolding create_job may_become
  create_job-may_become now new_id type user ds kb params fresh = ground (
    arith,
    may_become_refl b (status_of id s),
    get-append_fresh new_id s.jobs (new_job now new_id type user ds kb params),
    get-append_ne id s.jobs (new_job now new_id type user ds kb params),
    get_of_not_has new_id s.jobs fresh,
  )

module _ (b : Bool) (print : Printer) (s : Store) (u : HasUniqueKeys s.jobs) (id : ℕ) where
  sweep-may_become :
      (now stale absolute timeout : ℕ)
      → may_become b
          (status_of id s)
          (status_of id (mark_stalled_jobs print now stale absolute timeout s).1)
        ≡ true
  unfolding may_become stall is_stuck_absolute is_stuck_stale is_stuck_pending
  sweep-may_become now stale absolute timeout =
      rw (get-mark_stalled_jobs print now stale absolute timeout s id u)
        (ground (arith, may_become_refl b (status_of id s)))

  restart-may_become :
      (now : ℕ)
      → may_become b (status_of id s) (status_of id (mark_all_running_as_stalled now s).1) ≡ true
  unfolding may_become stall is_active
  restart-may_become now =
      rw (get-mark_all_running_as_stalled now s id u)
        (ground (arith, may_become_refl b (status_of id s)))

  cleanup-may_become :
      (now days : ℕ)
      → may_become b (status_of id s) (status_of id (cleanup_old_jobs now days s).1) ≡ true
  unfolding may_become is_reapable
  cleanup-may_become now days =
      rw (get-cleanup_old_jobs now days s id u) (ground (arith, may_become_refl b (status_of id s)))

start-may_become :
    (s : Store) (id now job_id : ℕ) (found : Option Job)
    → get job_id s.jobs ≡ found
    → may_become (job_id == id) (status_of id s) (
        status_of id
          (elim found as (λ _. Option Job × Store) [
            | none ↦ (none, s)
            | some job ↦ start_row now job s
          ]).1)
      ≡ true
start-may_become s id now job_id none e = may_become_refl (job_id == id) (status_of id s)
start-may_become s id now job_id (some job) e =
    start_row-may_become (job_id == id) s id now job (get_self job_id s.jobs job e)
      (λ hit. ground (arith, key-get job_id s.jobs job e))

-- Whether a call starts that job.
abbrev pub is_start : Call → ℕ → Bool
is_start (start now job_id) id = job_id == id
is_start _ id = false

-- With unique job ids and a fresh id for a new job, any one call of the repository moves the
-- status of any job only as `may_become` allows: a cancelled job is not finished, only a start
-- makes it run, only a finished one is deleted.
pub run-may_become :
    (print : Printer) (call : Call) (s : Store) (id : ℕ)
    → HasUniqueKeys s.jobs
    → IsFresh call s
    → may_become (is_start call id) (status_of id s) (status_of id (run print call s)) ≡ true
unfolding run start_job complete_job fail_job
run-may_become print (create now new_id type user ds kb params) s id u f =
    create_job-may_become false s id now new_id type user ds kb params f
run-may_become print (start now job_id) s id u f =
    start-may_become s id now job_id (get job_id s.jobs) refl
run-may_become print (complete now job_id result) s id u f =
    on_row-may_become false s id (complete_row now result) job_id
      (complete_row-may_become false s id now result) (get job_id s.jobs) refl
run-may_become print (fail now job_id message details kind) s id u f =
    on_row-may_become false s id (fail_row now message details kind) job_id
      (fail_row-may_become false s id now message details kind) (get job_id s.jobs) refl
run-may_become print (progress now job_id message total file) s id u f =
    update_progress-may_become false s id now job_id message total file
run-may_become print (sweep now stale absolute timeout) s id u f =
    sweep-may_become false print s u id now stale absolute timeout
run-may_become print (restart now) s id u f = restart-may_become false print s u id now
run-may_become print (cleanup now days) s id u f = cleanup-may_become false print s u id now days
