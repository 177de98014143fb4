-- ===== src/Jobs/Calls/History.antt =====
-- Any sequence of calls: the audit log stays true, and a cancelled job stays cancelled.

use alice_skilltech_tools.Prelude.{
  ℕ, String, true, false, not, ◌≡◌, refl, sym, ◌∙◌, Option, none, some, List, [], ◌∷◌, arith,
  if◌then◌else◌, ◌==◌, Bool-cases, Option-cases, inl, inr, filter, elem, map, length,
}
use alice_skilltech_tools.Prelude.Table.{get, key-get, get-filter, get_self, HasUniqueKeys}
use alice_skilltech_tools.Store.{Job, job_key, JobStatus, JobEvent, cancelled, Store, save_job}
use alice_skilltech_tools.Jobs.Lifecycle.Audit.{
  IsAudited, last_status, create_job-IsAudited, start_job-IsAudited, complete_job-IsAudited,
  fail_job-IsAudited,
}
use alice_skilltech_tools.Jobs.Progress.{FileUpdate, update_progress, update_progress_row}
use alice_skilltech_tools.Jobs.Progress.Counters.{
  id-update_progress_row, status-update_progress_row, update_progress_found,
  update_progress_missing,
}
use alice_skilltech_tools.Jobs.Cleanup.{cleanup_old_jobs, is_reapable}
use alice_skilltech_tools.Jobs.Stalled.{Printer, mark_all_running_as_stalled, mark_all}
use alice_skilltech_tools.Jobs.Stalled.Marking.{mark_stalled-IsAudited}
use alice_skilltech_tools.Jobs.Stalled.Sweeping.{mark_stalled_jobs-IsAudited}
use alice_skilltech_tools.Jobs.Calls.{
  Call, create, start, complete, fail, progress, sweep, restart, cleanup, run, run_all, IsFresh,
  AreFresh,
}
use alice_skilltech_tools.Jobs.Calls.Keys.{get-save, run-HasUniqueKeys}
use alice_skilltech_tools.Jobs.Calls.Moves.{may_become, status_of, is_start, run-may_become}

-- No call of the sequence starts that job.
abbrev pub NeverStarts : ℕ → List Call → Type 0
NeverStarts id [] = Unit
NeverStarts id (call ∷ calls) = (is_start call id ≡ false) × NeverStarts id calls

stays_cancelled :
    (after : Option JobStatus)
    → may_become false (some cancelled) after ≡ true
    → after ≡ some cancelled
unfolding may_become
stays_cancelled after h = ground arith

-- With unique job ids and fresh ids for new jobs, a cancelled job stays, and stays cancelled,
-- through any calls that do not start it.
pub run_all-cancelled :
    (print : Printer) (calls : List Call) (s : Store) (id : ℕ)
    → HasUniqueKeys s.jobs
    → AreFresh print calls s
    → NeverStarts id calls
    → status_of id s ≡ some cancelled
    → status_of id (run_all print calls s) ≡ some cancelled
unfolding run_all
run_all-cancelled print [] s id u f n c = c
run_all-cancelled print (call ∷ calls) s id u f n c =
    run_all-cancelled print calls (run print call s) id (run-HasUniqueKeys print call s f.0 u) f.1
      n.1 (stays_cancelled _ (rw (c, n.0) at (run-may_become print call s id u f.0)))

saved_row :
    (now : ℕ) (job : Job) (message : Option String) (total : Option ℕ) (file : Option FileUpdate)
    (s : Store)
    → get job.id s.jobs ≡ some job
    → IsAudited s
    → (id : ℕ) (row : Job)
    → get id (update_progress_row now job message total file s).1.jobs ≡ some row
    → last_status id (update_progress_row now job message total file s).1.job_events
      ≡ some row.status
unfolding update_progress_row save_job
saved_row now job message total file s found a id row h = ground (
  arith,
  get-save (update_progress_row now job message total file s).0 s.jobs id,
  id-update_progress_row now job message total file s,
  status-update_progress_row now job message total file s,
  a.logged id row,
  a.logged id job,
  found,
)

-- Progress writes no event and changes no status.
progress-IsAudited :
    (now job_id : ℕ) (message : Option String) (total : Option ℕ) (file : Option FileUpdate)
    (s : Store)
    → IsAudited s
    → IsAudited (update_progress now job_id message total file s).1
progress-IsAudited now job_id message total file s a = elim (Option-cases (get job_id s.jobs)) [
  | inl e ↦ rw (update_progress_missing now job_id message total file s e) a
  | inr (job, e) ↦ rw (update_progress_found now job_id job message total file s e) (record {
    logged = λ id row h.
        saved_row now job message total file s (get_self job_id s.jobs job e) a id row h;
  })
]

last_status-filter :
    (id : ℕ) (ids : List ℕ) (events : List JobEvent)
    → elem id ids ≡ false
    → last_status id (filter (λ (row : JobEvent). not (elem row.job_id ids)) events)
      ≡ last_status id events
last_status-filter id ids [] h = refl
last_status-filter id ids (event ∷ events) h = ground (arith, last_status-filter id ids events h)

-- A job that is left after rows were deleted was there before, and is not one of the deleted.
kept_cases :
    (id : ℕ) (ids : List ℕ) (jobs : List Job) (found : Option Job) (row : Job)
    → get id jobs ≡ found
    → (elim found as (λ _. Option Job) [
      | none ↦ none
      | some job ↦ if not (elem job.id ids) then some job else none
    ])
      ≡ some row
    → (get id jobs ≡ some row) × (elem id ids ≡ false)
kept_cases id ids jobs none row e h = cc
kept_cases id ids jobs (some job) row e h = ground (arith, key-get id jobs job e)

cleanup-IsAudited :
    (now days : ℕ) (s : Store)
    → HasUniqueKeys s.jobs
    → IsAudited s
    → IsAudited (cleanup_old_jobs now days s).1
unfolding cleanup_old_jobs
cleanup-IsAudited now days s u a =
    elim (Bool-cases (length (filter (is_reapable now days) s.jobs) == 0)) [
      | inl e ↦ rw e a
      | inr e ↦ rw e (record {
        logged = λ id row h.
            let ids = map (λ (job : Job). job.id) (filter (is_reapable now days) s.jobs) in
            let (found, kept) =
              kept_cases id ids s.jobs (get id s.jobs) row refl
                (sym (get-filter id (λ (job : Job). not (elem job.id ids)) s.jobs u) ∙ h) in
            last_status-filter id ids s.job_events kept ∙ a.logged id row found;
      })
    ]

mark_all-IsAudited :
    (now : ℕ) (jobs : List Job) (s : Store) → IsAudited s → IsAudited (mark_all now jobs s)
unfolding mark_all
mark_all-IsAudited now [] s a = a
mark_all-IsAudited now (job ∷ jobs) s a =
    mark_all-IsAudited now jobs _ (mark_stalled-IsAudited now job _ s a)

run-IsAudited :
    (print : Printer) (call : Call) (s : Store)
    → HasUniqueKeys s.jobs
    → IsFresh call s
    → IsAudited s
    → IsAudited (run print call s)
unfolding run mark_all_running_as_stalled
run-IsAudited print (create now id type user ds kb params) s u f a =
    create_job-IsAudited now id type user ds kb params s f a
run-IsAudited print (start now id) s u f a = start_job-IsAudited now id s a
run-IsAudited print (complete now id result) s u f a = complete_job-IsAudited now id s result a
run-IsAudited print (fail now id message details kind) s u f a =
    fail_job-IsAudited now id s message details kind a
run-IsAudited print (progress now id message total file) s u f a =
    progress-IsAudited now id message total file s a
run-IsAudited print (sweep now stale absolute timeout) s u f a =
    mark_stalled_jobs-IsAudited print now stale absolute timeout s a
run-IsAudited print (restart now) s u f a = mark_all-IsAudited now _ s a
run-IsAudited print (cleanup now days) s u f a = cleanup-IsAudited now days s u a

-- With unique job ids and fresh ids for new jobs, if the last status event of every job records
-- its status, it does so after any calls in any order.
pub run_all-IsAudited :
    (print : Printer) (calls : List Call) (s : Store)
    → HasUniqueKeys s.jobs
    → AreFresh print calls s
    → IsAudited s
    → IsAudited (run_all print calls s)
unfolding run_all
run_all-IsAudited print [] s u f a = a
run_all-IsAudited print (call ∷ calls) s u f a =
    run_all-IsAudited print calls (run print call s) (run-HasUniqueKeys print call s f.0 u) f.1
      (run-IsAudited print call s u f.0 a)
