-- ===== src/Examples/JobCalls.antt =====
-- The theorems on sequences of calls and on sweeps, on the small store.
use mathlib.Core.Option
use alice_skilltech_tools.Prelude.{◌*◌, true, ◌≡◌, refl, none, some, [], ◌∷◌, arith, if◌then◌else◌}
use alice_skilltech_tools.Prelude.Table.{get, has, modify, HasUniqueKeys}
use alice_skilltech_tools.Store.{
  observe, save_job, save_kb, Store, cancelled, job_key, knowledge_base_key, datasource_key,
}
use alice_skilltech_tools.Jobs.Lifecycle.{log_event}
use alice_skilltech_tools.Jobs.Lifecycle.Audit.{IsAudited}
use alice_skilltech_tools.Jobs.Stalled.{
  Printer, stall, mark_stalled_jobs, mark_all_running_as_stalled, is_active, restart_reason,
  sweep_jobs, is_stuck_pending, is_stuck_stale, is_before, coalesce, sweep_job, is_stuck_absolute,
  mark_stalled, reset_linked_datasource, reset_linked_kb,
}
use alice_skilltech_tools.Jobs.Stalled.Sweeping.{
  swept, verdict, get-mark_stalled_jobs, verdict-mark_stalled_jobs, get-mark_all_running_as_stalled,
}
use alice_skilltech_tools.Jobs.Cleanup.{is_reapable, cleanup_old_jobs}
use alice_skilltech_tools.Jobs.Cleanup.References.{
  HasReferences, cleanup_old_jobs-HasReferences, get-cleanup_old_jobs,
}
use alice_skilltech_tools.Jobs.Calls.{Call, complete, fail, sweep, run, run_all}
use alice_skilltech_tools.Jobs.Calls.Moves.{may_become, is_start, status_of, run-may_become}
use alice_skilltech_tools.Jobs.Calls.History.{run_all-cancelled, run_all-IsAudited}
use alice_skilltech_tools.Examples.Data.{running_job, parked_job, store, minute}

abbrev printer : Printer
printer = record { number = λ n. "some"; instant = λ t. "then" }

abbrev finish : Call
finish = complete (2 * minute) 1 none

abbrev late : Call
late = fail (3 * minute) 1 "connection lost" none none

store_keys : HasUniqueKeys store.jobs
unfolding has
store_keys = (refl, (refl, tt))

store-IsAudited : IsAudited store
unfolding get
store-IsAudited = record { logged = λ id job h. ground (arith, h) }

store_references : HasReferences store
unfolding has
store_references = record { files = (refl, (refl, tt)); events = (refl, (refl, tt)) }

-- The running job cancelled by its user.
abbrev cancelled_store : Store
cancelled_store = record store {
  jobs = record running_job { status = cancelled } ∷ parked_job ∷ [];
}

cancelled_keys : HasUniqueKeys cancelled_store.jobs
unfolding has
cancelled_keys = (refl, (refl, tt))

-- A completion moves the running job on.
run-may_become_example :
    may_become (is_start finish 1) (status_of 1 store) (status_of 1 (run printer finish store))
    ≡ true
run-may_become_example = run-may_become printer finish store 1 store_keys tt

-- Two late messages leave the cancelled job alone.
run_all-cancelled_example :
    status_of 1 (run_all printer (finish ∷ late ∷ []) cancelled_store) ≡ some cancelled
unfolding get
run_all-cancelled_example =
    run_all-cancelled printer (finish ∷ late ∷ []) cancelled_store 1 cancelled_keys (tt, (tt, tt))
      (refl, (refl, tt)) refl

-- A completion and a sweep are both logged.
run_all-IsAudited_example :
    IsAudited (run_all printer (finish ∷ sweep (200 * minute) 30 360 120 ∷ []) store)
run_all-IsAudited_example =
    run_all-IsAudited printer (finish ∷ sweep (200 * minute) 30 360 120 ∷ []) store store_keys
      (tt, (tt, tt)) store-IsAudited

-- The running job is silent for too long.
get-mark_stalled_jobs_example :
    get 1 (mark_stalled_jobs printer (200 * minute) 30 360 120 store).1.jobs
    ≡ Option.map (swept printer (200 * minute) 30 360 120) (get 1 store.jobs)
get-mark_stalled_jobs_example =
    get-mark_stalled_jobs printer (200 * minute) 30 360 120 store 1 store_keys

parked_found :
    get 2 (mark_stalled_jobs printer (100 * minute) 30 360 120 store).1.jobs ≡ some parked_job
unfolding get mark_stalled_jobs sweep_jobs is_stuck_pending is_stuck_stale is_before coalesce
    sweep_job is_stuck_absolute mark_stalled log_event reset_linked_datasource reset_linked_kb
    observe save_job save_kb modify stall
parked_found = refl

-- The pending job is young enough for a sweep to leave it.
verdict-mark_stalled_jobs_example : verdict printer (100 * minute) 30 360 120 parked_job ≡ none
verdict-mark_stalled_jobs_example =
    verdict-mark_stalled_jobs printer (100 * minute) 30 360 120 store 2 parked_job store_keys
      parked_found

get-mark_all_running_as_stalled_example :
    get 2 (mark_all_running_as_stalled minute store).1.jobs
    ≡ Option.map (λ job. if is_active job then stall restart_reason job else job) (get 2 store.jobs)
get-mark_all_running_as_stalled_example = get-mark_all_running_as_stalled minute store 2 store_keys

cleanup_old_jobs-HasReferences_example :
    HasReferences (cleanup_old_jobs (50000 * minute) 30 store).1
cleanup_old_jobs-HasReferences_example =
    cleanup_old_jobs-HasReferences (50000 * minute) 30 store store_references

get-cleanup_old_jobs_example :
    get 1 (cleanup_old_jobs (50000 * minute) 30 store).1.jobs ≡ elim (get 1 store.jobs) [
      | none ↦ none
      | some job ↦ if is_reapable (50000 * minute) 30 job then none else some job
    ]
get-cleanup_old_jobs_example = get-cleanup_old_jobs (50000 * minute) 30 store 1 store_keys
