-- ===== src/Jobs/Calls.antt =====
-- The calls that change jobs through the repository, one after the other, in any order.
pub mod Keys
pub mod Moves
pub mod History
use alice_skilltech_tools.Prelude.{ℕ, String, ◌≡◌, false, Option, List, [], ◌∷◌}
use alice_skilltech_tools.Prelude.Table.{has}
use alice_skilltech_tools.Store.{JobType, job_key, Store}
use alice_skilltech_tools.Store.Json.{Json}
use alice_skilltech_tools.Jobs.Lifecycle.{create_job, start_job, complete_job, fail_job}
use alice_skilltech_tools.Jobs.Progress.{FileUpdate, update_progress}
use alice_skilltech_tools.Jobs.Stalled.{Printer, mark_stalled_jobs, mark_all_running_as_stalled}
use alice_skilltech_tools.Jobs.Cleanup.{cleanup_old_jobs}

pub data Call : Type 0 where
  create : (now id : ℕ) → JobType → ℕ → Option ℕ → Option ℕ → Option Json → Call
  start : (now id : ℕ) → Call
  complete : (now id : ℕ) → Option Json → Call
  fail : (now id : ℕ) → String → Option String → Option String → Call
  progress : (now id : ℕ) → Option String → Option ℕ → Option FileUpdate → Call
  sweep : (now running_stale running_absolute pending_timeout : ℕ) → Call
  restart : (now : ℕ) → Call
  cleanup : (now days : ℕ) → Call

unfoldable pub run : Printer → Call → Store → Store
run print (create now id type user ds kb params) s = (create_job now id type user ds kb params s).1
run print (start now id) s = (start_job now id s).1
run print (complete now id result) s = (complete_job now id result s).1
run print (fail now id message details kind) s = (fail_job now id message details kind s).1
run print (progress now id message total file) s = (update_progress now id message total file s).1
run print (sweep now stale absolute timeout) s =
    (mark_stalled_jobs print now stale absolute timeout s).1
run print (restart now) s = (mark_all_running_as_stalled now s).1
run print (cleanup now days) s = (cleanup_old_jobs now days s).1

unfoldable pub run_all : Printer → List Call → Store → Store
run_all print [] s = s
run_all print (call ∷ calls) s = run_all print calls (run print call s)

-- uuid4 gives a new id to each job that is created.
abbrev pub IsFresh : Call → Store → Type 0
IsFresh (create now id type user ds kb params) s = has id s.jobs ≡ false
IsFresh _ s = Unit

abbrev pub AreFresh : Printer → List Call → Store → Type 0
AreFresh print [] s = Unit
AreFresh print (call ∷ calls) s = IsFresh call s × AreFresh print calls (run print call s)
