-- ===== src/Workers/Handlers/Cancelled.antt =====
-- A worker's late message about a job that was cancelled meanwhile.
use alice_skilltech_tools.Prelude.{ℕ, String, true, ◌≡◌, refl, Option, some, arith, ==_refl, ◌||◌}
use alice_skilltech_tools.Prelude.Table.{get, get-modify, key-get, get_self}
use alice_skilltech_tools.Store.{
  Store, Message, Job, cancelled, pending, running, status_eq, job_key, observe, publish, save_job,
}
use alice_skilltech_tools.Store.Json.{Fields, null, ident}
use alice_skilltech_tools.Index.Manifest.{Settings, get_or}
use alice_skilltech_tools.Jobs.Lifecycle.{complete_job, complete_row, fail_job, fail_row}
use alice_skilltech_tools.Workers.Handlers.{
  get_job_id, complete_from, fail_from, FailureTexts, then_complete, then_fail, kb_sync_complete,
  kb_sync_failed,
}
use alice_skilltech_tools.Workers.Indexing.{
  cancel_indexing_job, cancelled_row, record_cancellation, broadcast,
}

-- A message that names a cancelled job which exists changes nothing, whether it says that the
-- job completed or that it failed.
kb_sync_cancelled :
    (settings : Settings) (now local_now id : ℕ) (message : Fields) (texts : FailureTexts)
    (s : Store) (job : Job)
    → get_or "job_id" null message ≡ ident id
    → get id s.jobs ≡ some job
    → job.status ≡ cancelled
    → (kb_sync_complete settings now local_now message s ≡ some s)
      × (kb_sync_failed now message texts s ≡ some s)
unfolding kb_sync_complete kb_sync_failed complete_from fail_from get_job_id then_complete then_fail
    complete_job fail_job complete_row fail_row
kb_sync_cancelled settings now local_now id message texts s job m found e =
    (ground (arith, m, found, e), ground (arith, m, found, e))

get-record_cancellation :
    (now : ℕ) (job : Job) (s : Store)
    → get job.id s.jobs ≡ some job
    → get job.id (record_cancellation now job s).jobs ≡ some (cancelled_row job)
unfolding record_cancellation observe save_job cancelled_row
get-record_cancellation now job s found = ground (
  arith,
  ==_refl job.id,
  get-modify job.id job.id (λ _. cancelled_row job) s.jobs (λ row e. refl),
)

-- An active job is cancelled, whether or not the broker takes the broadcast.
get-cancel_indexing_job :
    (refusal : Message → Option String) (now id : ℕ) (s : Store) (job : Job)
    → get id s.jobs ≡ some job
    → (status_eq job.status pending || status_eq job.status running) ≡ true
    → get id (cancel_indexing_job refusal now id s).1.jobs ≡ some (cancelled_row job)
unfolding cancel_indexing_job broadcast publish
get-cancel_indexing_job refusal now id s job found active = ground (
  arith,
  key-get id s.jobs job found,
  get_self id s.jobs job found,
  get-record_cancellation now job s,
)

-- Once the user has cancelled a pending or running job that exists, a message that it completed
-- or failed changes nothing, whether or not the broker took the broadcast.
pub cancel_indexing_job-kb_sync :
    (refusal : Message → Option String) (settings : Settings) (now later local_now id : ℕ)
    (message : Fields) (texts : FailureTexts) (s : Store) (job : Job)
    → get id s.jobs ≡ some job
    → (status_eq job.status pending || status_eq job.status running) ≡ true
    → get_or "job_id" null message ≡ ident id
    → let t = (cancel_indexing_job refusal now id s).1 in
      (kb_sync_complete settings later local_now message t ≡ some t)
      × (kb_sync_failed later message texts t ≡ some t)
unfolding cancelled_row
cancel_indexing_job-kb_sync refusal settings now later local_now id message texts s job found active
      m =
    kb_sync_cancelled settings later local_now id message texts
      (cancel_indexing_job refusal now id s).1 (cancelled_row job) m
      (get-cancel_indexing_job refusal now id s job found active) refl
