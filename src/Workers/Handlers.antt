-- ===== src/Workers/Handlers.antt =====
-- `_get_job_id`, `_complete_job`, `_fail_job`, `kb_sync_complete` and `kb_sync_failed` of
-- api/app/api_v2/routes/workers.py.
--
-- `none` as a result is an exception that leaves the handler: `UUID(x)` raises AttributeError, which
-- `_get_job_id` does not catch, on a value that is no text. The texts of a failure message are taken
-- as texts, which is what the worker sends. The clocks are `datetime.now(UTC)` of the repository and
-- `datetime.now()` of the service.
pub mod Cancelled
use alice_skilltech_tools.Prelude.{
  ℕ, String, Bool, true, false, Option, none, some, if◌then◌else◌, ◌>>=◌, str_eq,
}
use alice_skilltech_tools.Store.{Store, Job}
use alice_skilltech_tools.Store.Json.{
  Json, null, number, string, ident, array, object, nil, Fields, end, field, truthy,
}
use alice_skilltech_tools.Index.Manifest.{Settings, get_or}
use alice_skilltech_tools.Index.Completion.{
  handle_knowledgebase_sync_completion, handle_knowledgebase_sync_failure,
}
use alice_skilltech_tools.Jobs.Lifecycle.{complete_job, fail_job}

-- The job's id, if the message has one.
unfoldable pub get_job_id : Fields → Option (Option ℕ)
get_job_id message = elim (get_or "job_id" null message) [
  | ident id ↦ some (some id)
  | string s ↦ some none
  | other ↦ if truthy other then none else some none
]

unfoldable pub complete_from : ℕ → Fields → Option Json → Store → Option (Option Job × Store)
complete_from now message summary s = get_job_id message >>= λ found.
    some (elim found [ none ↦ (none, s) | some id ↦ complete_job now id summary s ])

-- The texts of a failure message.
pub record FailureTexts : Type 0 where
  pub error : Option String
  pub error_detail : Option String
  pub traceback : Option String
  pub error_details : Option String
  pub error_kind : Option String

-- a or b, on optional texts
unfoldable pub or_text : Option String → Option String → Option String
or_text none b = b
or_text (some a) b = if str_eq a "" then b else some a

unfoldable pub fail_from : ℕ → Fields → FailureTexts → String → Store → Option (Option Job × Store)
fail_from now message texts default_error s = get_job_id message >>= λ found. some (elim found [
  | none ↦ (none, s)
  | some id ↦
      fail_job now id (elim texts.error [ none ↦ default_error | some e ↦ e ])
        (or_text texts.error_detail (or_text texts.traceback texts.error_details)) texts.error_kind
        s
])

unfoldable pub ingestion_summary : Fields → Json
ingestion_summary message = object (
    field "knowledge_base_id" (get_or "knowledge_base_id" null message) (
      field "files_processed" (get_or "files_processed" (number 0) message) (
        field "files_succeeded"
          (get_or "files_succeeded" (get_or "files_processed" (number 0) message) message)
          (field "files_failed" (get_or "files_failed" (number 0) message) (
            field "files_skipped" (get_or "files_skipped" (number 0) message) (
              field "failed_files" (get_or "failed_files" (array nil) message) (
                field "files_downloaded" (get_or "files_downloaded" (number 0) message) (
                  field "chunks_created" (get_or "chunks_created" (number 0) message) (
                    field "embedding_time_seconds" (get_or "embedding_time_seconds" null message)
                      end)))))))))

-- What follows when the job was, or was not, finished.
unfoldable pub then_complete : Settings → ℕ → Fields → Option Job × Store → Option Store
then_complete settings local_now message (none, s) = some s
then_complete settings local_now message (some job, s) =
    handle_knowledgebase_sync_completion settings local_now message s

unfoldable pub kb_sync_complete : Settings → (now local_now : ℕ) → Fields → Store → Option Store
kb_sync_complete settings now local_now message s =
    complete_from now message (some (ingestion_summary message)) s >>= λ r.
    then_complete settings local_now message r

unfoldable pub then_fail : Fields → Option Job × Store → Option Store
then_fail message (none, s) = some s
then_fail message (some job, s) = handle_knowledgebase_sync_failure message s

unfoldable pub kb_sync_failed : ℕ → Fields → FailureTexts → Store → Option Store
kb_sync_failed now message texts s =
    fail_from now message texts "Knowledge base ingestion failed" s >>= λ r. then_fail message r
