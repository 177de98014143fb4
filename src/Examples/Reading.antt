-- ===== src/Examples/Reading.antt =====
-- The theorems on queries, deferred ingestions and late messages, on the small store.
use alice_skilltech_tools.Prelude.{
  ◌*◌, String, true, ◌≡◌, refl, Option, none, some, [], ◌∷◌, arith, filter,
}
use alice_skilltech_tools.Prelude.Table.{get, has}
use alice_skilltech_tools.Store.{Message, job_key}
use alice_skilltech_tools.Store.Json.{
  ident, object, array, cons, nil, Fields, field, end, fields_get,
}
use alice_skilltech_tools.Index.Manifest.{Settings, get_or}
use alice_skilltech_tools.Jobs.Queries.{get_latest_for_knowledge_base}
use alice_skilltech_tools.Jobs.Queries.Latest.{StandsFor, get_latest_for_knowledge_base_lem}
use alice_skilltech_tools.Workers.Deferral.{
  maybe_fire_deferred_ingestion, is_pending_ingestion, advance, advance_deferred, wait_on, mentions,
  without, is_ident,
}
use alice_skilltech_tools.Workers.Deferral.Waiting.{report_all, payload_if, report_all-Published}
use alice_skilltech_tools.Workers.Deferral.Waiting.Parked.{are_reported}
use alice_skilltech_tools.Workers.Deferral.Firing.{
  Published, released, maybe_fire_deferred_ingestion-Published,
}
use alice_skilltech_tools.Workers.Handlers.{FailureTexts, kb_sync_complete, kb_sync_failed}
use alice_skilltech_tools.Workers.Handlers.Cancelled.{cancel_indexing_job-kb_sync}
use alice_skilltech_tools.Workers.Indexing.{cancel_indexing_job}
use alice_skilltech_tools.Examples.Data.{running_job, parked_job, store, minute, params, sync_job}

abbrev settings : Settings
settings = record {
  index_schema_version = 1;
  embedding_model = "e5";
  embedding_dim = 1024;
  embedding_distance = "cosine";
  sparse_embedding_model = "";
  chunker_tokenizer = "e5";
  chunker_max_tokens = 512;
  index_drift_enforcement = "warn";
}

abbrev texts : FailureTexts
texts = record {
  error = some "cancelled";
  error_detail = none;
  traceback = none;
  error_details = none;
  error_kind = none;
}

abbrev message : Fields
message = field "job_id" (ident 1) (field "knowledge_base_id" (ident 10) end)

abbrev takes_all : Message → Option String
takes_all m = none

get_latest_for_knowledge_base_example : StandsFor 10 store (get_latest_for_knowledge_base 10 store)
get_latest_for_knowledge_base_example = get_latest_for_knowledge_base_lem 10 store

-- The second report fires, the third changes nothing.
report_all-Published_example :
    Published (report_all takes_all minute (22 ∷ 21 ∷ 22 ∷ []) store) store (
      payload_if
        (are_reported (22 ∷ 21 ∷ 22 ∷ []) (cons (ident 21) (cons (ident 22) nil)))
        sync_job)
unfolding get_or fields_get has is_pending_ingestion
report_all-Published_example =
    report_all-Published takes_all minute (22 ∷ 21 ∷ 22 ∷ []) parked_job store sync_job (ident 21)
      (cons (ident 22) nil) (λ m. refl) ((refl, (refl, tt)), refl)
      (
        params,
        field "sync_job" (object sync_job)
            (field "waiting_for_datasources" (array (cons (ident 21) (cons (ident 22) nil))) end),
        refl,
        refl,
        refl,
        refl,
      )

-- The payload is published once.
reports_fire : are_reported (22 ∷ 21 ∷ 22 ∷ []) (cons (ident 21) (cons (ident 22) nil)) ≡ true
unfolding are_reported is_ident
reports_fire = refl

maybe_fire_deferred_ingestion_example :
    Published
      (maybe_fire_deferred_ingestion takes_all minute (some 21) store)
      store
      (released 21 (filter is_pending_ingestion store.jobs))
unfolding advance advance_deferred get_or fields_get mentions is_ident without wait_on
    is_pending_ingestion
maybe_fire_deferred_ingestion_example =
    maybe_fire_deferred_ingestion-Published takes_all minute 21 store (λ m. refl)
      (λ e. ground (arith, e), tt)

cancel_indexing_job-kb_sync_example :
    (kb_sync_complete settings
        (2 * minute)
        minute
        message
        (cancel_indexing_job takes_all minute 1 store).1
      ≡ some (cancel_indexing_job takes_all minute 1 store).1)
    × (kb_sync_failed (2 * minute) message texts (cancel_indexing_job takes_all minute 1 store).1
        ≡ some (cancel_indexing_job takes_all minute 1 store).1)
unfolding get get_or fields_get
cancel_indexing_job-kb_sync_example =
    cancel_indexing_job-kb_sync takes_all settings minute (2 * minute) minute 1 message texts store
      running_job refl refl refl
