-- ===== src/Workers/SourceHandlers.antt =====
-- The handlers of metadata and content synchronisations of api/app/api_v2/routes/workers.py, with the
-- handlers of DatasourceService (api/app/services/datasource_service.py) that they call.
--
-- The cached courses of a Moodle data source and the column `last_sync` are left out. `none` as a result
-- is an exception that leaves the handler, as in Workers.Handlers.
pub mod Settling
use alice_skilltech_tools.Prelude.{
  ℕ, suc, String, Bool, true, false, Option, none, some, if◌then◌else◌, ◌>>=◌, length,
}
use alice_skilltech_tools.Prelude.Table.{get}
use alice_skilltech_tools.Store.{
  Store, Message, Job, DataSource, DataSourceSyncStatus, SyncErrorCode, save_datasource,
  datasource_key,
}
use alice_skilltech_tools.Store.Json.{
  Json, null, boolean, number, string, ident, array, object, Items, nil, cons, Fields, field, end,
  truthy,
}
use alice_skilltech_tools.Store.Metrics.{codes}
use alice_skilltech_tools.Index.Manifest.{get_or}
use alice_skilltech_tools.Workers.Handlers.{complete_from, fail_from, FailureTexts}
use alice_skilltech_tools.Workers.Deferral.{maybe_fire_deferred_ingestion}

unfoldable pub items_count : Items → ℕ
items_count nil = 0
items_count (cons v items) = suc (items_count items)

unfoldable pub fields_count : Fields → ℕ
fields_count end = 0
fields_count (field k v rest) = suc (fields_count rest)

-- len(value); none is a TypeError.
unfoldable pub len_of : Json → Option ℕ
len_of (array items) = some (items_count items)
len_of (object fields) = some (fields_count fields)
len_of (string s) = some (length (codes s))
len_of (ident id) = some 36
len_of _ = none

unfoldable pub metadata_summary : Fields → Option Json
metadata_summary message = len_of (get_or "courses" (array nil) message) >>= λ n. some (
    object (
      field "courses_synced" (number n)
        (field "datasource_id" (get_or "datasource_id" null message) end)))

unfoldable pub content_summary : Fields → Json
content_summary message = object (
    field "files_downloaded" (get_or "files_downloaded" (number 0) message) (
      field "total_size_bytes" (get_or "total_size_bytes" (number 0) message)
        (field "datasource_id" (get_or "datasource_id" null message) end)))

-- What both completion handlers of the service write.
unfoldable pub ready_source : ℕ → Store → Store
ready_source id s = elim (get id s.datasources) [
  | none ↦ s
  | some ds ↦
      save_datasource
        (record ds { sync_status = DataSourceSyncStatus.ready; last_sync_error = none }) s
]

-- What both failure handlers of the service write.
unfoldable pub fail_source : ℕ → Store → Store
fail_source id s = elim (get id s.datasources) [
  | none ↦ s
  | some ds ↦
      save_datasource
        (record ds {
          sync_status = DataSourceSyncStatus.error;
          last_sync_error = some SyncErrorCode.failed;
        })
        s
]

-- The data source that a message names: none for a falsy value, an exception for a bad UUID.
unfoldable pub source_id : Fields → Option (Option ℕ)
source_id message = elim (get_or "datasource_id" null message) [
  | ident id ↦ some (some id)
  | other ↦ if truthy other then none else some none
]

unfoldable pub handle_sync_completion : Fields → Store → Option Store
handle_sync_completion message s =
    source_id message >>= λ found. some (elim found [ none ↦ s | some id ↦ ready_source id s ])

unfoldable pub handle_sync_failure : Fields → Store → Option Store
handle_sync_failure message s =
    source_id message >>= λ found. some (elim found [ none ↦ s | some id ↦ fail_source id s ])

unfoldable pub fire_for : (Message → Option String) → ℕ → Fields → Store → Option Store
fire_for refusal now message s =
    source_id message >>= λ found. maybe_fire_deferred_ingestion refusal now found s

unfoldable pub metadata_sync_complete :
    (Message → Option String) → ℕ → Fields → Store → Option Store
metadata_sync_complete refusal now message s = metadata_summary message >>= λ summary.
    complete_from now message (some summary) s >>= λ r.
    handle_sync_completion message r.1 >>= λ t. fire_for refusal now message t

unfoldable pub metadata_sync_failed :
    (Message → Option String) → ℕ → Fields → FailureTexts → Store → Option Store
metadata_sync_failed refusal now message texts s =
    fail_from now message texts "Metadata sync failed" s >>= λ r.
    handle_sync_failure message r.1 >>= λ t. fire_for refusal now message t

unfoldable pub content_sync_complete : ℕ → Fields → Store → Option Store
content_sync_complete now message s =
    complete_from now message (some (content_summary message)) s >>= λ r.
    handle_sync_completion message r.1

unfoldable pub content_sync_failed : ℕ → Fields → FailureTexts → Store → Option Store
content_sync_failed now message texts s =
    fail_from now message texts "Content sync failed" s >>= λ r. handle_sync_failure message r.1
