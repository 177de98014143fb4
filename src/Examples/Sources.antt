-- ===== src/Examples/Sources.antt =====
-- The synchronisations of a Moodle data source that has no files yet.
use alice_skilltech_tools.Prelude.{ℕ, String, true, ◌≡◌, none, some, List, [], refl}
use alice_skilltech_tools.Prelude.Table.{get, has}
use alice_skilltech_tools.Store.{DataSourceSyncStatus}
use alice_skilltech_tools.Store.Json.{ident, Fields, field, end, fields_get}
use alice_skilltech_tools.Index.Manifest.{get_or}
use alice_skilltech_tools.Workers.Handlers.{FailureTexts, get_job_id}
use alice_skilltech_tools.Workers.Sources.{
  trigger_metadata_sync, trigger_content_sync, is_file_source,
}
use alice_skilltech_tools.Workers.Sources.Triggers.{
  job_status, status_of, sync_status_of, trigger_metadata_sync_lem,
}
use alice_skilltech_tools.Workers.Sources.Triggers.Content.{trigger_content_sync_lem}
use alice_skilltech_tools.Workers.SourceHandlers.{content_sync_complete, content_sync_failed}
use alice_skilltech_tools.Workers.SourceHandlers.Settling.{content_sync-status}
use alice_skilltech_tools.Examples.Reindexing.{env, user, course, linked_store}
use mathlib.Core.Option

abbrev no_files : ℕ → List String
no_files id = []

trigger_metadata_sync_example :
    (status_of 3 (trigger_metadata_sync env 100 3 21 user true linked_store).1
      ≡ some (job_status (trigger_metadata_sync env 100 3 21 user true linked_store).0))
    × (sync_status_of 21 (trigger_metadata_sync env 100 3 21 user true linked_store).1
        ≡ some DataSourceSyncStatus.processing)
unfolding has get
trigger_metadata_sync_example = trigger_metadata_sync_lem env 100 3 21 user true linked_store refl

-- The data source is left processing, although there is nothing to synchronise.
trigger_content_sync_example :
    (status_of 3 (trigger_content_sync env no_files 100 3 21 user none true linked_store).1
      ≡ some
          (job_status (trigger_content_sync env no_files 100 3 21 user none true linked_store).0))
    × (sync_status_of 21 (trigger_content_sync env no_files 100 3 21 user none true linked_store).1
        ≡ some DataSourceSyncStatus.processing)
unfolding has get is_file_source
trigger_content_sync_example =
    trigger_content_sync_lem env no_files 100 3 21 user none true linked_store refl

abbrev message : Fields
message = field "datasource_id" (ident 21) (field "job_id" (ident 1) end)

abbrev texts : FailureTexts
texts = record {
  error = none;
  error_detail = none;
  traceback = none;
  error_details = none;
  error_kind = none;
}

content_sync-status_example :
    (Option.map (sync_status_of 21) (content_sync_complete 100 message linked_store)
      ≡ some (some DataSourceSyncStatus.ready))
    × (Option.map (sync_status_of 21) (content_sync_failed 100 message texts linked_store)
        ≡ some (some DataSourceSyncStatus.error))
unfolding get get_or fields_get get_job_id
content_sync-status_example =
    content_sync-status 100 21 message texts linked_store (some 1) course refl refl refl
