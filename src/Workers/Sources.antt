-- ===== src/Workers/Sources.antt =====
-- `trigger_metadata_sync` and `trigger_content_sync` of api/app/services/indexing_service.py, with
-- `prepare_content_sync_job` of datasource_service.py.
--
-- The result of a trigger is whether it returns; else it raises the exception again. `available` gives
-- the files that are known of a data source (get_all_available_files).
pub mod Triggers
use alice_skilltech_tools.Prelude.{
  ℕ, String, Bool, true, false, not, ◌||◌, Option, none, some, List, [], ◌∷◌, if◌then◌else◌, ◌==◌,
  length,
}
use alice_skilltech_tools.Prelude.Table.{get}
use alice_skilltech_tools.Store.{
  Store, Message, metadata_sync_jobs, content_sync_jobs, publish, save_datasource, Job, JobType,
  metadata_sync, content_sync, datasource_key, DataSource, DataSourceSyncStatus, is_syncing,
  SourceType, file,
}
use alice_skilltech_tools.Store.Json.{
  Json, boolean, number, string, ident, array, object, Items, nil, cons, Fields, field, end,
  fields_set,
}
use alice_skilltech_tools.Jobs.Lifecycle.{create_job, fail_job}
use alice_skilltech_tools.Workers.Preparation.{
  User, Environment, fields_update, source_text, prepare_metadata_sync_job,
}

unfoldable pub is_file_source : SourceType → Bool
is_file_source file = true
is_file_source _ = false

unfoldable pub strings : List String → Items
strings [] = nil
strings (s ∷ ss) = cons (string s) (strings ss)

-- `selected_files`, or all files where none are given.
unfoldable pub files_to_sync : List String → Option (List String) → List String
files_to_sync available none = available
files_to_sync available (some []) = available
files_to_sync available (some (s ∷ ss)) = s ∷ ss

-- len(selected_files) if selected_files else 0
unfoldable pub selected_count : Option (List String) → ℕ
selected_count none = 0
selected_count (some ss) = length ss

module _ (env : Environment) where
  unfoldable pub content_payload : DataSource → User → List String → Bool → Fields
  content_payload ds user selected force =
      fields_update
        (field "operation" (string "sync_content") (
          field "datasource_id" (ident ds.id) (
            field "source_type" (string (source_text ds.source_type)) (
              field "owner_email" (string user.email) (
                field "owner_role" (string user.role) (
                  field "selected_files" (array (strings selected))
                    (field "force" (boolean force) end)))))))
        (env.credentials ds.id)

  -- From the status on, which is written before the files are looked at.
  unfoldable pub content_job :
      DataSource → User → List String → Bool → Store → Option Fields × Store
  content_job ds user [] force s = (none, s)
  content_job ds user (f ∷ files) force s = (some (content_payload ds user (f ∷ files) force), s)

  unfoldable pub prepare_content_sync_job :
      (ℕ → List String) → ℕ → User → Option (List String) → Bool → Store → Option Fields × Store
  prepare_content_sync_job available id user selected force s = elim (get id s.datasources) [
    | none ↦ (none, s)
    | some ds ↦
        if not ((env.owner_of ds.id).id == user.id)
          || is_file_source ds.source_type
          || is_syncing ds.sync_status
        then (none, s)
        else content_job ds user (files_to_sync (available id) selected) force
            (save_datasource (record ds { sync_status = DataSourceSyncStatus.processing }) s)
  ]

  unfoldable pub fail_trigger : ℕ → Job → String → Store → Bool × Store
  fail_trigger now job error s = (false, (fail_job now job.id error none none s).1)

  -- The message with the job's id, on its queue.
  unfoldable pub publish_job : (Json → Message) → ℕ → Job → Fields → Store → Bool × Store
  publish_job queue now job payload s =
      let m = queue (object (fields_set "job_id" (ident job.id) payload)) in
      elim (env.refusal m) [
        | none ↦ (true, publish m s)
        | some error ↦ fail_trigger now job error s
      ]

  -- What both triggers do behind their preparation.
  unfoldable pub publish_prepared :
      (Json → Message) → ℕ → Job → Option Fields × Store → Bool × Store
  publish_prepared queue now job (none, s) = fail_trigger now job env.unprepared s
  publish_prepared queue now job (some payload, s) = publish_job queue now job payload s

  -- `id` is the id of the new job.
  unfoldable pub trigger_metadata_sync :
      (now id datasource : ℕ) → User → Bool → Store → Bool × Store
  trigger_metadata_sync now id datasource user force s =
      let created =
        create_job now id metadata_sync user.id (some datasource) none
          (some
            (object (field "force" (boolean force) (field "datasource_id" (ident datasource) end))))
          s in
      publish_prepared metadata_sync_jobs now created.0
        (prepare_metadata_sync_job env datasource user force created.1)

  unfoldable pub trigger_content_sync :
      (ℕ → List String)
      → (now id datasource : ℕ) → User
      → Option (List String)
      → Bool
      → Store
      → Bool × Store
  trigger_content_sync available now id datasource user selected force s =
      let created =
        create_job now id content_sync user.id (some datasource) none
          (some (
            object (
              field "force" (boolean force) (
                field "datasource_id" (ident datasource)
                  (field "selected_files_count" (number (selected_count selected)) end)))))
          s in
      publish_prepared content_sync_jobs now created.0
        (prepare_content_sync_job available datasource user selected force created.1)
