-- ===== src/Workers/Sources/Triggers/Content.antt =====
-- The same for a content synchronisation.
use mathlib.Core.Option
use alice_skilltech_tools.Prelude.{
  ℕ, String, Bool, false, not, ◌||◌, ◌≡◌, refl, ◌∙◌, ap, Option, none, some, List, [], ◌∷◌,
  if◌then◌else◌, ◌==◌, arith, Bool-cases, Option-cases, inl, inr,
}
use alice_skilltech_tools.Prelude.Table.{get, has, get-append_fresh}
use alice_skilltech_tools.Store.{
  Store, content_sync_jobs, save_datasource, observe, content_sync, job_key, datasource_key,
  DataSource, DataSourceSyncStatus, is_syncing,
}
use alice_skilltech_tools.Store.Json.{object, ident, field, boolean, number, end}
use alice_skilltech_tools.Jobs.Lifecycle.{create_job, new_job, log_event}
use alice_skilltech_tools.Workers.Preparation.{User, Environment}
use alice_skilltech_tools.Workers.Sources.{
  is_file_source, files_to_sync, content_job, prepare_content_sync_job, selected_count,
  trigger_content_sync,
}
use alice_skilltech_tools.Workers.Sources.Triggers.{
  job_status, status_of, sync_status_of, get-save_processing, publish_prepared-status,
  publish_prepared-datasources,
}

-- The data source is the user's, is no FILE one, and is not processing.
abbrev pub is_syncable : Environment → User → DataSource → Bool
is_syncable env user ds = not (
    not ((env.owner_of ds.id).id == user.id)
    || is_file_source ds.source_type
    || is_syncing ds.sync_status)

content_job-store :
    (env : Environment) (ds : DataSource) (user : User) (files : List String) (force : Bool)
    (s : Store)
    → (content_job env ds user files force s).1 ≡ s
unfolding content_job
content_job-store env ds user [] force s = refl
content_job-store env ds user (f ∷ files) force s = refl

module _ (env : Environment) (available : ℕ → List String) where
  prepare_content_sync_job-jobs :
      (id : ℕ) (user : User) (selected : Option (List String)) (force : Bool) (s : Store)
      → (prepare_content_sync_job env available id user selected force s).1.jobs ≡ s.jobs
  unfolding prepare_content_sync_job save_datasource
  prepare_content_sync_job-jobs id user selected force s =
      elim (Option-cases (get id s.datasources)) [
        | inl e ↦ ground (arith, e)
        | inr (ds, e) ↦ elim (Bool-cases (is_syncable env user ds)) [
          | inl b ↦ ground (
            arith,
            e,
            b,
            ap (λ (t : Store). t.jobs)
                (content_job-store env ds user (files_to_sync (available id) selected) force (
                  save_datasource (record ds { sync_status = DataSourceSyncStatus.processing }) s)),
          )
          | inr b ↦ ground (arith, e, b)
        ]
      ]

  prepare_content_sync_job-status :
      (id : ℕ) (user : User) (selected : Option (List String)) (force : Bool) (s : Store)
      → sync_status_of id (prepare_content_sync_job env available id user selected force s).1
        ≡ elim (get id s.datasources) [
          | none ↦ none
          | some ds ↦
              some (
                if is_syncable env user ds then DataSourceSyncStatus.processing else ds.sync_status)
        ]
  unfolding prepare_content_sync_job
  prepare_content_sync_job-status id user selected force s =
      elim (Option-cases (get id s.datasources)) [
        | inl e ↦ ground (arith, e)
        | inr (ds, e) ↦ elim (Bool-cases (is_syncable env user ds)) [
          | inl b ↦ ground (
            arith,
            e,
            b,
            get-save_processing id ds s e,
            ap (sync_status_of id) (
                content_job-store env ds user (files_to_sync (available id) selected) force (
                  save_datasource (record ds { sync_status = DataSourceSyncStatus.processing }) s)),
          )
          | inr b ↦ ground (arith, e, b)
        ]
      ]

  -- For an id of the new job that no job has: after trigger_content_sync the new job is
  -- pending if the call returns and failed if it raises; a data source that the user owns,
  -- that is no FILE one and was not processing is processing either way, also when there are
  -- no files or the broker refused the message, and any other keeps its status.
  pub trigger_content_sync_lem :
      (now id datasource : ℕ) (user : User) (selected : Option (List String)) (force : Bool)
      (s : Store)
      → has id s.jobs ≡ false
      → (status_of id (trigger_content_sync env available now id datasource user selected force s).1
          ≡ some (
              job_status
                (trigger_content_sync env available now id datasource user selected force s).0))
        × (sync_status_of datasource
              (trigger_content_sync env available now id datasource user selected force s).1
            ≡ elim (get datasource s.datasources) [
              | none ↦ none
              | some ds ↦ some (
                  if is_syncable env user ds
                  then DataSourceSyncStatus.processing
                  else ds.sync_status)
            ])
  unfolding trigger_content_sync create_job new_job observe log_event
  trigger_content_sync_lem now id datasource user selected force s fresh =
      let created =
        create_job now id content_sync user.id (some datasource) none
          (some (
            object (
              field "force" (boolean force) (
                field "datasource_id" (ident datasource)
                  (field "selected_files_count" (number (selected_count selected)) end)))))
          s in
      let prepared =
        prepare_content_sync_job env available datasource user selected force created.1 in
      (
        publish_prepared-status env content_sync_jobs now created.0 prepared
            (ap (get id) (prepare_content_sync_job-jobs datasource user selected force created.1)
              ∙ get-append_fresh id s.jobs created.0 fresh refl)
            refl,
        ap
              (λ (rows : List DataSource).
                Option.map (λ (ds : DataSource). ds.sync_status) (get datasource rows))
              (publish_prepared-datasources env content_sync_jobs now created.0 prepared)
            ∙ prepare_content_sync_job-status datasource user selected force created.1,
      )
