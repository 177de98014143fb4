-- ===== src/Workers/Preparation.antt =====
-- What the API prepares for a worker: `prepare_haystack_sync` of
-- api/app/services/knowledgebase_service.py, `prepare_metadata_sync_job` of datasource_service.py and
-- `_publish_metadata_sync_for_datasources` of indexing_service.py.
--
-- What other tables hold of a data source (its owner, the credentials of its platform, the uploaded
-- files behind its selections) is a field of Environment, and so are the broker's refusals. A selection
-- is a JSON list, as the program writes it. A result without a payload is an exception of the function.
use alice_skilltech_tools.Prelude.{
  ℕ, String, Bool, true, false, not, ◌||◌, Option, none, some, List, [], ◌∷◌, if◌then◌else◌, ◌==◌,
}
use alice_skilltech_tools.Prelude.Table.{get}
use alice_skilltech_tools.Store.{
  Store, Message, metadata_sync_jobs, publish, save_datasource, job_key, knowledge_base_key,
  datasource_key, KnowledgeBase, KnowledgeBaseStatus, is_processing, DataSource,
  DataSourceSyncStatus, Link, SourceType, moodle, nextcloud, file,
}
use alice_skilltech_tools.Store.Json.{
  Json, boolean, number, string, ident, array, object, Items, nil, cons, Fields, field, end,
  fields_set, JsonText, text,
}
use alice_skilltech_tools.Index.Manifest.{
  Settings, Wire, wire_embedding_config, wire_config_for_manifest,
}
use alice_skilltech_tools.Index.Completion.{KbUpdate, update_knowledge_base}

pub record User : Type 0 where
  pub id : ℕ
  pub email : String
  pub role : String

pub record Environment : Type 0 where
  pub settings : Settings
  pub digest : Json → String
  pub parse_int : String → Option ℕ
  pub str_of : Json → String
  -- The text that fail_job gets, if the broker refuses a message.
  pub refusal : Message → Option String
  -- The text that fail_job gets, if the preparation raises.
  pub unprepared : String
  pub haystack_url : String
  -- datasource.owner
  pub owner_of : ℕ → User
  -- The keys and values of the credentials, if the data source has a configuration.
  pub credentials : ℕ → Fields
  -- The files of a FILE data source that a selection names.
  pub resolved_files : ℕ → Items → Items

-- d.update(e)
unfoldable pub fields_update : Fields → Fields → Fields
fields_update d end = d
fields_update d (field k v e) = fields_update (fields_set k v d) e

unfoldable pub source_text : SourceType → String
source_text moodle = "moodle"
source_text nextcloud = "nextcloud"
source_text file = "file"

module _ (env : Environment) where
  unfoldable pub metadata_payload : DataSource → User → Bool → Fields
  metadata_payload ds user force =
      fields_update
        (field "operation" (string "sync_metadata") (
          field "datasource_id" (ident ds.id) (
            field "source_type" (string (source_text ds.source_type)) (
              field "owner_email" (string user.email)
                (field "owner_role" (string user.role) (field "force" (boolean force) end))))))
        (env.credentials ds.id)

  unfoldable pub prepare_metadata_sync_job : ℕ → User → Bool → Store → Option Fields × Store
  prepare_metadata_sync_job id user force s = elim (get id s.datasources) [
    | none ↦ (none, s)
    | some ds ↦ if not ((env.owner_of ds.id).id == user.id) then (none, s) else (
      some (metadata_payload ds user force),
      save_datasource (record ds { sync_status = DataSourceSyncStatus.processing }) s,
    )
  ]

  -- One round of the loop: whether the job was published, and the store.
  unfoldable pub publish_metadata_sync : ℕ → User → Store → Bool × Store
  publish_metadata_sync id user s =
      let prepared = prepare_metadata_sync_job id user true s in
      elim prepared.0 [
        | none ↦ (false, prepared.1)
        | some job ↦ elim (env.refusal (metadata_sync_jobs (object job))) [
          | none ↦ (true, publish (metadata_sync_jobs (object job)) prepared.1)
          | some _ ↦ (false, prepared.1)
        ]
      ]

  -- `_publish_metadata_sync_for_datasources`
  unfoldable pub publish_metadata_syncs : List ℕ → User → Store → List ℕ × Store
  publish_metadata_syncs [] user s = ([], s)
  publish_metadata_syncs (id ∷ ids) user s =
      let one = publish_metadata_sync id user s in
      let rest = publish_metadata_syncs ids user one.1 in
      (if one.0 then id ∷ rest.0 else rest.0, rest.1)

  -- The selection of a link; the empty list where the text is missing, malformed or no list.
  unfoldable pub selected_items : Option JsonText → Items
  selected_items (some (text (array items))) = items
  selected_items _ = nil

  -- The dict for a data source with selected files.
  unfoldable pub datasource_info : DataSource → Items → Fields
  datasource_info ds items =
      let owner = env.owner_of ds.id in
      let info = λ (selected : Items). field "datasource_id" (ident ds.id) (
        field "source_type" (string (source_text ds.source_type)) (
          field "owner_email" (string owner.email) (
            field "owner_role" (string owner.role)
              (field "selected_files" (array selected) end)))) in
      elim ds.source_type [
        | file ↦ info (env.resolved_files ds.id items)
        | _ ↦ fields_update (info items) (env.credentials ds.id)
      ]

  -- What one link adds; nothing for a data source that is gone or of which nothing is selected.
  unfoldable pub info_of_link : List DataSource → Link → Option Fields
  info_of_link datasources link = elim (get link.datasource_id datasources) [
    | none ↦ none
    | some ds ↦ elim (selected_items link.selection) [
      | nil ↦ none
      | cons v items ↦ some (datasource_info ds (cons v items))
    ]
  ]

  -- `datasources_data`, from the links of the knowledge base.
  unfoldable pub datasources_data : ℕ → List DataSource → List Link → Items
  datasources_data kb datasources [] = nil
  datasources_data kb datasources (link ∷ links) =
      let rest = datasources_data kb datasources links in
      if link.knowledge_base_id == kb
      then elim (info_of_link datasources link) [
        | none ↦ rest
        | some info ↦ cons (object info) rest
      ]
      else rest

  unfoldable pub wire_json : Wire → Json
  wire_json w = object (
      field "model" (string w.model) (
        field "dim" (number w.dim)
          (field "distance" (string w.distance) (field "sparse_model" w.sparse_model end))))

  unfoldable pub text_or_empty : Option String → String
  text_or_empty none = ""
  text_or_empty (some s) = s

  unfoldable pub sync_payload : KnowledgeBase → User → Items → Bool → Bool → Fields
  sync_payload kb user datasources force force_ocr = field "knowledge_base_id" (ident kb.id) (
      field "knowledge_base_name" (string kb.name) (
        field "knowledge_base_description" (string (text_or_empty kb.description)) (
          field "owner_email" (string user.email) (
            field "haystack_url" (string env.haystack_url) (
              field "datasources" (array datasources) (
                field "force" (boolean force) (
                  field "force_ocr" (boolean force_ocr) (
                    field "embedding_config"
                      (wire_json (
                        if force
                        then wire_embedding_config env.settings
                        else wire_config_for_manifest env.parse_int env.str_of env.settings
                            kb.index_manifest))
                      end))))))))

  -- The columns that prepare_haystack_sync gives to update_knowledge_base.
  unfoldable pub start_update : KbUpdate
  start_update = record {
    name = none;
    description = none;
    status = some KnowledgeBaseStatus.processing;
    last_sync = none;
    last_sync_error = none;
    user_id = none;
    index_manifest = none;
  }

  -- From the data sources on; without any, an HTTPException is raised.
  unfoldable pub start_sync :
      KnowledgeBase → User → Bool → Bool → Items → Store → Option Fields × Store
  start_sync kb user force force_ocr nil s = (none, s)
  start_sync kb user force force_ocr (cons info infos) s = (
    some (sync_payload kb user (cons info infos) force force_ocr),
    (update_knowledge_base kb.id start_update s).1,
  )

  -- The payload `sync_job`, or an HTTPException.
  unfoldable pub prepare_haystack_sync : ℕ → User → Bool → Bool → Store → Option Fields × Store
  prepare_haystack_sync id user force force_ocr s = elim (get id s.knowledge_bases) [
    | none ↦ (none, s)
    | some kb ↦
        if not (kb.user_id == user.id) || is_processing kb.status
        then (none, s)
        else start_sync kb user force force_ocr (datasources_data id s.datasources s.links) s
  ]
