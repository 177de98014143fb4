-- ===== src/Index/Completion.antt =====
-- KnowledgeBaseRepository.update_knowledge_base (api/app/repositories/knowledge_base.py) and the
-- handlers of finished synchronisations (api/app/services/knowledgebase_service.py).
--
-- A handler's message is a JSON object; `none` as a handler's result is the exception that
-- `UUID(kb_id)` raises on a value that is no UUID. What is only logged is left out.
pub mod Stamps
use alice_skilltech_tools.Prelude.{
  ℕ, String, Bool, true, false, not, ◌||◌, Option, none, some, if◌then◌else◌,
}
use alice_skilltech_tools.Prelude.Table.{get}
use alice_skilltech_tools.Store.{
  Store, save_kb, KnowledgeBase, KnowledgeBaseStatus, ready, error, SyncErrorCode, failed,
  partial_failure, knowledge_base_key,
}
use alice_skilltech_tools.Store.Json.{
  Json, null, boolean, number, ident, Fields, fields_get, JsonText, truthy,
}
use alice_skilltech_tools.Index.Manifest.{Settings, desired_manifest, to_json, get_or}

-- The optional arguments of update_knowledge_base.
pub record KbUpdate : Type 0 where
  pub name : Option String
  pub description : Option String
  pub status : Option KnowledgeBaseStatus
  pub last_sync : Option ℕ
  pub last_sync_error : Option SyncErrorCode
  pub user_id : Option ℕ
  pub index_manifest : Option JsonText

-- if value is not None: column = value
abbrev pub given : {A : Type 0} → Option A → A → A
given none old = old
given (some new) old = new

-- The same for a column that may be null.
abbrev pub given_or_null : {A : Type 0} → Option A → Option A → Option A
given_or_null none old = old
given_or_null (some new) old = some new

unfoldable pub update_kb_row : KbUpdate → KnowledgeBase → KnowledgeBase
update_kb_row u kb = record kb {
  name = given u.name kb.name;
  description = given_or_null u.description kb.description;
  user_id = given u.user_id kb.user_id;
  status = given u.status kb.status;
  last_sync = given_or_null u.last_sync kb.last_sync;
  last_sync_error = given_or_null u.last_sync_error kb.last_sync_error;
  index_manifest = given_or_null u.index_manifest kb.index_manifest;
}

unfoldable pub update_knowledge_base : ℕ → KbUpdate → Store → Option KnowledgeBase × Store
update_knowledge_base id u s = elim (get id s.knowledge_bases) [
  | none ↦ (none, s)
  | some kb ↦ (some (update_kb_row u kb), save_kb (update_kb_row u kb) s)
]

-- The manifest that a completion stamps.
unfoldable pub stamp : Settings → Bool → KnowledgeBase → Option JsonText
stamp settings force kb = elim kb.index_manifest [
  | none ↦ some (to_json (desired_manifest settings))
  | some _ ↦ if force then some (to_json (desired_manifest settings)) else none
]

unfoldable pub completion_update : Settings → ℕ → Bool → Bool → KnowledgeBase → KbUpdate
completion_update settings now files_failed force kb = record {
  name = none;
  description = none;
  status = some KnowledgeBaseStatus.ready;
  last_sync = some now;
  last_sync_error = if files_failed then some partial_failure else none;
  user_id = none;
  index_manifest = stamp settings force kb;
}

unfoldable pub complete_kb : Settings → ℕ → Bool → Bool → ℕ → Store → Store
complete_kb settings now files_failed force id s = elim (get id s.knowledge_bases) [
  | none ↦ s
  | some kb ↦ (update_knowledge_base id (completion_update settings now files_failed force kb) s).1
]

unfoldable pub handle_knowledgebase_sync_completion : Settings → ℕ → Fields → Store → Option Store
handle_knowledgebase_sync_completion settings now message s =
    let files_failed = truthy (get_or "files_failed" (number 0) message) in
    let force = truthy (get_or "force" (boolean false) message) in
    elim (get_or "knowledge_base_id" null message) [
      | ident id ↦ some (complete_kb settings now files_failed force id s)
      | other ↦ if truthy other then none else some s
    ]

unfoldable pub failure_update : KbUpdate
failure_update = record {
  name = none;
  description = none;
  status = some KnowledgeBaseStatus.error;
  last_sync = none;
  last_sync_error = some SyncErrorCode.failed;
  user_id = none;
  index_manifest = none;
}

unfoldable pub fail_kb : ℕ → Store → Store
fail_kb id s = elim (get id s.knowledge_bases) [
  | none ↦ s
  | some kb ↦ (update_knowledge_base id failure_update s).1
]

unfoldable pub handle_knowledgebase_sync_failure : Fields → Store → Option Store
handle_knowledgebase_sync_failure message s = elim (get_or "knowledge_base_id" null message) [
  | ident id ↦ some (fail_kb id s)
  | other ↦ if truthy other then none else some s
]
