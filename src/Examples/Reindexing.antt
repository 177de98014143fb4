-- ===== src/Examples/Reindexing.antt =====
-- A reindex of a knowledge base with one Moodle data source, while an ingestion is running.
use alice_skilltech_tools.Prelude.{false, none, some, [], ◌∷◌, refl, leb→le}
use alice_skilltech_tools.Prelude.Table.{has}
use alice_skilltech_tools.Store.{Store, DataSource, moodle, DataSourceSyncStatus}
use alice_skilltech_tools.Store.Json.{string, end, array, cons, nil, text, field}
use alice_skilltech_tools.Jobs.Queries.{is_running_or_pending, refers_to}
use alice_skilltech_tools.Workers.Preparation.{User, Environment}
use alice_skilltech_tools.Workers.Reindex.{trigger_reindex}
use alice_skilltech_tools.Workers.Reindex.Active.{LeavesActive, trigger_reindex-LeavesActive}
use alice_skilltech_tools.Workers.Reindex.Outcome.{LeavesStatus, trigger_reindex-LeavesStatus}
use alice_skilltech_tools.Examples.Data.{running_job, store}
use alice_skilltech_tools.Examples.Indexes.{settings, digest, no_number, as_text}

abbrev pub user : User
user = record { id = 5; email = "a@example.org"; role = "user" }

-- A broker that takes every message.
abbrev pub env : Environment
env = record {
  settings = settings;
  digest = digest;
  parse_int = no_number;
  str_of = as_text;
  refusal = λ message. none;
  unprepared = "Failed to publish job";
  haystack_url = "http://haystack";
  owner_of = λ id. user;
  credentials = λ id. field "moodle_domain" (string "moodle.example.org") end;
  resolved_files = λ id items. items;
}

abbrev pub course : DataSource
course = record {
  id = 21;
  source_type = moodle;
  sync_status = DataSourceSyncStatus.ready;
  last_sync_error = none;
}

abbrev pub linked_store : Store
linked_store = record store {
  jobs = running_job ∷ [];
  datasources = course ∷ [];
  links =
      record {
        knowledge_base_id = 10;
        datasource_id = 21;
        selection = some (text (array (cons (string "course:3") nil)));
      }
      ∷ [];
}

trigger_reindex-LeavesActive_example :
    LeavesActive 10 (trigger_reindex env 100 3 10 user false false linked_store)
unfolding has is_running_or_pending refers_to
trigger_reindex-LeavesActive_example =
    trigger_reindex-LeavesActive env 100 3 10 user false false linked_store (leb→le 1 1 refl) refl

trigger_reindex-LeavesStatus_example :
    LeavesStatus 10 (trigger_reindex env 100 3 10 user false false linked_store)
trigger_reindex-LeavesStatus_example =
    trigger_reindex-LeavesStatus env 100 3 10 user false false linked_store
