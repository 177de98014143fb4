-- ===== src/Examples/Data.antt =====
-- Two jobs of one knowledge base: a running ingestion with two files, and a pending one.
use alice_skilltech_tools.Prelude.{ℕ, String, none, some, [], ◌∷◌}
use alice_skilltech_tools.Store.{
  Store, Job, JobFile, JobEvent, JobStatus, running, pending, ingestion, KnowledgeBase,
  KnowledgeBaseStatus, partial_failure,
}
use alice_skilltech_tools.Store.Json.{
  ident, string, object, array, cons, nil, Fields, field, end, text,
}

-- A minute in microseconds.
abbrev pub minute : ℕ
minute = 60000000

abbrev pub sync_job : Fields
sync_job = field "kind" (string "ingestion") end

abbrev pub params : Fields
params =
    field "deferred_ingestion"
      (object (
        field "sync_job" (object sync_job)
          (field "waiting_for_datasources" (array (cons (ident 21) (cons (ident 22) nil))) end)))
      end

abbrev pub running_job : Job
running_job = record {
  id = 1;
  job_type = ingestion;
  status = running;
  user_id = 5;
  datasource_id = none;
  knowledge_base_id = some 10;
  created_at = 0;
  started_at = some 0;
  completed_at = none;
  progress_updated_at = some minute;
  progress_current = 0;
  progress_total = 2;
  progress_message = none;
  result_summary = none;
  error_message = none;
  error_details = none;
  input_params = none;
  retry_count = 0;
}

abbrev pub parked_job : Job
parked_job = record running_job {
  id = 2;
  status = pending;
  created_at = 3000000000;
  started_at = none;
  progress_updated_at = none;
  progress_total = 0;
  input_params = some (text (object params));
}

abbrev pub file_row : String → String → JobFile
file_row name state = record {
  job_id = 1;
  external_file_id = name;
  filename = name;
  state = state;
  error_message = none;
  error_detail = none;
  error_code = none;
  created_at = 0;
  updated_at = 0;
}

abbrev pub created : ℕ → JobStatus → JobEvent
created id status = record {
  job_id = id;
  event_type = "created";
  old_status = none;
  new_status = some status;
  message = none;
  created_at = 0;
}

abbrev pub kb : KnowledgeBase
kb = record {
  id = 10;
  user_id = 5;
  name = "course";
  description = none;
  status = KnowledgeBaseStatus.processing;
  last_sync = none;
  last_sync_error = some partial_failure;
  index_manifest = none;
}

abbrev pub store : Store
store = record {
  jobs = running_job ∷ parked_job ∷ [];
  job_files = file_row "a" "ingested" ∷ file_row "b" "downloaded" ∷ [];
  job_events = created 1 running ∷ created 2 pending ∷ [];
  knowledge_bases = kb ∷ [];
  datasources = [];
  links = [];
  metrics = [];
  published = [];
}
