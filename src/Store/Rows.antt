-- ===== src/Store/Rows.antt =====
-- api/app/models/tables.py: the rows that the job and synchronisation code reads and writes.
use alice_skilltech_tools.Prelude.{ℕ, String, Option}
use alice_skilltech_tools.Prelude.Table.{HasKey}
use alice_skilltech_tools.Store.Json.{JsonText}
use alice_skilltech_tools.Store.Enums.{
  JobType, JobStatus, KnowledgeBaseStatus, DataSourceSyncStatus, SyncErrorCode, SourceType,
}

pub record Job : Type 0 where
  pub id : ℕ
  pub job_type : JobType
  pub status : JobStatus
  pub user_id : ℕ
  pub datasource_id : Option ℕ
  pub knowledge_base_id : Option ℕ
  pub created_at : ℕ
  pub started_at : Option ℕ
  pub completed_at : Option ℕ
  pub progress_updated_at : Option ℕ
  pub progress_current : ℕ
  pub progress_total : ℕ
  pub progress_message : Option String
  pub result_summary : Option JsonText
  pub error_message : Option String
  pub error_details : Option String
  pub input_params : Option JsonText
  pub retry_count : ℕ

-- `state` is a text: the worker sends it, and nothing checks it.
pub record JobFile : Type 0 where
  pub job_id : ℕ
  pub external_file_id : String
  pub filename : String
  pub state : String
  pub error_message : Option String
  pub error_detail : Option String
  pub error_code : Option String
  pub created_at : ℕ
  pub updated_at : ℕ

pub record JobEvent : Type 0 where
  pub job_id : ℕ
  pub event_type : String
  pub old_status : Option JobStatus
  pub new_status : Option JobStatus
  pub message : Option String
  pub created_at : ℕ

pub record KnowledgeBase : Type 0 where
  pub id : ℕ
  pub user_id : ℕ
  pub name : String
  pub description : Option String
  pub status : KnowledgeBaseStatus
  pub last_sync : Option ℕ
  pub last_sync_error : Option SyncErrorCode
  pub index_manifest : Option JsonText

pub record DataSource : Type 0 where
  pub id : ℕ
  pub source_type : SourceType
  pub sync_status : DataSourceSyncStatus
  pub last_sync_error : Option SyncErrorCode

-- KnowledgeBaseDatasourceLink; the empty text is `none`.
pub record Link : Type 0 where
  pub knowledge_base_id : ℕ
  pub datasource_id : ℕ
  pub selection : Option JsonText

instance abbrev pub job_key : HasKey Job
job_key = record { key = λ job. job.id }

instance abbrev pub knowledge_base_key : HasKey KnowledgeBase
knowledge_base_key = record { key = λ kb. kb.id }

instance abbrev pub datasource_key : HasKey DataSource
datasource_key = record { key = λ ds. ds.id }
