-- ===== src/Store/Enums.antt =====
-- api/app/models/enums.py: the enumerations that the job and synchronisation code uses.
use alice_skilltech_tools.Prelude.{Bool, true, false}

pub data JobType : Type 0 where
  metadata_sync content_sync ingestion : JobType

pub data JobStatus : Type 0 where
  pending running completed failed cancelled stalled : JobStatus

pub data KnowledgeBaseStatus : Type 0 where
  ready processing error : KnowledgeBaseStatus

pub data DataSourceSyncStatus : Type 0 where
  ready processing error : DataSourceSyncStatus

pub data SyncErrorCode : Type 0 where
  stalled cancelled failed partial_failure : SyncErrorCode

pub data SourceType : Type 0 where
  moodle nextcloud file : SourceType

-- Python's == on the members.
abbrev pub job_type_eq : JobType → JobType → Bool
job_type_eq metadata_sync metadata_sync = true
job_type_eq content_sync content_sync = true
job_type_eq ingestion ingestion = true
job_type_eq _ _ = false

abbrev pub status_eq : JobStatus → JobStatus → Bool
status_eq pending pending = true
status_eq running running = true
status_eq completed completed = true
status_eq failed failed = true
status_eq cancelled cancelled = true
status_eq JobStatus.stalled JobStatus.stalled = true
status_eq _ _ = false

abbrev pub is_processing : KnowledgeBaseStatus → Bool
is_processing KnowledgeBaseStatus.processing = true
is_processing _ = false

abbrev pub is_syncing : DataSourceSyncStatus → Bool
is_syncing DataSourceSyncStatus.processing = true
is_syncing _ = false

abbrev pub is_moodle : SourceType → Bool
is_moodle moodle = true
is_moodle _ = false
