-- ===== src/Sync/Ingestion.antt =====
-- sync/worker/src/worker.py: _sync_with_hayhooks and what it calls for every file.
--
-- What the storage, the file processors, the broker and the ingestion service answer is a function
-- of the file's position in its list. The calls of the ingestion service and the published states
-- are logs, the newest entry first. Messages, error texts and metrics are left out.
pub mod Whole
pub mod Accounting
pub mod Ordering
use alice_skilltech_tools.Prelude.{
  ℕ, suc, ◌+◌, String, Bool, true, false, not, ◌&&◌, Option, none, some, List, [], ◌∷◌, ◌++◌,
  if◌then◌else◌, str_eq, any, filter, map, length, ◌==◌, ltb,
}
use alice_skilltech_tools.Sync.Inventory.{
  FileInfo, IndexedFile, nonempty, inventory_key, key_of, str_elem, key_elem, SyncPlan,
  partition_by_inventory, inventory_of, index_orphans,
}

pub data JobFileState : Type 0 where
  pending_file : JobFileState
  downloading : JobFileState
  downloaded : JobFileState
  ingesting : JobFileState
  ingested : JobFileState
  failed_file : JobFileState
  skipped_file : JobFileState

pub data JobFileErrorCode : Type 0 where
  download_failed : JobFileErrorCode
  processor_failed : JobFileErrorCode
  ingestion_failed : JobFileErrorCode
  ingestion_timeout : JobFileErrorCode
  empty_content : JobFileErrorCode

pub record FileEvent : Type 0 where
  pub file : FileInfo
  pub state : JobFileState
  pub error_code : Option JobFileErrorCode

-- The end of one call of `ingest_files`.
pub data IngestEnd : Type 0 where
  raised : IngestEnd
  answered : (cancelled success timed_out : Bool) (documents_ingested : ℕ) → IngestEnd

-- An empty list of ids or names stands for None.
pub data ServiceCall : Type 0 where
  delete_documents : (file_ids file_names : List String) → ServiceCall
  ingest_files : (file : FileInfo) (recreate_index : Bool) (end_of_call : IngestEnd) → ServiceCall

pub record SyncStats : Type 0 where
  pub succeeded : ℕ
  pub failed : ℕ
  pub skipped : ℕ
  pub failed_files : List String
  pub chunks_created : ℕ

pub record SyncRun : Type 0 where
  pub stats : SyncStats
  pub keys_to_replace : List String
  pub events : List FileEvent
  pub calls : List ServiceCall

-- `_publish_file_state`
unfoldable pub publish_file_state :
    FileInfo → JobFileState → Option JobFileErrorCode → SyncRun → SyncRun
publish_file_state f state code r = record r {
  events = record { file = f; state = state; error_code = code } ∷ r.events;
}

unfoldable pub record_file_failure : FileInfo → JobFileErrorCode → SyncRun → SyncRun
record_file_failure f code r = record (publish_file_state f failed_file (some code) r) {
  stats = record r.stats {
    failed = suc r.stats.failed;
    failed_files = r.stats.failed_files ++ f.filename ∷ [];
  };
}

unfoldable pub call : ServiceCall → SyncRun → SyncRun
call c r = record r { calls = c ∷ r.calls }

-- How the storage and the file processor answer for one file.
pub data Preparation : Type 0 where
  download_raises : Preparation
  processor_raises : Preparation
  no_output : Preparation
  processed : Preparation

-- `_prepare_single_file`, and whether it returns an entry.
unfoldable pub prepare_single_file : FileInfo → Preparation → SyncRun → Bool × SyncRun
prepare_single_file f download_raises r =
    (false, record_file_failure f download_failed (publish_file_state f downloading none r))
prepare_single_file f processor_raises r =
    (false, record_file_failure f processor_failed (publish_file_state f downloading none r))
prepare_single_file f no_output r =
    (false, record_file_failure f processor_failed (publish_file_state f downloading none r))
prepare_single_file f processed r =
    (true, publish_file_state f downloaded none (publish_file_state f downloading none r))

-- The loop, from a position on.
unfoldable pub prepare_files :
    (ℕ → Preparation) → ℕ → List FileInfo → SyncRun → List FileInfo × SyncRun
prepare_files preparation n [] r = ([], r)
prepare_files preparation n (f ∷ files) r =
    let one = prepare_single_file f (preparation n) r in
    let rest = prepare_files preparation (suc n) files one.1 in
    (if one.0 then f ∷ rest.0 else rest.0, rest.1)

-- How the broker and the ingestion service answer for one file.
pub record Answer : Type 0 where
  pub is_job_cancelled : Bool
  pub delete_raises : Bool
  pub end_of_call : IngestEnd

-- JobCancelledException, or the value that is returned.
pub data Step : Type 0 where
  job_cancelled : SyncRun → Step
  returned : Bool → SyncRun → Step

-- keys_to_replace.discard(key)
unfoldable pub discard : Option String → List String → List String
discard none ks = ks
discard (some k) ks = filter (λ j. not (str_eq j k)) ks

unfoldable pub ids_of : FileInfo → List String
ids_of f = elim (nonempty f.file_id) [ none ↦ [] | some id ↦ id ∷ [] ]

-- The filename, when the file has no id.
unfoldable pub names_of : FileInfo → List String
names_of f = elim (nonempty f.file_id) [ none ↦ f.filename ∷ [] | some id ↦ [] ]

-- What the end of the call leads to.
unfoldable pub settle : FileInfo → IngestEnd → SyncRun → Step
settle f raised r = returned false (record_file_failure f ingestion_failed r)
settle f (answered cancelled success timed_out documents_ingested) r =
    if cancelled
    then job_cancelled (publish_file_state f skipped_file none r)
    else if not success
    then returned false
        (record_file_failure f (if timed_out then ingestion_timeout else ingestion_failed) r)
    else if documents_ingested == 0
    then returned false (record_file_failure f empty_content r)
    else returned true (
        publish_file_state f ingested none (record r {
          stats = record r.stats {
            succeeded = suc r.stats.succeeded;
            chunks_created = r.stats.chunks_created + documents_ingested;
          };
        }))

unfoldable pub submit : FileInfo → Bool → IngestEnd → SyncRun → Step
submit f recreate_index end_of_call r =
    settle f end_of_call (call (ingest_files f recreate_index end_of_call) r)

-- The delete of stale chunks, where the file is marked for it, and the ingestion after it.
unfoldable pub replace_and_submit : FileInfo → Bool → Answer → SyncRun → Step
replace_and_submit f recreate_index answer r =
    let after = call (delete_documents (ids_of f) (names_of f)) r in
    if not (key_elem (key_of f) r.keys_to_replace)
    then submit f recreate_index answer.end_of_call r
    else if answer.delete_raises
    then returned false (record_file_failure f ingestion_failed after)
    else submit f recreate_index answer.end_of_call
        (record after { keys_to_replace = discard (key_of f) r.keys_to_replace })

unfoldable pub ingest_one_file : FileInfo → Bool → Answer → SyncRun → Step
ingest_one_file f recreate_index answer r =
    if answer.is_job_cancelled
    then job_cancelled r
    else replace_and_submit f recreate_index answer (publish_file_state f ingesting none r)
