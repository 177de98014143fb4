-- ===== src/Sync/Ingestion/Whole.antt =====
-- _ingest_prepared_files, _sync_with_hayhooks, and the verdict of process_ingestion_message.
use alice_skilltech_tools.Prelude.{
  ℕ, suc, String, Bool, true, false, ◌&&◌, Option, none, some, List, [], ◌∷◌, if◌then◌else◌, ◌==◌,
  ltb,
}
use alice_skilltech_tools.Sync.Inventory.{
  FileInfo, IndexedFile, nonempty, partition_by_inventory, inventory_of, index_orphans,
}
use alice_skilltech_tools.Sync.Ingestion.{
  SyncRun, SyncStats, job_cancelled, returned, Answer, Preparation, prepare_files, call,
  delete_documents, publish_file_state, skipped_file, ingest_one_file,
}

-- How a whole sync ends: JobCancelledException, another exception, or the statistics.
pub data SyncEnd : Type 0 where
  sync_cancelled : SyncRun → SyncEnd
  sync_raised : SyncEnd
  synced : SyncRun → SyncEnd

-- One call of `_ingest_prepared_files`, from a position on and with the flag it has there.
unfoldable pub ingest_prepared_files : (ℕ → Answer) → ℕ → Bool → List FileInfo → SyncRun → SyncEnd
ingest_prepared_files answers n pending_recreate [] r = synced r
ingest_prepared_files answers n pending_recreate (f ∷ files) r =
    elim (ingest_one_file f pending_recreate (answers n) r) [
      | job_cancelled r' ↦ sync_cancelled r'
      | returned succeeded r' ↦
          ingest_prepared_files answers (suc n) (if succeeded then false else pending_recreate)
            files r'
    ]

-- The loop over the skipped files.
unfoldable pub skip_files : List FileInfo → SyncRun → SyncRun
skip_files [] r = r
skip_files (f ∷ files) r = skip_files files (
    publish_file_state f skipped_file none
      (record r { stats = record r.stats { skipped = suc r.stats.skipped } }))

-- The ids of the entries that have one.
unfoldable pub ids_of_entries : List IndexedFile → List String
ids_of_entries [] = []
ids_of_entries (entry ∷ entries) =
    let rest = ids_of_entries entries in
    elim (nonempty entry.file_id) [ none ↦ rest | some id ↦ id ∷ rest ]

-- The filenames of the entries that have no id.
unfoldable pub names_of_entries : List IndexedFile → List String
names_of_entries [] = []
names_of_entries (entry ∷ entries) =
    let rest = names_of_entries entries in
    elim (nonempty entry.file_id) [
      | none ↦ elim (nonempty entry.filename) [ none ↦ rest | some name ↦ name ∷ rest ]
      | some id ↦ rest
    ]

unfoldable pub delete_indexed_entries : List IndexedFile → SyncRun → SyncRun
delete_indexed_entries entries r =
    call (delete_documents (ids_of_entries entries) (names_of_entries entries)) r

unfoldable pub delete_orphans : List IndexedFile → SyncRun → SyncRun
delete_orphans [] r = r
delete_orphans (entry ∷ entries) r = delete_indexed_entries (entry ∷ entries) r

-- A failure of the delete is only logged.
unfoldable pub delete_index_orphans :
    List (String × IndexedFile) → List FileInfo → SyncRun → SyncRun
delete_index_orphans inventory objects_to_sync r =
    delete_orphans (index_orphans inventory objects_to_sync) r

unfoldable pub skip_unchanged_files :
    List (String × IndexedFile) → Bool → List FileInfo → SyncRun → List FileInfo × SyncRun
skip_unchanged_files inventory force_ocr objects_to_sync r =
    let plan = partition_by_inventory objects_to_sync inventory force_ocr in
    (
      plan.to_ingest,
      record (delete_index_orphans inventory objects_to_sync (skip_files plan.skipped r)) {
        keys_to_replace = plan.keys_to_replace;
      },
    )

unfoldable pub prepare_and_ingest :
    (ℕ → Preparation) → (ℕ → Answer) → Bool → List FileInfo → SyncRun → SyncEnd
prepare_and_ingest preparation answers force files r =
    let prepared = prepare_files preparation 0 files r in
    ingest_prepared_files answers 0 force prepared.0 prepared.1

unfoldable pub new_run : SyncRun
new_run = record {
  stats = record { succeeded = 0; failed = 0; skipped = 0; failed_files = []; chunks_created = 0 };
  keys_to_replace = [];
  events = [];
  calls = [];
}

-- `_sync_with_hayhooks`. The service's inventory is none where it fails or reports no success.
unfoldable pub sync_with_hayhooks :
    Option (List IndexedFile)
    → (ℕ → Preparation)
    → (ℕ → Answer)
    → Bool
    → Bool
    → List FileInfo
    → SyncEnd
sync_with_hayhooks index preparation answers force force_ocr [] = synced new_run
sync_with_hayhooks index preparation answers true force_ocr (f ∷ files) =
    prepare_and_ingest preparation answers true (f ∷ files) new_run
sync_with_hayhooks none preparation answers false force_ocr (f ∷ files) = sync_raised
sync_with_hayhooks (some entries) preparation answers false force_ocr (f ∷ files) =
    let planned = skip_unchanged_files (inventory_of entries []) force_ocr (f ∷ files) new_run in
    prepare_and_ingest preparation answers false planned.0 planned.1

-- Whether `process_ingestion_message` raises after a sync with these statistics.
unfoldable pub is_all_failed : SyncStats → Bool
is_all_failed s = s.succeeded == 0 && s.skipped == 0 && ltb 0 s.failed
