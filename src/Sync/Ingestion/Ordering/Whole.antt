-- ===== src/Sync/Ingestion/Ordering/Whole.antt =====
-- The order of the calls, through a whole sync.
use mathlib.Core.Path.{subst}
use Prim.{Unit, tt}
use alice_skilltech_tools.Prelude.{
  ℕ, suc, String, Bool, true, false, ◌≡◌, refl, sym, Option, none, some, List, [], ◌∷◌, ◌++◌,
  if◌then◌else◌, arith,
}
use alice_skilltech_tools.Sync.Inventory.{
  str_elem, FileInfo, IndexedFile, partition_by_inventory, inventory_of, index_orphans,
}
use alice_skilltech_tools.Sync.Ingestion.{
  SyncRun, Step, job_cancelled, returned, Answer, delete_documents, record_file_failure,
  publish_file_state, call, ingest_one_file, Preparation, prepare_single_file, prepare_files,
  download_raises, processor_raises, no_output, processed,
}
use alice_skilltech_tools.Sync.Ingestion.Whole.{
  SyncEnd, sync_cancelled, sync_raised, synced, ingest_prepared_files, skip_files, ids_of_entries,
  names_of_entries, delete_indexed_entries, delete_orphans, delete_index_orphans,
  skip_unchanged_files, prepare_and_ingest, new_run, sync_with_hayhooks,
}
use alice_skilltech_tools.Sync.Ingestion.Ordering.{
  RecreatesUntilIngested, KeepsIngested, IsOrdered, StaysOrdered, and_false,
  ingest_one_file-StaysOrdered,
}

unfoldable pub CallsInOrder : Bool → SyncEnd → Type 0
CallsInOrder force (sync_cancelled r) = RecreatesUntilIngested force r.calls × KeepsIngested r.calls
CallsInOrder force sync_raised = Unit
CallsInOrder force (synced r) = RecreatesUntilIngested force r.calls × KeepsIngested r.calls

ingest_prepared_files-CallsInOrder :
    (force : Bool) (answers : ℕ → Answer) (n : ℕ) (pending : Bool) (files : List FileInfo)
    (r : SyncRun)
    → IsOrdered force pending r.calls r.keys_to_replace
    → CallsInOrder force (ingest_prepared_files answers n pending files r)
unfolding CallsInOrder StaysOrdered ingest_prepared_files
ingest_prepared_files-CallsInOrder force answers n pending [] r o = (o.recreates, o.keeps)
ingest_prepared_files-CallsInOrder force answers n pending (f ∷ files) r o =
    go (ingest_one_file f pending (answers n) r)
      (ingest_one_file-StaysOrdered force pending f (answers n) r o)
      (λ succeeded.
        ingest_prepared_files-CallsInOrder force answers (suc n)
          (if succeeded then false else pending) files)
  where
    after : Bool → SyncRun → SyncEnd
    after succeeded =
        ingest_prepared_files answers (suc n) (if succeeded then false else pending) files

    go :
        (s : Step)
        → StaysOrdered force pending s
        → ((succeeded : Bool) (r' : SyncRun)
            → IsOrdered force (if succeeded then false else pending) r'.calls r'.keys_to_replace
            → CallsInOrder force (after succeeded r'))
        → CallsInOrder force (elim s [
          | job_cancelled r' ↦ sync_cancelled r'
          | returned succeeded r' ↦ after succeeded r'
        ])
    go (job_cancelled r') h rest = h
    go (returned succeeded r') h rest = rest succeeded r' h

prepare_single_file-IsOrdered :
    (force pending : Bool) (f : FileInfo) (preparation : Preparation) (r : SyncRun)
    → IsOrdered force pending r.calls r.keys_to_replace
    → let r' = (prepare_single_file f preparation r).1 in
      IsOrdered force pending r'.calls r'.keys_to_replace
unfolding prepare_single_file record_file_failure publish_file_state
prepare_single_file-IsOrdered force pending f download_raises r o = o
prepare_single_file-IsOrdered force pending f processor_raises r o = o
prepare_single_file-IsOrdered force pending f no_output r o = o
prepare_single_file-IsOrdered force pending f processed r o = o

prepare_files-IsOrdered :
    (force pending : Bool) (preparation : ℕ → Preparation) (n : ℕ) (files : List FileInfo)
    (r : SyncRun)
    → IsOrdered force pending r.calls r.keys_to_replace
    → let r' = (prepare_files preparation n files r).1 in
      IsOrdered force pending r'.calls r'.keys_to_replace
unfolding prepare_files
prepare_files-IsOrdered force pending preparation n [] r o = o
prepare_files-IsOrdered force pending preparation n (f ∷ files) r o =
    prepare_files-IsOrdered force pending preparation (suc n) files _
      (prepare_single_file-IsOrdered force pending f (preparation n) r o)

skip_files-calls : (files : List FileInfo) (r : SyncRun) → (skip_files files r).calls ≡ r.calls
unfolding skip_files publish_file_state
skip_files-calls [] r = refl
skip_files-calls (f ∷ files) r = skip_files-calls files _

-- Deletes before any ingestion, whatever is to be replaced later.
delete_orphans-IsOrdered :
    (entries : List IndexedFile) (r : SyncRun) (keys : List String)
    → r.calls ≡ []
    → IsOrdered false false (delete_orphans entries r).calls keys
unfolding delete_orphans delete_indexed_entries call RecreatesUntilIngested KeepsIngested
delete_orphans-IsOrdered [] r keys e =
    subst (λ calls. IsOrdered false false calls keys) (sym e)
      (record {
        recreates = tt;
        keeps = tt;
        flag = refl;
        fresh = λ k h. absurd (ground (arith, h));
      })
delete_orphans-IsOrdered (entry ∷ entries) r keys e =
    subst
      (λ calls.
        IsOrdered false false
          (delete_documents (ids_of_entries (entry ∷ entries)) (names_of_entries (entry ∷ entries))
            ∷ calls)
          keys)
      (sym e)
      (record {
        recreates = tt;
        keeps = (
          λ k.
              and_false (
                str_elem k
                  (ids_of_entries (entry ∷ entries) ++ names_of_entries (entry ∷ entries))),
          tt,
        );
        flag = refl;
        fresh = λ k h. absurd (ground (arith, h));
      })

-- In the calls that a sync makes of the ingestion service, whether it ends or is cancelled and
-- whatever the services answer: the flag to recreate the index is set exactly on the calls of a
-- forced sync before the first file that is ingested, and no delete is made under a key under
-- which the same sync has ingested a file before.
pub sync_with_hayhooks-CallsInOrder :
    (index : Option (List IndexedFile)) (preparation : ℕ → Preparation) (answers : ℕ → Answer)
    (force force_ocr : Bool) (files : List FileInfo)
    → CallsInOrder force (sync_with_hayhooks index preparation answers force force_ocr files)
unfolding CallsInOrder sync_with_hayhooks prepare_and_ingest delete_index_orphans
    skip_unchanged_files new_run RecreatesUntilIngested KeepsIngested
sync_with_hayhooks-CallsInOrder index preparation answers force force_ocr [] = (tt, tt)
sync_with_hayhooks-CallsInOrder index preparation answers true force_ocr (f ∷ files) =
    ingest_prepared_files-CallsInOrder true answers 0 true _ _ (
      prepare_files-IsOrdered true true preparation 0 (f ∷ files) new_run (record {
        recreates = tt;
        keeps = tt;
        flag = refl;
        fresh = λ k h. absurd (ground (arith, h));
      }))
sync_with_hayhooks-CallsInOrder none preparation answers false force_ocr (f ∷ files) = tt
sync_with_hayhooks-CallsInOrder (some entries) preparation answers false force_ocr (f ∷ files) =
    let inventory = inventory_of entries [] in
    let plan = partition_by_inventory (f ∷ files) inventory force_ocr in
    ingest_prepared_files-CallsInOrder false answers 0 false _ _ (
      prepare_files-IsOrdered false false preparation 0 plan.to_ingest _ (
        delete_orphans-IsOrdered (index_orphans inventory (f ∷ files))
          (skip_files plan.skipped new_run) plan.keys_to_replace
          (skip_files-calls plan.skipped new_run)))
