-- ===== src/Sync/Ingestion/Accounting.antt =====
-- Every file of a sync is counted once: as succeeded, failed or skipped.
use alice_skilltech_tools.Prelude.{
  ℕ, suc, ◌+◌, String, Bool, true, false, not, ◌≡◌, refl, ◌∙◌, Option, none, some, List, [], ◌∷◌,
  if◌then◌else◌, length, ◌==◌, arith, Bool-cases, Option-cases, if_cases, inl, inr, ◌≤◌, ◌<◌, ◌↔◌,
  length-append,
}
use mathlib.Core.Path.{subst}
use alice_skilltech_tools.Sync.Inventory.{
  FileInfo, IndexedFile, key_elem, key_of, indexed_file, is_unchanged, SyncPlan, place_file,
  place_files, partition_by_inventory, inventory_of, index_orphans,
}
use alice_skilltech_tools.Sync.Ingestion.{
  SyncRun, Step, job_cancelled, returned, Answer, Preparation, download_raises, processor_raises,
  no_output, processed, IngestEnd, raised, answered, record_file_failure, publish_file_state,
  prepare_single_file, prepare_files, call, settle, submit, replace_and_submit, ingest_one_file,
}
use alice_skilltech_tools.Sync.Ingestion.Whole.{
  SyncEnd, sync_cancelled, sync_raised, synced, ingest_prepared_files, skip_files,
  delete_indexed_entries, delete_orphans, delete_index_orphans, skip_unchanged_files,
  prepare_and_ingest, new_run, sync_with_hayhooks, is_all_failed,
}

abbrev pub total : SyncRun → ℕ
total r = r.stats.succeeded + r.stats.failed + r.stats.skipped

-- A step counts one file, unless the job is cancelled in it.
unfoldable pub CountsOne : ℕ → Step → Type 0
CountsOne n (job_cancelled r) = total r ≡ n
CountsOne n (returned succeeded r) = total r ≡ suc n

settle-CountsOne : (f : FileInfo) (e : IngestEnd) (r : SyncRun) → CountsOne (total r) (settle f e r)
unfolding CountsOne settle record_file_failure publish_file_state
settle-CountsOne f raised r = ground arith
settle-CountsOne f (answered cancelled success timed_out n) r =
    if_cases (CountsOne (total r)) cancelled (λ _. refl)
      (λ _.
        if_cases (CountsOne (total r)) (not success) (λ _. ground arith)
          (λ _. if_cases (CountsOne (total r)) (n == 0) (λ _. ground arith) (λ _. ground arith)))

replace_and_submit-CountsOne :
    (f : FileInfo) (recreate : Bool) (answer : Answer) (r : SyncRun)
    → CountsOne (total r) (replace_and_submit f recreate answer r)
unfolding CountsOne replace_and_submit submit record_file_failure publish_file_state call
replace_and_submit-CountsOne f recreate answer r =
    if_cases (CountsOne (total r)) (not (key_elem (key_of f) r.keys_to_replace))
      (λ _. settle-CountsOne f answer.end_of_call _)
      (λ _.
        if_cases (CountsOne (total r)) answer.delete_raises (λ _. ground arith)
          (λ _. settle-CountsOne f answer.end_of_call _))

ingest_one_file-CountsOne :
    (f : FileInfo) (recreate : Bool) (answer : Answer) (r : SyncRun)
    → CountsOne (total r) (ingest_one_file f recreate answer r)
unfolding CountsOne ingest_one_file publish_file_state
ingest_one_file-CountsOne f recreate answer r =
    if_cases (CountsOne (total r)) answer.is_job_cancelled (λ _. refl)
      (λ _. replace_and_submit-CountsOne f recreate answer _)

-- A sync that is not cancelled counts every file, one that is cancelled at most all of them.
unfoldable pub CountsAll : ℕ → SyncEnd → Type 0
CountsAll n (sync_cancelled r) = total r ≤ n
CountsAll n sync_raised = ⊥
CountsAll n (synced r) = total r ≡ n

ingest_prepared_files-CountsAll :
    (answers : ℕ → Answer) (n : ℕ) (recreate : Bool) (files : List FileInfo) (r : SyncRun)
    → CountsAll (total r + length files) (ingest_prepared_files answers n recreate files r)
unfolding CountsAll CountsOne ingest_prepared_files
ingest_prepared_files-CountsAll answers n recreate [] r = ground arith
ingest_prepared_files-CountsAll answers n recreate (f ∷ files) r =
    go (ingest_one_file f recreate (answers n) r)
      (ingest_one_file-CountsOne f recreate (answers n) r)
      (λ succeeded.
        ingest_prepared_files-CountsAll answers (suc n) (if succeeded then false else recreate)
          files)
  where
    after : Bool → SyncRun → SyncEnd
    after succeeded =
        ingest_prepared_files answers (suc n) (if succeeded then false else recreate) files

    go :
        (s : Step)
        → CountsOne (total r) s
        → ((succeeded : Bool) (r' : SyncRun)
            → CountsAll (total r' + length files) (after succeeded r'))
        → CountsAll (total r + suc (length files)) (elim s [
          | job_cancelled r' ↦ sync_cancelled r'
          | returned succeeded r' ↦ after succeeded r'
        ])
    go (job_cancelled r') e rest = ground (arith, e)
    go (returned succeeded r') e rest =
        subst (λ m. CountsAll m (after succeeded r')) (ground (arith, e)) (rest succeeded r')

prepare_single_file-total :
    (f : FileInfo) (preparation : Preparation) (r : SyncRun)
    → let one = prepare_single_file f preparation r in
      total one.1 + (if one.0 then 1 else 0) ≡ suc (total r)
unfolding prepare_single_file record_file_failure publish_file_state
prepare_single_file-total f download_raises r = ground arith
prepare_single_file-total f processor_raises r = ground arith
prepare_single_file-total f no_output r = ground arith
prepare_single_file-total f processed r = ground arith

prepare_files-total :
    (preparation : ℕ → Preparation) (n : ℕ) (files : List FileInfo) (r : SyncRun)
    → let prepared = prepare_files preparation n files r in
      total prepared.1 + length prepared.0 ≡ total r + length files
unfolding prepare_files
prepare_files-total preparation n [] r = refl
prepare_files-total preparation n (f ∷ files) r =
    let one = prepare_single_file f (preparation n) r in
    elim (Bool-cases one.0) [
      | inl e ↦ ground (
        arith,
        e,
        prepare_single_file-total f (preparation n) r,
        prepare_files-total preparation (suc n) files one.1,
      )
      | inr e ↦ ground (
        arith,
        e,
        prepare_single_file-total f (preparation n) r,
        prepare_files-total preparation (suc n) files one.1,
      )
    ]

skip_files-total :
    (files : List FileInfo) (r : SyncRun) → total (skip_files files r) ≡ total r + length files
unfolding skip_files publish_file_state
skip_files-total [] r = ground arith
skip_files-total (f ∷ files) r = skip_files-total files _ ∙ ground arith

place_file-length :
    (inventory : List (String × IndexedFile)) (force_ocr : Bool) (f : FileInfo) (p : SyncPlan)
    → let q = place_file inventory force_ocr f p in
      length q.to_ingest + length q.skipped ≡ suc (length p.to_ingest + length p.skipped)
unfolding place_file
place_file-length inventory force_ocr f p = elim (Option-cases (indexed_file inventory f)) [
  | inl e ↦ ground (arith, e, length-append p.to_ingest (f ∷ []))
  | inr (indexed, e) ↦ elim (Bool-cases (is_unchanged force_ocr f indexed)) [
    | inl u ↦ ground (arith, e, u, length-append p.skipped (f ∷ []))
    | inr u ↦ ground (arith, e, u, length-append p.to_ingest (f ∷ []))
  ]
]

place_files-length :
    (inventory : List (String × IndexedFile)) (force_ocr : Bool) (files : List FileInfo)
    (p : SyncPlan)
    → let q = place_files inventory force_ocr files p in
      length q.to_ingest + length q.skipped ≡ length p.to_ingest + length p.skipped + length files
unfolding place_files
place_files-length inventory force_ocr [] p = ground arith
place_files-length inventory force_ocr (f ∷ files) p = ground (
  arith,
  place_files-length inventory force_ocr files (place_file inventory force_ocr f p),
  place_file-length inventory force_ocr f p,
)

delete_orphans-total :
    (entries : List IndexedFile) (r : SyncRun) → total (delete_orphans entries r) ≡ total r
unfolding delete_orphans delete_indexed_entries call
delete_orphans-total [] r = refl
delete_orphans-total (entry ∷ entries) r = refl

prepare_and_ingest-CountsAll :
    (preparation : ℕ → Preparation) (answers : ℕ → Answer) (force : Bool) (files : List FileInfo)
    (r : SyncRun) (n : ℕ)
    → total r + length files ≡ n
    → CountsAll n (prepare_and_ingest preparation answers force files r)
unfolding prepare_and_ingest
prepare_and_ingest-CountsAll preparation answers force files r n e =
    let prepared = prepare_files preparation 0 files r in
    subst (λ m. CountsAll m (prepare_and_ingest preparation answers force files r))
      (prepare_files-total preparation 0 files r ∙ e)
      (ingest_prepared_files-CountsAll answers 0 force prepared.0 prepared.1)

-- A sync raises only for want of the inventory that it compares with. Else every file is counted
-- once, and the message fails just when there are files and all of them failed.
unfoldable pub IsAccounted : Option (List IndexedFile) → Bool → ℕ → SyncEnd → Type 0
IsAccounted index force n (sync_cancelled r) = total r ≤ n
IsAccounted index force n sync_raised = (index ≡ none) × (force ≡ false) × (0 < n)
IsAccounted index force n (synced r) =
    (total r ≡ n) × ((is_all_failed r.stats ≡ true) ↔ ((r.stats.failed ≡ n) × (0 < n)))

CountsAll→IsAccounted :
    (index : Option (List IndexedFile)) (force : Bool) (n : ℕ) (e : SyncEnd)
    → CountsAll n e
    → IsAccounted index force n e
unfolding CountsAll IsAccounted is_all_failed
CountsAll→IsAccounted index force n (sync_cancelled r) h = h
CountsAll→IsAccounted index force n sync_raised h = elim h [ ]
CountsAll→IsAccounted index force n (synced r) h = (h, ground (arith, h))

-- A sync raises only if it is not forced, has files and cannot fetch the inventory. If it is
-- cancelled, at most all files are counted; else succeeded, failed and skipped files add up to
-- the number of files, and the message fails just when there are files and all of them failed.
pub sync_with_hayhooks-IsAccounted :
    (index : Option (List IndexedFile)) (preparation : ℕ → Preparation) (answers : ℕ → Answer)
    (force force_ocr : Bool) (files : List FileInfo)
    → IsAccounted index force
        (length files)
        (sync_with_hayhooks index preparation answers force force_ocr files)
unfolding IsAccounted sync_with_hayhooks delete_index_orphans skip_unchanged_files new_run
    partition_by_inventory is_all_failed
sync_with_hayhooks-IsAccounted index preparation answers force force_ocr [] = (refl, ground arith)
sync_with_hayhooks-IsAccounted index preparation answers true force_ocr (f ∷ files) =
    CountsAll→IsAccounted index true _ _
      (prepare_and_ingest-CountsAll preparation answers true (f ∷ files) new_run _ (ground arith))
sync_with_hayhooks-IsAccounted none preparation answers false force_ocr (f ∷ files) =
    (refl, refl, ground arith)
sync_with_hayhooks-IsAccounted (some entries) preparation answers false force_ocr (f ∷ files) =
    let inventory = inventory_of entries [] in
    let plan = partition_by_inventory (f ∷ files) inventory force_ocr in
    let planned = skip_unchanged_files inventory force_ocr (f ∷ files) new_run in
    CountsAll→IsAccounted (some entries) false _ _ (
      prepare_and_ingest-CountsAll preparation answers false planned.0 planned.1 _ (
        ground (
          arith,
          delete_orphans-total (index_orphans inventory (f ∷ files))
              (skip_files plan.skipped new_run),
          skip_files-total plan.skipped new_run,
          place_files-length inventory force_ocr (f ∷ files)
              (record { to_ingest = []; keys_to_replace = []; skipped = [] }),
        )))
