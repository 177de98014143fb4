-- ===== src/Examples/Syncing.antt =====
-- Incremental and forced synchronisations of a knowledge base with three files.
use alice_skilltech_tools.Prelude.{ℕ, true, false, ◌≡◌, none, some, List, [], ◌∷◌}
use alice_skilltech_tools.Sync.Inventory.{
  FileInfo, IndexedFile, inventory_of, partition_by_inventory, str_elem, indexed_file, key_of,
  inventory_key, nonempty, lookup, insert, is_unchanged, same_etag, same_ocr, add_key,
}
use alice_skilltech_tools.Sync.Inventory.Placing.{partition_by_inventory_lem}
use alice_skilltech_tools.Sync.Ingestion.{Preparation, processed, Answer, answered}
use alice_skilltech_tools.Sync.Ingestion.Whole.{sync_with_hayhooks}
use alice_skilltech_tools.Sync.Ingestion.Accounting.{IsAccounted, sync_with_hayhooks-IsAccounted}
use alice_skilltech_tools.Sync.Ingestion.Ordering.Whole.{
  CallsInOrder, sync_with_hayhooks-CallsInOrder,
}

-- One file that the index holds as it is, one that it holds in an older version, and a new one.
abbrev kept_file : FileInfo
kept_file = record { file_id = some "1"; filename = "a.pdf"; content_etag = some "x" }

abbrev changed_file : FileInfo
changed_file = record { file_id = none; filename = "b.pdf"; content_etag = some "y" }

abbrev new_file : FileInfo
new_file = record { file_id = some "3"; filename = "c.pdf"; content_etag = none }

abbrev files : List FileInfo
files = kept_file ∷ changed_file ∷ new_file ∷ []

-- The last entry is selected no more.
abbrev entries : List IndexedFile
entries =
    record {
      file_id = some "1";
      filename = some "old.pdf";
      content_etag = some "x";
      force_ocr = some false;
    }
    ∷ record {
      file_id = none;
      filename = some "b.pdf";
      content_etag = some "w";
      force_ocr = some false;
    }
    ∷ record { file_id = some "9"; filename = none; content_etag = none; force_ocr = none }
    ∷ []

abbrev preparation : ℕ → Preparation
preparation n = processed

abbrev answers : ℕ → Answer
answers n = record {
  is_job_cancelled = false;
  delete_raises = false;
  end_of_call = answered false true false 4;
}

partition_by_inventory_example :
    ((partition_by_inventory files (inventory_of entries []) false).to_ingest
      ≡ changed_file ∷ new_file ∷ [])
    × ((partition_by_inventory files (inventory_of entries []) false).skipped ≡ kept_file ∷ [])
    × (str_elem "b.pdf"
          (partition_by_inventory files (inventory_of entries []) false).keys_to_replace
        ≡ true)
unfolding inventory_of indexed_file key_of inventory_key nonempty lookup insert is_unchanged
    same_etag same_ocr str_elem add_key
partition_by_inventory_example =
    partition_by_inventory_lem files (inventory_of entries []) false "b.pdf"

sync_with_hayhooks-IsAccounted_example :
    IsAccounted
      (some entries)
      false
      3
      (sync_with_hayhooks (some entries) preparation answers false false files)
sync_with_hayhooks-IsAccounted_example =
    sync_with_hayhooks-IsAccounted (some entries) preparation answers false false files

sync_with_hayhooks-CallsInOrder_example :
    CallsInOrder true (sync_with_hayhooks none preparation answers true false files)
sync_with_hayhooks-CallsInOrder_example =
    sync_with_hayhooks-CallsInOrder none preparation answers true false files
