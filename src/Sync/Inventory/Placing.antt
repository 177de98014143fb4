-- ===== src/Sync/Inventory/Placing.antt =====
-- Which files are skipped, ingested, and replaced; what the inventory holds.
use mathlib.Core.List.{append-nil, append_assoc}
use alice_skilltech_tools.Prelude.{
  String, Bool, false, not, ◌&&◌, ◌||◌, ◌≡◌, sym, ◌∙◌, none, some, List, [], ◌∷◌, ◌++◌, str_eq, any,
  filter, arith, Bool-cases, Option-cases, inl, inr,
}
use alice_skilltech_tools.Sync.Inventory.{
  FileInfo, IndexedFile, key_of, str_elem, key_elem, indexed_file, is_unchanged, SyncPlan, add_key,
  place_file, place_files, partition_by_inventory,
}

-- The index holds the file as it is now, with the same OCR setting.
abbrev pub is_current : List (String × IndexedFile) → Bool → FileInfo → Bool
is_current inventory force_ocr f = elim (indexed_file inventory f) [
  | none ↦ false
  | some indexed ↦ is_unchanged force_ocr f indexed
]

-- The index holds another version of the file, under this key.
abbrev pub is_stale_under : List (String × IndexedFile) → Bool → String → FileInfo → Bool
is_stale_under inventory force_ocr k f = elim (indexed_file inventory f) [
  | none ↦ false
  | some indexed ↦ not (is_unchanged force_ocr f indexed) && str_elem k (add_key (key_of f) [])
]

module _ (inventory : List (String × IndexedFile)) (force_ocr : Bool) where
  place_files-to_ingest :
      (files : List FileInfo) (p : SyncPlan)
      → (place_files inventory force_ocr files p).to_ingest
        ≡ p.to_ingest ++ filter (λ f. not (is_current inventory force_ocr f)) files
  unfolding place_files place_file
  place_files-to_ingest [] p = sym (append-nil p.to_ingest)
  place_files-to_ingest (f ∷ files) p =
      place_files-to_ingest files (place_file inventory force_ocr f p)
      ∙ ground (
        arith,
        append_assoc p.to_ingest (f ∷ [])
            (filter (λ g. not (is_current inventory force_ocr g)) files),
      )

  place_files-skipped :
      (files : List FileInfo) (p : SyncPlan)
      → (place_files inventory force_ocr files p).skipped
        ≡ p.skipped ++ filter (is_current inventory force_ocr) files
  unfolding place_files place_file
  place_files-skipped [] p = sym (append-nil p.skipped)
  place_files-skipped (f ∷ files) p =
      place_files-skipped files (place_file inventory force_ocr f p)
      ∙ ground
          (arith, append_assoc p.skipped (f ∷ []) (filter (is_current inventory force_ocr) files))

  place_files-keys_to_replace :
      (files : List FileInfo) (p : SyncPlan) (k : String)
      → str_elem k (place_files inventory force_ocr files p).keys_to_replace
        ≡ (str_elem k p.keys_to_replace || any (is_stale_under inventory force_ocr k) files)
  unfolding place_files place_file str_elem key_elem add_key
  place_files-keys_to_replace [] p k = ground arith
  place_files-keys_to_replace (f ∷ files) p k =
      place_files-keys_to_replace files (place_file inventory force_ocr f p) k
      ∙ elim (Option-cases (indexed_file inventory f)) [
        | inl e ↦ ground (arith, e)
        | inr (indexed, e) ↦ elim (Bool-cases (is_unchanged force_ocr f indexed)) [
          | inl u ↦ ground (arith, e, u)
          | inr u ↦ elim (Option-cases (key_of f)) [
            | inl g ↦ ground (arith, e, u, g)
            | inr (j, g) ↦ ground (arith, e, u, g, Bool-cases (str_eq j k))
          ]
        ]
      ]

-- The files to ingest are those that the index does not hold as they are now with the same OCR
-- setting, the skipped files are the others, both in their order, and a key is marked for
-- replacement exactly if a file with that key is held in another version.
pub partition_by_inventory_lem :
    (files : List FileInfo) (inventory : List (String × IndexedFile)) (force_ocr : Bool)
    (k : String)
    → ((partition_by_inventory files inventory force_ocr).to_ingest
        ≡ filter (λ f. not (is_current inventory force_ocr f)) files)
      × ((partition_by_inventory files inventory force_ocr).skipped
          ≡ filter (is_current inventory force_ocr) files)
      × (str_elem k (partition_by_inventory files inventory force_ocr).keys_to_replace
          ≡ any (is_stale_under inventory force_ocr k) files)
unfolding partition_by_inventory str_elem
partition_by_inventory_lem files inventory force_ocr k =
    let p : SyncPlan = record { to_ingest = []; keys_to_replace = []; skipped = [] } in
    (
      place_files-to_ingest inventory force_ocr files p,
      place_files-skipped inventory force_ocr files p,
      place_files-keys_to_replace inventory force_ocr files p k,
    )
