-- ===== src/Sync/Inventory.antt =====
-- sync/worker/src/worker.py: what the index holds already, against what is selected.
--
-- A file id and an etag are texts. A set is a list in which an element may stand more than once, and
-- a dict is a list of its items in the order of insertion.
pub mod Placing
use alice_skilltech_tools.Prelude.{
  ℕ, String, Bool, true, false, not, ◌&&◌, ◌||◌, Option, none, some, List, [], ◌∷◌, ◌++◌,
  if◌then◌else◌, str_eq, any, filter, map,
}

-- The entries of `objects_to_sync`, without what is only passed on.
pub record FileInfo : Type 0 where
  pub file_id : Option String
  pub filename : String
  pub content_etag : Option String

pub record IndexedFile : Type 0 where
  pub file_id : Option String
  pub filename : Option String
  pub content_etag : Option String
  pub force_ocr : Option Bool

-- A text that is there and not empty.
unfoldable pub nonempty : Option String → Option String
nonempty none = none
nonempty (some s) = if str_eq s "" then none else some s

unfoldable pub inventory_key : Option String → Option String → Option String
inventory_key file_id filename = elim (nonempty file_id) [
  | none ↦ nonempty filename
  | some id ↦ some id
]

unfoldable pub key_of : FileInfo → Option String
key_of f = inventory_key f.file_id (some f.filename)

unfoldable pub str_elem : String → List String → Bool
str_elem k ks = any (λ j. str_eq j k) ks

-- `key in keys`, for a key that may be None.
unfoldable pub key_elem : Option String → List String → Bool
unfolding str_elem
key_elem none ks = false
key_elem (some k) ks = str_elem k ks

-- inventory.get(key)
unfoldable pub lookup : String → List (String × IndexedFile) → Option IndexedFile
lookup k [] = none
lookup k ((j, entry) ∷ inventory) =
    let rest = lookup k inventory in if str_eq j k then some entry else rest

-- inventory[key] = entry
unfoldable pub insert :
    String → IndexedFile → List (String × IndexedFile) → List (String × IndexedFile)
insert k entry [] = (k, entry) ∷ []
insert k entry ((j, old) ∷ inventory) =
    let rest = (j, old) ∷ insert k entry inventory in
    if str_eq j k then (j, entry) ∷ inventory else rest

-- `inventory.get(key) if key else None`
unfoldable pub indexed_file : List (String × IndexedFile) → FileInfo → Option IndexedFile
indexed_file inventory f = elim (key_of f) [ none ↦ none | some k ↦ lookup k inventory ]

-- Both texts are there, and are the same.
unfoldable pub same_etag : Option String → Option String → Bool
same_etag (some current) (some indexed) = str_eq current indexed
same_etag _ _ = false

unfoldable pub same_ocr : Option Bool → Bool → Bool
same_ocr none force_ocr = false
same_ocr (some true) force_ocr = force_ocr
same_ocr (some false) force_ocr = not force_ocr

unfoldable pub is_unchanged : Bool → FileInfo → IndexedFile → Bool
is_unchanged force_ocr f indexed =
    same_etag f.content_etag indexed.content_etag && same_ocr indexed.force_ocr force_ocr

pub record SyncPlan : Type 0 where
  pub to_ingest : List FileInfo
  pub keys_to_replace : List String
  pub skipped : List FileInfo

-- keys_to_replace.add(key), with the key that the lookup was made with.
unfoldable pub add_key : Option String → List String → List String
add_key none ks = ks
add_key (some k) ks = k ∷ ks

-- One round of the loop.
unfoldable pub place_file : List (String × IndexedFile) → Bool → FileInfo → SyncPlan → SyncPlan
place_file inventory force_ocr f p = elim (indexed_file inventory f) [
  | none ↦ record p { to_ingest = p.to_ingest ++ f ∷ [] }
  | some indexed ↦
      if is_unchanged force_ocr f indexed
      then record p { skipped = p.skipped ++ f ∷ [] }
      else record p {
        keys_to_replace = add_key (key_of f) p.keys_to_replace;
        to_ingest = p.to_ingest ++ f ∷ [];
      }
]

unfoldable pub place_files :
    List (String × IndexedFile) → Bool → List FileInfo → SyncPlan → SyncPlan
place_files inventory force_ocr [] p = p
place_files inventory force_ocr (f ∷ files) p =
    place_files inventory force_ocr files (place_file inventory force_ocr f p)

unfoldable pub partition_by_inventory :
    List FileInfo → List (String × IndexedFile) → Bool → SyncPlan
partition_by_inventory objects_to_sync inventory force_ocr =
    place_files inventory force_ocr objects_to_sync
      (record { to_ingest = []; keys_to_replace = []; skipped = [] })

-- `_should_clear_index`, from whether each data source has selected files.
unfoldable pub should_clear_index : List FileInfo → List Bool → Bool
should_clear_index [] has_selections = not (any (λ selected. selected) has_selections)
should_clear_index (f ∷ files) has_selections = false

-- The inventory as a dict, from the entries that the service reports.
unfoldable pub inventory_of :
    List IndexedFile → List (String × IndexedFile) → List (String × IndexedFile)
inventory_of [] inventory = inventory
inventory_of (entry ∷ entries) inventory =
    inventory_of entries (elim (inventory_key entry.file_id entry.filename) [
      | none ↦ inventory
      | some k ↦ insert k entry inventory
    ])

-- Indexed files that are no longer selected.
unfoldable pub index_orphans : List (String × IndexedFile) → List FileInfo → List IndexedFile
index_orphans [] objects_to_sync = []
index_orphans ((k, entry) ∷ inventory) objects_to_sync =
    let rest = index_orphans inventory objects_to_sync in
    if any (λ f. key_elem (key_of f) (k ∷ [])) objects_to_sync then rest else entry ∷ rest
