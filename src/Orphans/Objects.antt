-- ===== src/Orphans/Objects.antt =====
-- api/app/services/orphan_detection.py: the objects of the bucket, by the layout of their paths.
--
-- A path is the list of its code points. The reports of `find_s3_orphans` are one per category.
use alice_skilltech_tools.Prelude.{
  ℕ, Bool, true, false, Option, none, some, List, [], ◌∷◌, if◌then◌else◌, ◌==◌, any,
}
use alice_skilltech_tools.Store.Metrics.{codes, text_eq}
use alice_skilltech_tools.Orphans.Detectors.{OrphanReport, add}

pub data Category : Type 0 where
  orphan_datasource_dir orphan_uploaded_file orphan_avatar unknown_path : Category

unfoldable pub path_elem : List ℕ → List (List ℕ) → Bool
path_elem path paths = any (λ p. text_eq path p) paths

-- A code point in front of the first part.
unfoldable pub push_front : ℕ → List (List ℕ) → List (List ℕ)
push_front c [] = (c ∷ []) ∷ []
push_front c (part ∷ parts) = (c ∷ part) ∷ parts

-- object_name.split("/")
unfoldable pub split_slashes : List ℕ → List (List ℕ)
split_slashes [] = [] ∷ []
split_slashes (c ∷ s) =
    let rest = split_slashes s in if c == b'/' then [] ∷ rest else push_front c rest

unfoldable pub classify_datasource :
    List ℕ → List (List ℕ) → List (List ℕ) → List ℕ → List ℕ → Option Category
classify_datasource object_name file_paths datasource_ids ds_id subdir =
    if path_elem ds_id datasource_ids
    then (if text_eq subdir (codes "uploads")
        then (if path_elem object_name file_paths then none else some orphan_uploaded_file)
        else none)
    else some orphan_datasource_dir

unfoldable pub classify_parts :
    List ℕ
    → (file_paths avatar_paths datasource_ids : List (List ℕ)) → List (List ℕ)
    → Option Category
classify_parts object_name file_paths avatar_paths datasource_ids
      (email ∷ namespace ∷ kind ∷ id ∷ subdir ∷ _) =
    if text_eq kind (codes "datasources")
    then classify_datasource object_name file_paths datasource_ids id subdir
    else if text_eq kind (codes "chatbots")
    then (if path_elem object_name avatar_paths then none else some orphan_avatar)
    else some unknown_path
classify_parts object_name file_paths avatar_paths datasource_ids _ = some unknown_path

unfoldable pub classify_s3_object :
    List ℕ → (file_paths avatar_paths datasource_ids : List (List ℕ)) → Option Category
classify_s3_object object_name file_paths avatar_paths datasource_ids =
    classify_parts object_name file_paths avatar_paths datasource_ids (split_slashes object_name)

unfoldable pub category_eq : Category → Category → Bool
category_eq orphan_datasource_dir orphan_datasource_dir = true
category_eq orphan_uploaded_file orphan_uploaded_file = true
category_eq orphan_avatar orphan_avatar = true
category_eq unknown_path unknown_path = true
category_eq _ _ = false

-- The report of one category, after the walk through the bucket.
unfoldable pub s3_report :
    (List ℕ → Option Category)
    → Category
    → List (List ℕ)
    → OrphanReport (List ℕ)
    → OrphanReport (List ℕ)
s3_report classify category [] report = report
s3_report classify category (object_name ∷ names) report =
    s3_report classify category names (elim (classify object_name) [
      | none ↦ report
      | some c ↦ if category_eq c category then add object_name report else report
    ])
