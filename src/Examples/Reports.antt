-- ===== src/Examples/Reports.antt =====
-- The theorems on the orphan reports, on two ids and one object.
use alice_skilltech_tools.Prelude.{◌≡◌, refl, none, some, [], ◌∷◌, if◌then◌else◌}
use alice_skilltech_tools.Orphans.Objects.{
  classify_s3_object, path_elem, orphan_uploaded_file, orphan_datasource_dir,
}
use alice_skilltech_tools.Orphans.Reports.{upload_path, classify_s3_object-upload_path}

classify_s3_object_example :
    classify_s3_object
      (upload_path (b'm' ∷ []) (b'n' ∷ []) (b'7' ∷ []) (b'f' ∷ []))
      []
      []
      ((b'7' ∷ []) ∷ [])
    ≡ (if path_elem (b'7' ∷ []) ((b'7' ∷ []) ∷ [])
        then (if path_elem (upload_path (b'm' ∷ []) (b'n' ∷ []) (b'7' ∷ []) (b'f' ∷ [])) []
            then none
            else some orphan_uploaded_file)
        else some orphan_datasource_dir)
classify_s3_object_example =
    classify_s3_object-upload_path (b'm' ∷ []) (b'n' ∷ []) (b'7' ∷ []) (b'f' ∷ []) [] []
      ((b'7' ∷ []) ∷ []) (refl, tt) (refl, tt) (refl, tt)
