-- ===== src/Orphans/Reports.antt =====
-- What the reports count, and how an object of the layout is classified.
use alice_skilltech_tools.Prelude.{
  ℕ, zero, suc, ◌+◌, ◌-◌, ◌≤◌, String, Bool, false, ◌≡◌, refl, sym, ◌∙◌, ap, none, some, List, [],
  ◌∷◌, ◌++◌, if◌then◌else◌, ◌==◌, ltb, length, length-append, count_if, filter, All, arith,
  Bool-cases, inl, inr, any,
}
use mathlib.Core.List.{append-nil, append_assoc}
use alice_skilltech_tools.Store.Metrics.{codes, text_eq}
use alice_skilltech_tools.Orphans.Detectors.{OrphanReport, sample_limit, empty_report, add, add_all}
use alice_skilltech_tools.Orphans.Objects.{
  orphan_datasource_dir, orphan_uploaded_file, path_elem, push_front, split_slashes,
  classify_datasource, classify_parts, classify_s3_object,
}

module _ {A : Type 0} where
  abbrev pub first_of : ℕ → List A → List A
  first_of zero xs = []
  first_of (suc n) [] = []
  first_of (suc n) (x ∷ xs) = x ∷ first_of n xs

  count-add_all :
      (test : A → Bool) (xs : List A) (report : OrphanReport A)
      → (add_all test xs report).count ≡ report.count + count_if test xs
  unfolding add_all add
  count-add_all test [] report = omega arith
  count-add_all test (x ∷ xs) report =
      ground (arith, count-add_all test xs report, count-add_all test xs (add x report))

  first_of-suc :
      (m n : ℕ) (x : A) (xs : List A) → m ≡ suc n → first_of m (x ∷ xs) ≡ x ∷ first_of n xs
  first_of-suc m n x xs e = rw e refl

  first_of_nil : (n : ℕ) → first_of n [] ≡ []
  first_of_nil zero = refl
  first_of_nil (suc n) = refl

  first_of_zero : (n : ℕ) (xs ys : List A) → n ≡ 0 → first_of n xs ≡ first_of n ys
  first_of_zero n xs ys e = rw e refl

  samples-add_all :
      (test : A → Bool) (xs : List A) (report : OrphanReport A)
      → length report.sample_ids ≤ sample_limit
      → (add_all test xs report).sample_ids
        ≡ report.sample_ids ++ first_of (sample_limit - length report.sample_ids) (filter test xs)
  unfolding add_all add
  samples-add_all test [] report h =
      sym (append-nil report.sample_ids)
      ∙ ap (λ ids. report.sample_ids ++ ids)
          (sym (first_of_nil (sample_limit - length report.sample_ids)))
  samples-add_all test (x ∷ xs) report h = elim (Bool-cases (test x)) [
    | inr fails ↦ rw (fails, add_all) (samples-add_all test xs report h)
    | inl passes ↦ elim (Bool-cases (ltb (length report.sample_ids) sample_limit)) [
      | inl room ↦
          rw (passes, room, add_all)
            (samples-add_all test xs
                (record report {
                  count = suc report.count;
                  sample_ids = report.sample_ids ++ x ∷ [];
                })
                (ground (arith, room, length-append report.sample_ids (x ∷ [])))
              ∙ append_assoc report.sample_ids (x ∷ [])
                  (first_of (sample_limit - length (report.sample_ids ++ x ∷ [])) (filter test xs))
              ∙ ap (λ ids. report.sample_ids ++ ids)
                  (sym (
                    first_of-suc (sample_limit - length report.sample_ids)
                      (sample_limit - length (report.sample_ids ++ x ∷ [])) x (filter test xs)
                      (ground (arith, room, length-append report.sample_ids (x ∷ []))))))
      | inr full ↦
          rw (passes, full, add_all)
            (samples-add_all test xs (record report { count = suc report.count }) h
              ∙ ap (λ ids. report.sample_ids ++ ids)
                  (first_of_zero (sample_limit - length report.sample_ids) (filter test xs)
                    (x ∷ filter test xs) (ground (arith, full))))
    ]
  ]

  -- A report counts all the rows that pass the detector's test and shows the first hundred of
  -- them, in order.
  add_all_lem :
      (test : A → Bool) (xs : List A) (category : String)
      → ((add_all test xs (empty_report category)).count ≡ count_if test xs)
        × ((add_all test xs (empty_report category)).sample_ids ≡ first_of 100 (filter test xs))
  add_all_lem test xs category = (
    omega (arith, count-add_all test xs (empty_report category)),
    samples-add_all test xs (empty_report category) (omega arith),
  )

abbrev pub NoSlash : List ℕ → Type 0
NoSlash part = All (λ c. (c == b'/') ≡ false) part

no_slash : (part : List ℕ) → any (λ c. c == b'/') part ≡ false → NoSlash part
no_slash [] h = tt
no_slash (c ∷ part) h = (ground (arith, h), no_slash part (ground (arith, h)))

split-append :
    (part rest : List ℕ)
    → NoSlash part
    → split_slashes (part ++ b'/' ∷ rest) ≡ part ∷ split_slashes rest
unfolding split_slashes push_front
split-append [] rest h = refl
split-append (c ∷ part) rest h = rw (h.0, split-append part rest h.1) refl

-- {email}/{namespace}/datasources/{id}/uploads/{filename}
abbrev pub upload_path : (email namespace id filename : List ℕ) → List ℕ
upload_path email namespace id filename =
    email
    ++ (b'/'
        ∷ (namespace
            ++ (b'/'
                ∷ (codes "datasources"
                    ++ (b'/' ∷ (id ++ (b'/' ∷ (codes "uploads" ++ (b'/' ∷ filename)))))))))

split-upload_path :
    (email namespace id filename : List ℕ)
    → NoSlash email
    → NoSlash namespace
    → NoSlash id
    → split_slashes (upload_path email namespace id filename)
      ≡ email ∷ namespace ∷ codes "datasources" ∷ id ∷ codes "uploads" ∷ split_slashes filename
unfolding codes
split-upload_path email namespace id filename he hn hi =
    split-append email
      (namespace
        ++ (b'/'
            ∷ (codes "datasources"
                ++ (b'/' ∷ (id ++ (b'/' ∷ (codes "uploads" ++ (b'/' ∷ filename))))))))
      he
    ∙ ap (λ parts. email ∷ parts)
        (split-append namespace
            (codes "datasources"
              ++ (b'/' ∷ (id ++ (b'/' ∷ (codes "uploads" ++ (b'/' ∷ filename))))))
            hn
          ∙ ap (λ parts. namespace ∷ parts)
              (split-append (codes "datasources")
                  (id ++ (b'/' ∷ (codes "uploads" ++ (b'/' ∷ filename))))
                  (no_slash (codes "datasources") refl)
                ∙ ap (λ parts. codes "datasources" ∷ parts)
                    (split-append id (codes "uploads" ++ (b'/' ∷ filename)) hi
                      ∙ ap (λ parts. id ∷ parts)
                          (split-append (codes "uploads") filename
                            (no_slash (codes "uploads") refl)))))

-- With no slash in the owner's, the namespace's and the data source's part, an object where
-- uploads are stored is no orphan exactly when its data source is live and an uploaded file has
-- its path; else it is classified by which of the two is missing first.
pub classify_s3_object-upload_path :
    (email namespace id filename : List ℕ) (file_paths avatar_paths datasource_ids : List (List ℕ))
    → NoSlash email
    → NoSlash namespace
    → NoSlash id
    → classify_s3_object
        (upload_path email namespace id filename)
        file_paths
        avatar_paths
        datasource_ids
      ≡ (if path_elem id datasource_ids
          then (if path_elem (upload_path email namespace id filename) file_paths
              then none
              else some orphan_uploaded_file)
          else some orphan_datasource_dir)
unfolding classify_s3_object classify_parts classify_datasource text_eq codes
classify_s3_object-upload_path email namespace id filename fs as' ds he hn hi =
    rw (split-upload_path email namespace id filename he hn hi) refl
