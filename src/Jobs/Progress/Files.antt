-- ===== src/Jobs/Progress/Files.antt =====
-- The rows of `jobfile` after a progress message.
use alice_skilltech_tools.Prelude.{
  ℕ, ◌≡◌, refl, ◌∙◌, String, Bool, true, false, Option, none, some, List, [], ◌∷◌, ◌++◌, arith,
  eq_iff, str_eq, if◌then◌else◌, ◌==◌, any, Bool-cases, Option-cases, inl, inr,
}
use alice_skilltech_tools.Prelude.Table.{get}
use alice_skilltech_tools.Store.{save_job, Job, job_key, JobFile, Store}
use alice_skilltech_tools.Jobs.Progress.{
  FileUpdate, or_else, is_file, update_first, upsert_file, upsert_job_file, update_progress_row,
  update_progress, apply_file, touch, files_of_job,
}

-- The UNIQUE (job_id, external_file_id) constraint.
abbrev pub HasUniqueFiles : List JobFile → Type 0
HasUniqueFiles [] = Unit
HasUniqueFiles (file ∷ files) =
    (any (is_file file.job_id file.external_file_id) files ≡ false) × HasUniqueFiles files

module _ (found : JobFile → Bool) (write : JobFile → JobFile)
    (same_job : (f : JobFile) → (write f).job_id ≡ f.job_id)
    (same_id : (f : JobFile) → (write f).external_file_id ≡ f.external_file_id) where
  any-update_first :
      (job_id : ℕ) (external_id : String) (files : List JobFile)
      → any (is_file job_id external_id) (update_first found write files)
        ≡ any (is_file job_id external_id) files
  unfolding is_file update_first
  any-update_first job_id external_id [] = refl
  any-update_first job_id external_id (f ∷ files) =
      ground (arith, same_job f, same_id f, any-update_first job_id external_id files)

  update_first-HasUniqueFiles :
      (files : List JobFile)
      → HasUniqueFiles files
      → HasUniqueFiles (update_first found write files)
  unfolding update_first
  update_first-HasUniqueFiles [] u = tt
  update_first-HasUniqueFiles (f ∷ files) u = elim (Bool-cases (found f)) [
    | inl e ↦ rw (e, same_job f, same_id f) u
    | inr e ↦ rw e (
      any-update_first f.job_id f.external_file_id files ∙ u.0,
      update_first-HasUniqueFiles files u.1,
    )
  ]

  -- The rows of a job none of whose rows the query finds.
  files_of_job-update_first_ne :
      (j : ℕ) (files : List JobFile)
      → ((f : JobFile) → found f ≡ true → (f.job_id == j) ≡ false)
      → files_of_job j (update_first found write files) ≡ files_of_job j files
  unfolding files_of_job update_first
  files_of_job-update_first_ne j [] other = refl
  files_of_job-update_first_ne j (f ∷ files) other =
      ground (arith, other f, same_job f, files_of_job-update_first_ne j files other)

any-append :
    (p : JobFile → Bool) (files : List JobFile) (file : JobFile)
    → any p (files ++ file ∷ []) ≡ (if any p files then true else p file)
any-append p [] file = ground arith
any-append p (f ∷ files) file = ground (arith, any-append p files file)

is_file_sym :
    (a b : JobFile) → is_file a.job_id a.external_file_id b ≡ is_file b.job_id b.external_file_id a
unfolding is_file
is_file_sym a b = ground (
  arith,
  eq_iff a.external_file_id b.external_file_id,
  eq_iff b.external_file_id a.external_file_id,
)

append-HasUniqueFiles :
    (files : List JobFile) (file : JobFile)
    → any (is_file file.job_id file.external_file_id) files ≡ false
    → HasUniqueFiles files
    → HasUniqueFiles (files ++ file ∷ [])
append-HasUniqueFiles [] file h u = (refl, tt)
append-HasUniqueFiles (f ∷ files) file h u = (
  ground (
    arith,
    h,
    u.0,
    is_file_sym f file,
    any-append (is_file f.job_id f.external_file_id) files file,
  ),
  append-HasUniqueFiles files file (ground (arith, h)) u.1,
)

files_of_job-append_ne :
    (j : ℕ) (files : List JobFile) (file : JobFile)
    → (file.job_id == j) ≡ false
    → files_of_job j (files ++ file ∷ []) ≡ files_of_job j files
unfolding files_of_job
files_of_job-append_ne j [] file h = ground arith
files_of_job-append_ne j (f ∷ files) file h = ground (arith, files_of_job-append_ne j files file h)

is_file_other :
    (job_id j : ℕ) (external_id : String) (f : JobFile)
    → is_file job_id external_id f ≡ true
    → (job_id == j) ≡ false
    → (f.job_id == j) ≡ false
unfolding is_file
is_file_other job_id j external_id f hit h = ground arith

module _ (now job_id : ℕ) (external_id : String) (file : FileUpdate) (files : List JobFile) where
  pub upsert_file-HasUniqueFiles :
      HasUniqueFiles files → HasUniqueFiles (upsert_file now job_id external_id file files)
  unfolding upsert_file
  upsert_file-HasUniqueFiles u = elim (Bool-cases (any (is_file job_id external_id) files)) [
    | inl e ↦ rw e (update_first-HasUniqueFiles _ _ (λ f. refl) (λ f. refl) files u)
    | inr e ↦ rw e (append-HasUniqueFiles files _ e u)
  ]

  pub files_of_job-upsert_file_ne :
      (j : ℕ)
      → (job_id == j) ≡ false
      → files_of_job j (upsert_file now job_id external_id file files) ≡ files_of_job j files
  unfolding upsert_file
  files_of_job-upsert_file_ne j h = elim (Bool-cases (any (is_file job_id external_id) files)) [
    | inl e ↦ rw e (
        files_of_job-update_first_ne (is_file job_id external_id) _ (λ f. refl) (λ f. refl) j files
          (λ f hit. is_file_other job_id j external_id f hit h))
    | inr e ↦ rw e (files_of_job-append_ne j files _ h)
  ]

apply_file-HasUniqueFiles :
    (now : ℕ) (job : Job) (file : Option FileUpdate) (files : List JobFile)
    → HasUniqueFiles files
    → HasUniqueFiles (apply_file now job file files).1
unfolding apply_file upsert_job_file
apply_file-HasUniqueFiles now job none files u = u
apply_file-HasUniqueFiles now job (some file) files u =
    elim (Bool-cases (str_eq (or_else file.external_file_id "") "")) [
      | inl e ↦ rw e u
      | inr e ↦ rw e (upsert_file-HasUniqueFiles now job.id _ file files u)
    ]

-- If no two file rows have the same job and external id, none have after a progress message of
-- any shape.
pub update_progress-HasUniqueFiles :
    (now job_id : ℕ) (message : Option String) (total_files : Option ℕ) (file : Option FileUpdate)
    (s : Store)
    → HasUniqueFiles s.job_files
    → HasUniqueFiles (update_progress now job_id message total_files file s).1.job_files
unfolding update_progress
update_progress-HasUniqueFiles now job_id message total_files file s u =
    elim (Option-cases (get job_id s.jobs)) [
      | inl missing ↦ rw (update_progress, missing) u
      | inr (job, found) ↦
          rw (update_progress, found)
            (unfold update_progress_row save_job in
              apply_file-HasUniqueFiles now (touch now total_files job) file s.job_files u)
    ]
