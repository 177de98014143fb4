-- ===== src/Jobs/Cleanup/References.antt =====
-- The retention sweep keeps the foreign keys, and deletes what it should and nothing else.

use alice_skilltech_tools.Prelude.{
  ℕ, true, false, not, ◌≡◌, refl, Option, none, some, List, [], ◌∷◌, arith, map, if◌then◌else◌,
  ◌==◌, Bool-cases, inl, inr, elem, filter, All, length,
}
use alice_skilltech_tools.Prelude.Table.{
  get, get-filter, get_of_not_has, has, HasUniqueKeys, key-get,
}
use alice_skilltech_tools.Store.{Job, JobFile, JobEvent, job_key, Store}
use alice_skilltech_tools.Jobs.Cleanup.{is_reapable, cleanup_old_jobs}

-- Every child row names a job that is there: the foreign keys of `jobfile` and `jobevent`.
pub record HasReferences (s : Store) : Type 0 where
  pub files : All (λ (row : JobFile). has row.job_id s.jobs ≡ true) s.job_files
  pub events : All (λ (row : JobEvent). has row.job_id s.jobs ≡ true) s.job_events

abbrev old_ids : ℕ → ℕ → Store → List ℕ
old_ids now days s = map (λ (job : Job). job.id) (filter (is_reapable now days) s.jobs)

-- Rows whose job is kept find it among the jobs that are kept.
has-kept :
    (id : ℕ) (ids : List ℕ) (jobs : List Job)
    → elem id ids ≡ false
    → has id jobs ≡ true
    → has id (filter (λ (job : Job). not (elem job.id ids)) jobs) ≡ true
unfolding has
has-kept id ids [] absent h = cc
has-kept id ids (job ∷ jobs) absent h = ground (arith, has-kept id ids jobs absent)

module _ {A : Type 0} (job_id : A → ℕ) (ids : List ℕ) (jobs : List Job) where
  kept-references :
      (rows : List A)
      → All (λ row. has (job_id row) jobs ≡ true) rows
      → All
          (λ row. has (job_id row) (filter (λ (job : Job). not (elem job.id ids)) jobs) ≡ true)
          (filter (λ row. not (elem (job_id row) ids)) rows)
  kept-references [] h = tt
  kept-references (row ∷ rows) h = elim (Bool-cases (elem (job_id row) ids)) [
    | inl e ↦ rw e (kept-references rows h.1)
    | inr e ↦ rw e (has-kept (job_id row) ids jobs e h.0, kept-references rows h.1)
  ]

-- If every file and event row has its job, every one has it after a cleanup.
pub cleanup_old_jobs-HasReferences :
    (now days : ℕ) (s : Store) → HasReferences s → HasReferences (cleanup_old_jobs now days s).1
unfolding cleanup_old_jobs
cleanup_old_jobs-HasReferences now days s h =
    elim (Bool-cases (length (filter (is_reapable now days) s.jobs) == 0)) [
      | inl e ↦ rw e h
      | inr e ↦ rw e (record {
        files =
            kept-references (λ (row : JobFile). row.job_id) (old_ids now days s) s.jobs s.job_files
              h.files;
        events =
            kept-references (λ (row : JobEvent). row.job_id) (old_ids now days s) s.jobs
              s.job_events h.events;
      })
    ]

-- An id is reaped exactly when its row is.
elem-old_ids :
    (now days id : ℕ) (jobs : List Job)
    → HasUniqueKeys jobs
    → elem id (map (λ (job : Job). job.id) (filter (is_reapable now days) jobs))
      ≡ elim (get id jobs) [ none ↦ false | some job ↦ is_reapable now days job ]
unfolding get
elem-old_ids now days id [] u = refl
elem-old_ids now days id (job ∷ jobs) u =
    ground (arith, elem-old_ids now days id jobs u.1, get_of_not_has job.id jobs u.0)

elem-of_empty :
    (id : ℕ) (jobs : List Job)
    → (length jobs == 0) ≡ true
    → elem id (map (λ (job : Job). job.id) jobs) ≡ false
elem-of_empty id [] h = refl
elem-of_empty id (job ∷ jobs) h = ground arith

kept-row :
    (now days id : ℕ) (s : Store)
    → HasUniqueKeys s.jobs
    → (found : Option Job) → get id s.jobs ≡ found
    → (elim found as (λ _. Option Job) [
      | none ↦ none
      | some job ↦ if not (elem job.id (old_ids now days s)) then some job else none
    ])
      ≡ elim found [ none ↦ none | some job ↦ if is_reapable now days job then none else some job ]
kept-row now days id s u none e = refl
kept-row now days id s u (some job) e =
    let same = key-get id s.jobs job e in
    let reaped : elem id (old_ids now days s) ≡ is_reapable now days job =
      rw (elem-old_ids now days id s.jobs u, e) in
    rw (same, reaped) (ground arith)

-- With unique job ids, a cleanup deletes a job exactly when it is completed or failed and older
-- than the window, and leaves every other row as it is.
pub get-cleanup_old_jobs :
    (now days : ℕ) (s : Store) (id : ℕ)
    → HasUniqueKeys s.jobs
    → get id (cleanup_old_jobs now days s).1.jobs ≡ elim (get id s.jobs) [
      | none ↦ none
      | some job ↦ if is_reapable now days job then none else some job
    ]
unfolding cleanup_old_jobs
get-cleanup_old_jobs now days s id u =
    elim (Bool-cases (length (filter (is_reapable now days) s.jobs) == 0)) [
      | inl e ↦ rw e (
          ground (
            arith,
            elem-old_ids now days id s.jobs u,
            elem-of_empty id (filter (is_reapable now days) s.jobs) e,
          ))
      | inr e ↦ rw e (rw (get-filter id _ s.jobs u) (kept-row now days id s u (get id s.jobs) refl))
    ]
