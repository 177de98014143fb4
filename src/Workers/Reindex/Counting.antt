-- ===== src/Workers/Reindex/Counting.antt =====
-- How writes to the table of jobs change the number of active ones.
use alice_skilltech_tools.Prelude.{
  ℕ, ◌+◌, ◌≤◌, Bool, false, ◌&&◌, ◌≡◌, refl, ◌∙◌, ap, none, some, List, [], ◌∷◌, ◌++◌,
  if◌then◌else◌, ◌==◌, ==_refl, filter, first, count_if, arith, Bool-cases, inl, inr,
}
use alice_skilltech_tools.Prelude.Table.{has, modify}
use alice_skilltech_tools.Store.{Job, job_key, knowledge_base_key, datasource_key}
use alice_skilltech_tools.Jobs.Queries.{is_running_or_pending, refers_to}

abbrev pub is_active_for : ℕ → Job → Bool
is_active_for kb job = refers_to kb job.knowledge_base_id && is_running_or_pending job

-- How many jobs of the knowledge base are pending or running.
abbrev pub active_count : ℕ → List Job → ℕ
active_count kb jobs = count_if (is_active_for kb) jobs

-- No active job is the first of none.
pub active_count-none :
    (kb : ℕ) (jobs : List Job)
    → first (filter (is_active_for kb) jobs) ≡ none
    → active_count kb jobs ≡ 0
active_count-none kb [] h = refl
active_count-none kb (job ∷ jobs) h = ground (arith, h, active_count-none kb jobs)

-- Writing an inactive row over one that is there does not make more jobs active.
pub active_count-modify :
    (kb id : ℕ) (row : Job) (jobs : List Job)
    → is_active_for kb row ≡ false
    → active_count kb (modify id (λ _. row) jobs) ≤ active_count kb jobs
unfolding modify
active_count-modify kb id row [] h = ground arith
active_count-modify kb id row (job ∷ jobs) h = elim (Bool-cases (job.id == id)) [
  | inl e ↦ rw e (ground (arith, h, active_count-modify kb id row jobs h))
  | inr e ↦ rw e (ground (arith, active_count-modify kb id row jobs h))
]

-- With at most one active job, writing an inactive row over it leaves none.
pub active_count-cancel :
    (kb : ℕ) (row job : Job) (jobs : List Job)
    → is_active_for kb row ≡ false
    → first (filter (is_active_for kb) jobs) ≡ some job
    → active_count kb jobs ≤ 1
    → active_count kb (modify job.id (λ _. row) jobs) ≡ 0
unfolding modify
active_count-cancel kb row job [] h e u = ground (arith, e)
active_count-cancel kb row job (j ∷ jobs) h e u = elim (Bool-cases (is_active_for kb j)) [
  | inl a ↦
      let same : j ≡ job = ground (arith, a, e) in
      rw (ap (λ i. i.id == job.id) same ∙ ==_refl job.id)
        (ground (arith, a, h, u, active_count-modify kb job.id row jobs h))
  | inr a ↦
      let rest =
        active_count-cancel kb row job jobs h (ground (arith, a, e)) (ground (arith, a, u)) in
      elim (Bool-cases (j.id == job.id)) [
        | inl k ↦ rw k (ground (arith, h, rest))
        | inr k ↦ rw k (ground (arith, a, rest))
      ]
]

-- A last row that is written over by an inactive one.
pub active_count-append_modify :
    (kb : ℕ) (new row : Job) (jobs : List Job)
    → is_active_for kb row ≡ false
    → active_count kb jobs ≡ 0
    → active_count kb (modify new.id (λ _. row) (jobs ++ new ∷ [])) ≡ 0
unfolding modify
active_count-append_modify kb new row [] h e = rw (==_refl new.id) (ground (arith, h))
active_count-append_modify kb new row (j ∷ jobs) h e = elim (Bool-cases (j.id == new.id)) [
  | inl k ↦ rw k (ground (arith, h, e, active_count-append_modify kb new row jobs h))
  | inr k ↦ rw k (ground (arith, e, active_count-append_modify kb new row jobs h))
]

-- A last row with a fresh id, that is written over.
pub active_count-append_fresh :
    (kb : ℕ) (new row : Job) (jobs : List Job)
    → has new.id jobs ≡ false
    → active_count kb (modify new.id (λ _. row) (jobs ++ new ∷ []))
      ≡ active_count kb jobs + (if is_active_for kb row then 1 else 0)
unfolding modify has
active_count-append_fresh kb new row [] h = rw (==_refl new.id) (ground arith)
active_count-append_fresh kb new row (j ∷ jobs) h = elim (Bool-cases (j.id == new.id)) [
  | inl k ↦ absurd (ground (arith, k, h))
  | inr k ↦ rw k (ground (arith, k, h, active_count-append_fresh kb new row jobs))
]

pub active_count-append :
    (kb : ℕ) (job : Job) (jobs : List Job)
    → active_count kb (jobs ++ job ∷ [])
      ≡ active_count kb jobs + (if is_active_for kb job then 1 else 0)
active_count-append kb job [] = ground arith
active_count-append kb job (j ∷ jobs) = ground (arith, active_count-append kb job jobs)
