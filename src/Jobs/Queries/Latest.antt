-- ===== src/Jobs/Queries/Latest.antt =====
-- Which job stands for a knowledge base.
use alice_skilltech_tools.Prelude.{
  ℕ, ◌≤◌, Bool, true, false, ◌&&◌, ◌≡◌, refl, sym, ◌∙◌, ◌⊎◌, Option, none, some, List, [], ◌∷◌,
  if◌then◌else◌, ltb, filter, first, any, All, arith, Bool-cases, Option-cases, inl, inr,
}
use mathlib.Core.Path.{subst}
use alice_skilltech_tools.Store.{Store, Job}
use alice_skilltech_tools.Jobs.Queries.{
  insert_newest, newest_first, refers_to, is_running_or_pending, get_active_for_knowledge_base,
  get_latest_for_knowledge_base,
}

-- No job of a list passes a test but those created up to an instant.
abbrev pub NoneLater : (Job → Bool) → ℕ → List Job → Type 0
NoneLater p n [] = Unit
NoneLater p n (job ∷ jobs) = ((p job ≡ true) → job.created_at ≤ n) × NoneLater p n jobs

abbrev IsBelow : ℕ → List Job → Type 0
IsBelow n jobs = All (λ job. job.created_at ≤ n) jobs

first_insert :
    (job : Job) (jobs : List Job)
    → first (insert_newest job jobs) ≡ elim (first jobs) [
      | none ↦ some job
      | some other ↦ if ltb job.created_at other.created_at then some other else some job
    ]
unfolding insert_newest
first_insert job [] = refl
first_insert job (other ∷ jobs) = ground arith

nothing_newest : (jobs : List Job) (n : ℕ) → first (newest_first jobs) ≡ none → IsBelow n jobs
unfolding newest_first
nothing_newest [] n h = tt
nothing_newest (job ∷ jobs) n h = ground (arith, first_insert job (newest_first jobs))

IsBelow-le : (m n : ℕ) (jobs : List Job) → m ≤ n → IsBelow m jobs → IsBelow n jobs
IsBelow-le m n [] h b = tt
IsBelow-le m n (job ∷ jobs) h b = (omega (arith, b.0), IsBelow-le m n jobs h b.1)

newest_first-IsBelow :
    (jobs : List Job) (newest : Job)
    → first (newest_first jobs) ≡ some newest
    → IsBelow newest.created_at jobs
unfolding newest_first
newest_first-IsBelow [] newest h = cc
newest_first-IsBelow (job ∷ jobs) newest h = elim (Option-cases (first (newest_first jobs))) [
  | inl no_other ↦ (
    ground (arith, first_insert job (newest_first jobs)),
    nothing_newest jobs newest.created_at no_other,
  )
  | inr (other, e) ↦ (
    ground (arith, first_insert job (newest_first jobs)),
    IsBelow-le other.created_at newest.created_at jobs
        (ground (arith, first_insert job (newest_first jobs))) (newest_first-IsBelow jobs other e),
  )
]

first-newest_first :
    (p : Job → Bool) (jobs : List Job) (newest : Job)
    → first (newest_first (filter p jobs)) ≡ some newest
    → p newest ≡ true
unfolding newest_first
first-newest_first p [] newest h = cc
first-newest_first p (job ∷ jobs) newest h = ground (
  arith,
  first_insert job (newest_first (filter p jobs)),
  first-newest_first p jobs newest,
  Option-cases (first (newest_first (filter p jobs))),
)

first-filter :
    (p : Job → Bool) (jobs : List Job) (job : Job) → first (filter p jobs) ≡ some job → p job ≡ true
first-filter p [] job h = cc
first-filter p (other ∷ jobs) job h = ground (arith, first-filter p jobs job)

IsBelow-NoneLater :
    (p : Job → Bool) (n : ℕ) (jobs : List Job) → IsBelow n (filter p jobs) → NoneLater p n jobs
IsBelow-NoneLater p n [] b = tt
IsBelow-NoneLater p n (job ∷ jobs) b =
    let kept = λ (t : Bool). IsBelow n (if t then job ∷ filter p jobs else filter p jobs) in
    elim (Bool-cases (p job)) [
      | inl passes ↦ let b' = subst kept passes b in (λ _. b'.0, IsBelow-NoneLater p n jobs b'.1)
      | inr fails ↦ (λ h. ground (arith, fails, h), IsBelow-NoneLater p n jobs (subst kept fails b))
    ]

any_of_first :
    (p : Job → Bool) (jobs : List Job) (job : Job)
    → first (filter p jobs) ≡ some job
    → any p jobs ≡ true
any_of_first p [] job h = cc
any_of_first p (other ∷ jobs) job h = ground (arith, any_of_first p jobs job)

none_of_first :
    (p : Job → Bool) (jobs : List Job) → first (filter p jobs) ≡ none → any p jobs ≡ false
none_of_first p [] h = refl
none_of_first p (other ∷ jobs) h = ground (arith, none_of_first p jobs)

none_of_newest :
    (p : Job → Bool) (jobs : List Job)
    → first (newest_first (filter p jobs)) ≡ none
    → any p jobs ≡ false
unfolding newest_first
none_of_newest p [] h = refl
none_of_newest p (other ∷ jobs) h = ground (
  arith,
  first_insert other (newest_first (filter p jobs)),
  none_of_newest p jobs,
  Option-cases (first (newest_first (filter p jobs))),
)

not_any :
    (p q : Job → Bool) (jobs : List Job) (job : Job)
    → any (λ j. p j && q j) jobs ≡ false
    → first (newest_first (filter p jobs)) ≡ some job
    → q job ≡ false
unfolding newest_first
not_any p q [] job h e = cc
not_any p q (other ∷ jobs) job h e = ground (
  arith,
  first_insert other (newest_first (filter p jobs)),
  not_any p q jobs job,
  Option-cases (first (newest_first (filter p jobs))),
)

-- A row of a table.
abbrev pub IsAmong : Job → List Job → Type 0
IsAmong job [] = ⊥
IsAmong job (other ∷ jobs) = (other ≡ job) ⊎ IsAmong job jobs

first-IsAmong :
    (p : Job → Bool) (jobs : List Job) (job : Job)
    → first (filter p jobs) ≡ some job
    → IsAmong job jobs
first-IsAmong p [] job h = cc
first-IsAmong p (other ∷ jobs) job h = elim (Bool-cases (p other)) [
  | inl passes ↦ inl (ground (arith, passes, h))
  | inr fails ↦ inr (first-IsAmong p jobs job (ground (arith, fails, h)))
]

newest-IsAmong :
    (p : Job → Bool) (jobs : List Job) (job : Job)
    → first (newest_first (filter p jobs)) ≡ some job
    → IsAmong job jobs
unfolding newest_first
newest-IsAmong p [] job h = cc
newest-IsAmong p (other ∷ jobs) job h = ground (
  arith,
  first_insert other (newest_first (filter p jobs)),
  newest-IsAmong p jobs job,
  Option-cases (first (newest_first (filter p jobs))),
)

-- A job of a knowledge base.
abbrev pub is_of : ℕ → Job → Bool
is_of kb job = refers_to kb job.knowledge_base_id

-- What may be shown for a knowledge base: nothing, if it has no job; else one of its jobs, which is
-- active exactly if one of them is, and else the newest.
abbrev pub StandsFor : ℕ → Store → Option Job → Type 0
StandsFor kb s none = any (is_of kb) s.jobs ≡ false
StandsFor kb s (some job) =
    IsAmong job s.jobs
    × (is_of kb job ≡ true)
    × (is_running_or_pending job ≡ any (λ j. is_of kb j && is_running_or_pending j) s.jobs)
    × ((is_running_or_pending job ≡ true) ⊎ NoneLater (is_of kb) job.created_at s.jobs)

newest-StandsFor :
    (kb : ℕ) (s : Store) (result : Option Job)
    → any (λ j. is_of kb j && is_running_or_pending j) s.jobs ≡ false
    → first (newest_first (filter (is_of kb) s.jobs)) ≡ result
    → StandsFor kb s result
newest-StandsFor kb s none idle e = none_of_newest (is_of kb) s.jobs e
newest-StandsFor kb s (some job) idle e = (
  newest-IsAmong (is_of kb) s.jobs job e,
  first-newest_first (is_of kb) s.jobs job e,
  not_any (is_of kb) is_running_or_pending s.jobs job idle e ∙ sym idle,
  inr (
      IsBelow-NoneLater (is_of kb) job.created_at s.jobs
        (newest_first-IsBelow (filter (is_of kb) s.jobs) job e)),
)

-- A job is shown for a knowledge base exactly when the knowledge base has one, and it is one of
-- its jobs; it is pending or running exactly when some job of the knowledge base is, and if none
-- is, no job of the knowledge base was created later.
pub get_latest_for_knowledge_base_lem :
    (kb : ℕ) (s : Store) → StandsFor kb s (get_latest_for_knowledge_base kb s)
unfolding get_latest_for_knowledge_base get_active_for_knowledge_base
get_latest_for_knowledge_base_lem kb s =
    let is_active = λ (j : Job). is_of kb j && is_running_or_pending j in
    elim (Option-cases (first (filter is_active s.jobs))) [
      | inr (job, e) ↦
          let found = first-filter is_active s.jobs job e in
          let some_active = any_of_first is_active s.jobs job e in
          let shown : get_latest_for_knowledge_base kb s ≡ some job = ground (arith, e) in
          rw shown (
            first-IsAmong is_active s.jobs job e,
            ground (arith, found),
            ground (arith, found, some_active),
            inl (ground (arith, found)),
          )
      | inl e ↦
          newest-StandsFor kb s (get_latest_for_knowledge_base kb s)
            (none_of_first is_active s.jobs e) (ground (arith, e))
    ]
