-- ===== src/Workers/Deferral/Firing.antt =====
-- The pending ingestions of the store, as one data source reports.
use alice_skilltech_tools.Prelude.{
  ℕ, String, ◌≡◌, ◌≢◌, refl, sym, ◌∙◌, ap, Option, none, some, List, [], ◌∷◌, ◌++◌, ◌>>=◌, filter,
  All,
}
use mathlib.Core.List.{append-nil, append_assoc}
use alice_skilltech_tools.Store.{Store, Message, ingestion_jobs, publish, save_job, Job, job_key}
use alice_skilltech_tools.Store.Json.{object}
use alice_skilltech_tools.Workers.Deferral.{
  Advance, skip, raise, keep_waiting, drop_deferral, fire, advance, set_params, publish_or_fail,
  advance_job, advance_jobs, maybe_fire_deferred_ingestion, is_pending_ingestion,
}

-- What is published for one job.
abbrev pub messages_of : Advance → List Message
messages_of (fire params sync_job) = ingestion_jobs (object sync_job) ∷ []
messages_of _ = []

-- What is published for some jobs, in their order, when a data source reports.
abbrev pub released : ℕ → List Job → List Message
released id [] = []
released id (job ∷ jobs) = messages_of (advance id job.input_params) ++ released id jobs

-- No parameters at which the handler raises.
abbrev pub IsReadable : ℕ → Job → Type 0
IsReadable id job = advance id job.input_params ≢ raise

-- A run that ends well and published these messages.
abbrev pub Published : Option Store → Store → List Message → Type 0
Published result s messages =
    (t : Store) × (result ≡ some t) × (t.published ≡ s.published ++ messages)

advance_job-Published :
    (refusal : Message → Option String) (now id : ℕ) (job : Job) (s : Store) (a : Advance)
    → ((m : Message) → refusal m ≡ none)
    → advance id job.input_params ≡ a
    → a ≢ raise
    → Published (advance_job refusal now id job s) s (messages_of a)
unfolding advance_job publish_or_fail publish save_job
advance_job-Published refusal now id job s skip up e h =
    rw (e, Published, advance_job) (s, refl, sym (append-nil s.published))
advance_job-Published refusal now id job s raise up e h = absurd (h refl)
advance_job-Published refusal now id job s (keep_waiting params) up e h =
    rw (e, Published, advance_job)
      (save_job (set_params params job) s, refl, sym (append-nil s.published))
advance_job-Published refusal now id job s (drop_deferral params) up e h =
    rw (e, Published, advance_job)
      (save_job (set_params params job) s, refl, sym (append-nil s.published))
advance_job-Published refusal now id job s (fire params sync_job) up e h =
    rw (e, up (ingestion_jobs (object sync_job)), Published, advance_job, publish_or_fail)
      (publish (ingestion_jobs (object sync_job)) (save_job (set_params params job) s), refl, refl)

advance_jobs-Published :
    (refusal : Message → Option String) (now id : ℕ) (jobs : List Job) (s : Store)
    → ((m : Message) → refusal m ≡ none)
    → All (IsReadable id) jobs
    → Published (advance_jobs refusal now id jobs s) s (released id jobs)
unfolding advance_jobs
advance_jobs-Published refusal now id [] s up readable = (s, refl, sym (append-nil s.published))
advance_jobs-Published refusal now id (job ∷ jobs) s up readable =
    let one =
      advance_job-Published refusal now id job s (advance id job.input_params) up refl readable.0 in
    let rest = advance_jobs-Published refusal now id jobs one.0 up readable.1 in
    (
      rest.0,
      ap (λ r. r >>= λ t. advance_jobs refusal now id jobs t) one.1 ∙ rest.1,
      rest.2
          ∙ ap (λ ms. ms ++ released id jobs) one.2
          ∙ append_assoc s.published (messages_of (advance id job.input_params)) (released id jobs),
    )

-- If the broker takes every message and no pending ingestion has parameters at which the handler
-- raises, the report of a data source ends well and publishes, in the order of the rows, the
-- stored payload of each pending ingestion that it releases, and nothing else.
pub maybe_fire_deferred_ingestion-Published :
    (refusal : Message → Option String) (now id : ℕ) (s : Store)
    → ((m : Message) → refusal m ≡ none)
    → All (IsReadable id) (filter is_pending_ingestion s.jobs)
    → Published
        (maybe_fire_deferred_ingestion refusal now (some id) s)
        s
        (released id (filter is_pending_ingestion s.jobs))
unfolding maybe_fire_deferred_ingestion
maybe_fire_deferred_ingestion-Published refusal now id s up readable =
    advance_jobs-Published refusal now id (filter is_pending_ingestion s.jobs) s up readable
