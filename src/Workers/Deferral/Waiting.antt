-- ===== src/Workers/Deferral/Waiting.antt =====
-- The only parked job, as the data sources report one after the other.
pub mod Parked
use alice_skilltech_tools.Prelude.{
  ℕ, String, Bool, true, false, ◌≡◌, ◌≢◌, refl, sym, ◌∙◌, ap, Option, none, some, List, [], ◌∷◌,
  ◌++◌, if◌then◌else◌, any, arith, str_eq, eq_iff, Bool-cases, inl, inr, filter, ==_refl, ◌>>=◌,
  ◌==◌,
}
use mathlib.Core.List.{append-nil, append_assoc}
use alice_skilltech_tools.Prelude.Table.{has, modify, HasUniqueKeys, modify-HasUniqueKeys}
use alice_skilltech_tools.Store.{Store, Message, ingestion_jobs, publish, save_job, Job, job_key}
use alice_skilltech_tools.Workers.Deferral.Firing.{Published, messages_of}
use alice_skilltech_tools.Store.Json.{
  Json, null, array, object, Items, nil, cons, Fields, end, field, fields_get, fields_set,
  fields_pop, JsonText, text,
}
use alice_skilltech_tools.Index.Manifest.{get_or}
use alice_skilltech_tools.Workers.Deferral.{
  is_ident, mentions, without, Advance, skip, raise, keep_waiting, drop_deferral, fire, release,
  wait_on, advance_deferred, advance, set_params, advance_job, advance_jobs, publish_or_fail,
  is_pending_ingestion, maybe_fire_deferred_ingestion,
}
use alice_skilltech_tools.Workers.Deferral.Waiting.Parked.{
  IsOnlyPending, IsParked, are_reported, get_or-set, get_or-set_ne, get_or-pop,
  are_reported-without, without_of_not_mentions, advance_parked, save_job-IsOnlyPending, settle,
}

-- The handler on data sources that report one after the other.
abbrev pub report_all : (Message → Option String) → ℕ → List ℕ → Store → Option Store
report_all refusal now [] s = some s
report_all refusal now (id ∷ ids) s =
    maybe_fire_deferred_ingestion refusal now (some id) s >>= λ t. report_all refusal now ids t

-- What is published if all that the job waits for has reported.
abbrev pub payload_if : Bool → Fields → List Message
payload_if b sync_job = if b then ingestion_jobs (object sync_job) ∷ [] else []

module _ (refusal : Message → Option String) (now : ℕ) (up : (m : Message) → refusal m ≡ none) where
  report_one :
      (id : ℕ) (job : Job) (s : Store) (a : Advance)
      → IsOnlyPending job s
      → advance id job.input_params ≡ a
      → a ≢ raise
      → (t : Store) × (maybe_fire_deferred_ingestion refusal now (some id) s ≡ some t)
        × (t.published ≡ s.published ++ messages_of a)
        × IsOnlyPending (settle a job) t
  unfolding maybe_fire_deferred_ingestion advance_jobs advance_job publish_or_fail publish save_job
  report_one id job s skip only e h =
      (s, rw (only.1, advance_jobs, advance_job, e) refl, sym (append-nil s.published), only)
  report_one id job s raise only e h = absurd (h refl)
  report_one id job s (keep_waiting params) only e h = (
    save_job (set_params params job) s,
    rw (only.1, advance_jobs, advance_job, e) refl,
    sym (append-nil s.published),
    save_job-IsOnlyPending job params s only,
  )
  report_one id job s (drop_deferral params) only e h = (
    save_job (set_params params job) s,
    rw (only.1, advance_jobs, advance_job, e) refl,
    sym (append-nil s.published),
    save_job-IsOnlyPending job params s only,
  )
  report_one id job s (fire params sync_job) only e h = (
    publish (ingestion_jobs (object sync_job)) (save_job (set_params params job) s),
    rw
        (
          only.1,
          advance_jobs,
          advance_job,
          e,
          publish_or_fail,
          up (ingestion_jobs (object sync_job)),
        )
        refl,
    refl,
    save_job-IsOnlyPending job params s only,
  )

  report_then :
      (id : ℕ) (ids : List ℕ) (s t : Store) (ms ns : List Message)
      → maybe_fire_deferred_ingestion refusal now (some id) s ≡ some t
      → t.published ≡ s.published ++ ms
      → Published (report_all refusal now ids t) t ns
      → Published (report_all refusal now (id ∷ ids) s) s (ms ++ ns)
  report_then id ids s t ms ns e p (last, f, q) = (
    last,
    ap (λ r. r >>= λ t. report_all refusal now ids t) e ∙ f,
    q ∙ ap (λ l. l ++ ns) p ∙ append_assoc s.published ms ns,
  )

  -- Without a deferral nothing is published any more.
  report_all_released :
      (ids : List ℕ) (job : Job) (s : Store) (params : Fields)
      → IsOnlyPending job s
      → job.input_params ≡ some (text (object params))
      → get_or "deferred_ingestion" null params ≡ null
      → Published (report_all refusal now ids s) s []
  unfolding advance
  report_all_released [] job s params only c d = (s, refl, sym (append-nil s.published))
  report_all_released (id ∷ ids) job s params only c d =
      let (t, e, p, after) = report_one id job s skip only (ground (arith, c, d)) (λ e. cc) in
      report_then id ids s t [] [] e p (report_all_released ids job t params after c d)

  -- What the rest of a run publishes, for each list that may still be waited for.
  abbrev FiresFor : List ℕ → Fields → Items → Type 0
  FiresFor ids sync_job nil = Unit
  FiresFor ids sync_job (cons v items) =
      (job : Job) (s : Store)
      → IsOnlyPending job s
      → IsParked job.input_params sync_job (cons v items)
      → Published (report_all refusal now ids s) s
          (payload_if (are_reported ids (cons v items)) sync_job)

  report-wait_on :
      (id : ℕ) (ids : List ℕ) (job : Job) (s : Store) (params deferred sync_job : Fields)
      (items : Items)
      → IsOnlyPending job s
      → advance id job.input_params ≡ wait_on params deferred items
      → get_or "sync_job" null deferred ≡ object sync_job
      → FiresFor ids sync_job items
      → Published
          (report_all refusal now (id ∷ ids) s)
          s
          (payload_if (are_reported ids items) sync_job)
  unfolding wait_on release are_reported set_params
  report-wait_on id ids job s params deferred sync_job nil only e j later =
      let left = fields_pop "deferred_ingestion" params in
      let (t, f, p, after) =
        report_one id job s (fire left sync_job) only (ground (arith, e, j)) (λ e. cc) in
      report_then id ids s t _ [] f p (
        report_all_released ids (settle (fire left sync_job) job) t left after refl
          (get_or-pop "deferred_ingestion" null params))
  report-wait_on id ids job s params deferred sync_job (cons v items) only e j later =
      let shorter = fields_set "waiting_for_datasources" (array (cons v items)) deferred in
      let saved = fields_set "deferred_ingestion" (object shorter) params in
      let (t, f, p, after) = report_one id job s (keep_waiting saved) only e (λ e. cc) in
      report_then id ids s t [] _ f p (
        later (settle (keep_waiting saved) job) t after (
          saved,
          shorter,
          refl,
          get_or-set "deferred_ingestion" null (object shorter) params,
          get_or-set "waiting_for_datasources" null (array (cons v items)) deferred,
          get_or-set_ne "sync_job" "waiting_for_datasources" null (array (cons v items)) deferred
                refl
              ∙ j,
        ))

  fires_for : (ids : List ℕ) (sync_job : Fields) (items : Items) → FiresFor ids sync_job items
  unfolding are_reported
  fires_for ids sync_job nil = tt
  fires_for [] sync_job (cons v items) =
      λ job s only parked. (s, refl, sym (append-nil s.published))
  fires_for (id ∷ ids) sync_job (cons v items) = λ job s only (params, deferred, c, d, w, j).
      let step = advance_parked id job.input_params params deferred (cons v items) c d w in
      let left = without id (cons v items) in
      rw (are_reported-without id ids (cons v items))
        (elim (Bool-cases (mentions id (cons v items))) [
          | inl awaited ↦
              report-wait_on id ids job s params deferred sync_job left only
                (step ∙ ap (λ b. if b then wait_on params deferred left else skip) awaited) j
                (fires_for ids sync_job left)
          | inr other ↦
              let (t, f, p, after) =
                report_one id job s skip only
                  (step ∙ ap (λ b. if b then wait_on params deferred left else skip) other)
                  (λ e. cc) in
              rw (without_of_not_mentions id (cons v items) other) (
                report_then id ids s t [] _ f p (
                  fires_for ids sync_job (cons v items) job t after (params, deferred, c, d, w, j)))
        ])

-- If the broker takes every message, job ids are unique, and the only pending ingestion of the
-- store is parked behind a list of data sources that is not empty: the handler, run for any data
-- sources in any order and however often each reports, ends well and publishes the stored
-- payload exactly once if every awaited data source is among them, and nothing otherwise.
pub report_all-Published :
    (refusal : Message → Option String) (now : ℕ) (ids : List ℕ) (job : Job) (s : Store)
    (sync_job : Fields) (v : Json) (items : Items)
    → ((m : Message) → refusal m ≡ none)
    → IsOnlyPending job s
    → IsParked job.input_params sync_job (cons v items)
    → Published
        (report_all refusal now ids s)
        s
        (payload_if (are_reported ids (cons v items)) sync_job)
report_all-Published refusal now ids job s sync_job v items up only parked =
    fires_for refusal now up ids sync_job (cons v items) job s only parked
