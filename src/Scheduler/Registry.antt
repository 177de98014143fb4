-- ===== src/Scheduler/Registry.antt =====
-- What the registry holds for each chatbot after a reconcile.
use mathlib.Core.Option
use mathlib.Core.Path.{subst}
use alice_skilltech_tools.Prelude.{
  ℕ, Bool, true, false, not, ◌&&◌, ◌||◌, ◌≡◌, refl, ◌∙◌, ap, Option, none, some, List, [], ◌∷◌,
  if◌then◌else◌, filter, any, ◌==◌, arith, Bool-cases, Option-cases, inl, inr,
}
use alice_skilltech_tools.Prelude.Table.{
  HasUniqueKeys, get, modify, has, get-modify, get-append_fresh, get-append_ne, get_of_not_has,
  get-filter, filter-HasUniqueKeys,
}
use alice_skilltech_tools.Scheduler.{
  Chatbot, ReindexJob, chatbot_key, reindex_job_key, cron_trigger, add_job,
  schedule_chatbot_reindex, unschedule_chatbot_reindex, Reconciling, try_schedule, register_row,
  register_rows, drop_undesired, reconcile_rows, reconcile_chatbot_schedules,
}

map-get :
    (job : ReindexJob) (id : ℕ) (jobs : List ReindexJob)
    → has id jobs ≡ true
    → Option.map (λ (_ : ReindexJob). job) (get id jobs) ≡ some job
unfolding get has
map-get job id [] h = cc
map-get job id (j ∷ jobs) h = ground (arith, h, map-get job id jobs)

-- A row that is there is replaced.
get-modify-some :
    (job : ReindexJob) (c : ℕ) (jobs : List ReindexJob)
    → has job.chatbot_id jobs ≡ true
    → get c (modify job.chatbot_id (λ _. job) jobs)
      ≡ (if job.chatbot_id == c then some job else get c jobs)
get-modify-some job c jobs h = elim (Bool-cases (job.chatbot_id == c)) [
  | inl e ↦
      let same : job.chatbot_id ≡ c = ground (arith, e) in
      ground (
        arith,
        e,
        get-modify job.chatbot_id c (λ _. job) jobs (λ _ _. refl),
        map-get job job.chatbot_id jobs h,
        ap (λ i. Option.map (λ (_ : ReindexJob). job) (get i jobs)) same,
      )
  | inr e ↦ ground (arith, e, get-modify job.chatbot_id c (λ _. job) jobs (λ _ _. refl))
]

get-add_job :
    (job : ReindexJob) (jobs : List ReindexJob) (c : ℕ)
    → get c (add_job job jobs) ≡ (if job.chatbot_id == c then some job else get c jobs)
unfolding add_job
get-add_job job jobs c = ground (
  arith,
  get-modify-some job c jobs,
  get-append_fresh job.chatbot_id jobs job,
  get-append_ne c jobs job,
)

get-unschedule :
    (id c : ℕ) (jobs : List ReindexJob)
    → get c (unschedule_chatbot_reindex id jobs) ≡ (if id == c then none else get c jobs)
unfolding unschedule_chatbot_reindex get
get-unschedule id c [] = ground arith
get-unschedule id c (job ∷ jobs) = ground (arith, get-unschedule id c jobs)

-- What one row asks of the registry: nothing, or its trigger in place of an older one.
abbrev pub registered : Chatbot → Option ReindexJob → Option ReindexJob
registered chatbot old = elim chatbot.reindex_schedule_frequency [
  | none ↦ old
  | some frequency ↦ elim chatbot.reindex_schedule_hour [
    | none ↦ old
    | some hour ↦
        elim (cron_trigger frequency hour chatbot.reindex_schedule_minute
          chatbot.reindex_schedule_day_of_week chatbot.reindex_schedule_day_of_month) [
            | none ↦ old
            | some trigger ↦ some (record { chatbot_id = chatbot.id; trigger = trigger })
          ]
  ]
]

-- The row has a frequency and an hour.
abbrev pub has_schedule : Chatbot → Bool
has_schedule chatbot = elim chatbot.reindex_schedule_frequency [
  | none ↦ false
  | some frequency ↦ elim chatbot.reindex_schedule_hour [ none ↦ false | some hour ↦ true ]
]

abbrev is_desired : ℕ → List ℕ → Bool
is_desired c desired = any (λ id. id == c) desired

register_row_lem :
    (chatbot : Chatbot) (r : Reconciling) (c : ℕ)
    → (get c (register_row chatbot r).jobs
        ≡ (if chatbot.id == c then registered chatbot (get c r.jobs) else get c r.jobs))
      × (is_desired c (register_row chatbot r).desired
          ≡ (chatbot.id == c && has_schedule chatbot || is_desired c r.desired))
unfolding register_row try_schedule schedule_chatbot_reindex
register_row_lem chatbot r c = elim (Option-cases chatbot.reindex_schedule_frequency) [
  | inl e ↦ (ground (arith, e), ground (arith, e))
  | inr (frequency, e) ↦ elim (Option-cases chatbot.reindex_schedule_hour) [
    | inl g ↦ (ground (arith, e, g), ground (arith, e, g))
    | inr (hour, g) ↦ (
      elim (Option-cases (
          cron_trigger frequency hour chatbot.reindex_schedule_minute
            chatbot.reindex_schedule_day_of_week chatbot.reindex_schedule_day_of_month)) [
              | inl t ↦ ground (arith, e, g, t)
              | inr (trigger, t) ↦ ground (
                arith,
                e,
                g,
                t,
                get-add_job (record { chatbot_id = chatbot.id; trigger = trigger }) r.jobs c,
              )
            ],
      ground (arith, e, g),
    )
  ]
]

get-drop_undesired :
    (registered : List ReindexJob) (desired : List ℕ) (jobs : List ReindexJob) (c : ℕ)
    → get c (drop_undesired registered desired jobs)
      ≡ (if is_desired c desired || not (has c registered) then get c jobs else none)
unfolding drop_undesired has
get-drop_undesired [] desired jobs c = ground arith
get-drop_undesired (job ∷ registered) desired jobs c =
    elim (Bool-cases (any (λ id. id == job.chatbot_id) desired)) [
      | inl e ↦ rw e (ground (arith, e, get-drop_undesired registered desired jobs c))
      | inr e ↦ elim (Bool-cases (job.chatbot_id == c)) [
        | inl u ↦
            let same : job.chatbot_id ≡ c = ground (arith, u) in
            rw e (
              ground (
                arith,
                e,
                u,
                ap (λ i. is_desired i desired) same,
                get-unschedule job.chatbot_id c jobs,
                get-drop_undesired registered desired
                    (unschedule_chatbot_reindex job.chatbot_id jobs) c,
              ))
        | inr u ↦ rw e (
            ground (
              arith,
              u,
              get-unschedule job.chatbot_id c jobs,
              get-drop_undesired registered desired (unschedule_chatbot_reindex job.chatbot_id jobs)
                  c,
            ))
      ]
    ]

register_rows_lem :
    (rows : List Chatbot) (r : Reconciling) (c : ℕ)
    → HasUniqueKeys rows
    → (get c (register_rows rows r).jobs ≡ elim (get c rows) [
      | none ↦ get c r.jobs
      | some chatbot ↦ registered chatbot (get c r.jobs)
    ])
      × (is_desired c (register_rows rows r).desired ≡ elim (get c rows) [
        | none ↦ is_desired c r.desired
        | some chatbot ↦ has_schedule chatbot || is_desired c r.desired
      ])
unfolding register_rows get
register_rows_lem [] r c u = (refl, refl)
register_rows_lem (chatbot ∷ rows) r c u =
    let row = register_row_lem chatbot r c in
    let rest = register_rows_lem rows (register_row chatbot r) c u.1 in
    elim (Bool-cases (chatbot.id == c)) [
      | inl e ↦
          let same : chatbot.id ≡ c = ground (arith, e) in
          let absent : get c rows ≡ none =
            get_of_not_has c rows (subst (λ i. has i rows ≡ false) same u.0) in
          (ground (arith, e, absent, row.0, rest.0), ground (arith, e, absent, row.1, rest.1))
      | inr e ↦ elim (Option-cases (get c rows)) [
        | inl g ↦ (ground (arith, e, g, row.0, rest.0), ground (arith, e, g, row.1, rest.1))
        | inr (other, g) ↦ (
          rest.0 ∙ rw (e, g) (ap (registered other) (row.0 ∙ rw e refl)),
          rest.1 ∙ rw (e, g) (ap (λ b. has_schedule other || b) (row.1 ∙ rw e refl)),
        )
      ]
    ]

-- What the table asks for a chatbot, given the job that is registered for it.
abbrev pub wanted : Chatbot → Option ReindexJob → Option ReindexJob
wanted chatbot old =
    if chatbot.reindex_schedule_enabled && has_schedule chatbot
    then registered chatbot old
    else none

-- For a table of chatbots with unique ids that can be read, the job registered for a chatbot
-- after a reconcile is: none, if the table has no such chatbot or its schedule is off or lacks a
-- frequency or an hour; else the job with the trigger of its row, if that is valid; else the job
-- that was registered before.
pub get-reconcile_chatbot_schedules :
    (chatbots : List Chatbot) (jobs : List ReindexJob) (c : ℕ)
    → HasUniqueKeys chatbots
    → get c (reconcile_chatbot_schedules (some chatbots) jobs)
      ≡ elim (get c chatbots) [ none ↦ none | some chatbot ↦ wanted chatbot (get c jobs) ]
unfolding reconcile_chatbot_schedules reconcile_rows
get-reconcile_chatbot_schedules chatbots jobs c u =
    let rows = filter (λ chatbot. chatbot.reindex_schedule_enabled) chatbots in
    let r = register_rows rows (record { desired = []; jobs = jobs }) in
    let loop =
      register_rows_lem rows (record { desired = []; jobs = jobs }) c
        (filter-HasUniqueKeys (λ chatbot. chatbot.reindex_schedule_enabled) chatbots u) in
    let kept = get-drop_undesired r.jobs r.desired r.jobs c in
    let row = get-filter c (λ chatbot. chatbot.reindex_schedule_enabled) chatbots u in
    let fresh = get_of_not_has c r.jobs in
    elim (Option-cases (get c chatbots)) [
      | inl e ↦ ground (arith, e, row, loop.0, loop.1, kept, fresh)
      | inr (chatbot, e) ↦ elim (Bool-cases chatbot.reindex_schedule_enabled) [
        | inl on ↦
            ground
              (arith, e, on, row, loop.0, loop.1, kept, fresh, Bool-cases (has_schedule chatbot))
        | inr off ↦ ground (arith, e, off, row, loop.0, loop.1, kept, fresh)
      ]
    ]
