-- ===== src/Scheduler.antt =====
-- api/app/services/scheduler_service.py: the registry of the chatbots' reindex triggers.
--
-- APScheduler's registry is modelled as the jobs whose ids carry a chatbot's id. A job's id is the
-- chatbot's id, a row of the table `Chatbot` has the columns that are read here.
pub mod Registry
use alice_skilltech_tools.Prelude.{
  ℕ, Bool, true, false, not, ◌&&◌, ◌||◌, Option, none, some, List, [], ◌∷◌, ◌++◌, if◌then◌else◌,
  filter, any, leb, ◌==◌, ℤ, pos, negsuc,
}
use alice_skilltech_tools.Prelude.Table.{HasKey, get, modify, has}

pub data ReindexFrequency : Type 0 where
  weekly : ReindexFrequency
  monthly : ReindexFrequency
  -- A text that is no member of the enumeration.
  unsupported : ReindexFrequency

pub record Chatbot : Type 0 where
  pub id : ℕ
  pub reindex_schedule_enabled : Bool
  pub reindex_schedule_frequency : Option ReindexFrequency
  pub reindex_schedule_hour : Option ℤ
  pub reindex_schedule_minute : ℤ
  pub reindex_schedule_day_of_week : Option ℤ
  pub reindex_schedule_day_of_month : Option ℤ

-- CronTrigger, in the scheduler's time zone.
pub data CronTrigger : Type 0 where
  on_day_of_week : (day_of_week hour minute : ℤ) → CronTrigger
  on_day_of_month : (day hour minute : ℤ) → CronTrigger

pub record ReindexJob : Type 0 where
  pub chatbot_id : ℕ
  pub trigger : CronTrigger

instance abbrev pub chatbot_key : HasKey Chatbot
chatbot_key = record { key = λ chatbot. chatbot.id }

instance abbrev pub reindex_job_key : HasKey ReindexJob
reindex_job_key = record { key = λ job. job.chatbot_id }

-- low <= n <= high
unfoldable pub is_between : ℕ → ℕ → ℤ → Bool
is_between low high (pos n) = leb low n && leb n high
is_between low high (negsuc n) = false

unfoldable pub weekly_trigger : Option ℤ → ℤ → ℤ → Option CronTrigger
weekly_trigger none hour minute = none
weekly_trigger (some day) hour minute =
    if is_between 0 6 day then some (on_day_of_week day hour minute) else none

unfoldable pub monthly_trigger : Option ℤ → ℤ → ℤ → Option CronTrigger
monthly_trigger none hour minute = none
monthly_trigger (some day) hour minute =
    if is_between 1 28 day then some (on_day_of_month day hour minute) else none

unfoldable pub trigger_on : ReindexFrequency → ℤ → ℤ → Option ℤ → Option ℤ → Option CronTrigger
trigger_on weekly hour minute day_of_week day_of_month = weekly_trigger day_of_week hour minute
trigger_on monthly hour minute day_of_week day_of_month = monthly_trigger day_of_month hour minute
trigger_on unsupported hour minute day_of_week day_of_month = none

-- The checks of `schedule_chatbot_reindex`; none is a ValueError.
unfoldable pub cron_trigger : ReindexFrequency → ℤ → ℤ → Option ℤ → Option ℤ → Option CronTrigger
cron_trigger frequency hour minute day_of_week day_of_month =
    if not (is_between 0 23 hour)
    then none
    else if not (is_between 0 59 minute)
    then none
    else trigger_on frequency hour minute day_of_week day_of_month

-- scheduler.add_job, with replace_existing
unfoldable pub add_job : ReindexJob → List ReindexJob → List ReindexJob
add_job job jobs =
    if has job.chatbot_id jobs then modify job.chatbot_id (λ _. job) jobs else jobs ++ job ∷ []

unfoldable pub schedule_chatbot_reindex :
    ℕ → ReindexFrequency → ℤ → ℤ → Option ℤ → Option ℤ → List ReindexJob → Option (List ReindexJob)
schedule_chatbot_reindex chatbot_id frequency hour minute day_of_week day_of_month jobs =
    elim (cron_trigger frequency hour minute day_of_week day_of_month) [
      | none ↦ none
      | some trigger ↦ some (add_job (record { chatbot_id = chatbot_id; trigger = trigger }) jobs)
    ]

-- An id that is not registered changes nothing: the JobLookupError is swallowed.
unfoldable pub unschedule_chatbot_reindex : ℕ → List ReindexJob → List ReindexJob
unschedule_chatbot_reindex chatbot_id jobs = filter (λ job. not (job.chatbot_id == chatbot_id)) jobs

pub record Reconciling : Type 0 where
  pub desired : List ℕ
  pub jobs : List ReindexJob

-- The attempt for a row that has a schedule; a ValueError is logged.
unfoldable pub try_schedule : Chatbot → ReindexFrequency → ℤ → List ReindexJob → List ReindexJob
try_schedule chatbot frequency hour jobs =
    elim (schedule_chatbot_reindex chatbot.id frequency hour chatbot.reindex_schedule_minute
      chatbot.reindex_schedule_day_of_week chatbot.reindex_schedule_day_of_month jobs) [
        | none ↦ jobs
        | some jobs' ↦ jobs'
      ]

unfoldable pub register_row : Chatbot → Reconciling → Reconciling
register_row chatbot r = elim chatbot.reindex_schedule_frequency [
  | none ↦ r
  | some frequency ↦ elim chatbot.reindex_schedule_hour [
    | none ↦ r
    | some hour ↦ record {
      desired = chatbot.id ∷ r.desired;
      jobs = try_schedule chatbot frequency hour r.jobs;
    }
  ]
]

unfoldable pub register_rows : List Chatbot → Reconciling → Reconciling
register_rows [] r = r
register_rows (chatbot ∷ rows) r = register_rows rows (register_row chatbot r)

-- The loop over the jobs that are registered when it starts.
unfoldable pub drop_undesired : List ReindexJob → List ℕ → List ReindexJob → List ReindexJob
drop_undesired [] desired jobs = jobs
drop_undesired (job ∷ registered) desired jobs = drop_undesired registered desired (
    if any (λ id. id == job.chatbot_id) desired
    then jobs
    else unschedule_chatbot_reindex job.chatbot_id jobs)

unfoldable pub reconcile_rows : List Chatbot → List ReindexJob → List ReindexJob
reconcile_rows rows jobs =
    let r = register_rows rows (record { desired = []; jobs = jobs }) in
    drop_undesired r.jobs r.desired r.jobs

-- `_reconcile_chatbot_schedules_inner`; none stands for a table that cannot be read.
unfoldable pub reconcile_chatbot_schedules :
    Option (List Chatbot) → List ReindexJob → List ReindexJob
reconcile_chatbot_schedules none jobs = jobs
reconcile_chatbot_schedules (some chatbots) jobs =
    reconcile_rows (filter (λ chatbot. chatbot.reindex_schedule_enabled) chatbots) jobs
