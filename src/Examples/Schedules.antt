-- ===== src/Examples/Schedules.antt =====
-- A registry of two jobs, and a table of two chatbots.
use alice_skilltech_tools.Prelude.{ℕ, true, ◌≡◌, refl, none, some, List, [], ◌∷◌, ℤ, pos}
use alice_skilltech_tools.Prelude.Table.{get, has}
use alice_skilltech_tools.Scheduler.{
  Chatbot, ReindexJob, reindex_job_key, weekly, on_day_of_week, on_day_of_month,
  reconcile_chatbot_schedules, cron_trigger, is_between, trigger_on, weekly_trigger,
}
use alice_skilltech_tools.Scheduler.Registry.{get-reconcile_chatbot_schedules}

abbrev chatbot : ℕ → ℤ → Chatbot
chatbot id hour = record {
  id = id;
  reindex_schedule_enabled = true;
  reindex_schedule_frequency = some weekly;
  reindex_schedule_hour = some hour;
  reindex_schedule_minute = pos 30;
  reindex_schedule_day_of_week = some (pos 6);
  reindex_schedule_day_of_month = none;
}

-- The second row has an hour that is out of range.
abbrev chatbots : List Chatbot
chatbots = chatbot 1 (pos 23) ∷ chatbot 2 (pos 24) ∷ []

abbrev old_job : ℕ → ReindexJob
old_job id = record { chatbot_id = id; trigger = on_day_of_month (pos 1) (pos 0) (pos 0) }

abbrev jobs : List ReindexJob
jobs = old_job 1 ∷ old_job 3 ∷ []

get-reconcile_chatbot_schedules_example :
    get 1 (reconcile_chatbot_schedules (some chatbots) jobs)
    ≡ some (record { chatbot_id = 1; trigger = on_day_of_week (pos 6) (pos 23) (pos 30) })
unfolding has get cron_trigger is_between trigger_on weekly_trigger
get-reconcile_chatbot_schedules_example =
    get-reconcile_chatbot_schedules chatbots jobs 1 (refl, (refl, tt))
