-- ===== src/Jobs/Stalled/Marking.antt =====
-- What giving up one job changes.
use mathlib.Core.Option
use alice_skilltech_tools.Prelude.{ℕ, String, ◌≡◌, refl, Option, arith, if◌then◌else◌, ◌==◌}
use alice_skilltech_tools.Prelude.Table.{get, modify, get-modify}
use alice_skilltech_tools.Store.{
  Job, job_key, knowledge_base_key, datasource_key, Store, save_job, save_kb, save_datasource,
  observe,
}
use alice_skilltech_tools.Jobs.Lifecycle.{log_event}
use alice_skilltech_tools.Jobs.Lifecycle.Audit.{IsAudited, logged-save}
use alice_skilltech_tools.Jobs.Stalled.{
  stall, reset_linked_kb, reset_linked_datasource, mark_stalled,
}

jobs-reset :
    (kb ds : Option ℕ) (t : Store)
    → (reset_linked_datasource ds (reset_linked_kb kb t)).jobs ≡ t.jobs
unfolding reset_linked_kb reset_linked_datasource save_kb save_datasource
jobs-reset kb ds t = ground arith

events-reset :
    (kb ds : Option ℕ) (t : Store)
    → (reset_linked_datasource ds (reset_linked_kb kb t)).job_events ≡ t.job_events
unfolding reset_linked_kb reset_linked_datasource save_kb save_datasource
events-reset kb ds t = ground arith

module _ (now : ℕ) (job : Job) (reason : String) (s : Store) where
  pub jobs-mark_stalled :
      (mark_stalled now job reason s).jobs ≡ modify job.id (λ _. stall reason job) s.jobs
  unfolding mark_stalled observe save_job log_event stall
  jobs-mark_stalled = rw jobs-reset

  pub get-mark_stalled :
      (id : ℕ)
      → get id (mark_stalled now job reason s).jobs ≡ (
          if job.id == id
          then Option.map (λ _. stall reason job) (get id s.jobs)
          else get id s.jobs)
  get-mark_stalled id =
      rw jobs-mark_stalled
        (get-modify job.id id (λ _. stall reason job) s.jobs (λ r e. unfold stall in refl))

  pub mark_stalled-IsAudited : IsAudited s → IsAudited (mark_stalled now job reason s)
  unfolding mark_stalled observe save_job log_event stall
  mark_stalled-IsAudited a = record {
    logged = λ id row.
        rw (jobs-reset, events-reset) (logged-save s (stall reason job) _ refl refl a id row);
  }
