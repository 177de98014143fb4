-- ===== src/Jobs/Cleanup.antt =====
-- api/app/repositories/job.py: the retention of finished jobs.
--
-- `created_at < now - days` is `created_at + days < now`, in microseconds.
pub mod References
use alice_skilltech_tools.Prelude.{
  ℕ, ◌+◌, ◌*◌, Bool, true, false, ◌&&◌, ◌||◌, not, List, [], ◌∷◌, map, ltb, if◌then◌else◌, ◌==◌,
  filter, length, elem,
}
use alice_skilltech_tools.Store.{Job, JobFile, JobEvent, completed, failed, status_eq, Store}

-- timedelta(days=d), in microseconds
abbrev pub day_span : ℕ → ℕ
day_span d = 86400000000 * d

unfoldable pub is_reapable : ℕ → ℕ → Job → Bool
is_reapable now days job =
    ltb (job.created_at + day_span days) now
    && (status_eq job.status completed || status_eq job.status failed)

-- The children go first, then the jobs; the number of the jobs is returned.
unfoldable pub cleanup_old_jobs : ℕ → ℕ → Store → ℕ × Store
cleanup_old_jobs now days s =
    let old_jobs = filter (is_reapable now days) s.jobs in
    let job_ids = map (λ (job : Job). job.id) old_jobs in
    if length old_jobs == 0
    then (0, s)
    else let s₁ = record s {
      job_files = filter (λ (row : JobFile). not (elem row.job_id job_ids)) s.job_files;
      job_events = filter (λ (row : JobEvent). not (elem row.job_id job_ids)) s.job_events;
    } in
      (
        length old_jobs,
        record s₁ { jobs = filter (λ (job : Job). not (elem job.id job_ids)) s₁.jobs },
      )
