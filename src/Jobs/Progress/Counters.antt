-- ===== src/Jobs/Progress/Counters.antt =====
-- The counters of a job after a progress message.
use alice_skilltech_tools.Prelude.{
  ℕ, ◌≤◌, ◌≡◌, refl, String, Bool, false, Option, none, some, List, [], ◌∷◌, arith, str_eq, length,
  count_if,
}
use alice_skilltech_tools.Prelude.Table.{get, get-modify}
use alice_skilltech_tools.Store.{save_job, Job, job_key, JobFile, Store}
use alice_skilltech_tools.Jobs.Progress.{
  FileUpdate, or_else, is_done, refresh_counters, upsert_job_file, update_progress_row,
  update_progress, apply_file, set_message, touch, files_of_job,
}
use alice_skilltech_tools.Jobs.Progress.Percentage.{
  total_count-group_by_state, done_count-group_by_state,
}

-- The number of a job's files, and of those of them that are done.
abbrev pub file_count : ℕ → List JobFile → ℕ
file_count job_id files = length (files_of_job job_id files)

abbrev pub done_file_count : ℕ → List JobFile → ℕ
done_file_count job_id files = count_if (λ file. is_done file.state) (files_of_job job_id files)

count_if-le {ℓ} : {A : Type ℓ} (p : A → Bool) (xs : List A) → count_if p xs ≤ length xs
count_if-le p [] = omega arith
count_if-le p (x ∷ xs) = ground (arith, count_if-le p xs)

-- The counters of a job agree with its rows.
pub record IsCounted (job : Job) (files : List JobFile) : Type 0 where
  pub current : job.progress_current ≡ done_file_count job.id files
  pub total : file_count job.id files ≤ job.progress_total
  pub in_range : job.progress_current ≤ job.progress_total

refresh_counters-IsCounted :
    (external_id : String) (file : FileUpdate) (files : List JobFile) (job : Job)
    → IsCounted (refresh_counters external_id file files job) files
unfolding refresh_counters
refresh_counters-IsCounted external_id file files job = record {
  current = done_count-group_by_state (files_of_job job.id files);
  total = omega (arith, total_count-group_by_state (files_of_job job.id files));
  in_range = omega (
    arith,
    total_count-group_by_state (files_of_job job.id files),
    done_count-group_by_state (files_of_job job.id files),
    count_if-le (λ (f : JobFile). is_done f.state) (files_of_job job.id files),
  );
}

set_message-IsCounted :
    (message : Option String) (job : Job) (files : List JobFile)
    → IsCounted job files
    → IsCounted (set_message message job) files
unfolding set_message
set_message-IsCounted none job files c = c
set_message-IsCounted (some m) job files c = record {
  current = c.current;
  total = c.total;
  in_range = c.in_range;
}

upsert_job_file-IsCounted :
    (now : ℕ) (job : Job) (file : FileUpdate) (files : List JobFile)
    → str_eq (or_else file.external_file_id "") "" ≡ false
    → IsCounted (upsert_job_file now job file files).0 (upsert_job_file now job file files).1
unfolding upsert_job_file
upsert_job_file-IsCounted now job file files h = rw h (refresh_counters-IsCounted _ file _ job)

id-upsert_job_file :
    (now : ℕ) (job : Job) (file : FileUpdate) (files : List JobFile)
    → (upsert_job_file now job file files).0.id ≡ job.id
unfolding upsert_job_file refresh_counters
id-upsert_job_file now job file files = ground arith

id-apply_file :
    (now : ℕ) (job : Job) (file : Option FileUpdate) (files : List JobFile)
    → (apply_file now job file files).0.id ≡ job.id
unfolding apply_file
id-apply_file now job none files = refl
id-apply_file now job (some file) files = id-upsert_job_file now job file files

pub id-update_progress_row :
    (now : ℕ) (job : Job) (message : Option String) (total_files : Option ℕ)
    (file : Option FileUpdate) (s : Store)
    → (update_progress_row now job message total_files file s).0.id ≡ job.id
unfolding update_progress_row set_message touch
id-update_progress_row now job none total_files file s =
    id-apply_file now (touch now total_files job) file s.job_files
id-update_progress_row now job (some m) total_files file s =
    id-apply_file now (touch now total_files job) file s.job_files

status-apply_file :
    (now : ℕ) (job : Job) (file : Option FileUpdate) (files : List JobFile)
    → (apply_file now job file files).0.status ≡ job.status
unfolding apply_file upsert_job_file refresh_counters
status-apply_file now job none files = refl
status-apply_file now job (some file) files = ground arith

-- Progress never changes a status.
pub status-update_progress_row :
    (now : ℕ) (job : Job) (message : Option String) (total_files : Option ℕ)
    (file : Option FileUpdate) (s : Store)
    → (update_progress_row now job message total_files file s).0.status ≡ job.status
unfolding update_progress_row set_message touch
status-update_progress_row now job none total_files file s =
    status-apply_file now (touch now total_files job) file s.job_files
status-update_progress_row now job (some m) total_files file s =
    status-apply_file now (touch now total_files job) file s.job_files

pub update_progress_found :
    (now job_id : ℕ) (job : Job) (message : Option String) (total_files : Option ℕ)
    (file : Option FileUpdate) (s : Store)
    → get job_id s.jobs ≡ some job
    → (update_progress now job_id message total_files file s).1
      ≡ (update_progress_row now job message total_files file s).1
unfolding update_progress update_progress_row
update_progress_found now job_id job message total_files file s found = rw (update_progress, found)

pub update_progress_missing :
    (now job_id : ℕ) (message : Option String) (total_files : Option ℕ) (file : Option FileUpdate)
    (s : Store)
    → get job_id s.jobs ≡ none
    → (update_progress now job_id message total_files file s).1 ≡ s
unfolding update_progress
update_progress_missing now job_id message total_files file s missing =
    rw (update_progress, missing)

pub get-update_progress_row :
    (now : ℕ) (job : Job) (message : Option String) (total_files : Option ℕ)
    (file : Option FileUpdate) (s : Store)
    → get job.id s.jobs ≡ some job
    → get job.id (update_progress_row now job message total_files file s).1.jobs
      ≡ some (update_progress_row now job message total_files file s).0
unfolding update_progress_row save_job
get-update_progress_row now job message total_files file s found =
    let job' = (update_progress_row now job message total_files file s).0 in
    let same = id-update_progress_row now job message total_files file s in
    ground (arith, same, found, get-modify job'.id job.id (λ _. job') s.jobs (λ r e. refl))

row-IsCounted :
    (now : ℕ) (job : Job) (message : Option String) (total_files : Option ℕ) (file : FileUpdate)
    (s : Store)
    → str_eq (or_else file.external_file_id "") "" ≡ false
    → IsCounted
        (update_progress_row now job message total_files (some file) s).0
        (update_progress_row now job message total_files (some file) s).1.job_files
unfolding update_progress_row apply_file save_job
row-IsCounted now job message total_files file s named =
    set_message-IsCounted message _ _
      (upsert_job_file-IsCounted now (touch now total_files job) file s.job_files named)

-- After a progress message with a file that has an id, the stored row of a job that exists
-- counts its finished files, its total is at least the number of its files, and its counter does
-- not pass its total.
pub update_progress-IsCounted :
    (now : ℕ) (job : Job) (message : Option String) (total_files : Option ℕ) (file : FileUpdate)
    (s : Store)
    → get job.id s.jobs ≡ some job
    → str_eq (or_else file.external_file_id "") "" ≡ false
    → (after : Job) × (get job.id
          (update_progress now job.id message total_files (some file) s).1.jobs
        ≡ some after)
      × IsCounted after (update_progress now job.id message total_files (some file) s).1.job_files
update_progress-IsCounted now job message total_files file s found named =
    rw (update_progress_found now job.id job message total_files (some file) s found) (
      (update_progress_row now job message total_files (some file) s).0,
      get-update_progress_row now job message total_files (some file) s found,
      row-IsCounted now job message total_files file s named,
    )
