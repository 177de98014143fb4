-- ===== src/Jobs/Progress.antt =====
-- api/app/repositories/job.py: the progress of a job and of its files.
--
-- Percentages are in tenths, as `round(x, 1)` leaves them, and the literals of the weights in
-- hundredths. The float arithmetic is a parameter (Jobs.Progress.Doubles); the groups are added up in
-- the order of `group_by_state`, where the database may give another one.
pub mod Doubles
pub mod Percentage
pub mod Files
pub mod Counters
use Prim.Native.Nat.{max}
use Prim.Native.String.{◌++◌ as ◌⧺◌}
use alice_skilltech_tools.Prelude.{
  ℕ, ◌+◌, ◌-◌, ◌*◌, ◌/◌, ◌%◌, String, Bool, true, false, ◌&&◌, Option, none, some, List, [], ◌∷◌,
  ◌++◌, map, ltb, str_eq, if◌then◌else◌, ◌==◌, filter, any, elem,
}
use alice_skilltech_tools.Prelude.Table.{get}
use alice_skilltech_tools.Jobs.Progress.Doubles.{Floats}
use alice_skilltech_tools.Store.{Job, job_key, JobFile, Store, save_job}

-- _PROGRESS_STATE_WEIGHTS.get(state)
unfoldable pub progress_weight : String → Option ℕ
progress_weight state =
    if str_eq state "pending"
    then some 0
    else if str_eq state "downloading"
    then some 5
    else if str_eq state "downloaded"
    then some 15
    else if str_eq state "ingesting"
    then some 50
    else if str_eq state "ingested"
    then some 100
    else if str_eq state "skipped"
    then some 100
    else if str_eq state "failed"
    then some 100
    else none

-- A state that has no weight is logged and weighs nothing.
unfoldable pub weight_or_zero : String → ℕ
unfolding progress_weight
weight_or_zero state = elim (progress_weight state) [ none ↦ 0 | some w ↦ w ]

-- JOB_FILE_DONE_STATES
unfoldable pub is_done : String → Bool
is_done state =
    if str_eq state "ingested"
    then true
    else if str_eq state "skipped"
    then true
    else str_eq state "failed"

-- SELECT state, count(*) ... GROUP BY state
unfoldable pub count_state : String → List (String × ℕ) → List (String × ℕ)
count_state state [] = (state, 1) ∷ []
count_state state ((other, count) ∷ groups) =
    if str_eq other state
    then (other, count + 1) ∷ groups
    else (other, count) ∷ count_state state groups

unfoldable pub group_by_state : List JobFile → List (String × ℕ)
unfolding count_state
group_by_state [] = []
group_by_state (file ∷ files) = count_state file.state (group_by_state files)

unfoldable pub total_count : List (String × ℕ) → ℕ
total_count [] = 0
total_count ((state, count) ∷ groups) = count + total_count groups

unfoldable pub done_count : List (String × ℕ) → ℕ
done_count [] = 0
done_count ((state, count) ∷ groups) = (if is_done state then count else 0) + done_count groups

unfoldable pub files_of_job : ℕ → List JobFile → List JobFile
files_of_job job_id files = filter (λ file. file.job_id == job_id) files

module _ {F : Type 0} (fl : Floats F) where
  open fl use {hundredths, of_int, plus, times, over, true_div, round_tenths}

  -- The loop from `weighted` on: weighted += weight * count
  unfoldable pub weigh_from : F → List (String × ℕ) → F
  weigh_from weighted [] = weighted
  weigh_from weighted ((state, count) ∷ groups) =
      weigh_from (plus weighted (times (hundredths (weight_or_zero state)) (of_int count))) groups

  -- round(quotient * 100, 1)
  unfoldable pub percentage_of : F → ℕ
  percentage_of quotient = round_tenths (times quotient (of_int 100))

  unfoldable pub percentage_from_state_counts : List (String × ℕ) → ℕ
  percentage_from_state_counts groups =
      let total = total_count groups in
      if total == 0 then 0 else percentage_of (over (weigh_from (of_int 0) groups) (of_int total))

  -- The dict {job_id: percentage}, as a function: a job with no rows is missing from it.
  unfoldable pub get_weighted_progress_percentages_bulk : List ℕ → Store → ℕ → Option ℕ
  get_weighted_progress_percentages_bulk job_ids s job_id =
      if elem job_id job_ids
      then elim (files_of_job job_id s.job_files) [
        | [] ↦ none
        | file ∷ files ↦ some (percentage_from_state_counts (group_by_state (file ∷ files)))
      ]
      else none

  unfoldable pub get_weighted_progress_percentage : ℕ → Store → Option ℕ
  get_weighted_progress_percentage job_id s =
      get_weighted_progress_percentages_bulk (job_id ∷ []) s job_id

  unfoldable pub fallback_percentage : Job → ℕ
  fallback_percentage job =
      if ltb 0 job.progress_total
      then percentage_of (true_div job.progress_current job.progress_total)
      else 0

  unfoldable pub get_progress_percentage : Job → Store → ℕ
  get_progress_percentage job s = elim (get_weighted_progress_percentage job.id s) [
    | none ↦ fallback_percentage job
    | some weighted ↦ weighted
  ]

  -- One entry of the dict that `get_progress_percentages_bulk` builds.
  unfoldable pub percentage_entry : (ℕ → Option ℕ) → Job → ℕ × ℕ
  percentage_entry weighted job =
      (job.id, elim (weighted job.id) [ none ↦ fallback_percentage job | some p ↦ p ])

  -- The dict of `get_progress_percentages_bulk`, listed by job.
  unfoldable pub get_progress_percentages_bulk : List Job → Store → List (ℕ × ℕ)
  get_progress_percentages_bulk jobs s =
      map
        (percentage_entry (get_weighted_progress_percentages_bulk (map (λ (j : Job). j.id) jobs) s))
        jobs

-- The `file` entry of a progress message.
pub record FileUpdate : Type 0 where
  pub external_file_id : Option String
  pub filename : Option String
  pub state : Option String
  pub error_message : Option String
  pub error_detail : Option String
  pub error_code : Option String

-- `value or default`
abbrev pub or_else : Option String → String → String
or_else none d = d
or_else (some v) d = if str_eq v "" then d else v

unfoldable pub is_file : ℕ → String → JobFile → Bool
is_file job_id external_id file =
    if file.job_id == job_id then str_eq file.external_file_id external_id else false

-- Writes to the first row that a query finds.
unfoldable pub update_first : (JobFile → Bool) → (JobFile → JobFile) → List JobFile → List JobFile
update_first found write [] = []
update_first found write (file ∷ files) =
    if found file then write file ∷ files else file ∷ update_first found write files

-- The rows of `jobfile` after the upsert of one file.
unfoldable pub upsert_file : ℕ → ℕ → String → FileUpdate → List JobFile → List JobFile
unfolding is_file update_first
upsert_file now job_id external_id file files =
    let state = or_else file.state "pending" in
    let filename = or_else file.filename external_id in
    if any (is_file job_id external_id) files
    then update_first (is_file job_id external_id)
        (λ existing. record existing {
          state = state;
          filename = filename;
          error_message = file.error_message;
          error_detail = file.error_detail;
          error_code = file.error_code;
          updated_at = now;
        })
        files
    else files
      ++ record {
        job_id = job_id;
        external_file_id = external_id;
        filename = filename;
        state = state;
        error_message = file.error_message;
        error_detail = file.error_detail;
        error_code = file.error_code;
        created_at = now;
        updated_at = now;
      }
        ∷ []

-- The counters and the message of the job, from the rows after the upsert.
unfoldable pub refresh_counters : String → FileUpdate → List JobFile → Job → Job
unfolding group_by_state total_count done_count files_of_job
refresh_counters external_id file files job =
    let groups = group_by_state (files_of_job job.id files) in
    let state = or_else file.state "pending" in
    let filename = or_else file.filename external_id in
    record job {
      progress_current = done_count groups;
      progress_total = max job.progress_total (total_count groups);
      progress_message = some (filename ⧺ " (" ⧺ state ⧺ ")");
    }

-- _upsert_job_file: the job in memory and the rows. A file without an id is skipped.
unfoldable pub upsert_job_file : ℕ → Job → FileUpdate → List JobFile → Job × List JobFile
unfolding upsert_file refresh_counters
upsert_job_file now job file files =
    let external_id = or_else file.external_file_id "" in
    if str_eq external_id ""
    then (job, files)
    else let files' = upsert_file now job.id external_id file files in
      (refresh_counters external_id file files' job, files')

-- The writes before the file is applied: the heartbeat and a declared total.
unfoldable pub touch : ℕ → Option ℕ → Job → Job
touch now total_files job = record job {
  progress_updated_at = some now;
  progress_total = elim total_files [ none ↦ job.progress_total | some total ↦ total ];
}

unfoldable pub apply_file : ℕ → Job → Option FileUpdate → List JobFile → Job × List JobFile
apply_file now job none files = (job, files)
apply_file now job (some file) files = upsert_job_file now job file files

-- An explicit message wins over the one derived from the file.
unfoldable pub set_message : Option String → Job → Job
set_message none job = job
set_message (some message) job = record job { progress_message = some message }

unfoldable pub update_progress_row :
    ℕ → Job → Option String → Option ℕ → Option FileUpdate → Store → Job × Store
update_progress_row now job message total_files file s =
    let (job₁, files) = apply_file now (touch now total_files job) file s.job_files in
    let job₂ = set_message message job₁ in (job₂, save_job job₂ (record s { job_files = files }))

unfoldable pub update_progress :
    ℕ → ℕ → Option String → Option ℕ → Option FileUpdate → Store → Option Job × Store
update_progress now job_id message total_files file s = elim (get job_id s.jobs) [
  | none ↦ (none, s)
  | some job ↦
      let (job', s') = update_progress_row now job message total_files file s in (some job', s')
]
