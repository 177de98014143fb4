-- ===== src/Jobs/Progress/Percentage.antt =====
-- The percentage of a job: grouping loses no file, the range, and bulk reading.
use Prim.Native.Nat.{◌^◌}
use native.Mathlib.Decide.{dec_lt}
use alice_skilltech_tools.Prelude.{
  ℕ, ◌+◌, ◌≤◌, ◌≡◌, refl, ap, ◌∙◌, String, true, Option, none, some, List, [], ◌∷◌, map, arith,
  eq_iff, if◌then◌else◌, ==_refl, length, count_if, elem, All,
}
use mathlib.Core.Path.{subst}
use alice_skilltech_tools.Jobs.Progress.Doubles.{Floats, IsRounding}
use alice_skilltech_tools.Store.{Job, JobFile, Store}
use alice_skilltech_tools.Jobs.Progress.{
  weight_or_zero, progress_weight, is_done, count_state, group_by_state, total_count, weigh_from,
  percentage_of, done_count, percentage_from_state_counts, files_of_job,
  get_weighted_progress_percentages_bulk, get_weighted_progress_percentage, fallback_percentage,
  get_progress_percentage, get_progress_percentages_bulk, percentage_entry,
}

total_count-count_state :
    (state : String) (groups : List (String × ℕ))
    → total_count (count_state state groups) ≡ 1 + total_count groups
unfolding total_count count_state
total_count-count_state state [] = omega arith
total_count-count_state state ((other, n) ∷ groups) =
    ground (arith, total_count-count_state state groups)

done_count-count_state :
    (state : String) (groups : List (String × ℕ))
    → done_count (count_state state groups) ≡ (if is_done state then 1 else 0) + done_count groups
unfolding done_count count_state
done_count-count_state state [] = ground arith
done_count-count_state state ((other, n) ∷ groups) =
    ground (arith, eq_iff other state, done_count-count_state state groups)

-- The number of rows is the sum of the groups' counts.
pub total_count-group_by_state :
    (files : List JobFile) → total_count (group_by_state files) ≡ length files
unfolding group_by_state total_count
total_count-group_by_state [] = refl
total_count-group_by_state (file ∷ files) = omega (
  arith,
  total_count-count_state file.state (group_by_state files),
  total_count-group_by_state files,
)

pub done_count-group_by_state :
    (files : List JobFile)
    → done_count (group_by_state files) ≡ count_if (λ file. is_done file.state) files
unfolding group_by_state done_count
done_count-group_by_state [] = refl
done_count-group_by_state (file ∷ files) = omega (
  arith,
  done_count-count_state file.state (group_by_state files),
  done_count-group_by_state files,
)

weight_le : (state : String) → weight_or_zero state ≤ 100
unfolding weight_or_zero progress_weight
weight_le state = ground arith

module _ {F : Type 0} (fl : Floats F) (laws : IsRounding fl) where
  open fl use {hundredths, of_int, plus, times}
  open laws use {
    le, le_refl, plus_mono, times_mono, over_mono, round_mono, hundredths_le, true_div_le,
    plus_exact, one_times, over_self, round_hundred,
  }

  -- What the loop adds up weighs no more than the files that it has counted.
  weigh_from-le :
      (groups : List (String × ℕ)) (weighted : F) (a : ℕ)
      → le weighted (of_int a) ≡ true
      → a + total_count groups ≤ 2 ^ 53
      → le (weigh_from fl weighted groups) (of_int (a + total_count groups)) ≡ true
  unfolding weigh_from total_count
  weigh_from-le [] weighted a h fits = subst (λ n. le weighted (of_int n) ≡ true) (omega arith) h
  weigh_from-le ((state, count) ∷ groups) weighted a h fits =
      let weight = hundredths (weight_or_zero state) in
      let light =
        times_mono weight (of_int 1) (of_int count)
          (hundredths_le (weight_or_zero state) (weight_le state)) in
      let added =
        plus_mono weighted (times weight (of_int count)) (of_int a)
          (times (of_int 1) (of_int count)) h light in
      let bound : plus (of_int a) (times (of_int 1) (of_int count)) ≡ of_int (a + count) =
        ap (plus (of_int a)) (one_times (of_int count)) ∙ plus_exact a count (omega arith) in
      subst
        (λ n.
          le (weigh_from fl (plus weighted (times weight (of_int count))) groups) (of_int n) ≡ true)
        (omega arith)
        (weigh_from-le groups (plus weighted (times weight (of_int count))) (a + count)
          (rw bound at added) (omega arith))

  percentage_of-le :
      (quotient : F) → le quotient (of_int 1) ≡ true → percentage_of fl quotient ≤ 1000
  unfolding percentage_of
  percentage_of-le quotient h =
      let top = round_mono _ _ (times_mono quotient (of_int 1) (of_int 100) h) in
      let most = ap fl.round_tenths (one_times (of_int 100)) ∙ round_hundred in
      omega (arith, top, most)

  percentage_from_state_counts-le :
      (groups : List (String × ℕ))
      → total_count groups ≤ 2 ^ 53
      → percentage_from_state_counts fl groups ≤ 1000
  unfolding percentage_from_state_counts
  percentage_from_state_counts-le groups fits = elim (dec_lt 0 (total_count groups)) [
    | yes some_total ↦
        let weighed =
          subst (λ n. le (weigh_from fl (of_int 0) groups) (of_int n) ≡ true)
            {y = total_count groups} (omega arith)
            (weigh_from-le groups (of_int 0) 0 (le_refl (of_int 0)) (omega arith)) in
        let quotient = over_mono _ _ (total_count groups) some_total weighed in
        let one = over_self (total_count groups) some_total fits in
        let small = percentage_of-le _ (rw one at quotient) in ground (arith, small)
    | no none_total ↦ ground arith
  ]

  fallback_percentage-le :
      (job : Job) → job.progress_current ≤ job.progress_total → fallback_percentage fl job ≤ 1000
  unfolding fallback_percentage
  fallback_percentage-le job h = elim (dec_lt 0 job.progress_total) [
    | yes some_total ↦
        let small =
          percentage_of-le _ (true_div_le job.progress_current job.progress_total h some_total) in
        ground (arith, small)
    | no none_total ↦ ground arith
  ]

  weighted-le :
      (files : List JobFile) (p : ℕ)
      → length files ≤ 2 ^ 53
      → (elim files as (λ _. Option ℕ) [
        | [] ↦ none
        | file ∷ rest ↦ some (percentage_from_state_counts fl (group_by_state (file ∷ rest)))
      ])
        ≡ some p
      → p ≤ 1000
  weighted-le [] p fits h = cc
  weighted-le (file ∷ files) p fits h =
      let small =
        percentage_from_state_counts-le (group_by_state (file ∷ files))
          (omega (arith, total_count-group_by_state (file ∷ files))) in
      let same : percentage_from_state_counts fl (group_by_state (file ∷ files)) ≡ p = cc in
      omega arith

  shown-le :
      (job : Job) (weighted : Option ℕ)
      → job.progress_current ≤ job.progress_total
      → ((p : ℕ) → weighted ≡ some p → p ≤ 1000)
      → (elim weighted as (λ _. ℕ) [ none ↦ fallback_percentage fl job | some p ↦ p ]) ≤ 1000
  shown-le job none h bound = fallback_percentage-le job h
  shown-le job (some p) h bound = bound p refl

  -- For floats that round as IEEE doubles do, the percentage shown for a job whose stored
  -- counter does not pass its stored total, and that has at most 2^53 files, is at most 100.0.
  pub get_progress_percentage_bounds :
      (job : Job) (s : Store)
      → job.progress_current ≤ job.progress_total
      → length (files_of_job job.id s.job_files) ≤ 2 ^ 53
      → get_progress_percentage fl job s ≤ 1000
  unfolding get_progress_percentage get_weighted_progress_percentage
      get_weighted_progress_percentages_bulk
  get_progress_percentage_bounds job s h fits =
      shown-le job (get_weighted_progress_percentage fl job.id s) h λ p e.
        weighted-le (files_of_job job.id s.job_files) p fits (ground (arith, e, ==_refl job.id))

-- The jobs whose ids are among those that the bulk query asks for.
abbrev IsAsked : List ℕ → List Job → Type 0
IsAsked ids = All (λ (job : Job). elem job.id ids ≡ true)

IsAsked-cons :
    (id : ℕ) (ids : List ℕ) (jobs : List Job) → IsAsked ids jobs → IsAsked (id ∷ ids) jobs
IsAsked-cons id ids [] h = tt
IsAsked-cons id ids (job ∷ jobs) h = (ground (arith, h.0), IsAsked-cons id ids jobs h.1)

IsAsked-self : (jobs : List Job) → IsAsked (map (λ (j : Job). j.id) jobs) jobs
IsAsked-self [] = tt
IsAsked-self (job ∷ jobs) =
    (ground (arith, ==_refl job.id), IsAsked-cons job.id _ jobs (IsAsked-self jobs))

module _ {F : Type 0} (fl : Floats F) where
  bulk-entry :
      (ids : List ℕ) (job : Job) (s : Store)
      → elem job.id ids ≡ true
      → percentage_entry fl (get_weighted_progress_percentages_bulk fl ids s) job
        ≡ (job.id, get_progress_percentage fl job s)
  unfolding percentage_entry get_weighted_progress_percentages_bulk get_progress_percentage
      get_weighted_progress_percentage
  bulk-entry ids job s h = ground (arith, ==_refl job.id)

  map-entry :
      (ids : List ℕ) (jobs : List Job) (s : Store)
      → IsAsked ids jobs
      → map (percentage_entry fl (get_weighted_progress_percentages_bulk fl ids s)) jobs
        ≡ map {B = ℕ × ℕ} (λ job. (job.id, get_progress_percentage fl job s)) jobs
  map-entry ids [] s h = refl
  map-entry ids (job ∷ jobs) s h = cc (bulk-entry ids job s h.0, map-entry ids jobs s h.1)

  -- Reading the percentages of many jobs at once gives for each job what reading it alone gives.
  get_progress_percentages_bulk_lem :
      (jobs : List Job) (s : Store)
      → get_progress_percentages_bulk fl jobs s
        ≡ map {B = ℕ × ℕ} (λ job. (job.id, get_progress_percentage fl job s)) jobs
  unfolding get_progress_percentages_bulk
  get_progress_percentages_bulk_lem jobs s = map-entry _ jobs s (IsAsked-self jobs)
