-- ===== src/Examples/JobProgress.antt =====
-- The theorems on progress messages and on the spans of the PII filter.
use alice_skilltech_tools.Prelude.{
  ℕ, Bool, not, ◌==◌, true, ◌≡◌, refl, none, some, List, [], ◌∷◌, arith,
}
use alice_skilltech_tools.Prelude.Table.{get}
use alice_skilltech_tools.Store.{Job, job_key}
use alice_skilltech_tools.Jobs.Progress.{is_file, FileUpdate, update_progress}
use alice_skilltech_tools.Jobs.Progress.Counters.{IsCounted, update_progress-IsCounted}
use alice_skilltech_tools.Jobs.Progress.Files.{HasUniqueFiles, update_progress-HasUniqueFiles}
use alice_skilltech_tools.Pii.Spans.{Entity, detect}
use alice_skilltech_tools.Pii.Spans.Coverage.{is_covered, detect-covered}
use alice_skilltech_tools.Pii.Redaction.{drop_overlaps}
use alice_skilltech_tools.Pii.Redaction.Overlaps.{
  IsSeparated, drop_overlaps-IsSeparated, drop_overlaps-displaced,
}
use alice_skilltech_tools.Examples.Data.{running_job, store, minute}

abbrev update : FileUpdate
update = record {
  external_file_id = some "c";
  filename = some "c.pdf";
  state = some "ingesting";
  error_message = none;
  error_detail = none;
  error_code = none;
}

update_progress-IsCounted_example :
    (after : Job) × (get 1 (update_progress minute 1 none (some 3) (some update) store).1.jobs
      ≡ some after)
    × IsCounted after (update_progress minute 1 none (some 3) (some update) store).1.job_files
unfolding get
update_progress-IsCounted_example =
    update_progress-IsCounted minute running_job none (some 3) update store refl refl

update_progress-HasUniqueFiles_example :
    HasUniqueFiles (update_progress minute 1 none (some 3) (some update) store).1.job_files
unfolding is_file
update_progress-HasUniqueFiles_example =
    update_progress-HasUniqueFiles minute 1 none (some 3) (some update) store (refl, (refl, tt))

abbrev span : (start end score : ℕ) → Entity
span start end score = record {
  label = "PERSON";
  start = start;
  end = end;
  score = score;
  surface = [];
}

abbrev spans : List Entity
spans = span 0 4 90 ∷ span 4 8 80 ∷ []

abbrev is_space : ℕ → Bool
is_space c = c == 32

abbrev is_letter : ℕ → Bool
is_letter c = not (is_space c)

-- "Anna Li"
abbrev anna_li : List ℕ
anna_li = 65 ∷ 110 ∷ 110 ∷ 97 ∷ 32 ∷ 76 ∷ 105 ∷ []

detect-covered_example :
    is_covered (span 4 6 80) (detect is_space is_letter anna_li 50 (span 0 4 90 ∷ span 4 6 80 ∷ []))
    ≡ true
detect-covered_example =
    detect-covered is_space is_letter anna_li 50 (span 4 6 80) (span 0 4 90 ∷ span 4 6 80 ∷ []) refl
      (omega arith, (omega arith, tt)) refl

drop_overlaps-IsSeparated_example : IsSeparated 0 (drop_overlaps spans)
drop_overlaps-IsSeparated_example = drop_overlaps-IsSeparated spans

-- The name in the middle of a long span is left in the text.
drop_overlaps-displaced_example :
    drop_overlaps (span 0 20 60 ∷ span 2 8 50 ∷ span 15 30 90 ∷ []) ≡ span 15 30 90 ∷ []
drop_overlaps-displaced_example =
    drop_overlaps-displaced (span 0 20 60) (span 2 8 50) (span 15 30 90) (omega arith) (omega arith)
      (omega arith) (omega arith) (omega arith) (omega arith)
