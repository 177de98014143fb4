-- ===== src/Orphans/Detectors.antt =====
-- api/app/services/orphan_detection.py: the reports and the detectors that read the database.
--
-- The rows of Chatbot and UploadedFile are given by the columns that are read. A detector that
-- iterates a query sees the rows in the order of the table.
use alice_skilltech_tools.Prelude.{
  ℕ, suc, String, Bool, false, not, ◌&&◌, ◌||◌, Option, none, some, List, [], ◌∷◌, ◌++◌, map,
  if◌then◌else◌, ◌>>=◌, ltb, length, elem, any,
}
use alice_skilltech_tools.Store.{Store, Job, JobFile, Link, pending, running, status_eq}
use alice_skilltech_tools.Store.Metrics.{codes, text_eq}
use alice_skilltech_tools.Orphans.Selections.{parse_selections, extract_file_ids}

-- _SAMPLE_LIMIT
abbrev pub sample_limit : ℕ
sample_limit = 100

pub record OrphanReport (A : Type 0) : Type 0 where
  pub category : String
  pub count : ℕ
  pub sample_ids : List A

module _ {A : Type 0} where
  abbrev pub empty_report : String → OrphanReport A
  empty_report category = record { category = category; count = 0; sample_ids = [] }

  unfoldable pub add : A → OrphanReport A → OrphanReport A
  add identifier report = record report {
    count = suc report.count;
    sample_ids =
        if ltb (length report.sample_ids) sample_limit
        then report.sample_ids ++ identifier ∷ []
        else report.sample_ids;
  }

  -- for x in xs: if test(x): report.add(x)
  unfoldable pub add_all : (A → Bool) → List A → OrphanReport A → OrphanReport A
  add_all test [] report = report
  add_all test (x ∷ xs) report = add_all test xs (if test x then add x report else report)

unfoldable pub find_orphan_knowledge_bases : List ℕ → Store → OrphanReport ℕ
find_orphan_knowledge_bases referenced_kb_ids s =
    add_all (λ id. not (elem id referenced_kb_ids)) (map (λ kb. kb.id) s.knowledge_bases)
      (empty_report "db.orphan_knowledge_bases")

unfoldable pub find_orphan_datasources : Store → OrphanReport ℕ
find_orphan_datasources s =
    add_all (λ id. not (elem id (map (λ link. link.datasource_id) s.links)))
      (map (λ ds. ds.id) s.datasources) (empty_report "db.orphan_datasources")

-- The files that the links select; `none` is the exception of a selection with a bad entry.
unfoldable pub selected_file_ids : (List ℕ → Option ℕ) → List Link → Option (List ℕ)
selected_file_ids parse_uuid [] = some []
selected_file_ids parse_uuid (link ∷ links) =
    extract_file_ids parse_uuid (parse_selections link.selection) >>= λ ids.
    selected_file_ids parse_uuid links >>= λ rest. some (ids ++ rest)

unfoldable pub find_unselected_uploaded_files :
    (List ℕ → Option ℕ) → List ℕ → Store → Option (OrphanReport ℕ)
find_unselected_uploaded_files parse_uuid uploaded_ids s =
    selected_file_ids parse_uuid s.links >>= λ selected. some (
      add_all (λ id. not (elem id selected)) uploaded_ids
        (empty_report "db.unselected_uploaded_files"))

-- An active job whose knowledge base is not among the given ones.
unfoldable pub is_stuck : List ℕ → Job → Bool
is_stuck kb_ids job =
    (status_eq job.status pending || status_eq job.status running)
    && elim job.knowledge_base_id [ none ↦ false | some kb ↦ not (elem kb kb_ids) ]

unfoldable pub find_stuck_jobs : Store → OrphanReport Job
find_stuck_jobs s =
    add_all (is_stuck (map (λ kb. kb.id) s.knowledge_bases)) s.jobs
      (empty_report "db.stuck_jobs_missing_kb")

-- The file's id is the text of a UUID, but not of an uploaded file. `show` is `str` of a UUID.
unfoldable pub is_unknown_file : (List ℕ → Option ℕ) → (ℕ → List ℕ) → List ℕ → JobFile → Bool
is_unknown_file parse_uuid show uploaded_ids jf =
    let name = codes jf.external_file_id in
    elim (parse_uuid name) [
      | none ↦ false
      | some _ ↦ not (any (λ id. text_eq name (show id)) uploaded_ids)
    ]

unfoldable pub find_orphan_job_files :
    (List ℕ → Option ℕ) → (ℕ → List ℕ) → List ℕ → Store → OrphanReport JobFile
find_orphan_job_files parse_uuid show uploaded_ids s =
    add_all (is_unknown_file parse_uuid show uploaded_ids) s.job_files
      (empty_report "db.orphan_job_files")
