-- ===== src/Workers/Reindex/Active.antt =====
-- The active jobs of a knowledge base, through a call of trigger_reindex.
use alice_skilltech_tools.Prelude.{
  ℕ, ◌≤◌, String, Bool, true, false, not, ◌||◌, ◌≡◌, refl, ◌∙◌, ap, none, some, List, [], ◌∷◌, ◌++◌,
  ◌==◌, filter, first, arith, Bool-cases, Option-cases, inl, inr,
}
use alice_skilltech_tools.Prelude.Table.{get, has, modify, has-modify, get-append_fresh}
use alice_skilltech_tools.Store.{
  Store, Message, metadata_sync_jobs, ingestion_jobs, publish, save_job, save_kb, save_datasource,
  observe, Job, JobStatus, job_key, knowledge_base_key, datasource_key, is_processing,
  KnowledgeBase,
}
use alice_skilltech_tools.Store.Json.{object, Fields, Items, nil, cons, text}
use alice_skilltech_tools.Index.Completion.{update_knowledge_base}
use alice_skilltech_tools.Jobs.Lifecycle.{create_job, new_job, log_event, fail_job, fail_row}
use alice_skilltech_tools.Jobs.Queries.{
  is_running_or_pending, refers_to, get_active_for_knowledge_base,
}
use alice_skilltech_tools.Workers.Indexing.{kb_repo_reset_to_error, get_moodle_datasource_ids}
use alice_skilltech_tools.Workers.Preparation.{
  User, Environment, prepare_metadata_sync_job, publish_metadata_sync, publish_metadata_syncs,
  start_sync, datasources_data, prepare_haystack_sync,
}
use alice_skilltech_tools.Workers.Reindex.{
  Triggered, unbroadcast, failed_to_trigger, triggered, superseded, cancel_existing,
  reset_processing, reindex_params, deferral, give_up, park_or_publish, start_reindex,
  create_and_start, trigger_reindex,
}
use alice_skilltech_tools.Workers.Reindex.Counting.{
  is_active_for, active_count, active_count-none, active_count-cancel, active_count-append_modify,
  active_count-append_fresh, active_count-append,
}

-- What is done between the new job and the end leaves the jobs alone.
prepare_metadata_sync_job-jobs :
    (env : Environment) (id : ℕ) (user : User) (s : Store)
    → (prepare_metadata_sync_job env id user true s).1.jobs ≡ s.jobs
unfolding prepare_metadata_sync_job save_datasource
prepare_metadata_sync_job-jobs env id user s = elim (Option-cases (get id s.datasources)) [
  | inl e ↦ ground (arith, e)
  | inr (ds, e) ↦ ground (arith, e, Bool-cases ((env.owner_of ds.id).id == user.id))
]

publish_metadata_sync-jobs :
    (env : Environment) (id : ℕ) (user : User) (s : Store)
    → (publish_metadata_sync env id user s).1.jobs ≡ s.jobs
unfolding publish_metadata_sync publish
publish_metadata_sync-jobs env id user s =
    let prepared = prepare_metadata_sync_job env id user true s in
    elim (Option-cases prepared.0) [
      | inl e ↦ ground (arith, e, prepare_metadata_sync_job-jobs env id user s)
      | inr (job, e) ↦ ground (
        arith,
        e,
        prepare_metadata_sync_job-jobs env id user s,
        Option-cases (env.refusal (metadata_sync_jobs (object job))),
      )
    ]

publish_metadata_syncs-jobs :
    (env : Environment) (ids : List ℕ) (user : User) (s : Store)
    → (publish_metadata_syncs env ids user s).1.jobs ≡ s.jobs
unfolding publish_metadata_syncs
publish_metadata_syncs-jobs env [] user s = refl
publish_metadata_syncs-jobs env (id ∷ ids) user s =
    publish_metadata_syncs-jobs env ids user (publish_metadata_sync env id user s).1
    ∙ publish_metadata_sync-jobs env id user s

start_sync-jobs :
    (env : Environment) (kb : KnowledgeBase) (user : User) (force force_ocr : Bool) (items : Items)
    (s : Store)
    → (start_sync env kb user force force_ocr items s).1.jobs ≡ s.jobs
unfolding start_sync update_knowledge_base save_kb
start_sync-jobs env kb user force force_ocr nil s = refl
start_sync-jobs env kb user force force_ocr (cons info infos) s =
    ground (arith, Option-cases (get kb.id s.knowledge_bases))

prepare_haystack_sync-jobs :
    (env : Environment) (id : ℕ) (user : User) (force force_ocr : Bool) (s : Store)
    → (prepare_haystack_sync env id user force force_ocr s).1.jobs ≡ s.jobs
unfolding prepare_haystack_sync
prepare_haystack_sync-jobs env id user force force_ocr s =
    elim (Option-cases (get id s.knowledge_bases)) [
      | inl e ↦ ground (arith, e)
      | inr (kb, e) ↦ ground (
        arith,
        e,
        start_sync-jobs env kb user force force_ocr (datasources_data env id s.datasources s.links)
            s,
        Bool-cases (not (kb.user_id == user.id) || is_processing kb.status),
      )
    ]

kb_repo_reset_to_error-jobs : (kb : ℕ) (s : Store) → (kb_repo_reset_to_error kb s).jobs ≡ s.jobs
unfolding kb_repo_reset_to_error save_kb
kb_repo_reset_to_error-jobs kb s = elim (Option-cases (get kb s.knowledge_bases)) [
  | inl e ↦ ground (arith, e)
  | inr (row, e) ↦ ground (arith, e, Bool-cases (is_processing row.status))
]

reset_processing-jobs :
    (env : Environment) (kb : ℕ) (s : Store) → (reset_processing env kb s).jobs ≡ s.jobs
unfolding reset_processing save_kb
reset_processing-jobs env kb s = elim (Option-cases (get kb s.knowledge_bases)) [
  | inl e ↦ ground (arith, e)
  | inr (row, e) ↦ ground (arith, e, Bool-cases (is_processing row.status))
]

-- How many jobs of the knowledge base are active, at the end of the call.
unfoldable pub LeavesActive : ℕ → Triggered → Type 0
LeavesActive kb unbroadcast = Unit
LeavesActive kb (failed_to_trigger s) = active_count kb s.jobs ≡ 0
LeavesActive kb (triggered s) = active_count kb s.jobs ≡ 1

-- cancel_existing leaves no job active, of at most one.
cancel_existing-active_count :
    (env : Environment) (kb : ℕ) (s t : Store)
    → active_count kb s.jobs ≤ 1
    → cancel_existing env kb s ≡ some t
    → active_count kb t.jobs ≡ 0
unfolding cancel_existing get_active_for_knowledge_base superseded publish save_job
    is_running_or_pending
cancel_existing-active_count env kb s t u h =
    elim (Option-cases (first (filter (is_active_for kb) s.jobs))) [
      | inl e ↦ ground (arith, e, h, active_count-none kb s.jobs e)
      | inr (job, e) ↦ elim (Option-cases (env.refusal (Message.cancel_job job.id))) [
        | inl r ↦ ground (
          arith,
          e,
          r,
          h,
          active_count-cancel kb (superseded env job) job s.jobs (ground arith) e u,
        )
        | inr (error, r) ↦ absurd (ground (arith, e, r, h))
      ]
    ]

-- The new job is the last row, with its own id.
pub record IsNew (kb : ℕ) (before : List Job) (job : Job) (s : Store) : Type 0 where
  pub rows : s.jobs ≡ before ++ job ∷ []
  pub inactive : active_count kb before ≡ 0
  pub fresh : has job.id before ≡ false
  pub active : is_active_for kb job ≡ true

abbrev failed_row : ℕ → String → Job → Job
failed_row now error job = record job {
  status = JobStatus.failed;
  completed_at = some now;
  error_message = some error;
  error_details = none;
}

fail_job-jobs :
    (now : ℕ) (error : String) (job : Job) (s : Store)
    → get job.id s.jobs ≡ some job
    → is_running_or_pending job ≡ true
    → (fail_job now job.id error none none s).1.jobs
      ≡ modify job.id (λ _. failed_row now error job) s.jobs
unfolding fail_job fail_row observe log_event save_job is_running_or_pending
fail_job-jobs now error job s e a = ground (arith, e, a)

give_up-LeavesActive :
    (env : Environment) (now kb : ℕ) (error : String) (before : List Job) (job : Job) (s : Store)
    → IsNew kb before job s
    → LeavesActive kb (give_up env now job.id kb error s)
unfolding LeavesActive give_up is_running_or_pending
give_up-LeavesActive env now kb error before job s n =
    let failed : Store = (fail_job now job.id error none none s).1 in
    let found : get job.id s.jobs ≡ some job =
      ap (get job.id) n.rows ∙ get-append_fresh job.id before job n.fresh refl in
    ap (active_count kb) (kb_repo_reset_to_error-jobs kb failed)
    ∙ ap (active_count kb) (fail_job-jobs now error job s found (ground (arith, n.active)))
    ∙ ap (λ jobs. active_count kb (modify job.id (λ _. failed_row now error job) jobs)) n.rows
    ∙ active_count-append_modify kb job (failed_row now error job) before (ground arith) n.inactive

publish_metadata_syncs-IsNew :
    (env : Environment) (ids : List ℕ) (user : User) (kb : ℕ) (before : List Job) (job : Job)
    (s : Store)
    → IsNew kb before job s
    → IsNew kb before job (publish_metadata_syncs env ids user s).1
publish_metadata_syncs-IsNew env ids user kb before job s n = record {
  rows = publish_metadata_syncs-jobs env ids user s ∙ n.rows;
  inactive = n.inactive;
  fresh = n.fresh;
  active = n.active;
}

prepare_haystack_sync-IsNew :
    (env : Environment) (user : User) (force force_ocr : Bool) (kb : ℕ) (before : List Job)
    (job : Job) (s : Store)
    → IsNew kb before job s
    → IsNew kb before job (prepare_haystack_sync env kb user force force_ocr s).1
prepare_haystack_sync-IsNew env user force force_ocr kb before job s n = record {
  rows = prepare_haystack_sync-jobs env kb user force force_ocr s ∙ n.rows;
  inactive = n.inactive;
  fresh = n.fresh;
  active = n.active;
}

park_or_publish-LeavesActive :
    (env : Environment) (now kb : ℕ) (force : Bool) (sync_job : Fields) (before : List Job)
    (job : Job) (published : List ℕ) (s : Store)
    → IsNew kb before job s
    → LeavesActive kb (park_or_publish env now job kb force sync_job (published, s))
unfolding LeavesActive park_or_publish publish save_job is_running_or_pending
park_or_publish-LeavesActive env now kb force sync_job before job [] s n =
    elim (Option-cases (env.refusal (ingestion_jobs (object sync_job)))) [
      | inl e ↦
          rw (e, park_or_publish)
            (ap (active_count kb) n.rows
              ∙ ground (arith, active_count-append kb job before, n.inactive, n.active))
      | inr (error, e) ↦
          rw (e, park_or_publish) (give_up-LeavesActive env now kb error before job s n)
    ]
park_or_publish-LeavesActive env now kb force sync_job before job (id ∷ ids) s n =
    let row : Job = record job {
      input_params =
          some (text (object (reindex_params env force kb (deferral env sync_job (id ∷ ids)))));
    } in
    ap (λ jobs. active_count kb (modify job.id (λ _. row) jobs)) n.rows
    ∙ active_count-append_fresh kb job row before n.fresh
    ∙ ground (arith, n.inactive, n.active)

start_reindex-LeavesActive :
    (env : Environment) (now kb : ℕ) (user : User) (force force_ocr : Bool) (before : List Job)
    (job : Job) (s : Store)
    → IsNew kb before job s
    → LeavesActive kb (start_reindex env now job kb user force force_ocr s)
unfolding start_reindex
start_reindex-LeavesActive env now kb user force force_ocr before job s n =
    let prepared = prepare_haystack_sync env kb user force force_ocr s in
    let n' = prepare_haystack_sync-IsNew env user force force_ocr kb before job s n in
    let ids = get_moodle_datasource_ids kb prepared.1 in
    elim (Option-cases prepared.0) [
      | inl e ↦
          rw (e, start_reindex)
            (give_up-LeavesActive env now kb env.unprepared before job prepared.1 n')
      | inr (payload, e) ↦
          rw (e, start_reindex)
            (park_or_publish-LeavesActive env now kb force _ before job
              (publish_metadata_syncs env ids user prepared.1).0
              (publish_metadata_syncs env ids user prepared.1).1
              (publish_metadata_syncs-IsNew env ids user kb before job prepared.1 n'))
    ]

has-cancel_existing :
    (env : Environment) (kb id : ℕ) (s t : Store)
    → cancel_existing env kb s ≡ some t
    → has id t.jobs ≡ has id s.jobs
unfolding cancel_existing get_active_for_knowledge_base superseded publish save_job
has-cancel_existing env kb id s t h = elim (Option-cases (get_active_for_knowledge_base kb s)) [
  | inl e ↦ ground (arith, e, h)
  | inr (job, e) ↦ elim (Option-cases (env.refusal (Message.cancel_job job.id))) [
    | inl r ↦
        ground (arith, e, r, h, has-modify job.id id (λ _. superseded env job) s.jobs (λ _ _. refl))
    | inr (error, r) ↦ absurd (ground (arith, e, r, h))
  ]
]

create_and_start-LeavesActive :
    (env : Environment) (now id kb : ℕ) (user : User) (force force_ocr : Bool) (s : Store)
    → active_count kb s.jobs ≡ 0
    → has id s.jobs ≡ false
    → LeavesActive kb (create_and_start env now id kb user force force_ocr s)
unfolding create_and_start create_job new_job observe log_event is_running_or_pending refers_to
create_and_start-LeavesActive env now id kb user force force_ocr s u fresh =
    start_reindex-LeavesActive env now kb user force force_ocr s.jobs _ _
      (record { rows = refl; inactive = u; fresh = fresh; active = ground arith })

-- With at most one pending or running job of the knowledge base before and an id for the new job
-- that no job has: after a reindex is triggered exactly one job of the knowledge base is pending
-- or running, and after a call that fails behind the broadcast of the cancellation none is. A
-- refused broadcast ends the call before anything is committed.
pub trigger_reindex-LeavesActive :
    (env : Environment) (now id kb : ℕ) (user : User) (force force_ocr : Bool) (s : Store)
    → active_count kb s.jobs ≤ 1
    → has id s.jobs ≡ false
    → LeavesActive kb (trigger_reindex env now id kb user force force_ocr s)
unfolding trigger_reindex LeavesActive
trigger_reindex-LeavesActive env now id kb user force force_ocr s u fresh =
    elim (Option-cases (cancel_existing env kb s)) [
      | inl e ↦ rw (e, trigger_reindex) tt
      | inr (t, e) ↦
          rw (e, trigger_reindex)
            (create_and_start-LeavesActive env now id kb user _ force_ocr
              (reset_processing env kb t)
              (ap (active_count kb) (reset_processing-jobs env kb t)
                ∙ cancel_existing-active_count env kb s t u e)
              (ap (has id) (reset_processing-jobs env kb t)
                ∙ has-cancel_existing env kb id s t e
                ∙ fresh))
    ]
