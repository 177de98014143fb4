-- ===== src/Workers/Reindex/Outcome.antt =====
-- The status of the knowledge base after a call of trigger_reindex.
use alice_skilltech_tools.Prelude.{
  ℕ, String, Bool, true, false, not, ◌||◌, ◌≡◌, refl, ◌∙◌, ap, none, some, List, [], ◌∷◌, ◌==◌,
  arith, Bool-cases, Option-cases, inl, inr,
}
use alice_skilltech_tools.Prelude.Table.{get, get-modify, key-get, get_self}
use alice_skilltech_tools.Store.{
  Store, metadata_sync_jobs, ingestion_jobs, publish, save_job, save_kb, save_datasource, Job,
  job_key, knowledge_base_key, datasource_key, is_processing, KnowledgeBase, KnowledgeBaseStatus,
  SyncErrorCode,
}
use alice_skilltech_tools.Store.Json.{object, Fields, Items, nil, cons}
use alice_skilltech_tools.Index.Completion.{update_knowledge_base, update_kb_row}
use alice_skilltech_tools.Jobs.Lifecycle.{fail_job}
use alice_skilltech_tools.Workers.Indexing.{kb_repo_reset_to_error, get_moodle_datasource_ids}
use alice_skilltech_tools.Workers.Preparation.{
  User, Environment, prepare_metadata_sync_job, publish_metadata_sync, publish_metadata_syncs,
  datasources_data, start_update, start_sync, prepare_haystack_sync,
}
use alice_skilltech_tools.Workers.Reindex.{
  Triggered, unbroadcast, failed_to_trigger, triggered, cancel_existing, give_up, park_or_publish,
  start_reindex, create_and_start, trigger_reindex,
}

-- The knowledge base exists, and its status is "processing".
abbrev pub is_kb_processing : ℕ → Store → Bool
is_kb_processing kb s = elim (get kb s.knowledge_bases) [
  | none ↦ false
  | some row ↦ is_processing row.status
]

-- A call that raises leaves no knowledge base processing, one that returns leaves it processing.
unfoldable pub LeavesStatus : ℕ → Triggered → Type 0
LeavesStatus kb unbroadcast = Unit
LeavesStatus kb (failed_to_trigger s) = is_kb_processing kb s ≡ false
LeavesStatus kb (triggered s) = is_kb_processing kb s ≡ true

save_kb-status :
    (kb : ℕ) (row old : KnowledgeBase) (s : Store)
    → row.id ≡ kb
    → get kb s.knowledge_bases ≡ some old
    → is_kb_processing kb (save_kb row s) ≡ is_processing row.status
unfolding save_kb
save_kb-status kb row old s e h =
    ground (arith, e, h, get-modify row.id kb (λ _. row) s.knowledge_bases (λ _ _. refl))

kb_repo_reset_to_error-status :
    (kb : ℕ) (s : Store) → is_kb_processing kb (kb_repo_reset_to_error kb s) ≡ false
unfolding kb_repo_reset_to_error
kb_repo_reset_to_error-status kb s = elim (Option-cases (get kb s.knowledge_bases)) [
  | inl e ↦ ground (arith, e)
  | inr (row, e) ↦ elim (Bool-cases (is_processing row.status)) [
    | inl p ↦ ground (
      arith,
      e,
      p,
      save_kb-status kb
          (record row {
            status = KnowledgeBaseStatus.error;
            last_sync_error = some SyncErrorCode.failed;
          })
          row s (key-get kb s.knowledge_bases row e) e,
    )
    | inr p ↦ ground (arith, e, p)
  ]
]

start_sync-status :
    (env : Environment) (kb : KnowledgeBase) (user : User) (force force_ocr : Bool) (items : Items)
    (s : Store) (payload : Fields)
    → get kb.id s.knowledge_bases ≡ some kb
    → (start_sync env kb user force force_ocr items s).0 ≡ some payload
    → is_kb_processing kb.id (start_sync env kb user force force_ocr items s).1 ≡ true
unfolding start_sync update_knowledge_base update_kb_row start_update
start_sync-status env kb user force force_ocr nil s payload e h = absurd (ground (arith, h))
start_sync-status env kb user force force_ocr (cons info infos) s payload e h =
    ground (arith, e, save_kb-status kb.id (update_kb_row (start_update env) kb) kb s refl e)

prepare_haystack_sync-status :
    (env : Environment) (id : ℕ) (user : User) (force force_ocr : Bool) (s : Store)
    (payload : Fields)
    → (prepare_haystack_sync env id user force force_ocr s).0 ≡ some payload
    → is_kb_processing id (prepare_haystack_sync env id user force force_ocr s).1 ≡ true
unfolding prepare_haystack_sync
prepare_haystack_sync-status env id user force force_ocr s payload h =
    elim (Option-cases (get id s.knowledge_bases)) [
      | inl e ↦ absurd (ground (arith, e, h))
      | inr (kb, e) ↦ elim (Bool-cases (not (kb.user_id == user.id) || is_processing kb.status)) [
        | inl g ↦ absurd (ground (arith, e, g, h))
        | inr g ↦ ground (
          arith,
          e,
          g,
          h,
          key-get id s.knowledge_bases kb e,
          get_self id s.knowledge_bases kb e,
          start_sync-status env kb user force force_ocr
              (datasources_data env id s.datasources s.links) s payload,
        )
      ]
    ]

-- The publishing of metadata synchronisations leaves the knowledge bases alone.
prepare_metadata_sync_job-kbs :
    (env : Environment) (id : ℕ) (user : User) (s : Store)
    → (prepare_metadata_sync_job env id user true s).1.knowledge_bases ≡ s.knowledge_bases
unfolding prepare_metadata_sync_job save_datasource
prepare_metadata_sync_job-kbs env id user s = elim (Option-cases (get id s.datasources)) [
  | inl e ↦ ground (arith, e)
  | inr (ds, e) ↦ ground (arith, e, Bool-cases ((env.owner_of ds.id).id == user.id))
]

publish_metadata_sync-kbs :
    (env : Environment) (id : ℕ) (user : User) (s : Store)
    → (publish_metadata_sync env id user s).1.knowledge_bases ≡ s.knowledge_bases
unfolding publish_metadata_sync publish
publish_metadata_sync-kbs env id user s =
    let prepared = prepare_metadata_sync_job env id user true s in
    elim (Option-cases prepared.0) [
      | inl e ↦ ground (arith, e, prepare_metadata_sync_job-kbs env id user s)
      | inr (job, e) ↦ ground (
        arith,
        e,
        prepare_metadata_sync_job-kbs env id user s,
        Option-cases (env.refusal (metadata_sync_jobs (object job))),
      )
    ]

publish_metadata_syncs-kbs :
    (env : Environment) (ids : List ℕ) (user : User) (s : Store)
    → (publish_metadata_syncs env ids user s).1.knowledge_bases ≡ s.knowledge_bases
unfolding publish_metadata_syncs
publish_metadata_syncs-kbs env [] user s = refl
publish_metadata_syncs-kbs env (id ∷ ids) user s =
    publish_metadata_syncs-kbs env ids user (publish_metadata_sync env id user s).1
    ∙ publish_metadata_sync-kbs env id user s

give_up-LeavesStatus :
    (env : Environment) (now id kb : ℕ) (error : String) (s : Store)
    → LeavesStatus kb (give_up env now id kb error s)
unfolding LeavesStatus give_up
give_up-LeavesStatus env now id kb error s =
    kb_repo_reset_to_error-status kb (fail_job now id error none none s).1

park_or_publish-LeavesStatus :
    (env : Environment) (now kb : ℕ) (force : Bool) (sync_job : Fields) (job : Job)
    (published : List ℕ) (s : Store)
    → is_kb_processing kb s ≡ true
    → LeavesStatus kb (park_or_publish env now job kb force sync_job (published, s))
unfolding LeavesStatus park_or_publish publish save_job
park_or_publish-LeavesStatus env now kb force sync_job job [] s h =
    elim (Option-cases (env.refusal (ingestion_jobs (object sync_job)))) [
      | inl e ↦ rw (e, park_or_publish) h
      | inr (error, e) ↦ rw (e, park_or_publish) (give_up-LeavesStatus env now job.id kb error s)
    ]
park_or_publish-LeavesStatus env now kb force sync_job job (id ∷ ids) s h = h

start_reindex-LeavesStatus :
    (env : Environment) (now kb : ℕ) (user : User) (force force_ocr : Bool) (job : Job) (s : Store)
    → LeavesStatus kb (start_reindex env now job kb user force force_ocr s)
unfolding start_reindex
start_reindex-LeavesStatus env now kb user force force_ocr job s =
    let prepared = prepare_haystack_sync env kb user force force_ocr s in
    let ids = get_moodle_datasource_ids kb prepared.1 in
    elim (Option-cases prepared.0) [
      | inl e ↦
          rw (e, start_reindex) (give_up-LeavesStatus env now job.id kb env.unprepared prepared.1)
      | inr (payload, e) ↦
          rw (e, start_reindex)
            (park_or_publish-LeavesStatus env now kb force _ job
              (publish_metadata_syncs env ids user prepared.1).0
              (publish_metadata_syncs env ids user prepared.1).1
              (ap
                  (λ (rows : List KnowledgeBase). elim (get kb rows) [
                    | none ↦ false
                    | some row ↦ is_processing row.status
                  ])
                  (publish_metadata_syncs-kbs env ids user prepared.1)
                ∙ prepare_haystack_sync-status env kb user force force_ocr s payload e))
    ]

-- After a reindex is triggered, parked or published, the knowledge base exists and is
-- processing; after a call that fails behind the broadcast of the cancellation, it is not left
-- processing, whatever step failed.
pub trigger_reindex-LeavesStatus :
    (env : Environment) (now id kb : ℕ) (user : User) (force force_ocr : Bool) (s : Store)
    → LeavesStatus kb (trigger_reindex env now id kb user force force_ocr s)
unfolding trigger_reindex LeavesStatus create_and_start
trigger_reindex-LeavesStatus env now id kb user force force_ocr s =
    elim (Option-cases (cancel_existing env kb s)) [
      | inl e ↦ rw (e, trigger_reindex) tt
      | inr (t, e) ↦
          rw (e, trigger_reindex) (start_reindex-LeavesStatus env now kb user _ force_ocr _ _)
    ]
