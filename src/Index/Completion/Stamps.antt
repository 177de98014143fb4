-- ===== src/Index/Completion/Stamps.antt =====
-- What a completed synchronisation leaves on its knowledge base.
use alice_skilltech_tools.Prelude.{
  ℕ, String, Bool, true, false, ◌≡◌, ◌↔◌, refl, sym, ap, ◌∙◌, Option, none, some, eq_iff, arith,
  if◌then◌else◌, ◌==◌, ==_refl, ◌⊎◌,
}
use mathlib.Core.Option
use mathlib.Core.Option.{some-injective}
use alice_skilltech_tools.Prelude.Table.{get, get-modify, key-get}
use alice_skilltech_tools.Store.{
  Store, save_kb, KnowledgeBase, KnowledgeBaseStatus, knowledge_base_key, partial_failure,
}
use alice_skilltech_tools.Store.Json.{Json, JsonText, fields_get}
use alice_skilltech_tools.Index.Manifest.{
  Settings, IndexManifest, to_json, desired_manifest, from_json, from_data, int_of, text_of, get_or,
  parse_manifest_or_none,
}
use alice_skilltech_tools.Index.Drift.{
  is_stale, fingerprint_subset, evaluate_drift, rebuild_decision, fingerprint, fresh,
}
use alice_skilltech_tools.Index.RoundTrip.{IsBuiltFor, is_stale-evaluate_drift}
use alice_skilltech_tools.Index.Completion.{
  KbUpdate, update_kb_row, update_knowledge_base, stamp, completion_update, complete_kb,
}

get-update_knowledge_base :
    (id j : ℕ) (u : KbUpdate) (s : Store) (kb : KnowledgeBase)
    → get id s.knowledge_bases ≡ some kb
    → get j (update_knowledge_base id u s).1.knowledge_bases
      ≡ (if id == j then some (update_kb_row u kb) else get j s.knowledge_bases)
unfolding update_knowledge_base save_kb update_kb_row
get-update_knowledge_base id j u s kb found = ground (
  arith,
  key-get id s.knowledge_bases kb found,
  get-modify kb.id j (λ _. update_kb_row u kb) s.knowledge_bases (λ row e. refl),
)

-- A completed synchronisation of a knowledge base that exists makes it ready, with its last
-- synchronisation now, its error kept unless a file failed, and the desired manifest if the
-- build was forced or it had none, and else the old one; every other knowledge base stays as it
-- is.
pub get-complete_kb :
    (settings : Settings) (now id j : ℕ) (files_failed force : Bool) (s : Store)
    (kb : KnowledgeBase)
    → get id s.knowledge_bases ≡ some kb
    → get j (complete_kb settings now files_failed force id s).knowledge_bases ≡ (
        if id == j
        then some (record kb {
          status = KnowledgeBaseStatus.ready;
          last_sync = some now;
          last_sync_error = if files_failed then some partial_failure else kb.last_sync_error;
          index_manifest = elim kb.index_manifest [
            | none ↦ some (to_json (desired_manifest settings))
            | some old ↦ if force then some (to_json (desired_manifest settings)) else some old
          ];
        })
        else get j s.knowledge_bases)
unfolding complete_kb completion_update stamp update_kb_row
get-complete_kb settings now id j files_failed force s kb found = ground (
  arith,
  get-update_knowledge_base id j (completion_update settings now files_failed force kb) s kb found,
)

column-map :
    (f : Option JsonText → Bool) (o : Option KnowledgeBase) (stored : Option JsonText)
    → Option.map (λ row. row.index_manifest) o ≡ some stored
    → Option.map (λ row. f row.index_manifest) o ≡ some (f stored)
column-map f none stored h = cc
column-map f (some row) stored h = ap (λ c. some (f c)) (some-injective _ _ h)

module _ (digest : Json → String) (parse_int : String → Option ℕ) (str_of : Json → String) where
  rebuild_decision-desired :
      (settings : Settings)
      → rebuild_decision digest parse_int str_of settings
          (some (to_json (desired_manifest settings)))
        ≡ fresh
  unfolding rebuild_decision evaluate_drift parse_manifest_or_none from_json to_json from_data
      int_of text_of get_or fields_get
  rebuild_decision-desired settings = ground (
    arith,
    eq_iff (fingerprint digest (desired_manifest settings))
        (fingerprint digest (desired_manifest settings)),
  )

  -- After a completed synchronisation of a knowledge base that exists, forced or the first one
  -- without a manifest, no rebuild is asked for under the same settings.
  pub rebuild_decision-complete_kb :
      (settings : Settings) (now id : ℕ) (files_failed force : Bool) (s : Store)
      (kb : KnowledgeBase)
      → get id s.knowledge_bases ≡ some kb
      → (force ≡ true) ⊎ (kb.index_manifest ≡ none)
      → Option.map
          (λ row. rebuild_decision digest parse_int str_of settings row.index_manifest)
          (get id (complete_kb settings now files_failed force id s).knowledge_bases)
        ≡ some fresh
  rebuild_decision-complete_kb settings now id files_failed force s kb found h = grind (
    arith,
    ==_refl id,
    get-complete_kb settings now id id files_failed force s kb found,
    rebuild_decision-desired settings,
  )

  is_stale-written :
      (settings : Settings) (m : IndexManifest)
      → is_stale (rebuild_decision digest parse_int str_of settings (some (to_json m)))
        ≡ is_stale (evaluate_drift digest parse_int str_of settings (some (to_json m)))
  unfolding rebuild_decision parse_manifest_or_none from_json to_json from_data int_of text_of
      get_or fields_get
  is_stale-written settings m = refl

  manifest-complete_twice :
      (settings later : Settings) (now after id : ℕ) (failed failed_after force : Bool) (s : Store)
      (kb : KnowledgeBase)
      → get id s.knowledge_bases ≡ some kb
      → (force ≡ true) ⊎ (kb.index_manifest ≡ none)
      → Option.map
          (λ row. row.index_manifest)
          (get id
            (complete_kb later after failed_after false id
              (complete_kb settings now failed force id s)).knowledge_bases)
        ≡ some (some (to_json (desired_manifest settings)))
  manifest-complete_twice settings later now after id failed failed_after force s kb found h =
      let first = get-complete_kb settings now id id failed force s kb found in
      let built = rw (==_refl id) at first in
      grind (
        arith,
        ==_refl id,
        h,
        built,
        get-complete_kb later after id id failed_after false
            (complete_kb settings now failed force id s) _ built,
      )

  -- For a knowledge base that exists, completes a synchronisation under some settings, forced
  -- or the first one without a manifest, and then one under other settings that was not
  -- forced: if the digest does not collide on the two desired manifests, no rebuild is asked
  -- for under the other settings exactly when they agree with the first in the schema version,
  -- the embedding model, its dimension, the distance and the sparse model.
  pub is_stale-complete_kb :
      (settings later : Settings) (now after id : ℕ) (failed failed_after force : Bool) (s : Store)
      (kb : KnowledgeBase)
      → (fingerprint digest (desired_manifest settings)
            ≡ fingerprint digest (desired_manifest later)
          → fingerprint_subset (desired_manifest settings)
            ≡ fingerprint_subset (desired_manifest later))
      → get id s.knowledge_bases ≡ some kb
      → (force ≡ true) ⊎ (kb.index_manifest ≡ none)
      → (Option.map
            (λ row. is_stale (rebuild_decision digest parse_int str_of later row.index_manifest))
            (get id
              (complete_kb later after failed_after false id
                (complete_kb settings now failed force id s)).knowledge_bases)
          ≡ some false)
        ↔ IsBuiltFor later (desired_manifest settings)
  is_stale-complete_kb settings later now after id failed failed_after force s kb free found h =
      let twice =
        manifest-complete_twice settings later now after id failed failed_after force s kb found
          h in
      let drift =
        is_stale-evaluate_drift digest parse_int str_of later (desired_manifest settings) free in
      let written = is_stale-written later (desired_manifest settings) in
      let shown =
        column-map (λ stored. is_stale (rebuild_decision digest parse_int str_of later stored))
          (get id
            (complete_kb later after failed_after false id
              (complete_kb settings now failed force id s)).knowledge_bases)
          _ twice
        ∙ ap some written in
      (λ e. drift.0 (some-injective _ _ (sym shown ∙ e)), λ built. shown ∙ ap some (drift.1 built))
