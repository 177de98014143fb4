-- ===== src/Examples/Indexes.antt =====
-- The theorems on manifests and on completed synchronisations, on the small store.
use mathlib.Core.Option
use alice_skilltech_tools.Prelude.{
  ℕ, String, true, false, ◌≡◌, eq_iff, arith, ◌↔◌, inl, inr, ◌*◌, refl, Option, none, some,
}
use alice_skilltech_tools.Prelude.Table.{get}
use alice_skilltech_tools.Store.{KnowledgeBaseStatus, partial_failure, knowledge_base_key}
use alice_skilltech_tools.Store.Json.{Json, object, null, fields_get}
use alice_skilltech_tools.Index.Manifest.{
  Settings, IndexManifest, to_json, to_wire, desired_manifest, text_of, get_or,
  wire_config_for_manifest,
}
use alice_skilltech_tools.Index.Drift.{
  fresh, fingerprint, fingerprint_subset, is_stale, evaluate_drift, rebuild_decision,
}
use alice_skilltech_tools.Index.RoundTrip.{
  IsBuiltFor, wire_config_for_manifest-to_json, is_stale-evaluate_drift,
}
use alice_skilltech_tools.Index.Completion.{complete_kb}
use alice_skilltech_tools.Index.Completion.Stamps.{
  is_stale-complete_kb, get-complete_kb, rebuild_decision-complete_kb,
}
use alice_skilltech_tools.Examples.Data.{kb, store, minute}

-- `int` of a text, on a library that reads no number out of a text.
abbrev pub no_number : String → Option ℕ
no_number s = none

abbrev pub as_text : Json → String
as_text v = "other"

abbrev pub digest : Json → String
digest v = "0123456789abcdef"

abbrev pub settings : Settings
settings = record {
  index_schema_version = 2;
  embedding_model = "e5";
  embedding_dim = 1024;
  embedding_distance = "cosine";
  sparse_embedding_model = "bm25";
  chunker_tokenizer = "e5";
  chunker_max_tokens = 512;
  index_drift_enforcement = "block";
}

abbrev old_settings : Settings
old_settings = record settings { index_schema_version = 1; embedding_model = "mini" }

abbrev built : IndexManifest
built = desired_manifest old_settings

wire_config_for_manifest_example :
    wire_config_for_manifest no_number as_text settings (some (to_json built)) ≡ to_wire built
wire_config_for_manifest_example = wire_config_for_manifest-to_json no_number as_text settings built

-- A digest that tells two embedding models apart.
abbrev model_digest : Json → String
model_digest (object d) = text_of as_text (get_or "embedding_model" null d)
model_digest v = "other"

is_stale-evaluate_drift_example :
    (is_stale (evaluate_drift model_digest no_number as_text settings (some (to_json built)))
      ≡ false)
    ↔ IsBuiltFor settings built
unfolding fingerprint fingerprint_subset desired_manifest text_of get_or fields_get
is_stale-evaluate_drift_example =
    is_stale-evaluate_drift model_digest no_number as_text settings built
      (λ e. let clash : "mini" ≡ "e5" = e in absurd (ground (arith, eq_iff "mini" "e5", clash)))

-- The error of the synchronisation before stays, although no file failed.
get-complete_kb_example :
    get 10 (complete_kb settings minute false true 10 store).knowledge_bases
    ≡ some (record kb {
      status = KnowledgeBaseStatus.ready;
      last_sync = some minute;
      last_sync_error = some partial_failure;
      index_manifest = some (to_json (desired_manifest settings));
    })
unfolding get
get-complete_kb_example = get-complete_kb settings minute 10 10 false true store kb refl

rebuild_decision-complete_kb_example :
    Option.map
      (λ row. rebuild_decision digest no_number as_text settings row.index_manifest)
      (get 10 (complete_kb settings minute false false 10 store).knowledge_bases)
    ≡ some fresh
unfolding get
rebuild_decision-complete_kb_example =
    rebuild_decision-complete_kb digest no_number as_text settings minute 10 false false store kb
      refl (inr refl)

-- The embedding model changes after the first build; a synchronisation that is not forced does not
-- hide it.
is_stale-complete_kb_example :
    (Option.map
        (λ row.
          is_stale (rebuild_decision model_digest no_number as_text settings row.index_manifest))
        (get 10
          (complete_kb settings
            (2 * minute)
            false
            false
            10
            (complete_kb old_settings minute false true 10 store)).knowledge_bases)
      ≡ some false)
    ↔ IsBuiltFor settings built
unfolding fingerprint fingerprint_subset desired_manifest text_of get_or fields_get get
is_stale-complete_kb_example =
    is_stale-complete_kb model_digest no_number as_text old_settings settings minute (2 * minute) 10
      false false true store kb
      (λ e. let clash : "mini" ≡ "e5" = e in absurd (ground (arith, eq_iff "mini" "e5", clash)))
      refl (inl refl)
