-- ===== src/Index/RoundTrip.antt =====
-- A manifest that was written is read back, and the decisions that follow from it.
use alice_skilltech_tools.Prelude.{
  ℕ, String, true, false, ap, ◌≡◌, refl, ◌↔◌, Option, none, some, eq_iff, ◌⊎◌, arith,
}
use alice_skilltech_tools.Store.Json.{Json, JsonText, fields_get}
use alice_skilltech_tools.Index.Manifest.{
  IndexManifest, Settings, to_json, to_wire, from_json, from_data, int_of, text_of, get_or,
  desired_manifest, text_or_null, parse_manifest_or_none, wire_config_for_manifest,
}
use alice_skilltech_tools.Index.Drift.{
  fingerprint_subset, fingerprint, is_stale, evaluate_drift, rebuild_decision,
  enforce_index_freshness, conflict,
}

-- Reading the stored text of a manifest gives the manifest back.
pub from_json-to_json :
    (parse_int : String → Option ℕ) (str_of : Json → String) (m : IndexManifest)
    → from_json parse_int str_of (to_json m) ≡ some m
unfolding from_json to_json from_data int_of text_of get_or fields_get
from_json-to_json parse_int str_of m = refl

-- A collection whose stored manifest was written by `to_json` is served with the embedding
-- configuration of that manifest, whatever the settings are.
pub wire_config_for_manifest-to_json :
    (parse_int : String → Option ℕ) (str_of : Json → String) (settings : Settings)
    (m : IndexManifest)
    → wire_config_for_manifest parse_int str_of settings (some (to_json m)) ≡ to_wire m
unfolding wire_config_for_manifest parse_manifest_or_none from_json to_json from_data int_of text_of
    get_or fields_get
wire_config_for_manifest-to_json parse_int str_of settings m = refl

-- The manifest agrees with the settings in everything that the vectors of a collection depend on.
abbrev pub IsBuiltFor : Settings → IndexManifest → Type 0
IsBuiltFor settings m =
    (m.schema_version ≡ settings.index_schema_version)
    × (m.embedding_model ≡ settings.embedding_model)
    × (m.embedding_dim ≡ settings.embedding_dim)
    × (m.distance ≡ settings.embedding_distance)
    × (m.sparse_model ≡ text_or_null settings.sparse_embedding_model)

IsBuiltFor-subset :
    (settings : Settings) (m : IndexManifest)
    → (fingerprint_subset m ≡ fingerprint_subset (desired_manifest settings))
      ↔ IsBuiltFor settings m
unfolding fingerprint_subset desired_manifest
IsBuiltFor-subset settings m = (λ e. (cc, cc, cc, cc, cc), λ (a, b, c, d, e). cc)

module _ (digest : Json → String) (parse_int : String → Option ℕ) (str_of : Json → String) where
  -- If the digest does not collide on the manifest and the desired one, a collection whose
  -- stored manifest was written by `to_json` is fresh exactly when the manifest has the schema
  -- version, the embedding model, its dimension, the distance and the sparse model that the
  -- settings ask for.
  pub is_stale-evaluate_drift :
      (settings : Settings) (m : IndexManifest)
      → (fingerprint digest m ≡ fingerprint digest (desired_manifest settings)
          → fingerprint_subset m ≡ fingerprint_subset (desired_manifest settings))
      → (is_stale (evaluate_drift digest parse_int str_of settings (some (to_json m))) ≡ false)
        ↔ IsBuiltFor settings m
  unfolding evaluate_drift is_stale fingerprint parse_manifest_or_none from_json to_json from_data
      int_of text_of get_or fields_get
  is_stale-evaluate_drift settings m free =
      let same = eq_iff (fingerprint digest m) (fingerprint digest (desired_manifest settings)) in
      let fields = IsBuiltFor-subset settings m in
      (
        λ fresh. fields.0 (free (ground (arith, same, fresh))),
        λ built. let e = ap digest (fields.1 built) in ground (arith, same, e),
      )

  -- A rebuild is asked for exactly when no manifest can be read or the collection is stale.
  is_stale-rebuild_decision :
      (settings : Settings) (stored : Option JsonText)
      → (is_stale (rebuild_decision digest parse_int str_of settings stored) ≡ true)
        ↔ (parse_manifest_or_none parse_int str_of stored ≡ none)
          ⊎ (is_stale (evaluate_drift digest parse_int str_of settings stored) ≡ true)
  unfolding rebuild_decision evaluate_drift is_stale
  is_stale-rebuild_decision settings stored = ground arith

  -- A chat is refused exactly when the policy is `block` and the collection is stale.
  enforce_index_freshness_lem :
      (settings : Settings) (stored : Option JsonText)
      → (enforce_index_freshness digest parse_int str_of settings stored ≡ conflict)
        ↔ (settings.index_drift_enforcement ≡ "block")
          × (is_stale (evaluate_drift digest parse_int str_of settings stored) ≡ true)
  unfolding enforce_index_freshness
  enforce_index_freshness_lem settings stored = ground (
    arith,
    eq_iff settings.index_drift_enforcement "off",
    eq_iff settings.index_drift_enforcement "block",
    eq_iff "off" "block",
  )
