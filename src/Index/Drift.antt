-- ===== src/Index/Drift.antt =====
-- api/app/services/index_manifest.py: the fingerprint, and the drift and rebuild decisions.
--
-- The reasons of a DriftResult are texts for people and are left out, but for the one that tells
-- a missing manifest from a different one.
use alice_skilltech_tools.Prelude.{
  ℕ, String, Bool, true, false, Option, none, some, str_eq, if◌then◌else◌,
}
use alice_skilltech_tools.Store.Json.{Json, number, string, object, end, field, JsonText}
use alice_skilltech_tools.Index.Manifest.{
  IndexManifest, Settings, desired_manifest, parse_manifest_or_none,
}

-- The fields of _FINGERPRINT_FIELDS, in the order that sort_keys gives them.
unfoldable pub fingerprint_subset : IndexManifest → Json
fingerprint_subset m = object (
    field "distance" (string m.distance) (
      field "embedding_dim" (number m.embedding_dim) (
        field "embedding_model" (string m.embedding_model) (
          field "schema_version" (number m.schema_version)
            (field "sparse_model" m.sparse_model end)))))

unfoldable pub fingerprint : (Json → String) → IndexManifest → String
fingerprint digest m = digest (fingerprint_subset m)

pub data DriftResult : Type 0 where
  fresh : DriftResult
  differs : (built desired : IndexManifest) → DriftResult
  no_manifest : DriftResult

unfoldable pub is_stale : DriftResult → Bool
is_stale fresh = false
is_stale (differs _ _) = true
is_stale no_manifest = true

pub data Reply : Type 0 where
  served warned conflict : Reply

module _ (digest : Json → String) (parse_int : String → Option ℕ) (str_of : Json → String) where
  unfoldable pub evaluate_drift : Settings → Option JsonText → DriftResult
  evaluate_drift settings stored = elim (parse_manifest_or_none parse_int str_of stored) [
    | none ↦ fresh
    | some m ↦
        if str_eq (fingerprint digest m) (fingerprint digest (desired_manifest settings))
        then fresh
        else differs m (desired_manifest settings)
  ]

  unfoldable pub rebuild_decision : Settings → Option JsonText → DriftResult
  rebuild_decision settings stored = elim (parse_manifest_or_none parse_int str_of stored) [
    | none ↦ no_manifest
    | some m ↦ evaluate_drift settings stored
  ]

  -- `conflict` is HTTPException(409), `warned` is a warning in the log.
  unfoldable pub enforce_index_freshness : Settings → Option JsonText → Reply
  enforce_index_freshness settings stored =
      if str_eq settings.index_drift_enforcement "off"
      then served
      else if is_stale (evaluate_drift settings stored)
      then (if str_eq settings.index_drift_enforcement "block" then conflict else warned)
      else served
