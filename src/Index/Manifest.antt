-- ===== src/Index/Manifest.antt =====
-- api/app/services/index_manifest.py: the manifest, its JSON form and the drift decisions.
--
-- A stored text is the value that json.loads returns (Store.Json), so that `json.dumps` followed by
-- `json.loads` is the identity. The parameters are what Python's built-ins do outside of the values
-- that `to_json` writes: `parse_int` is `int` of a text (`none`: ValueError) and `str_of` is `str`
-- of a value that is no text. `digest` is the hexadecimal prefix of SHA-256 of the JSON text.
use alice_skilltech_tools.Prelude.{
  ℕ, String, true, false, Option, none, some, str_eq, if◌then◌else◌, ◌>>=◌,
}
use alice_skilltech_tools.Store.Json.{
  Json, null, boolean, number, string, object, Fields, end, field, fields_get, JsonText, text,
  truthy,
}

-- `sparse_model` is taken from the JSON object as it is: null or, in what `to_json` writes, a text.
pub record IndexManifest : Type 0 where
  pub schema_version : ℕ
  pub embedding_model : String
  pub embedding_dim : ℕ
  pub distance : String
  pub sparse_model : Json
  pub chunker_tokenizer : String
  pub chunker_max_tokens : ℕ

-- The settings that the module reads.
pub record Settings : Type 0 where
  pub index_schema_version : ℕ
  pub embedding_model : String
  pub embedding_dim : ℕ
  pub embedding_distance : String
  pub sparse_embedding_model : String
  pub chunker_tokenizer : String
  pub chunker_max_tokens : ℕ
  pub index_drift_enforcement : String

-- json.dumps(asdict(self), sort_keys=True)
unfoldable pub to_json : IndexManifest → JsonText
to_json m = text (
    object (
      field "chunker_max_tokens" (number m.chunker_max_tokens) (
        field "chunker_tokenizer" (string m.chunker_tokenizer) (
          field "distance" (string m.distance) (
            field "embedding_dim" (number m.embedding_dim) (
              field "embedding_model" (string m.embedding_model) (
                field "schema_version" (number m.schema_version)
                  (field "sparse_model" m.sparse_model end))))))))

pub record Wire : Type 0 where
  pub model : String
  pub dim : ℕ
  pub distance : String
  pub sparse_model : Json

unfoldable pub to_wire : IndexManifest → Wire
to_wire m = record {
  model = m.embedding_model;
  dim = m.embedding_dim;
  distance = m.distance;
  sparse_model = m.sparse_model;
}

unfoldable pub kind : IndexManifest → String
kind m = if truthy m.sparse_model then "hybrid" else "dense"

-- int(value); `none` stands for ValueError and TypeError.
unfoldable pub int_of : (String → Option ℕ) → Json → Option ℕ
int_of parse_int (number n) = some n
int_of parse_int (boolean true) = some 1
int_of parse_int (boolean false) = some 0
int_of parse_int (string s) = parse_int s
int_of parse_int _ = none

-- str(value)
unfoldable pub text_of : (Json → String) → Json → String
text_of str_of (string s) = s
text_of str_of v = str_of v

-- d.get(key, default)
unfoldable pub get_or : String → Json → Fields → Json
get_or k default d = elim (fields_get k d) [ none ↦ default | some v ↦ v ]

-- `none` stands for ValueError, KeyError and TypeError, which the caller takes alike.
unfoldable pub from_data : (String → Option ℕ) → (Json → String) → Fields → Option IndexManifest
from_data parse_int str_of d = do
  version_json ← fields_get "schema_version" d
  version ← int_of parse_int version_json
  model ← fields_get "embedding_model" d
  dim_json ← fields_get "embedding_dim" d
  dim ← int_of parse_int dim_json
  metric ← fields_get "distance" d
  max_tokens ← int_of parse_int (get_or "chunker_max_tokens" (number 0) d)
  some (record {
    schema_version = version;
    embedding_model = text_of str_of model;
    embedding_dim = dim;
    distance = text_of str_of metric;
    sparse_model = get_or "sparse_model" null d;
    chunker_tokenizer = text_of str_of (get_or "chunker_tokenizer" (string "") d);
    chunker_max_tokens = max_tokens;
  })

unfoldable pub from_json : (String → Option ℕ) → (Json → String) → JsonText → Option IndexManifest
from_json parse_int str_of (text (object d)) = from_data parse_int str_of d
from_json parse_int str_of _ = none

-- A missing column and an empty text give None without a warning, a bad text with one.
unfoldable pub parse_manifest_or_none :
    (String → Option ℕ) → (Json → String) → Option JsonText → Option IndexManifest
parse_manifest_or_none parse_int str_of none = none
parse_manifest_or_none parse_int str_of (some stored) = from_json parse_int str_of stored

-- settings.SPARSE_EMBEDDING_MODEL or None
unfoldable pub text_or_null : String → Json
text_or_null s = if str_eq s "" then null else string s

unfoldable pub desired_manifest : Settings → IndexManifest
desired_manifest settings = record {
  schema_version = settings.index_schema_version;
  embedding_model = settings.embedding_model;
  embedding_dim = settings.embedding_dim;
  distance = settings.embedding_distance;
  sparse_model = text_or_null settings.sparse_embedding_model;
  chunker_tokenizer = settings.chunker_tokenizer;
  chunker_max_tokens = settings.chunker_max_tokens;
}

unfoldable pub wire_embedding_config : Settings → Wire
wire_embedding_config settings = to_wire (desired_manifest settings)

unfoldable pub wire_config_for_manifest :
    (String → Option ℕ) → (Json → String) → Settings → Option JsonText → Wire
wire_config_for_manifest parse_int str_of settings stored =
    elim (parse_manifest_or_none parse_int str_of stored) [
      | none ↦ wire_embedding_config settings
      | some m ↦ to_wire m
    ]
