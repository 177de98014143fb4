-- ===== src/Orphans/Selections.antt =====
-- api/app/services/selection_service.py: the selections of a link, as JSON lists of texts.
--
-- `parse_uuid` is `UUID` of a text (`none`: ValueError). An entry that is no text has no `startswith`:
-- `none` as a result is that AttributeError. An `ident` is a UUID's text, which has no prefix.
use alice_skilltech_tools.Prelude.{ℕ, Option, none, some, List, [], ◌∷◌, if◌then◌else◌, ◌==◌, ◌>>=◌}
use alice_skilltech_tools.Store.Json.{
  Json, string, ident, array, Items, nil, cons, JsonText, malformed, text,
}
use alice_skilltech_tools.Store.Metrics.{codes}

unfoldable pub items_of : Items → List Json
items_of nil = []
items_of (cons v items) = v ∷ items_of items

-- Parsing falls back to the empty list.
unfoldable pub parse_selections : Option JsonText → List Json
parse_selections none = []
parse_selections (some malformed) = []
parse_selections (some (text (array items))) = items_of items
parse_selections (some (text _)) = []

-- What stands behind a prefix, if the text has it.
unfoldable pub after : List ℕ → List ℕ → Option (List ℕ)
after [] s = some s
after (c ∷ prefix) [] = none
after (c ∷ prefix) (d ∷ s) = let rest = after prefix s in if c == d then rest else none

abbrev pub file_prefix : List ℕ
file_prefix = b'f' ∷ b'i' ∷ b'l' ∷ b'e' ∷ b':' ∷ []

abbrev pub course_prefix : List ℕ
course_prefix = b'c' ∷ b'o' ∷ b'u' ∷ b'r' ∷ b's' ∷ b'e' ∷ b':' ∷ []

-- The file that one entry selects; an entry of another kind or with a bad UUID selects none.
unfoldable pub file_of : (List ℕ → Option ℕ) → List ℕ → Option ℕ
file_of parse_uuid s = after file_prefix s >>= λ rest. parse_uuid rest

unfoldable pub put : Option ℕ → List ℕ → List ℕ
put none ids = ids
put (some id) ids = id ∷ ids

unfoldable pub extract_file_ids : (List ℕ → Option ℕ) → List Json → Option (List ℕ)
extract_file_ids parse_uuid [] = some []
extract_file_ids parse_uuid (string s ∷ selections) =
    extract_file_ids parse_uuid selections >>= λ ids. some (put (file_of parse_uuid (codes s)) ids)
extract_file_ids parse_uuid (ident _ ∷ selections) = extract_file_ids parse_uuid selections
extract_file_ids parse_uuid (_ ∷ selections) = none

unfoldable pub extract_course_ids : List (List ℕ) → List (List ℕ)
extract_course_ids [] = []
extract_course_ids (s ∷ selections) =
    let rest = extract_course_ids selections in
    elim (after course_prefix s) [ none ↦ rest | some id ↦ id ∷ rest ]
