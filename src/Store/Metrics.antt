-- ===== src/Store/Metrics.antt =====
-- api/app/core/metrics.py: the observations of the job lifecycle, and the bucket of an error text.
use Prim.Native.Char.{code}
use alice_skilltech_tools.Prelude.{
  ℕ, ◌+◌, ℤ, String, Bool, true, false, ◌&&◌, ◌||◌, Option, none, some, List, [], ◌∷◌, map, leb,
  str_eq, if◌then◌else◌, ◌==◌, any,
}
use alice_skilltech_tools.Store.Enums.{JobType, JobStatus}

pub data Metric : Type 0 where
  jobs_enqueued : JobType → Metric
  jobs_completed : JobType → JobStatus → Metric
  job_pending_seconds : JobType → ℤ → Metric
  job_total_duration_seconds : JobType → JobStatus → ℤ → Metric
  job_failures : JobType → String → Metric

-- The code points of a text.
unfoldable pub codes : String → List ℕ
codes String.[] = []
codes (String.◌∷◌ c s) = code c ∷ codes s

-- str.lower() on ASCII letters. Other letters are kept: only the Kelvin sign and the dotted capital
-- I have a lower case with an ASCII letter in it.
unfoldable pub lower : ℕ → ℕ
lower c = if leb b'A' c && leb c b'Z' then c + 32 else c

-- a == b, on texts
unfoldable pub text_eq : List ℕ → List ℕ → Bool
text_eq [] [] = true
text_eq (a ∷ as') (b ∷ bs) = let rest = text_eq as' bs in if a == b then rest else false
text_eq _ _ = false

unfoldable pub is_prefix : List ℕ → List ℕ → Bool
is_prefix [] s = true
is_prefix (c ∷ p) [] = false
is_prefix (c ∷ p) (d ∷ s) = let rest = is_prefix p s in if c == d then rest else false

-- `needle in s`
unfoldable pub contains : List ℕ → List ℕ → Bool
unfolding is_prefix
contains needle [] = is_prefix needle []
contains needle (c ∷ s) =
    let rest = contains needle s in if is_prefix needle (c ∷ s) then true else rest

abbrev pub known_error_kinds : List String
known_error_kinds = "auth" ∷ "connection" ∷ "timeout" ∷ "empty_content" ∷ "cancelled" ∷ "other" ∷ []

unfoldable pub classify_error_kind : Option String → String
unfolding contains codes lower
classify_error_kind none = "other"
classify_error_kind (some error_message) =
    let msg = map lower (codes error_message) in
    let has = λ (needle : String). contains (codes needle) msg in
    if str_eq error_message ""
    then "other"
    else if has "auth"
    then "auth"
    else if has "timeout" || has "timed out"
    then "timeout"
    else if has "connection" || has "connect" || has "unreachable"
    then "connection"
    else if has "empty" || has "no text content"
    then "empty_content"
    else if has "cancel"
    then "cancelled"
    else "other"

-- `kind in KNOWN_ERROR_KINDS`, for a payload field that may be missing.
unfoldable pub is_known_error_kind : Option String → Bool
is_known_error_kind none = false
is_known_error_kind (some kind) = any (λ known. str_eq known kind) known_error_kinds

-- The label that `fail_job` gives to JOB_FAILURES.
unfoldable pub error_kind_label : Option String → String → String
unfolding is_known_error_kind classify_error_kind
error_kind_label none message = classify_error_kind (some message)
error_kind_label (some kind) message =
    if is_known_error_kind (some kind) then kind else classify_error_kind (some message)
