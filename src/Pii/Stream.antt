-- ===== src/Pii/Stream.antt =====
-- api/app/services/pii_filter_service.py: StreamUnredactor, which puts the original surfaces back into
-- a response that arrives in chunks.
--
-- A text is the list of its code points. PLACEHOLDER_RE is written out as an automaton that reads
-- `[A-Z][A-Z0-9_]*_\d+` and the closing bracket; at an opening bracket there is at most one match,
-- since neither bracket is in a character class. `re.sub` replaces the matches from left to right.
-- The character tests of Python are the fields of CharTests. The mapping is filled before the first
-- chunk arrives.
pub mod Matching
pub mod Chunks
use alice_skilltech_tools.Prelude.{
  ℕ, zero, suc, ◌+◌, ◌-◌, Bool, true, false, ◌&&◌, ◌||◌, not, Option, none, some, List, [], ◌∷◌,
  ◌++◌, if◌then◌else◌, ◌==◌, leb, length, any,
}
use alice_skilltech_tools.Store.Metrics.{text_eq}
use alice_skilltech_tools.Pii.Spans.{take, drop}

pub record CharTests : Type 0 where
  pub isupper : ℕ → Bool
  pub isdigit : ℕ → Bool
  -- the class \d
  pub is_decimal : ℕ → Bool

abbrev pub is_A_Z : ℕ → Bool
is_A_Z c = leb b'A' c && leb c b'Z'

abbrev pub is_0_9 : ℕ → Bool
is_0_9 c = leb b'0' c && leb c b'9'

-- Where the automaton stands: before the first letter; after a character of [A-Z0-9_]* that is no
-- underscore and not in a run of digits behind one; after an underscore; in such a run; in such a run
-- after a digit other than 0-9, which only \d takes.
pub data Place : Type 0 where
  first_letter body underscore digits other_digits : Place

unfoldable pub after_label_char : Place → ℕ → Option Place
after_label_char underscore c = if is_0_9 c then some digits else some body
after_label_char digits c = if is_0_9 c then some digits else some body
after_label_char other_digits c = if is_0_9 c then some other_digits else none
after_label_char first_letter c = if is_A_Z c then some body else none
after_label_char body c = some body

unfoldable pub after_underscore : Place → Option Place
after_underscore first_letter = none
after_underscore other_digits = none
after_underscore _ = some underscore

unfoldable pub after_other_digit : Place → Option Place
after_other_digit first_letter = none
after_other_digit body = none
after_other_digit _ = some other_digits

unfoldable pub is_accepting : Place → Bool
is_accepting digits = true
is_accepting other_digits = true
is_accepting _ = false

-- `text.rfind("[")`
unfoldable pub rfind_bracket : List ℕ → Option ℕ
rfind_bracket [] = none
rfind_bracket (c ∷ text) = elim (rfind_bracket text) [
  | some i ↦ some (suc i)
  | none ↦ if c == b'[' then some 0 else none
]

-- A piece of a text: one character outside of every match, or a match.
pub data Piece : Type 0 where
  plain : ℕ → Piece
  placeholder : List ℕ → Piece

-- mapping.get(key)
unfoldable pub surface_of : List ℕ → List (List ℕ × List ℕ) → Option (List ℕ)
surface_of key [] = none
surface_of key ((k, surface) ∷ mapping) =
    let rest = surface_of key mapping in if text_eq k key then some surface else rest

unfoldable pub restore : List (List ℕ × List ℕ) → List ℕ → List ℕ
restore mapping key = elim (surface_of key mapping) [ none ↦ key | some surface ↦ surface ]

-- The text that the pieces are replaced by.
unfoldable pub replaced : List (List ℕ × List ℕ) → List Piece → List ℕ
replaced mapping [] = []
replaced mapping (plain c ∷ pieces) = c ∷ replaced mapping pieces
replaced mapping (placeholder key ∷ pieces) = restore mapping key ++ replaced mapping pieces

-- The keys that are added to `restored`, in order.
unfoldable pub restored_keys : List (List ℕ × List ℕ) → List Piece → List (List ℕ)
restored_keys mapping [] = []
restored_keys mapping (plain c ∷ pieces) = restored_keys mapping pieces
restored_keys mapping (placeholder key ∷ pieces) =
    let rest = restored_keys mapping pieces in
    elim (surface_of key mapping) [ none ↦ rest | some _ ↦ key ∷ rest ]

-- The object: `_buf`, and `restored` as the list of what was added to the set.
pub record Unredactor : Type 0 where
  pub buf : List ℕ
  pub restored : List (List ℕ)

module _ (tests : CharTests) where
  -- The next place, or none where no match goes on.
  unfoldable pub next_place : Place → ℕ → Option Place
  next_place place c =
      if c == b'_'
      then after_underscore place
      else if is_A_Z c || is_0_9 c
      then after_label_char place c
      else if tests.is_decimal c
      then after_other_digit place
      else none

  -- The rest of a match, up to its closing bracket.
  unfoldable pub match_from : Place → List ℕ → Option (List ℕ)
  match_from place [] = none
  match_from place (c ∷ text) =
      if c == b']'
      then (if is_accepting place then some (c ∷ []) else none)
      else elim (next_place place c) [
        | none ↦ none
        | some next ↦ elim (match_from next text) [ none ↦ none | some m ↦ some (c ∷ m) ]
      ]

  -- The match that begins with a character and goes on in the text behind it.
  unfoldable pub match_at : ℕ → List ℕ → Option (List ℕ)
  match_at c text =
      if c == b'['
      then elim (match_from first_letter text) [ none ↦ none | some m ↦ some (c ∷ m) ]
      else none

  -- The pieces of a text, behind so many characters that belong to the match before.
  unfoldable pub pieces : ℕ → List ℕ → List Piece
  pieces skip [] = []
  pieces (suc skip) (c ∷ text) = pieces skip text
  pieces zero (c ∷ text) = elim (match_at c text) [
    | none ↦ plain c ∷ pieces zero text
    | some m ↦ placeholder m ∷ pieces (length m - 1) text
  ]

  -- c.isupper() or c.isdigit() or c == "_"
  unfoldable pub is_body_char : ℕ → Bool
  is_body_char c = tests.isupper c || tests.isdigit c || c == b'_'

  -- `_partial_start`, for the position of the last opening bracket.
  unfoldable pub partial_start_at : List ℕ → ℕ → ℕ
  partial_start_at buf i =
      if any (λ c. c == b']') (drop i buf)
      then length buf
      else if any (λ c. not (is_body_char c)) (drop (suc i) buf)
      then length buf
      else i

  unfoldable pub partial_start : List ℕ → ℕ
  partial_start buf = elim (rfind_bracket buf) [
    | none ↦ length buf
    | some i ↦ partial_start_at buf i
  ]

  -- `_replace`: with an empty mapping, or without a bracket, the text is given back at once.
  unfoldable pub replace : List (List ℕ × List ℕ) → List ℕ → List ℕ
  replace [] text = text
  replace (entry ∷ mapping) text =
      if any (λ c. c == b'[') text then replaced (entry ∷ mapping) (pieces zero text) else text

  unfoldable pub newly_restored : List (List ℕ × List ℕ) → List ℕ → List (List ℕ)
  newly_restored mapping text =
      if any (λ c. c == b'[') text then restored_keys mapping (pieces zero text) else []

  unfoldable pub feed : List (List ℕ × List ℕ) → List ℕ → Unredactor → List ℕ × Unredactor
  feed mapping chunk u =
      let buf = u.buf ++ chunk in
      let emit = take (partial_start buf) buf in
      (
        replace mapping emit,
        record {
          buf = drop (partial_start buf) buf;
          restored = u.restored ++ newly_restored mapping emit;
        },
      )

  unfoldable pub flush : List (List ℕ × List ℕ) → Unredactor → List ℕ × Unredactor
  flush mapping u = (
    replace mapping u.buf,
    record { buf = []; restored = u.restored ++ newly_restored mapping u.buf },
  )

  -- The chunks of a response one after the other, and the flush at its end.
  unfoldable pub stream : List (List ℕ × List ℕ) → List (List ℕ) → Unredactor → List ℕ × Unredactor
  stream mapping [] u = flush mapping u
  stream mapping (chunk ∷ chunks) u =
      let fed = feed mapping chunk u in
      let rest = stream mapping chunks fed.1 in (fed.0 ++ rest.0, rest.1)
