-- ===== src/Pii/Redaction.antt =====
-- services/pii-filter/src/pii_filter/redaction.py.
--
-- The parameter `lower` is Python's `str.lower`. A placeholder's number is written in decimal.
pub mod Overlaps
use alice_skilltech_tools.Prelude.{
  ℕ, zero, suc, ◌+◌, ◌-◌, ◌/◌, ◌%◌, String, Bool, true, false, ◌&&◌, ◌||◌, Option, none, some, List,
  [], ◌∷◌, ◌++◌, ltb, leb, str_eq, if◌then◌else◌, ◌==◌, map, length,
}
use alice_skilltech_tools.Store.Metrics.{codes, text_eq}
use alice_skilltech_tools.Pii.Spans.{Entity, take, drop, sort_by_start}

-- sorted(entities, key=lambda e: (e["start"], -e["score"]))
unfoldable pub insert_by_score : Entity → List Entity → List Entity
insert_by_score e [] = e ∷ []
insert_by_score e (f ∷ fs) =
    if ltb e.start f.start || (e.start == f.start) && leb f.score e.score
    then e ∷ f ∷ fs
    else f ∷ insert_by_score e fs

unfoldable pub sort_by_score : List Entity → List Entity
sort_by_score [] = []
sort_by_score (e ∷ es) = insert_by_score e (sort_by_score es)

-- The loop of `_drop_overlaps`; `prev` is `kept[-1]`, and what stands before it is final.
unfoldable pub keep_from : Entity → List Entity → List Entity
keep_from prev [] = prev ∷ []
keep_from prev (span ∷ spans) =
    let overlap = keep_from (if ltb prev.score span.score then span else prev) spans in
    let apart = prev ∷ keep_from span spans in if ltb span.start prev.end then overlap else apart

unfoldable pub keep_all : List Entity → List Entity
keep_all [] = []
keep_all (span ∷ spans) = keep_from span spans

unfoldable pub drop_overlaps : List Entity → List Entity
drop_overlaps entities = keep_all (sort_by_score entities)

-- str(n)
unfoldable pub digits_from : ℕ → ℕ → List ℕ → List ℕ
digits_from zero n acc = acc
digits_from (suc fuel) n acc =
    let acc' = (48 + n % 10) ∷ acc in
    let rest = digits_from fuel (n / 10) acc' in if n / 10 == 0 then acc' else rest

-- A number has at most as many digits as its value plus one.
unfoldable pub decimal : ℕ → List ℕ
decimal n = digits_from (n + 1) n []

-- `counters`: a number for each label and lower-cased surface, in the order of the entries.
pub record Counter : Type 0 where
  pub label : String
  pub key : List ℕ
  pub number : ℕ

unfoldable pub number_of : String → List ℕ → List Counter → Option ℕ
number_of label key [] = none
number_of label key (c ∷ counters) =
    if str_eq c.label label && text_eq c.key key
    then some c.number
    else number_of label key counters

-- len(counters[label])
unfoldable pub count_label : String → List Counter → ℕ
count_label label [] = 0
count_label label (c ∷ counters) =
    (if str_eq c.label label then 1 else 0) + count_label label counters

-- f"[{type}_{n}]"
unfoldable pub placeholder : String → ℕ → List ℕ
placeholder label n = b'[' ∷ (codes label ++ (b'_' ∷ (decimal n ++ (b']' ∷ []))))

pub record Numbering : Type 0 where
  pub counters : List Counter
  pub mapping : List (List ℕ × List ℕ)

module _ (lower : List ℕ → List ℕ) where
  -- One round of the loop that numbers the spans.
  pub number_span : Entity → Numbering → Numbering
  number_span span n = elim (number_of span.label (lower span.surface) n.counters) [
    | some _ ↦ n
    | none ↦
        let k = count_label span.label n.counters + 1 in
        record {
          counters =
              n.counters
              ++ record { label = span.label; key = lower span.surface; number = k } ∷ [];
          mapping = n.mapping ++ (placeholder span.label k, span.surface) ∷ [];
        }
  ]

  pub number_spans : List Entity → Numbering → Numbering
  number_spans [] n = n
  number_spans (span ∷ spans) n = number_spans spans (number_span span n)

  -- The placeholder of a span; every span has its number by then.
  pub placeholder_of : List Counter → Entity → List ℕ
  placeholder_of counters span = elim (number_of span.label (lower span.surface) counters) [
    | none ↦ []
    | some n ↦ placeholder span.label n
  ]

-- `out[:start] + placeholder + out[end:]`
unfoldable pub replace_span : (Entity → List ℕ) → Entity → List ℕ → List ℕ
replace_span with span out = take span.start out ++ (with span ++ drop span.end out)

-- sorted(spans, key=lambda e: e["start"], reverse=True), which keeps the order of equal starts.
unfoldable pub insert_descending : Entity → List Entity → List Entity
insert_descending e [] = e ∷ []
insert_descending e (f ∷ fs) =
    if leb f.start e.start then e ∷ f ∷ fs else f ∷ insert_descending e fs

unfoldable pub sort_descending : List Entity → List Entity
sort_descending [] = []
sort_descending (e ∷ es) = insert_descending e (sort_descending es)

-- The loop that puts the placeholders in.
unfoldable pub replace_spans : (Entity → List ℕ) → List Entity → List ℕ → List ℕ
replace_spans with [] out = out
replace_spans with (span ∷ spans) out = replace_spans with spans (replace_span with span out)

unfoldable pub redact_with_placeholders :
    (List ℕ → List ℕ) → List ℕ → List Entity → List ℕ × List (List ℕ × List ℕ)
redact_with_placeholders lower text [] = (text, [])
redact_with_placeholders lower text (e ∷ es) =
    let spans = drop_overlaps (e ∷ es) in
    let n = number_spans lower (sort_by_start spans) (record { counters = []; mapping = [] }) in
    (replace_spans (placeholder_of lower n.counters) (sort_descending spans) text, n.mapping)
