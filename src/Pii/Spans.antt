-- ===== src/Pii/Spans.antt =====
-- services/pii-filter/src/pii_filter/postprocess.py, and `detect` of detector.py.
--
-- A text is the list of its code points. Scores are only compared, so a score is a number, in
-- whatever unit. The parameters `is_alnum` and `is_space` are Python's `str.isalnum` and
-- `str.isspace` on one character. Positions lie in the text (the tokenizer's offsets do): past its
-- end a character counts as none, where Python would raise.
pub mod Coverage
use alice_skilltech_tools.Prelude.{
  ℕ, zero, suc, ◌+◌, ◌-◌, ◌≤◌, String, Bool, true, false, ◌&&◌, ◌||◌, not, Option, none, some, List,
  [], ◌∷◌, ltb, leb, str_eq, if◌then◌else◌, ◌==◌, any, filter, map, length,
}

pub record Entity : Type 0 where
  pub label : String
  pub start : ℕ
  pub end : ℕ
  pub score : ℕ
  pub surface : List ℕ

module _ {ℓ} {A : Type ℓ} where
  abbrev pub take : ℕ → List A → List A
  take zero xs = []
  take (suc n) [] = []
  take (suc n) (x ∷ xs) = x ∷ take n xs

  abbrev pub drop : ℕ → List A → List A
  drop zero xs = xs
  drop (suc n) [] = []
  drop (suc n) (x ∷ xs) = drop n xs

  abbrev pub get_elem? : List A → ℕ → Option A
  get_elem? [] i = none
  get_elem? (x ∷ xs) zero = some x
  get_elem? (x ∷ xs) (suc i) = get_elem? xs i

-- text[a:b]
abbrev pub slice : List ℕ → ℕ → ℕ → List ℕ
slice text a b = take (b - a) (drop a text)

-- sorted(entities, key=lambda e: e["start"]), which is stable.
unfoldable pub insert_by_start : Entity → List Entity → List Entity
insert_by_start e [] = e ∷ []
insert_by_start e (f ∷ fs) = if leb e.start f.start then e ∷ f ∷ fs else f ∷ insert_by_start e fs

unfoldable pub sort_by_start : List Entity → List Entity
sort_by_start [] = []
sort_by_start (e ∷ es) = insert_by_start e (sort_by_start es)

-- NAME_FAMILY
unfoldable pub is_name : String → Bool
is_name label =
    if str_eq label "FIRSTNAME"
    then true
    else if str_eq label "MIDDLENAME"
    then true
    else str_eq label "LASTNAME"

unfoldable pub same_type : Entity → Entity → Bool
same_type a b = str_eq a.label b.label

unfoldable pub name_family : Entity → Entity → Bool
name_family a b = is_name a.label && is_name b.label

-- _merge
unfoldable pub merge : List ℕ → Entity → Entity → Entity
merge text a b = record {
  label = if leb b.score a.score then a.label else b.label;
  start = a.start;
  end = b.end;
  score = if leb b.score a.score then a.score else b.score;
  surface = slice text a.start b.end;
}

module _ (is_alnum : ℕ → Bool) where
  pub is_word_char_at : List ℕ → ℕ → Bool
  is_word_char_at text i = elim (get_elem? text i) [ none ↦ false | some c ↦ is_alnum c ]

  -- `while start > 0 and _is_word_char(text[start - 1]): start -= 1`
  pub grow_left : List ℕ → ℕ → ℕ
  grow_left text zero = zero
  grow_left text (suc i) =
      let further = grow_left text i in if is_word_char_at text i then further else suc i

  -- `while end < n and _is_word_char(text[end]): end += 1`, over what follows `end`.
  pub grow_right : List ℕ → ℕ → ℕ
  grow_right [] i = i
  grow_right (c ∷ rest) i =
      let further = grow_right rest (i + 1) in if is_alnum c then further else i

  pub expand_entity : List ℕ → Entity → Entity
  expand_entity text e =
      let start = grow_left text e.start in
      let end = grow_right (drop e.end text) e.end in
      if (start == e.start) && (end == e.end)
      then e
      else record e { start = start; end = end; surface = slice text start end }

  pub expand_to_word_boundaries : List ℕ → List Entity → List Entity
  expand_to_word_boundaries text entities = map (expand_entity text) entities

  -- Whether the loop of `_fuse` joins two neighbours.
  pub is_mergeable : (Entity → Entity → Bool) → List ℕ → ℕ → Entity → Entity → Bool
  is_mergeable types_compatible text max_gap prev span =
      leb prev.end span.start
      && leb span.start (prev.end + max_gap)
      && types_compatible prev span
      && not (any is_alnum (slice text prev.end span.start))

  -- The loop of `_fuse`; `prev` is `out[-1]`, and what stands before it in `out` is final.
  pub fuse_from : (Entity → Entity → Bool) → List ℕ → ℕ → Entity → List Entity → List Entity
  fuse_from types_compatible text max_gap prev [] = prev ∷ []
  fuse_from types_compatible text max_gap prev (span ∷ spans) =
      let joined = fuse_from types_compatible text max_gap (merge text prev span) spans in
      let kept = prev ∷ fuse_from types_compatible text max_gap span spans in
      if is_mergeable types_compatible text max_gap prev span then joined else kept

  pub fuse : (Entity → Entity → Bool) → List ℕ → ℕ → List Entity → List Entity
  fuse types_compatible text max_gap [] = []
  fuse types_compatible text max_gap (span ∷ spans) =
      fuse_from types_compatible text max_gap span spans

  pub merge_adjacent_spans : List ℕ → ℕ → List Entity → List Entity
  merge_adjacent_spans text max_gap entities =
      fuse name_family text max_gap (fuse same_type text max_gap (sort_by_start entities))

-- not text.strip()
unfoldable pub is_blank : (ℕ → Bool) → List ℕ → Bool
is_blank is_space text = not (any (λ c. not (is_space c)) text)

-- surface=text[start:end]
unfoldable pub with_surface : List ℕ → Entity → Entity
with_surface text e = record e { surface = slice text e.start e.end }

-- `detect`, from what the model's pipeline returns for the text.
unfoldable pub detect : (is_space is_alnum : ℕ → Bool) → List ℕ → ℕ → List Entity → List Entity
detect is_space is_alnum text min_score raw =
    if is_blank is_space text
    then []
    else merge_adjacent_spans is_alnum text 2 (
        expand_to_word_boundaries is_alnum text (
          sort_by_start
            (map (with_surface text) (filter (λ (e : Entity). not (ltb e.score min_score)) raw))))
