-- ===== src/Pii/Spans/Coverage.antt =====
-- No detected character is lost on the way from the model's spans to the spans to redact.
use alice_skilltech_tools.Prelude.{
  ℕ, zero, suc, ◌+◌, ◌≤◌, Bool, true, ◌&&◌, not, ◌≡◌, refl, ◌∙◌, ap, map, ◌||◌, List, [], ◌∷◌,
  arith, ltb, leb, any, filter, All, Bool-cases, inl, inr,
}
use alice_skilltech_tools.Pii.Spans.{
  Entity, drop, insert_by_start, sort_by_start, merge, grow_left, grow_right, expand_entity,
  expand_to_word_boundaries, is_mergeable, fuse_from, fuse, merge_adjacent_spans, detect, is_blank,
  with_surface, same_type, name_family,
}

-- A span that ends no earlier than it starts.
abbrev pub IsSpan : Entity → Type 0
IsSpan e = e.start ≤ e.end

abbrev pub covers : Entity → Entity → Bool
covers e o = leb o.start e.start && leb e.end o.end

-- Whether one span of a list contains a span.
abbrev pub is_covered : Entity → List Entity → Bool
is_covered e out = any (covers e) out

covers_trans :
    (a b : Entity) (out : List Entity)
    → covers a b ≡ true
    → is_covered b out ≡ true
    → is_covered a out ≡ true
covers_trans a b [] h k = cc
covers_trans a b (o ∷ out) h k = ground (arith, covers_trans a b out)

insert-covered :
    (e f : Entity) (fs : List Entity) → is_covered e (insert_by_start f fs) ≡ is_covered e (f ∷ fs)
unfolding insert_by_start
insert-covered e f [] = refl
insert-covered e f (g ∷ fs) = ground (arith, insert-covered e f fs)

sort-covered : (e : Entity) (es : List Entity) → is_covered e (sort_by_start es) ≡ is_covered e es
unfolding sort_by_start
sort-covered e [] = refl
sort-covered e (f ∷ fs) = ground (arith, insert-covered e f (sort_by_start fs), sort-covered e fs)

insert-IsSpan :
    (f : Entity) (fs : List Entity) → IsSpan f → All IsSpan fs → All IsSpan (insert_by_start f fs)
unfolding insert_by_start
insert-IsSpan f [] h hs = (h, tt)
insert-IsSpan f (g ∷ fs) h hs = elim (Bool-cases (leb f.start g.start)) [
  | inl e ↦ rw e (h, hs)
  | inr e ↦ rw e (hs.0, insert-IsSpan f fs h hs.1)
]

sort-IsSpan : (es : List Entity) → All IsSpan es → All IsSpan (sort_by_start es)
unfolding sort_by_start
sort-IsSpan [] h = tt
sort-IsSpan (e ∷ es) h = insert-IsSpan e (sort_by_start es) h.0 (sort-IsSpan es h.1)

module _ (is_alnum : ℕ → Bool) (compatible : Entity → Entity → Bool) (text : List ℕ)
    (max_gap : ℕ) where
  abbrev joined_from : Entity → List Entity → List Entity
  joined_from = fuse_from is_alnum compatible text max_gap

  mergeable-after :
      (p s : Entity) → is_mergeable is_alnum compatible text max_gap p s ≡ true → p.end ≤ s.start
  unfolding is_mergeable
  mergeable-after p s h = ground arith

  fuse_from-covered :
      (e prev : Entity) (spans : List Entity)
      → IsSpan prev
      → All IsSpan spans
      → is_covered e (prev ∷ spans) ≡ true
      → is_covered e (joined_from prev spans) ≡ true
  unfolding fuse_from
  fuse_from-covered e prev [] h hs c = c
  fuse_from-covered e prev (s ∷ spans) h hs c =
      elim (Bool-cases (is_mergeable is_alnum compatible text max_gap prev s)) [
        | inl m ↦
            let after = mergeable-after prev s m in
            rw m (
              fuse_from-covered e (merge text prev s) spans (unfold merge in omega arith) hs.1
                (unfold merge in ground (arith, h, hs.0)))
        | inr m ↦ rw m (elim (Bool-cases (covers e prev)) [
          | inl y ↦ rw y
          | inr n ↦ rw n (fuse_from-covered e s spans hs.0 hs.1 (rw n at c))
        ])
      ]

  fuse_from-IsSpan :
      (prev : Entity) (spans : List Entity)
      → IsSpan prev
      → All IsSpan spans
      → All IsSpan (joined_from prev spans)
  unfolding fuse_from
  fuse_from-IsSpan prev [] h hs = (h, tt)
  fuse_from-IsSpan prev (s ∷ spans) h hs =
      elim (Bool-cases (is_mergeable is_alnum compatible text max_gap prev s)) [
        | inl m ↦
            let after = mergeable-after prev s m in
            rw m (
              fuse_from-IsSpan (merge text prev s) spans (unfold merge in omega (arith, hs.0)) hs.1)
        | inr m ↦ rw m (h, fuse_from-IsSpan s spans hs.0 hs.1)
      ]

  fuse-IsSpan :
      (spans : List Entity)
      → All IsSpan spans
      → All IsSpan (fuse is_alnum compatible text max_gap spans)
  unfolding fuse
  fuse-IsSpan [] h = tt
  fuse-IsSpan (s ∷ spans) h = fuse_from-IsSpan s spans h.0 h.1

  fuse-covered :
      (e : Entity) (spans : List Entity)
      → All IsSpan spans
      → is_covered e spans ≡ true
      → is_covered e (fuse is_alnum compatible text max_gap spans) ≡ true
  unfolding fuse
  fuse-covered e [] h c = c
  fuse-covered e (s ∷ spans) h c = fuse_from-covered e s spans h.0 h.1 c

module _ (is_alnum : ℕ → Bool) (text : List ℕ) where
  -- If every span ends no earlier than it starts, a span that lies within one of the given
  -- spans lies within one of the merged ones.
  merge_adjacent_spans-covered :
      (max_gap : ℕ) (e : Entity) (entities : List Entity)
      → All IsSpan entities
      → is_covered e entities ≡ true
      → is_covered e (merge_adjacent_spans is_alnum text max_gap entities) ≡ true
  unfolding merge_adjacent_spans
  merge_adjacent_spans-covered max_gap e entities h c =
      let sorted = sort-IsSpan entities h in
      fuse-covered is_alnum name_family text max_gap e _
        (fuse-IsSpan is_alnum same_type text max_gap (sort_by_start entities) sorted)
        (fuse-covered is_alnum same_type text max_gap e (sort_by_start entities) sorted
          (sort-covered e entities ∙ c))

  grow_left-le : (i : ℕ) → grow_left is_alnum text i ≤ i
  unfolding grow_left
  grow_left-le zero = omega arith
  grow_left-le (suc i) = ground (arith, grow_left-le i)

  le-grow_right : (rest : List ℕ) (i : ℕ) → i ≤ grow_right is_alnum rest i
  unfolding grow_right
  le-grow_right [] i = omega arith
  le-grow_right (c ∷ rest) i = ground (arith, le-grow_right rest (i + 1))

  expand-covers : (e : Entity) → covers e (expand_entity is_alnum text e) ≡ true
  unfolding expand_entity
  expand-covers e = ground (arith, grow_left-le e.start, le-grow_right (drop e.end text) e.end)

  expand-IsSpan : (e : Entity) → IsSpan e → IsSpan (expand_entity is_alnum text e)
  unfolding expand_entity
  expand-IsSpan e h = ground (arith, grow_left-le e.start, le-grow_right (drop e.end text) e.end)

  expand_all-covered :
      (e : Entity) (es : List Entity)
      → is_covered e es ≡ true
      → is_covered e (expand_to_word_boundaries is_alnum text es) ≡ true
  unfolding expand_to_word_boundaries
  expand_all-covered e [] c = c
  expand_all-covered e (f ∷ es) c = ground (arith, expand-covers f, expand_all-covered e es)

  expand_boundaries-IsSpan :
      (es : List Entity) → All IsSpan es → All IsSpan (expand_to_word_boundaries is_alnum text es)
  unfolding expand_to_word_boundaries
  expand_boundaries-IsSpan [] h = tt
  expand_boundaries-IsSpan (e ∷ es) h = (expand-IsSpan e h.0, expand_boundaries-IsSpan es h.1)

filter-IsSpan : (p : Entity → Bool) (es : List Entity) → All IsSpan es → All IsSpan (filter p es)
filter-IsSpan p [] h = tt
filter-IsSpan p (e ∷ es) h = elim (Bool-cases (p e)) [
  | inl y ↦ rw y (h.0, filter-IsSpan p es h.1)
  | inr n ↦ rw n (filter-IsSpan p es h.1)
]

map-with_surface :
    (text : List ℕ) (e : Entity) (es : List Entity)
    → is_covered e (map (with_surface text) es) ≡ is_covered e es
unfolding with_surface
map-with_surface text e [] = refl
map-with_surface text e (f ∷ es) = ap (λ b. covers e f || b) (map-with_surface text e es)

with_surface-IsSpan :
    (text : List ℕ) (es : List Entity) → All IsSpan es → All IsSpan (map (with_surface text) es)
unfolding with_surface
with_surface-IsSpan text [] h = tt
with_surface-IsSpan text (e ∷ es) h = (h.0, with_surface-IsSpan text es h.1)

-- If the text is not blank and every span of the model ends no earlier than it starts, each span
-- that lies within a span of the model which reaches the minimal score lies within a span that
-- `detect` returns.
pub detect-covered :
    (is_space is_alnum : ℕ → Bool) (text : List ℕ) (min_score : ℕ) (e : Entity) (raw : List Entity)
    → any (λ c. not (is_space c)) text ≡ true
    → All IsSpan raw
    → is_covered e (filter (λ (f : Entity). not (ltb f.score min_score)) raw) ≡ true
    → is_covered e (detect is_space is_alnum text min_score raw) ≡ true
unfolding detect is_blank
detect-covered is_space is_alnum text min_score e raw shown h c =
    let kept =
      with_surface-IsSpan text _
        (filter-IsSpan (λ (f : Entity). not (ltb f.score min_score)) raw h) in
    let sorted = sort-IsSpan _ kept in
    rw shown (
      merge_adjacent_spans-covered is_alnum text 2 e _
        (expand_boundaries-IsSpan is_alnum text _ sorted)
        (expand_all-covered is_alnum text e _ (sort-covered e _ ∙ map-with_surface text e _ ∙ c)))
