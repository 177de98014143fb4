-- ===== src/Pii/Redaction/Overlaps.antt =====
-- The spans that are kept do not overlap; which spans are given up.
use alice_skilltech_tools.Prelude.{
  ℕ, ◌≤◌, ◌<◌, ◌&&◌, ◌||◌, ◌≡◌, List, [], ◌∷◌, arith, ltb, leb, ◌==◌, Bool-cases, inl, inr,
}
use alice_skilltech_tools.Pii.Spans.{Entity}
use alice_skilltech_tools.Pii.Redaction.{
  insert_by_score, sort_by_score, keep_from, keep_all, drop_overlaps,
}

-- The spans from a position on, in ascending order, none starting before the one before it ends.
abbrev pub IsSeparated : ℕ → List Entity → Type 0
IsSeparated n [] = Unit
IsSeparated n (e ∷ es) = (n ≤ e.start) × IsSeparated e.end es

-- In ascending order of the starts, none below a bound.
abbrev pub IsAscending : ℕ → List Entity → Type 0
IsAscending n [] = Unit
IsAscending n (e ∷ es) = (n ≤ e.start) × IsAscending e.start es

IsAscending-le : (m n : ℕ) (es : List Entity) → m ≤ n → IsAscending n es → IsAscending m es
IsAscending-le m n [] h s = tt
IsAscending-le m n (e ∷ es) h s = (omega (arith, s.0), s.1)

insert-IsAscending :
    (n : ℕ) (e : Entity) (es : List Entity)
    → n ≤ e.start
    → IsAscending n es
    → IsAscending n (insert_by_score e es)
unfolding insert_by_score
insert-IsAscending n e [] h s = (h, tt)
insert-IsAscending n e (f ∷ es) h s =
    elim (Bool-cases (ltb e.start f.start || (e.start == f.start) && leb f.score e.score)) [
      | inl y ↦ rw y (h, (ground arith, s.1))
      | inr no_before ↦ rw no_before (s.0, insert-IsAscending f.start e es (ground arith) s.1)
    ]

sort-IsAscending : (es : List Entity) → IsAscending 0 (sort_by_score es)
unfolding sort_by_score
sort-IsAscending [] = tt
sort-IsAscending (e ∷ es) =
    insert-IsAscending 0 e (sort_by_score es) (omega arith) (sort-IsAscending es)

keep_from-IsSeparated :
    (n : ℕ) (prev : Entity) (es : List Entity)
    → n ≤ prev.start
    → IsAscending prev.start es
    → IsSeparated n (keep_from prev es)
unfolding keep_from
keep_from-IsSeparated n prev [] h s = (h, tt)
keep_from-IsSeparated n prev (e ∷ es) h s = elim (Bool-cases (ltb e.start prev.end)) [
  | inl overlap ↦ rw overlap (elim (Bool-cases (ltb prev.score e.score)) [
    | inl better ↦ rw better (keep_from-IsSeparated n e es (omega (arith, s.0)) s.1)
    | inr worse ↦
        rw worse (keep_from-IsSeparated n prev es h (IsAscending-le prev.start e.start es s.0 s.1))
  ])
  | inr apart ↦ rw apart (h, keep_from-IsSeparated prev.end e es (ground arith) s.1)
]

keep_all-IsSeparated : (es : List Entity) → IsAscending 0 es → IsSeparated 0 (keep_all es)
unfolding keep_all
keep_all-IsSeparated [] s = tt
keep_all-IsSeparated (e ∷ es) s = keep_from-IsSeparated 0 e es s.0 s.1

-- Whatever spans are given, those that are kept are in ascending order and none starts before
-- the one before it ends.
pub drop_overlaps-IsSeparated : (entities : List Entity) → IsSeparated 0 (drop_overlaps entities)
unfolding drop_overlaps
drop_overlaps-IsSeparated entities =
    keep_all-IsSeparated (sort_by_score entities) (sort-IsAscending entities)

-- Of a span, a span `x` that is not empty, starts after the first does and scores no better, and
-- a third that starts before the first ends and not before `x` ends, and scores better than the
-- first, only the third is kept, although it does not overlap `x`.
pub drop_overlaps-displaced :
    (a x b : Entity)
    → a.start < x.start
    → x.end ≤ b.start
    → x.start < x.end
    → b.start < a.end
    → x.score ≤ a.score
    → a.score < b.score
    → drop_overlaps (a ∷ x ∷ b ∷ []) ≡ b ∷ []
unfolding drop_overlaps keep_all keep_from sort_by_score insert_by_score
drop_overlaps-displaced a x b ax xb xx ba low high = ground arith
