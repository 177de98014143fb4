-- ===== src/Pii/Stream/Matching.antt =====
-- Where a text can be cut without cutting a match.
use alice_skilltech_tools.Prelude.{
  ℕ, suc, Bool, true, false, ◌||◌, not, ◌≡◌, none, some, List, [], ◌∷◌, ◌++◌, arith, ◌==◌, length,
  any, Bool-cases, Option-cases, inl, inr,
}
use alice_skilltech_tools.Pii.Spans.{drop}
use alice_skilltech_tools.Pii.Stream.{
  CharTests, is_A_Z, is_0_9, Place, first_letter, rfind_bracket, next_place, match_from, match_at,
  is_body_char,
}

-- What Python documents of its character tests, as far as it matters here.
pub record IsPython (tests : CharTests) : Type 0 where
  pub upper : (c : ℕ) → is_A_Z c ≡ true → tests.isupper c ≡ true
  pub digit : (c : ℕ) → is_0_9 c ≡ true → tests.isdigit c ≡ true
  pub decimal : (c : ℕ) → tests.is_decimal c ≡ true → tests.isdigit c ≡ true
  pub bracket_upper : tests.isupper b'[' ≡ false
  pub bracket_digit : tests.isdigit b'[' ≡ false

module _ (tests : CharTests) where
  -- A match is a prefix, of at least its closing bracket.
  match_from-prefix :
      (place : Place) (text m : List ℕ)
      → match_from tests place text ≡ some m
      → m ++ drop (length m) text ≡ text
  unfolding match_from
  match_from-prefix place [] m h = cc
  match_from-prefix place (c ∷ text) m h = elim (Bool-cases (c == b']')) [
    | inl closing ↦ ground (arith, closing, h)
    | inr inner ↦ elim (Option-cases (next_place tests place c)) [
      | inl stuck ↦ ground (arith, inner, stuck, h)
      | inr (next, e) ↦ elim (Option-cases (match_from tests next text)) [
        | inl fails ↦ ground (arith, inner, e, fails, h)
        | inr (m', e') ↦ ground (arith, inner, e, e', h, match_from-prefix next text m' e')
      ]
    ]
  ]

  match_from-append :
      (place : Place) (text later m : List ℕ)
      → match_from tests place text ≡ some m
      → match_from tests place (text ++ later) ≡ some m
  unfolding match_from
  match_from-append place [] later m h = cc
  match_from-append place (c ∷ text) later m h = elim (Bool-cases (c == b']')) [
    | inl closing ↦ ground (arith, closing, h)
    | inr inner ↦ elim (Option-cases (next_place tests place c)) [
      | inl stuck ↦ ground (arith, inner, stuck, h)
      | inr (next, e) ↦ elim (Option-cases (match_from tests next text)) [
        | inl fails ↦ ground (arith, inner, e, fails, h)
        | inr (m', e') ↦ ground (arith, inner, e, e', h, match_from-append next text later m' e')
      ]
    ]
  ]

  -- A bracket or a character outside of the classes ends every attempt.
  abbrev pub is_closed : List ℕ → Bool
  is_closed text = any (λ c. c == b']' || not (is_body_char tests c)) text

  module _ (python : IsPython tests) where
    next_place_bracket : (place : Place) → next_place tests place b'[' ≡ none
    unfolding next_place
    next_place_bracket place = ground (arith, python.decimal b'[', python.bracket_digit)

    is_body_char-next_place :
        (place next : Place) (c : ℕ)
        → next_place tests place c ≡ some next
        → is_body_char tests c ≡ true
    unfolding next_place is_body_char
    is_body_char-next_place place next c h =
        ground (arith, python.upper c, python.digit c, python.decimal c)

    match_from_bracket :
        (place : Place) (text later : List ℕ)
        → match_from tests place text ≡ none
        → match_from tests place (text ++ b'[' ∷ later) ≡ none
    unfolding match_from
    match_from_bracket place [] later h = ground (arith, next_place_bracket place)
    match_from_bracket place (c ∷ text) later h = elim (Bool-cases (c == b']')) [
      | inl closing ↦ ground (arith, closing, h)
      | inr inner ↦ elim (Option-cases (next_place tests place c)) [
        | inl stuck ↦ ground (arith, inner, stuck)
        | inr (next, e) ↦ ground (arith, inner, e, h, match_from_bracket next text later)
      ]
    ]

    match_from_closed :
        (place : Place) (text later : List ℕ)
        → is_closed text ≡ true
        → match_from tests place text ≡ none
        → match_from tests place (text ++ later) ≡ none
    unfolding match_from
    match_from_closed place [] later closed h = cc
    match_from_closed place (c ∷ text) later closed h = elim (Bool-cases (c == b']')) [
      | inl closing ↦ ground (arith, closing, h)
      | inr inner ↦ elim (Option-cases (next_place tests place c)) [
        | inl stuck ↦ ground (arith, inner, stuck)
        | inr (next, e) ↦ ground (
          arith,
          inner,
          e,
          h,
          is_body_char-next_place place next c e,
          match_from_closed next text later,
        )
      ]
    ]

    -- No match of the text at its characters is lost or found when another text follows.
    abbrev pub IsCut : List ℕ → List ℕ → Type 0
    IsCut [] later = Unit
    IsCut (c ∷ text) later =
        (match_at tests c text ≡ none → match_at tests c (text ++ later) ≡ none) × IsCut text later

    -- Before an opening bracket any text can be cut.
    pub bracket-IsCut : (text later : List ℕ) → IsCut text (b'[' ∷ later)
    unfolding match_at
    bracket-IsCut [] later = tt
    bracket-IsCut (c ∷ text) later = (
      λ h. ground (arith, h, match_from_bracket first_letter text later),
      bracket-IsCut text later,
    )

    -- A text with no opening bracket can be cut anywhere.
    pub no_bracket-IsCut : (text later : List ℕ) → rfind_bracket text ≡ none → IsCut text later
    unfolding match_at rfind_bracket
    no_bracket-IsCut [] later h = tt
    no_bracket-IsCut (c ∷ text) later h = elim (Option-cases (rfind_bracket text)) [
      | inl e ↦ (λ k. ground (arith, e, h), no_bracket-IsCut text later e)
      | inr (i, e) ↦ absurd (ground (arith, e, h))
    ]

    closed-rfind_bracket :
        (text : List ℕ) (i : ℕ) → rfind_bracket text ≡ some i → is_closed text ≡ true
    unfolding rfind_bracket is_body_char
    closed-rfind_bracket [] i h = cc
    closed-rfind_bracket (c ∷ text) i h = elim (Option-cases (rfind_bracket text)) [
      | inl e ↦ ground (arith, e, h, python.bracket_upper, python.bracket_digit)
      | inr (j, e) ↦ ground (arith, closed-rfind_bracket text j e)
    ]

    -- A text whose last opening bracket is closed, or followed by a character outside of the classes.
    pub decided-IsCut :
        (text later : List ℕ) (i : ℕ)
        → rfind_bracket text ≡ some i
        → is_closed (drop (suc i) text) ≡ true
        → IsCut text later
    unfolding match_at rfind_bracket
    decided-IsCut [] later i h closed = tt
    decided-IsCut (c ∷ text) later i h closed = elim (Option-cases (rfind_bracket text)) [
      | inl e ↦
          let here : is_closed text ≡ true = ground (arith, e, h, closed) in
          (
            λ k. ground (arith, k, match_from_closed first_letter text later here),
            no_bracket-IsCut text later e,
          )
      | inr (j, e) ↦
          let inside : is_closed text ≡ true = closed-rfind_bracket text j e in
          (
            λ k. ground (arith, k, match_from_closed first_letter text later inside),
            decided-IsCut text later j e (ground (arith, e, h, closed)),
          )
    ]

  pub match_at-append :
      (c : ℕ) (text later m : List ℕ)
      → match_at tests c text ≡ some m
      → match_at tests c (text ++ later) ≡ some m
  unfolding match_at
  match_at-append c text later m h = elim (Option-cases (match_from tests first_letter text)) [
    | inl e ↦ ground (arith, e, h)
    | inr (m', e) ↦ ground (arith, e, h, match_from-append first_letter text later m' e)
  ]

  -- A match is its bracket and a prefix of what follows.
  pub match_at-prefix :
      (c : ℕ) (text m : List ℕ)
      → match_at tests c text ≡ some m
      → (rest : List ℕ) × (m ≡ c ∷ rest) × (rest ++ drop (length rest) text ≡ text)
  unfolding match_at
  match_at-prefix c text m h = elim (Option-cases (match_from tests first_letter text)) [
    | inl e ↦ absurd (ground (arith, e, h))
    | inr (m', e) ↦ (m', ground (arith, e, h), match_from-prefix first_letter text m' e)
  ]
