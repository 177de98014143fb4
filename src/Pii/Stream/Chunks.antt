-- ===== src/Pii/Stream/Chunks.antt =====
-- The response in chunks, against the response as a whole.
use mathlib.Core.Path.{subst}
use mathlib.Core.List.{append-nil, append_assoc}
use alice_skilltech_tools.Prelude.{
  ℕ, zero, suc, ◌-◌, ◌≤◌, true, false, ◌||◌, not, ◌≡◌, refl, sym, ◌∙◌, ap, none, some, List, [],
  ◌∷◌, ◌++◌, arith, ◌==◌, length, length-append, any, Bool-cases, Option-cases, inl, inr,
}
use alice_skilltech_tools.Pii.Spans.{take, drop}
use alice_skilltech_tools.Pii.Stream.{
  CharTests, Piece, plain, placeholder, rfind_bracket, match_at, pieces, is_body_char,
  partial_start_at, partial_start, replaced, restored_keys, restore, surface_of, replace,
  newly_restored, Unredactor, feed, flush, stream,
}
use alice_skilltech_tools.Pii.Stream.Matching.{
  IsPython, IsCut, bracket-IsCut, no_bracket-IsCut, decided-IsCut, match_at-append, match_at-prefix,
  is_closed,
}

-- The whole response.
abbrev pub concat : List (List ℕ) → List ℕ
concat [] = []
concat (chunk ∷ chunks) = chunk ++ concat chunks

take-append-drop : (i : ℕ) (text : List ℕ) → take i text ++ drop i text ≡ text
take-append-drop zero text = refl
take-append-drop (suc i) [] = refl
take-append-drop (suc i) (c ∷ text) = ap (λ t. c ∷ t) (take-append-drop i text)

take-length : (text : List ℕ) → take (length text) text ≡ text
take-length [] = refl
take-length (c ∷ text) = ap (λ t. c ∷ t) (take-length text)

drop-length : (text : List ℕ) → drop (length text) text ≡ []
drop-length [] = refl
drop-length (c ∷ text) = drop-length text

replaced-append :
    (mapping : List (List ℕ × List ℕ)) (ps qs : List Piece)
    → replaced mapping (ps ++ qs) ≡ replaced mapping ps ++ replaced mapping qs
unfolding replaced
replaced-append mapping [] qs = refl
replaced-append mapping (plain c ∷ ps) qs = ap (λ t. c ∷ t) (replaced-append mapping ps qs)
replaced-append mapping (placeholder key ∷ ps) qs =
    ap (λ t. restore mapping key ++ t) (replaced-append mapping ps qs)
    ∙ sym (append_assoc (restore mapping key) (replaced mapping ps) (replaced mapping qs))

restored_keys-append :
    (mapping : List (List ℕ × List ℕ)) (ps qs : List Piece)
    → restored_keys mapping (ps ++ qs) ≡ restored_keys mapping ps ++ restored_keys mapping qs
unfolding restored_keys
restored_keys-append mapping [] qs = refl
restored_keys-append mapping (plain c ∷ ps) qs = restored_keys-append mapping ps qs
restored_keys-append mapping (placeholder key ∷ ps) qs =
    ground (arith, restored_keys-append mapping ps qs)

rfind_bracket-drop :
    (text : List ℕ) (i : ℕ) → rfind_bracket text ≡ some i → drop i text ≡ b'[' ∷ drop (suc i) text
unfolding rfind_bracket
rfind_bracket-drop [] i h = cc
rfind_bracket-drop (c ∷ text) i h = elim (Option-cases (rfind_bracket text)) [
  | inl e ↦ ground (arith, e, h)
  | inr (j, e) ↦ ground (arith, e, h, rfind_bracket-drop text j e)
]

no_bracket : (text : List ℕ) → any (λ c. c == b'[') text ≡ false → rfind_bracket text ≡ none
unfolding rfind_bracket
no_bracket [] h = refl
no_bracket (c ∷ text) h = ground (arith, no_bracket text)

module _ (tests : CharTests) where
  pieces-append :
      (python : IsPython tests) (skip : ℕ) (text later : List ℕ)
      → IsCut tests python text later
      → skip ≤ length text
      → pieces tests skip (text ++ later) ≡ pieces tests skip text ++ pieces tests 0 later
  unfolding pieces
  pieces-append python zero [] later cut h = refl
  pieces-append python (suc skip) [] later cut h = absurd (omega arith)
  pieces-append python (suc skip) (c ∷ text) later cut h =
      pieces-append python skip text later cut.1 (omega arith)
  pieces-append python zero (c ∷ text) later cut h = elim (Option-cases (match_at tests c text)) [
    | inl e ↦
        rw (e, cut.0 e, pieces)
          (ap (λ ps. plain c ∷ ps) (pieces-append python zero text later cut.1 (omega arith)))
    | inr (m, e) ↦
        let (rest, split, prefix) = match_at-prefix tests c text m e in
        let short : length m - 1 ≤ length text = omega (
          arith,
          ap length split,
          ap length prefix,
          length-append rest (drop (length rest) text),
        ) in
        rw (e, match_at-append tests c text later m e, pieces)
          (ap (λ ps. placeholder m ∷ ps)
            (pieces-append python (length m - 1) text later cut.1 short))
  ]

  -- Without a mapping the pieces give the text back.
  replaced_nothing :
      (skip : ℕ) (text : List ℕ) → replaced [] (pieces tests skip text) ≡ drop skip text
  unfolding replaced restore surface_of pieces
  replaced_nothing zero [] = refl
  replaced_nothing (suc skip) [] = refl
  replaced_nothing (suc skip) (c ∷ text) = replaced_nothing skip text
  replaced_nothing zero (c ∷ text) = elim (Option-cases (match_at tests c text)) [
    | inl e ↦ rw (e, pieces) (ap (λ t. c ∷ t) (replaced_nothing zero text))
    | inr (m, e) ↦
        let (rest, split, prefix) = match_at-prefix tests c text m e in
        let same : length m - 1 ≡ length rest = omega (arith, ap length split) in
        rw (e, pieces)
          (ap (λ t. m ++ t) (replaced_nothing (length m - 1) text)
            ∙ ap (λ k. m ++ drop k text) same
            ∙ ap (λ n. n ++ drop (length rest) text) split
            ∙ ap (λ t. c ∷ t) prefix)
  ]

  closed_by_either :
      (text : List ℕ)
      → (any (λ c. c == b']') text || any (λ c. not (is_body_char tests c)) text) ≡ true
      → is_closed tests text ≡ true
  closed_by_either [] h = cc
  closed_by_either (c ∷ text) h = ground (arith, closed_by_either text, h)

  no_pieces :
      (text : List ℕ)
      → any (λ c. c == b'[') text ≡ false
      → (mapping : List (List ℕ × List ℕ))
      → (replaced mapping (pieces tests 0 text) ≡ text)
        × (restored_keys mapping (pieces tests 0 text) ≡ [])
  unfolding replaced restored_keys pieces match_at
  no_pieces [] h mapping = (refl, refl)
  no_pieces (c ∷ text) h mapping =
      let rest = no_pieces text (ground (arith, h)) mapping in
      (ground (arith, h, rest), ground (arith, h, rest))

  -- The two shortcuts of `_replace` change nothing.
  replace_lem :
      (mapping : List (List ℕ × List ℕ)) (text : List ℕ)
      → replace tests mapping text ≡ replaced mapping (pieces tests 0 text)
  unfolding replace
  replace_lem [] text = sym (replaced_nothing 0 text)
  replace_lem (entry ∷ mapping) text = elim (Bool-cases (any (λ c. c == b'[') text)) [
    | inl some_bracket ↦ rw some_bracket refl
    | inr no_bracket ↦ rw no_bracket (sym (no_pieces text no_bracket (entry ∷ mapping)).0)
  ]

  newly_restored_lem :
      (mapping : List (List ℕ × List ℕ)) (text : List ℕ)
      → newly_restored tests mapping text ≡ restored_keys mapping (pieces tests 0 text)
  unfolding newly_restored
  newly_restored_lem mapping text = elim (Bool-cases (any (λ c. c == b'[') text)) [
    | inl some_bracket ↦ rw some_bracket refl
    | inr no_bracket ↦ rw no_bracket (sym (no_pieces text no_bracket mapping).1)
  ]

  module _ (python : IsPython tests) where
    -- The pieces fall apart at a position of the text read so far.
    abbrev FallsApart : List ℕ → List ℕ → ℕ → Type 0
    FallsApart buf later n =
        pieces tests 0 (buf ++ later)
        ≡ pieces tests 0 (take n buf) ++ pieces tests 0 (drop n buf ++ later)

    cut_behind :
        (buf later : List ℕ) → IsCut tests python buf later → FallsApart buf later (length buf)
    cut_behind buf later cut =
        rw (take-length buf, drop-length buf) (pieces-append python 0 buf later cut (omega arith))

    cut_at_bracket :
        (buf later : List ℕ) (i : ℕ) → rfind_bracket buf ≡ some i → FallsApart buf later i
    cut_at_bracket buf later i e =
        let cut : IsCut tests python (take i buf) (drop i buf ++ later) =
          rw (rfind_bracket-drop buf i e)
            (bracket-IsCut tests python (take i buf) (drop (suc i) buf ++ later)) in
        ap (λ t. pieces tests 0 t)
          (ap (λ t. t ++ later) (sym (take-append-drop i buf))
            ∙ append_assoc (take i buf) (drop i buf) later)
        ∙ pieces-append python 0 (take i buf) (drop i buf ++ later) cut (omega arith)

    is_closed_behind :
        (buf : List ℕ) (i : ℕ)
        → rfind_bracket buf ≡ some i
        → (any (λ c. c == b']') (drop i buf)
            || any (λ c. not (is_body_char tests c)) (drop (suc i) buf))
          ≡ true
        → is_closed tests (drop (suc i) buf) ≡ true
    is_closed_behind buf i e h =
        closed_by_either (drop (suc i) buf)
          (ground (arith, h, ap (λ t. any (λ c. c == b']') t) (rfind_bracket-drop buf i e)))

    -- Where `_partial_start` cuts, the pieces fall apart.
    pieces-partial_start : (buf later : List ℕ) → FallsApart buf later (partial_start tests buf)
    unfolding partial_start partial_start_at
    pieces-partial_start buf later = elim (Option-cases (rfind_bracket buf)) [
      | inl none_open ↦
          subst (FallsApart buf later) (ground (arith, none_open))
            (cut_behind buf later (no_bracket-IsCut tests python buf later none_open))
      | inr (i, e) ↦
          elim (Bool-cases (
            any (λ c. c == b']') (drop i buf)
            || any (λ c. not (is_body_char tests c)) (drop (suc i) buf))) [
              | inl decided ↦ subst (FallsApart buf later) (ground (arith, e, decided)) (
                  cut_behind buf later
                    (decided-IsCut tests python buf later i e (is_closed_behind buf i e decided)))
              | inr open_ ↦
                  subst (FallsApart buf later) (ground (arith, e, open_))
                    (cut_at_bracket buf later i e)
            ]
    ]

    -- For character tests with what Python documents of them, any mapping, any object state
    -- and any chunks: what the object emits in all, flush included, is the text behind what
    -- was held back before, with every placeholder of the mapping replaced as in the whole
    -- text, and the same placeholders, in order, are recorded as restored.
    pub stream_refines :
        (mapping : List (List ℕ × List ℕ)) (chunks : List (List ℕ)) (u : Unredactor)
        → ((stream tests mapping chunks u).0
            ≡ replaced mapping (pieces tests 0 (u.buf ++ concat chunks)))
          × ((stream tests mapping chunks u).1.restored
              ≡ u.restored ++ restored_keys mapping (pieces tests 0 (u.buf ++ concat chunks)))
    unfolding stream flush feed
    stream_refines mapping [] u = rw (append-nil u.buf) (
      replace_lem mapping u.buf,
      ap (λ keys. u.restored ++ keys) (newly_restored_lem mapping u.buf),
    )
    stream_refines mapping (chunk ∷ chunks) u =
        let buf = u.buf ++ chunk in
        let emit = take (partial_start tests buf) buf in
        let held = drop (partial_start tests buf) buf in
        let rest = stream_refines mapping chunks (feed tests mapping chunk u).1 in
        let whole =
          sym (pieces-partial_start buf (concat chunks))
          ∙ ap (λ t. pieces tests 0 t) (append_assoc u.buf chunk (concat chunks)) in
        (
          ap (λ t. t ++ (stream tests mapping chunks (feed tests mapping chunk u).1).0)
                (replace_lem mapping emit)
              ∙ ap (λ t. replaced mapping (pieces tests 0 emit) ++ t) rest.0
              ∙ sym (
                  replaced-append mapping (pieces tests 0 emit)
                    (pieces tests 0 (held ++ concat chunks)))
              ∙ ap (λ ps. replaced mapping ps) whole,
          rest.1
              ∙ ap
                  (λ keys.
                    (u.restored ++ keys)
                    ++ restored_keys mapping (pieces tests 0 (held ++ concat chunks)))
                  (newly_restored_lem mapping emit)
              ∙ append_assoc u.restored (restored_keys mapping (pieces tests 0 emit))
                  (restored_keys mapping (pieces tests 0 (held ++ concat chunks)))
              ∙ ap (λ keys. u.restored ++ keys)
                  (sym (
                      restored_keys-append mapping (pieces tests 0 emit)
                        (pieces tests 0 (held ++ concat chunks)))
                    ∙ ap (λ ps. restored_keys mapping ps) whole),
        )
