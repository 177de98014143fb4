-- ===== src/Pii/Conversation/Texts.antt =====
-- Equality of texts, and the placeholder of a type and a number.
use alice_skilltech_tools.Prelude.{
  ℕ, Bool, true, false, ◌||◌, ◌≡◌, refl, sym, ◌∙◌, ap, List, [], ◌∷◌, ◌++◌, arith, ◌==◌, ==_refl,
  any, length, Bool-cases, inl, inr,
}
use alice_skilltech_tools.Store.Metrics.{text_eq}
use alice_skilltech_tools.Pii.Spans.{drop}
use alice_skilltech_tools.Pii.Conversation.{Python, before_underscore, global_placeholder}

pub text_eq_refl : (a : List ℕ) → text_eq a a ≡ true
unfolding text_eq
text_eq_refl [] = refl
text_eq_refl (c ∷ a) = ground (arith, ==_refl c, text_eq_refl a)

pub text_eq→≡ : (a b : List ℕ) → text_eq a b ≡ true → a ≡ b
unfolding text_eq
text_eq→≡ [] [] h = refl
text_eq→≡ [] (d ∷ b) h = absurd (ground (arith, h))
text_eq→≡ (c ∷ a) [] h = absurd (ground (arith, h))
text_eq→≡ (c ∷ a) (d ∷ b) h = elim (Bool-cases (c == d)) [
  | inl e ↦
      let same : c ≡ d = ground (arith, e) in
      let tail : a ≡ b = text_eq→≡ a b (ground (arith, e, h)) in
      ap (λ x. x ∷ a) same ∙ ap (λ s. d ∷ s) tail
  | inr e ↦ absurd (ground (arith, e, h))
]

-- The numeral that Python writes for a number: it tells the number, and has no underscore.
pub record IsNumeral (decimal : ℕ → List ℕ) : Type 0 where
  pub injective : (m n : ℕ) → decimal m ≡ decimal n → m ≡ n
  pub plain : (n : ℕ) → any (λ c. c == b'_') (decimal n) ≡ false

any_append : (p : ℕ → Bool) (a b : List ℕ) → any p (a ++ b) ≡ (any p a || any p b)
any_append p [] b = refl
any_append p (c ∷ a) b = ground (arith, any_append p a b)

before_underscore-append :
    (a b : List ℕ) → any (λ c. c == b'_') b ≡ false → before_underscore (a ++ b'_' ∷ b) ≡ a
unfolding before_underscore
before_underscore-append [] b h = ground (arith, h)
before_underscore-append (c ∷ a) b h = ground (
  arith,
  h,
  before_underscore-append a b h,
  any_append (λ d. d == b'_') a (b'_' ∷ b),
  ==_refl b'_',
)

drop-append : (a b : List ℕ) → drop (length a) (a ++ b) ≡ b
drop-append [] b = refl
drop-append (c ∷ a) b = drop-append a b

all_but_last : List ℕ → List ℕ
all_but_last [] = []
all_but_last (c ∷ []) = []
all_but_last (c ∷ d ∷ a) = c ∷ all_but_last (d ∷ a)

all_but_last-append : (c : ℕ) (a : List ℕ) → all_but_last (a ++ c ∷ []) ≡ a
unfolding all_but_last
all_but_last-append c [] = refl
all_but_last-append c (d ∷ []) = refl
all_but_last-append c (d ∷ e ∷ a) = ap (λ s. d ∷ s) (all_but_last-append c (e ∷ a))

module _ (python : Python) (numeral : IsNumeral python.decimal) where
  no_underscore : (n : ℕ) → any (λ c. c == b'_') (python.decimal n ++ b']' ∷ []) ≡ false
  no_underscore n =
      ground (arith, numeral.plain n, any_append (λ c. c == b'_') (python.decimal n) (b']' ∷ []))

  -- A placeholder tells its type and its number.
  pub global_placeholder-type :
      (s t : List ℕ) (m n : ℕ)
      → global_placeholder python s m ≡ global_placeholder python t n
      → s ≡ t
  unfolding global_placeholder
  global_placeholder-type s t m n h =
      sym (before_underscore-append s _ (no_underscore m))
      ∙ ap (λ p. before_underscore (drop 1 p)) h
      ∙ before_underscore-append t _ (no_underscore n)

  pub global_placeholder-number :
      (t : List ℕ) (m n : ℕ) → global_placeholder python t m ≡ global_placeholder python t n → m ≡ n
  unfolding global_placeholder
  global_placeholder-number t m n h =
      let tails : b'_' ∷ (python.decimal m ++ b']' ∷ []) ≡ b'_' ∷ (python.decimal n ++ b']' ∷ []) =
        sym (drop-append t _) ∙ ap (λ p. drop (length t) (drop 1 p)) h ∙ drop-append t _ in
      numeral.injective m n (
        sym (all_but_last-append b']' (python.decimal m))
        ∙ ap (λ p. all_but_last (drop 1 p)) tails
        ∙ all_but_last-append b']' (python.decimal n))
