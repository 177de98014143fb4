-- ===== src/Examples/Conversations.antt =====
-- Two messages whose placeholders have the same names, on a Python that writes numbers in ones.
use alice_skilltech_tools.Prelude.{
  ℕ, zero, suc, false, ◌≡◌, refl, sym, ◌∙◌, ap, List, [], ◌∷◌, arith, length, map, any, ◌==◌, All,
}
use alice_skilltech_tools.Store.Metrics.{lower}
use alice_skilltech_tools.Pii.Conversation.{Python, Local, Redacted, assign_all, no_names}
use alice_skilltech_tools.Pii.Conversation.Texts.{IsNumeral}
use alice_skilltech_tools.Pii.Conversation.Consistency.{IsConsistent, assign_all-IsConsistent}
use alice_skilltech_tools.Examples.Streams.{ascii}

ones : ℕ → List ℕ
ones zero = []
ones (suc n) = b'1' ∷ ones n

length-ones : (n : ℕ) → length (ones n) ≡ n
unfolding ones
length-ones zero = refl
length-ones (suc n) = ground (arith, length-ones n)

ones_plain : (n : ℕ) → any (λ c. c == b'_') (ones n) ≡ false
unfolding ones
ones_plain zero = refl
ones_plain (suc n) = ground (arith, ones_plain n)

ones-IsNumeral : IsNumeral ones
ones-IsNumeral = record {
  injective = λ m n h. sym (length-ones m) ∙ ap length h ∙ length-ones n;
  plain = ones_plain;
}

abbrev python : Python
python = record { tests = ascii; is_space = λ c. c == b' '; lower = map lower; decimal = ones }

-- [A_1], for a surface of one letter.
abbrev local : ℕ → Local
local letter = record { placeholder = b'[' ∷ b'A' ∷ b'_' ∷ b'1' ∷ b']' ∷ []; surface = letter ∷ [] }

abbrev redacted : List Redacted
redacted =
    record { text = b'[' ∷ b'A' ∷ b'_' ∷ b'1' ∷ b']' ∷ []; mapping = local b'X' ∷ [] }
    ∷ record { text = b'[' ∷ b'A' ∷ b'_' ∷ b'1' ∷ b']' ∷ []; mapping = local b'y' ∷ [] }
    ∷ record { text = b'[' ∷ b'A' ∷ b'_' ∷ b'1' ∷ b']' ∷ []; mapping = local b'x' ∷ [] }
    ∷ []

assign_all-IsConsistent_example :
    All
      (All (IsConsistent python (assign_all python redacted (no_names python)).1))
      (assign_all python redacted (no_names python)).0
assign_all-IsConsistent_example = assign_all-IsConsistent python ones-IsNumeral redacted
