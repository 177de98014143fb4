-- ===== src/Examples/Streams.antt =====
-- The stream unredactor with Python's character tests on ASCII.
use alice_skilltech_tools.Prelude.{ℕ, ◌≡◌, refl, List, [], ◌∷◌}
use alice_skilltech_tools.Pii.Stream.{
  CharTests, is_A_Z, is_0_9, Unredactor, pieces, stream, replaced, restored_keys, restore,
  surface_of, match_at, match_from, next_place, after_label_char, after_underscore,
  after_other_digit, is_accepting,
}
use alice_skilltech_tools.Store.Metrics.{text_eq}
use alice_skilltech_tools.Pii.Stream.Matching.{IsPython}
use alice_skilltech_tools.Pii.Stream.Chunks.{stream_refines}

abbrev pub ascii : CharTests
ascii = record { isupper = is_A_Z; isdigit = is_0_9; is_decimal = is_0_9 }

abbrev ascii-IsPython : IsPython ascii
ascii-IsPython = record {
  upper = λ c h. h;
  digit = λ c h. h;
  decimal = λ c h. h;
  bracket_upper = refl;
  bracket_digit = refl;
}

-- [A_1]
abbrev key : List ℕ
key = b'[' ∷ b'A' ∷ b'_' ∷ b'1' ∷ b']' ∷ []

abbrev bob : List ℕ
bob = b'B' ∷ b'o' ∷ b'b' ∷ []

abbrev mapping : List (List ℕ × List ℕ)
mapping = (key, bob) ∷ []

-- A greeting that cuts the placeholder in two, with a bracket left open at its end.
abbrev chunks : List (List ℕ)
chunks =
    (b'H' ∷ b'i' ∷ b' ' ∷ b'[' ∷ b'A' ∷ [])
    ∷ (b'_' ∷ b'1' ∷ b']' ∷ b'!' ∷ [])
    ∷ (b'[' ∷ b'A' ∷ [])
    ∷ []

abbrev start : Unredactor
start = record { buf = []; restored = [] }

stream_refines_example :
    ((stream ascii mapping chunks start).0
      ≡ b'H' ∷ b'i' ∷ b' ' ∷ b'B' ∷ b'o' ∷ b'b' ∷ b'!' ∷ b'[' ∷ b'A' ∷ [])
    × ((stream ascii mapping chunks start).1.restored ≡ key ∷ [])
unfolding replaced restored_keys restore surface_of pieces match_at match_from next_place
    after_label_char after_underscore after_other_digit is_accepting text_eq
stream_refines_example = stream_refines ascii ascii-IsPython mapping chunks start
