-- ===== src/Jobs/Progress/Doubles.antt =====
-- Python's floats, as far as the percentages of api/app/repositories/job.py use them.
--
-- The floats are a parameter. They are taken as not negative, and a value of `round(x, 1)` as the
-- tenths that it prints. The laws are those of IEEE doubles: rounding keeps the order, and ints up
-- to 2^53 are exact.
use Prim.Native.Nat.{◌^◌}
use alice_skilltech_tools.Prelude.{ℕ, ◌+◌, ◌≤◌, ◌<◌, Bool, true, ◌≡◌}

pub record Floats (F : Type 0) : Type 0 where
  -- The literal n / 100.
  pub hundredths : ℕ → F
  -- float(n)
  pub of_int : ℕ → F
  pub plus : F → F → F
  pub times : F → F → F
  pub over : F → F → F
  -- The quotient of two ints, where the second is not 0.
  pub true_div : ℕ → ℕ → F
  -- round(x, 1), in tenths
  pub round_tenths : F → ℕ

pub record IsRounding {F : Type 0} (fl : Floats F) : Type 0 where
  pub le : F → F → Bool
  pub le_refl : (x : F) → le x x ≡ true
  pub plus_mono :
      (x y v w : F) → le x v ≡ true → le y w ≡ true → le (fl.plus x y) (fl.plus v w) ≡ true
  pub times_mono : (x y z : F) → le x y ≡ true → le (fl.times x z) (fl.times y z) ≡ true
  pub over_mono :
      (x y : F) (n : ℕ)
      → 0 < n
      → le x y ≡ true
      → le (fl.over x (fl.of_int n)) (fl.over y (fl.of_int n)) ≡ true
  pub round_mono : (x y : F) → le x y ≡ true → fl.round_tenths x ≤ fl.round_tenths y
  pub hundredths_le : (n : ℕ) → n ≤ 100 → le (fl.hundredths n) (fl.of_int 1) ≡ true
  pub true_div_le : (a b : ℕ) → a ≤ b → 0 < b → le (fl.true_div a b) (fl.of_int 1) ≡ true
  pub plus_exact :
      (a b : ℕ) → a + b ≤ 2 ^ 53 → fl.plus (fl.of_int a) (fl.of_int b) ≡ fl.of_int (a + b)
  pub one_times : (x : F) → fl.times (fl.of_int 1) x ≡ x
  pub over_self : (n : ℕ) → 0 < n → n ≤ 2 ^ 53 → fl.over (fl.of_int n) (fl.of_int n) ≡ fl.of_int 1
  pub round_hundred : fl.round_tenths (fl.of_int 100) ≡ 1000
