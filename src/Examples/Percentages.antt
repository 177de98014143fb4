-- ===== src/Examples/Percentages.antt =====
-- The bound on percentages, on numbers with two decimals in place of floats.
use native.Mathlib.Nat.{
  mul-le-mul_right, mul-div_left, le-div_iff_mul-le, div-mul-le_self, mul_comm,
}
use alice_skilltech_tools.Prelude.{ℕ, ◌+◌, ◌*◌, ◌/◌, ◌≤◌, ◌<◌, refl, arith, leb}
use alice_skilltech_tools.Jobs.Progress.{files_of_job, get_progress_percentage}
use alice_skilltech_tools.Jobs.Progress.Doubles.{Floats, IsRounding}
use alice_skilltech_tools.Jobs.Progress.Percentage.{get_progress_percentage_bounds}
use alice_skilltech_tools.Examples.Data.{running_job, store}

-- 100 stands for 1.00; products and quotients are cut off.
abbrev decimals : Floats ℕ
decimals = record {
  hundredths = λ n. n;
  of_int = λ n. n * 100;
  plus = λ x y. x + y;
  times = λ x y. x * y / 100;
  over = λ x y. x * 100 / y;
  true_div = λ a b. a * 100 / b;
  round_tenths = λ x. x / 10;
}

div_mono : (a b k : ℕ) → 0 < k → a ≤ b → a / k ≤ b / k
div_mono a b k h l = (le-div_iff_mul-le h).1 (omega (arith, div-mul-le_self a k, l))

decimals-IsRounding : IsRounding decimals
decimals-IsRounding = record {
  le = leb;
  le_refl = λ x. ground arith;
  plus_mono = λ x y v w h k. ground (arith, h, k);
  times_mono = λ x y z h.
      let l : x ≤ y = ground (arith, h) in
      let m = div_mono (x * z) (y * z) 100 (omega arith) (mul-le-mul_right z l) in
      ground (arith, m);
  over_mono = λ x y n positive h.
      let l : x * 100 ≤ y * 100 = ground (arith, h) in
      let m = div_mono (x * 100) (y * 100) (n * 100) (omega arith) l in ground (arith, m);
  round_mono = λ x y h. ground (arith, h);
  hundredths_le = λ n h. ground (arith, h);
  true_div_le = λ a b h positive.
      let m = div_mono (a * 100) (100 * b) b positive (omega arith) in
      let e = mul-div_left 100 positive in ground (arith, m, e);
  plus_exact = λ a b h. omega arith;
  one_times = λ x. omega arith;
  over_self =
      λ n positive h. rw (mul_comm (n * 100) 100) (mul-div_left 100 {n = n * 100} (omega arith));
  round_hundred = refl;
}

get_progress_percentage_bounds_example : get_progress_percentage decimals running_job store ≤ 1000
unfolding files_of_job
get_progress_percentage_bounds_example =
    get_progress_percentage_bounds decimals decimals-IsRounding running_job store (omega arith)
      (omega arith)
