-- ===== src/Tests/Statistics.antt =====
-- Numbers for the session statistics: natural hundredths, rounded down, and exact integers for
-- `long double`.
use mathlib.Core.List.Perm
use fin_core_streaming_syste.Prelude.{
  ℕ, ◌+◌, ◌-◌, ◌*◌, ◌/◌, ◌≤◌, ◌<◌, ◌≡◌, refl, some, List, [], ◌∷◌, arith, leb, ltb, ◌==◌, ◌++◌,
  codes,
}
use fin_core_streaming_syste.Prelude.Int.{ℤ, pos, pos_part, ◌-ℤ◌}
use fin_core_streaming_syste.Core.Double.{Double}
use fin_core_streaming_syste.Cli.Metrics.Format.{Rounding}
use fin_core_streaming_syste.Api.Json.{strip_prefix}
use fin_core_streaming_syste.Cli.Metrics.Format.{format_duration, left_text}
use fin_core_streaming_syste.Cli.Metrics.Samples.{
  print_series, series_line, average, accumulate, least, greatest, percentile, sort,
}
use fin_core_streaming_syste.Cli.Metrics.Samples.Permuted.{print_series-perm}
use fin_core_streaming_syste.Cli.Metrics.Samples.Rounded.{IsMonotone}
use fin_core_streaming_syste.Cli.Metrics.Samples.Average.{IsExact}
use fin_core_streaming_syste.Cli.Metrics.Samples.Shown.{HasPercents, Shown, print_series-Shown}
use fin_core_streaming_syste.Cli.Metrics.Usage.{read_status_kb}
use fin_core_streaming_syste.Cli.Metrics.Usage.Status.{read_status_kb-line}
use fin_core_streaming_syste.Storage.Numbers.{signed_text}
use fin_core_streaming_syste.Domain.Decimal.{to_text, digits_of}

abbrev pub hundredths : Double
hundredths = record {
  Num = ℕ;
  nought = 0;
  one = 100;
  half = 50;
  hundredth = 1;
  lt = ltb;
  le = leb;
  eq = λ a b. a == b;
  add = λ a b. a + b;
  sub = λ a b. a - b;
  mul = λ a b. a * b / 100;
  div = λ a b. a * 100 / b;
  neg = λ a. a;
  of_u64 = λ n. n * 100;
}

abbrev pub rounding : Rounding hundredths
rounding = record {
  of_i64 = λ z. pos_part z * 100;
  floor = λ x. x / 100 * 100;
  ceil = λ x. (x + 99) / 100 * 100;
  to_size = λ x. x / 100;
  llround = λ x. pos ((x + 50) / 100);
  p50 = 50;
  p95 = 95;
  p99 = 99;
  fixed = λ n x. to_text (x / 100);
  Long = ℕ;
  long_of = pos_part;
  long_add = λ a b. a + b;
  long_div = λ a b. a / b;
  long_round = λ n. pos n;
}

mul-le : (k p q : ℕ) → p ≤ q → p * (k * 100) / 100 ≤ q * (k * 100) / 100
mul-le k p q h = grind arith

mul-le-one : (k p : ℕ) → p ≤ 100 → p * (k * 100) / 100 ≤ k * 100
mul-le-one k p h = grind arith

pub rounding-IsMonotone : IsMonotone rounding
rounding-IsMonotone = record {
  le_trans = λ x y z h g. ground arith;
  of_u64 = λ n. refl;
  of_zero = refl;
  of_mono = λ m n h. ground arith;
  mul_mono = λ k p q p0 pq q1. ground (arith, mul-le k p q);
  mul_within = λ k p p0 p1. (ground arith, ground (arith, mul-le-one k p));
  floor_mono = λ x y h g _. ground arith;
  ceil_mono = λ x y h g _. ground arith;
  floor_ceil = λ x h _. (omega arith, omega arith);
  ceil_of = λ k h. omega arith;
  sub_mono = λ k x y h. ground arith;
  sub_floor = λ x h _. (ground arith, ground arith);
  add_mono = λ k x y h g. ground arith;
  add_exact = λ k n h. omega arith;
  round_mono = λ x y h g _. ground arith;
  round_of = λ k h. ground arith;
}

exact_div : (k a : ℕ) → 0 < k → k * a / k ≡ a
exact_div k a h = grind arith

div_le : (k m n : ℕ) → 0 < k → m ≤ n → m / k ≤ n / k
div_le k m n h g = grind arith

pub rounding-IsExact : IsExact rounding
rounding-IsExact = record {
  add_exact = λ m n h. refl;
  div_mono = λ k m n h g s. omega (arith, div_le k m n h g);
  div_exact = λ k a h s. ground (arith, exact_div k a h);
}

pub rounding-HasPercents : HasPercents rounding
rounding-HasPercents = record {
  zero-le-p50 = refl;
  p50-le-p95 = refl;
  p95-le-p99 = refl;
  p99-le-one = refl;
}

-- Four operations, of 3, 1, 7 and 5 microseconds.
abbrev times : List ℤ
times = pos 3 ∷ pos 1 ∷ pos 7 ∷ pos 5 ∷ []

times_shown :
    print_series rounding (codes "Redis quote") times
    ≡ codes "  Redis quote       n=4 avg=4 us min=1 us p50=4 us p95=7 us p99=7 us max=7 us\n"
unfolding print_series series_line average accumulate least greatest percentile sort format_duration
    signed_text left_text to_text digits_of ◌-ℤ◌
times_shown = refl

print_series-Shown_example :
    Shown rounding (codes "Redis quote") 4 (print_series rounding (codes "Redis quote") times)
unfolding greatest
print_series-Shown_example =
    print_series-Shown rounding-IsMonotone rounding-IsExact rounding-HasPercents (pos 3)
      (pos 1 ∷ pos 7 ∷ pos 5 ∷ []) (omega arith) (omega arith) (codes "Redis quote") (omega arith)

print_series-perm_example :
    print_series rounding (codes "Redis quote") times
    ≡ print_series rounding (codes "Redis quote") (pos 1 ∷ pos 3 ∷ pos 7 ∷ pos 5 ∷ [])
print_series-perm_example =
    print_series-perm (codes "Redis quote") times (pos 1 ∷ pos 3 ∷ pos 7 ∷ pos 5 ∷ [])
      rounding-IsExact (Perm.swap _ _ _) (tt, (tt, (tt, (tt, tt)))) (omega arith)

read_status_kb-line_example :
    read_status_kb (codes "VmRSS:") (
      some (
        (codes "Name:\tfincore_app" ∷ [])
        ++ ((codes "VmRSS:" ++ (codes "\t  " ++ (to_text 5124 ++ codes " kB"))) ∷ [])))
    ≡ pos 5124
unfolding strip_prefix
read_status_kb-line_example =
    read_status_kb-line (codes "VmRSS:") (codes "\t  ") 5124 (codes " kB")
      (codes "Name:\tfincore_app" ∷ []) [] (refl, tt) (refl, (refl, (refl, tt))) (omega arith) refl
