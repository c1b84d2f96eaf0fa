-- ===== src/Cli/Metrics/Samples/Shown.antt =====
-- What `LatencySeries::print` of src/cli/process_metrics.cpp shows of a series.
use mathlib.Core.Path.{subst}
use fin_core_streaming_syste.Prelude.{
  ℕ, ◌*◌, ◌^◌, ◌≤◌, ◌<◌, ◌≡◌, refl, sym, List, [], ◌∷◌, All, arith, length, true, Text,
}
use fin_core_streaming_syste.Prelude.Int.{ℤ, pos, negsuc, ◌≤ℤ◌, pos_part}
use fin_core_streaming_syste.Core.Double.{Double}
use fin_core_streaming_syste.Cli.Metrics.Format.{Rounding}
use fin_core_streaming_syste.Cli.Metrics.Samples.{
  at, sort, least, greatest, average, percentile, series_line, print_series,
}
use fin_core_streaming_syste.Cli.Metrics.Samples.Average.{IsTime, IsExact, average_bounds}
use fin_core_streaming_syste.Cli.Metrics.Samples.Ends.{
  least-sort, greatest-sort, least-le, greatest-le,
}
use fin_core_streaming_syste.Cli.Metrics.Samples.Order.{percentile_within, percentile_mono}
use fin_core_streaming_syste.Cli.Metrics.Samples.Sorted.{at-sort}
use fin_core_streaming_syste.Cli.Metrics.Samples.Rounded.{IsSample, IsMonotone}

-- A line that shows a series, with its numbers in order.
pub record Shown {D : Double} (R : Rounding D) (name : Text) (n : ℕ) (text : Text) : Type 0 where
  pub mean : ℤ
  pub lowest : ℤ
  pub middle : ℤ
  pub high : ℤ
  pub higher : ℤ
  pub highest : ℤ
  pub line : text ≡ series_line R name n mean lowest middle high higher highest
  pub mean_above : lowest ≤ℤ mean
  pub mean_below : mean ≤ℤ highest
  pub lowest-le-middle : lowest ≤ℤ middle
  pub middle-le-high : middle ≤ℤ high
  pub high-le-higher : high ≤ℤ higher
  pub higher-le-highest : higher ≤ℤ highest

-- The literals 0.50, 0.95 and 0.99 are numbers between 0 and 1, in this order.
pub record HasPercents {D : Double} (R : Rounding D) : Type 0 where
  pub zero-le-p50 : D.le D.nought R.p50 ≡ true
  pub p50-le-p95 : D.le R.p50 R.p95 ≡ true
  pub p95-le-p99 : D.le R.p95 R.p99 ≡ true
  pub p99-le-one : D.le R.p99 D.one ≡ true

times : (l : List ℤ) → All IsSample l → All IsTime l
times [] _ = tt
times (pos a ∷ l) (p, ps) = (tt, times l ps)
times (negsuc a ∷ l) (p, ps) = absurd p

module _ {D : Double} {R : Rounding D} (I : IsMonotone R) (E : IsExact R) (P : HasPercents R)
    (a : ℤ) (l : List ℤ) (few : length l ≤ 2 ^ 53) (samples : All IsSample (a ∷ l)) where
  p95_pos : D.le D.nought R.p95 ≡ true
  p95_pos = I.le_trans _ R.p50 _ P.zero-le-p50 P.p50-le-p95

  p95_one : D.le R.p95 D.one ≡ true
  p95_one = I.le_trans _ R.p99 _ P.p95-le-p99 P.p99-le-one

  low : least a l ≤ℤ percentile R (a ∷ l) R.p50
  low =
      subst (λ x. x ≤ℤ percentile R (a ∷ l) R.p50) (sym (least-sort a l))
        (percentile_within I a l few samples R.p50 P.zero-le-p50
          (I.le_trans _ R.p95 _ P.p50-le-p95 p95_one)).0

  top : percentile R (a ∷ l) R.p99 ≤ℤ greatest a l
  top =
      subst (λ x. percentile R (a ∷ l) R.p99 ≤ℤ x) (sym (greatest-sort a l))
        (percentile_within I a l few samples R.p99 (I.le_trans _ R.p95 _ p95_pos P.p95-le-p99)
          P.p99-le-one).1

  sample_pos : (x : ℤ) → IsSample x → x ≡ pos (pos_part x)
  sample_pos (pos n) _ = refl
  sample_pos (negsuc n) s = absurd s

  sorted_pos : (i : ℕ) → i ≤ length l → at (sort (a ∷ l)) i ≡ pos (pos_part (at (sort (a ∷ l)) i))
  sorted_pos i h = sample_pos _ (at-sort IsSample (a ∷ l) i samples (omega arith))

  least_pos : least a l ≡ pos (pos_part (least a l))
  least_pos = subst (λ x. x ≡ pos (pos_part x)) (sym (least-sort a l)) (sorted_pos 0 (omega arith))

  greatest_pos : greatest a l ≡ pos (pos_part (greatest a l))
  greatest_pos =
      subst (λ x. x ≡ pos (pos_part x)) (sym (greatest-sort a l))
        (sorted_pos (length l) (omega arith))

  average_within :
      length (a ∷ l) * pos_part (greatest a l) < 2 ^ 63
      → (least a l ≤ℤ average R (a ∷ l)) × (average R (a ∷ l) ≤ℤ greatest a l)
  average_within small =
      let (low, high) =
        average_bounds E (pos_part (least a l)) (pos_part (greatest a l)) a l
          (times (a ∷ l) samples) (subst (λ x. All (λ y. x ≤ℤ y) (a ∷ l)) least_pos (least-le a l))
          (subst (λ x. All (λ y. y ≤ℤ x) (a ∷ l)) greatest_pos (greatest-le a l)) small in
      (
        subst (λ x. x ≤ℤ average R (a ∷ l)) (sym least_pos) low,
        subst (λ x. average R (a ∷ l) ≤ℤ x) (sym greatest_pos) high,
      )

  -- Over IEEE arithmetic, for one to 2^53 + 1 samples of 0 to 2^53 microseconds each,
  -- LatencySeries::print writes a line with the number of the samples in which minimum <=
  -- average <= maximum and minimum <= p50 <= p95 <= p99 <= maximum, where the number of samples
  -- times the largest one is below 2^63.
  pub print_series-Shown :
      (name : Text)
      → length (a ∷ l) * pos_part (greatest a l) < 2 ^ 63
      → Shown R name (length (a ∷ l)) (print_series R name (a ∷ l))
  unfolding print_series
  print_series-Shown name small = record {
    mean = average R (a ∷ l);
    lowest = least a l;
    middle = percentile R (a ∷ l) R.p50;
    high = percentile R (a ∷ l) R.p95;
    higher = percentile R (a ∷ l) R.p99;
    highest = greatest a l;
    line = refl;
    mean_above = (average_within small).0;
    mean_below = (average_within small).1;
    lowest-le-middle = low;
    middle-le-high =
        percentile_mono I a l few samples R.p50 R.p95 P.zero-le-p50 P.p50-le-p95 p95_one;
    high-le-higher =
        percentile_mono I a l few samples R.p95 R.p99 p95_pos P.p95-le-p99 P.p99-le-one;
    higher-le-highest = top;
  }
