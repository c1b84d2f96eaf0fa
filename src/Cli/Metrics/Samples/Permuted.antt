-- ===== src/Cli/Metrics/Samples/Permuted.antt =====
-- `LatencySeries::print` of src/cli/process_metrics.cpp and the order of the samples.

use mathlib.Core.List.{Perm}
use mathlib.Core.Path.{subst}
use fin_core_streaming_syste.Prelude.{
  ◌^◌, ◌<◌, ◌≡◌, refl, sym, ap, ◌∙◌, List, [], ◌∷◌, All, arith, length, Text,
}
use fin_core_streaming_syste.Prelude.Int.{ℤ, pos}
use fin_core_streaming_syste.Core.Double.{Double}
use fin_core_streaming_syste.Cli.Metrics.Format.{Rounding}
use fin_core_streaming_syste.Cli.Metrics.Samples.{
  at, sort, least, greatest, average, percentile, percentile_at, print_series,
}
use fin_core_streaming_syste.Cli.Metrics.Samples.Average.{
  IsTime, IsExact, average-sum, sum, sum-perm,
}
use fin_core_streaming_syste.Cli.Metrics.Samples.Ends.{least-sort, greatest-sort}
use fin_core_streaming_syste.Cli.Metrics.Samples.Sorted.{sort-perm, sort-All, All-sort, length-sort}

length-perm : (l m : List ℤ) → Perm l m → length l ≡ length m
length-perm l m p = sym (length-sort l) ∙ ap length (sort-perm l m p) ∙ length-sort m

IsTime-perm : (l m : List ℤ) → Perm l m → All IsTime l → All IsTime m
IsTime-perm l m p ts =
    sort-All IsTime m (subst (All IsTime) (sort-perm l m p) (All-sort IsTime l ts))

least-perm : (a b : ℤ) (l m : List ℤ) → Perm (a ∷ l) (b ∷ m) → least a l ≡ least b m
least-perm a b l m p =
    least-sort a l ∙ ap (λ s. at s 0) (sort-perm (a ∷ l) (b ∷ m) p) ∙ sym (least-sort b m)

greatest-perm : (a b : ℤ) (l m : List ℤ) → Perm (a ∷ l) (b ∷ m) → greatest a l ≡ greatest b m
greatest-perm a b l m p =
    greatest-sort a l
    ∙ ap (λ s. at s (length l)) (sort-perm (a ∷ l) (b ∷ m) p)
    ∙ ap (at (sort (b ∷ m))) (omega (arith, length-perm (a ∷ l) (b ∷ m) p))
    ∙ sym (greatest-sort b m)

module _ {D : Double} where
  percentile-perm :
      (R : Rounding D) (l m : List ℤ) (x : D.Num) → Perm l m → percentile R l x ≡ percentile R m x
  unfolding percentile
  percentile-perm R [] [] x p = refl
  percentile-perm R [] (b ∷ m) x p = absurd (omega (arith, length-perm [] (b ∷ m) p))
  percentile-perm R (a ∷ l) [] x p = absurd (omega (arith, length-perm (a ∷ l) [] p))
  percentile-perm R (a ∷ l) (b ∷ m) x p =
      ap (λ s. percentile_at R s (D.mul x (D.of_u64 (length l)))) (sort-perm (a ∷ l) (b ∷ m) p)
      ∙ ap (λ n. percentile_at R (sort (b ∷ m)) (D.mul x (D.of_u64 n)))
          (omega (arith, length-perm (a ∷ l) (b ∷ m) p))

module _ {D : Double} {R : Rounding D} where
  average-perm :
      (l m : List ℤ)
      → IsExact R
      → Perm l m
      → All IsTime l
      → sum l < 2 ^ 63
      → average R l ≡ average R m
  average-perm l m E p ts h =
      average-sum E l ts h
      ∙ ap (λ s. R.long_round (R.long_div (R.long_of (pos s)) (R.long_of (pos (length l)))))
          (sum-perm l m p)
      ∙ ap (λ n. R.long_round (R.long_div (R.long_of (pos (sum m))) (R.long_of (pos n))))
          (length-perm l m p)
      ∙ sym (average-sum E m (IsTime-perm l m p ts) (omega (arith, sum-perm l m p)))

  -- Where long double adds exactly, LatencySeries::print writes the same line for two series
  -- that hold the same samples in different orders, if no sample is negative and their sum is
  -- below 2^63.
  pub print_series-perm :
      (name : Text) (l m : List ℤ)
      → IsExact R
      → Perm l m
      → All IsTime l
      → sum l < 2 ^ 63
      → print_series R name l ≡ print_series R name m
  unfolding print_series
  print_series-perm name [] [] E p ts h = refl
  print_series-perm name [] (b ∷ m) E p ts h = absurd (omega (arith, length-perm [] (b ∷ m) p))
  print_series-perm name (a ∷ l) [] E p ts h = absurd (omega (arith, length-perm (a ∷ l) [] p))
  print_series-perm name (a ∷ l) (b ∷ m) E p ts h = cc (
    length-perm (a ∷ l) (b ∷ m) p,
    average-perm (a ∷ l) (b ∷ m) E p ts h,
    least-perm a b l m p,
    percentile-perm R (a ∷ l) (b ∷ m) R.p50 p,
    percentile-perm R (a ∷ l) (b ∷ m) R.p95 p,
    percentile-perm R (a ∷ l) (b ∷ m) R.p99 p,
    greatest-perm a b l m p,
  )
