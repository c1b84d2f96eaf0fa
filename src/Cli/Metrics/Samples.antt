-- ===== src/Cli/Metrics/Samples.antt =====
-- `LatencySeries::print` and `percentile` of src/cli/process_metrics.cpp.
pub mod Sorted
pub mod Rounded
pub mod Order
pub mod Ends
pub mod Average
pub mod Shown
pub mod Permuted
use fin_core_streaming_syste.Prelude.{
  ℕ, zero, suc, ◌-◌, ◌==◌, Bool, Option, none, some, List, [], ◌∷◌, if◌then◌else◌, Text, codes,
  length,
}
use fin_core_streaming_syste.Prelude.Int.{ℤ, pos, leb_ℤ, ltb_ℤ, ◌-ℤ◌}
use fin_core_streaming_syste.Core.Double.{Double}
use fin_core_streaming_syste.Cli.Metrics.Format.{Rounding, left_text, concat, format_duration}
use fin_core_streaming_syste.Domain.Decimal.{to_text}

-- `std::sort`, which leaves the samples in order.
abbrev pub insert : ℤ → List ℤ → List ℤ
insert a [] = a ∷ []
insert a (b ∷ l) = if leb_ℤ a b then a ∷ b ∷ l else b ∷ insert a l

unfoldable pub sort : List ℤ → List ℤ
sort [] = []
sort (a ∷ l) = insert a (sort l)

-- `values[i]`, where an index out of range, which is not reached, reads 0.
abbrev pub at : List ℤ → ℕ → ℤ
at [] i = pos 0
at (a ∷ l) zero = a
at (a ∷ l) (suc i) = at l i

-- `std::minmax_element` behind the first sample.
unfoldable pub least : ℤ → List ℤ → ℤ
least m [] = m
least m (a ∷ l) = least (if ltb_ℤ a m then a else m) l

unfoldable pub greatest : ℤ → List ℤ → ℤ
greatest m [] = m
greatest m (a ∷ l) = greatest (if ltb_ℤ a m then m else a) l

module _ {D : Double} (R : Rounding D) where
  abbrev pub lower_index : D.Num → ℕ
  lower_index position = R.to_size (R.floor position)

  abbrev pub upper_index : D.Num → ℕ
  upper_index position = R.to_size (R.ceil position)

  -- `fraction`.
  abbrev pub fraction : D.Num → D.Num
  fraction position = D.sub position (D.of_u64 (lower_index position))

  -- Between two neighbours in the order of the samples.
  abbrev pub interpolated : ℤ → ℤ → D.Num → ℤ
  interpolated a b f = R.llround (D.add (R.of_i64 a) (D.mul f (R.of_i64 (b -ℤ a))))

  abbrev pub between : List ℤ → ℕ → ℕ → D.Num → ℤ
  between values lower upper f =
      if lower == upper then at values lower else interpolated (at values lower) (at values upper) f

  abbrev pub percentile_at : List ℤ → D.Num → ℤ
  percentile_at values position =
      between values (lower_index position) (upper_index position) (fraction position)

  unfoldable pub percentile : List ℤ → D.Num → ℤ
  percentile [] p = pos 0
  percentile (a ∷ l) p = percentile_at (sort (a ∷ l)) (D.mul p (D.of_u64 (length l)))

  -- `std::accumulate`.
  unfoldable pub accumulate : R.Long → List ℤ → R.Long
  accumulate total [] = total
  accumulate total (a ∷ l) = accumulate (R.long_add total (R.long_of a)) l

  unfoldable pub average : List ℤ → ℤ
  average values =
      R.long_round
        (R.long_div (accumulate (R.long_of (pos 0)) values) (R.long_of (pos (length values))))

  -- The line of a series that is not empty.
  unfoldable pub series_line : Text → ℕ → ℤ → ℤ → ℤ → ℤ → ℤ → ℤ → Text
  series_line name n mean lowest middle high higher highest = concat (
      codes "  "
      ∷ left_text 18 name
      ∷ codes "n="
      ∷ to_text n
      ∷ codes " avg="
      ∷ format_duration R mean
      ∷ codes " min="
      ∷ format_duration R lowest
      ∷ codes " p50="
      ∷ format_duration R middle
      ∷ codes " p95="
      ∷ format_duration R high
      ∷ codes " p99="
      ∷ format_duration R higher
      ∷ codes " max="
      ∷ format_duration R highest
      ∷ codes "\n"
      ∷ [])

  unfoldable pub print_series : Text → List ℤ → Text
  print_series name [] = concat (codes "  " ∷ left_text 18 name ∷ codes "no samples\n" ∷ [])
  print_series name (a ∷ l) =
      series_line name (length (a ∷ l)) (average (a ∷ l)) (least a l) (percentile (a ∷ l) R.p50)
        (percentile (a ∷ l) R.p95) (percentile (a ∷ l) R.p99) (greatest a l)
