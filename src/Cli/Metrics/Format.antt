-- ===== src/Cli/Metrics/Format.antt =====
-- `double` and `long double` as src/cli/process_metrics.cpp uses them, and its formats of durations
-- and sizes. What the compiler and the C++ library do is a parameter.
use fin_core_streaming_syste.Prelude.{
  ℕ, ◌-◌, Option, none, some, List, [], ◌∷◌, ◌++◌, if◌then◌else◌, Text, codes, length, replicate,
}
use fin_core_streaming_syste.Prelude.Int.{ℤ, pos, leb_ℤ}
use fin_core_streaming_syste.Core.Double.{Double}
use fin_core_streaming_syste.Storage.Numbers.{signed_text}

pub record Rounding (D : Double) : Type 1 where
  -- `static_cast<double>` of an `std::int64_t`, which is also the literal `1'000.0`.
  pub of_i64 : ℤ → D.Num
  pub floor : D.Num → D.Num
  pub ceil : D.Num → D.Num
  -- `static_cast<std::size_t>`.
  pub to_size : D.Num → ℕ
  pub llround : D.Num → ℤ
  -- The literals 0.50, 0.95 and 0.99.
  pub p50 : D.Num
  pub p95 : D.Num
  pub p99 : D.Num
  -- `std::fixed << std::setprecision(n)`.
  pub fixed : ℕ → D.Num → Text
  pub Long : Type 0
  pub long_of : ℤ → Long
  pub long_add : Long → Long → Long
  pub long_div : Long → Long → Long
  pub long_round : Long → ℤ

-- `std::left << std::setw(width)`.
unfoldable pub left_text : ℕ → Text → Text
left_text width name = name ++ replicate (width - length name) b' '

-- What is written by a chain of `<<`.
abbrev pub concat : List Text → Text
concat [] = []
concat (t ∷ ts) = t ++ concat ts

module _ {D : Double} (R : Rounding D) where
  unfoldable pub format_duration : ℤ → Text
  format_duration microseconds =
      if leb_ℤ (pos 1_000_000) microseconds
      then R.fixed 3 (D.div (R.of_i64 microseconds) (R.of_i64 (pos 1_000_000))) ++ codes " s"
      else if leb_ℤ (pos 1_000) microseconds
      then R.fixed 3 (D.div (R.of_i64 microseconds) (R.of_i64 (pos 1_000))) ++ codes " ms"
      else signed_text microseconds ++ codes " us"

  unfoldable pub format_memory : ℤ → Text
  format_memory kilobytes =
      R.fixed 2 (D.div (R.of_i64 kilobytes) (R.of_i64 (pos 1_024))) ++ codes " MiB"

  unfoldable pub optional_duration : Text → Option ℤ → Text
  optional_duration name (some value) =
      concat (codes "  " ∷ left_text 20 name ∷ format_duration value ∷ codes "\n" ∷ [])
  optional_duration name none = concat (codes "  " ∷ left_text 20 name ∷ codes "not reached\n" ∷ [])
