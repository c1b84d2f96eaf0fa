-- ===== src/Cli/Metrics/Printed.antt =====
-- What src/cli/process_metrics.cpp writes of one operation and of a session.
use fin_core_streaming_syste.Prelude.{
  ◌+◌, ◌%◌, ◌^◌, ◌==◌, Option, none, some, [], ◌∷◌, ◌++◌, if◌then◌else◌, Text, codes,
}
use fin_core_streaming_syste.Prelude.Int.{ℤ, pos, leb_ℤ, ltb_ℤ, ◌+ℤ◌}
use fin_core_streaming_syste.Core.Double.{Double}
use fin_core_streaming_syste.Cli.Metrics.{
  ProcessDelta, OperationMetrics, SessionStats, total_cpu_us,
}
use fin_core_streaming_syste.Cli.Metrics.Format.{
  Rounding, left_text, concat, format_duration, format_memory, optional_duration,
}
use fin_core_streaming_syste.Cli.Metrics.Samples.{print_series}
use fin_core_streaming_syste.Domain.Decimal.{to_text}
use fin_core_streaming_syste.Storage.Numbers.{signed_text}

module _ {D : Double} (R : Rounding D) where
  unfoldable pub cpu_percent : ProcessDelta → ℤ → D.Num
  cpu_percent d wall_time_us =
      if leb_ℤ wall_time_us (pos 0)
      then D.nought
      else D.div (D.mul (R.of_i64 (total_cpu_us d)) (R.of_i64 (pos 100))) (R.of_i64 wall_time_us)

  -- The sum of the counters is computed in `uint64_t`.
  unfoldable pub cache_hit_rate : SessionStats → D.Num
  cache_hit_rate s =
      let cache_total = (s.api_cache_hits + s.api_cache_misses) % 2 ^ 64 in
      if cache_total == 0
      then D.nought
      else D.div (D.mul (D.of_u64 s.api_cache_hits) (R.of_i64 (pos 100))) (D.of_u64 cache_total)

  unfoldable pub print_summary : SessionStats → Text
  print_summary s = concat (
      codes "\n=== FinCore Session Statistics ===============================\n"
      ∷ codes "Operations\n"
      ∷ (codes "  attempts             " ++ to_text s.attempts)
      ∷ (codes "\n  successes            " ++ to_text s.successes)
      ∷ (codes "\n  failures              " ++ to_text s.failures)
      ∷ codes "\n\nAlpha Vantage client\n"
      ∷ (codes "  cache hits           " ++ to_text s.api_cache_hits)
      ∷ (codes "\n  cache misses         " ++ to_text s.api_cache_misses)
      ∷ (codes "\n  cache hit rate       " ++ R.fixed 2 (cache_hit_rate s))
      ∷ codes "%\n\nRedis\n"
      ∷ (codes "  cache hits           " ++ to_text s.redis_cache_hits)
      ∷ (codes "\n  cache misses         " ++ to_text s.redis_cache_misses)
      ∷ (codes "\n  quote writes ok      " ++ to_text s.redis_quote_successes)
      ∷ (codes "\n  quote writes failed  " ++ to_text s.redis_quote_failures)
      ∷ (codes "\n  book writes ok       " ++ to_text s.redis_book_successes)
      ∷ (codes "\n  book writes failed   " ++ to_text s.redis_book_failures)
      ∷ codes "\n\nLatency\n"
      ∷ print_series R (codes "Redis cache read") s.redis_read
      ∷ print_series R (codes "API get_quote") s.api
      ∷ print_series R (codes "  API external") s.api_external
      ∷ print_series R (codes "  API cached") s.api_cached
      ∷ print_series R (codes "Redis quote") s.redis_quote
      ∷ print_series R (codes "Book rebuild") s.book_build
      ∷ print_series R (codes "Redis order book") s.redis_book
      ∷ print_series R (codes "Total pipeline") s.total
      ∷ codes "\nMeasured process usage\n"
      ∷ (codes "  user CPU             " ++ format_duration R s.measured_user_cpu_us)
      ∷ (codes "\n  system CPU           " ++ format_duration R s.measured_system_cpu_us)
      ∷ (codes "\n  total CPU            "
          ++ format_duration R (s.measured_user_cpu_us +ℤ s.measured_system_cpu_us))
      ∷ (codes "\n  current RSS          " ++ format_memory R s.last_current_rss_kb)
      ∷ (codes "\n  peak RSS             " ++ format_memory R s.peak_rss_kb)
      ∷ codes "\n==============================================================\n"
      ∷ [])

  -- A line that is written only of a value that is measured, or if the test holds.
  abbrev optional_line : {A : Type 0} → Option A → Text → Text
  optional_line (some value) line = line
  optional_line none line = []

  unfoldable pub print_operation_metrics : OperationMetrics → Text
  print_operation_metrics m = concat (
      codes "\n[metrics] "
      ∷ m.symbol
      ∷ (if m.success then codes " SUCCESS" else codes " FAILED")
      ∷ codes "\n"
      ∷ optional_duration R (codes "API get_quote") m.api_us
      ∷ optional_duration R (codes "Redis cache read") m.redis_read_us
      ∷ optional_duration R (codes "Redis quote write") m.redis_quote_us
      ∷ optional_duration R (codes "OrderBook rebuild") m.book_build_us
      ∷ optional_duration R (codes "Redis book write") m.redis_book_us
      ∷ optional_duration R (codes "Total pipeline") (some m.total_us)
      ∷ (if ltb_ℤ (pos 0) m.total_us
          then concat (
              codes "  "
              ∷ left_text 20 (codes "Pipeline rate")
              ∷ R.fixed 2 (D.div (R.of_i64 (pos 1_000_000)) (R.of_i64 m.total_us))
              ∷ codes " ops/s (single operation)\n"
              ∷ [])
          else [])
      ∷ optional_line m.api_us (
          concat (
            codes "  "
            ∷ left_text 20 (codes "API source")
            ∷ (if m.api_cached then codes "AlphaVantageClient cache" else codes "external fetch")
            ∷ codes "\n"
            ∷ []))
      ∷ optional_line m.redis_read_us (
          concat (
            codes "  "
            ∷ left_text 20 (codes "Redis cache")
            ∷ (if m.redis_cache_hit then codes "hit" else codes "miss")
            ∷ codes "\n"
            ∷ []))
      ∷ codes "\n  Process delta\n"
      ∷ (codes "    user CPU           " ++ format_duration R m.process.user_cpu_us)
      ∷ (codes "\n    system CPU         " ++ format_duration R m.process.system_cpu_us)
      ∷ (codes "\n    process CPU / wall " ++ R.fixed 2 (cpu_percent m.process m.total_us))
      ∷ (codes "%\n    current RSS        " ++ format_memory R m.process.current_rss_kb)
      ∷ (codes "\n    RSS delta          "
          ++ (if leb_ℤ (pos 0) m.process.rss_delta_kb then codes "+" else []))
      ∷ format_memory R m.process.rss_delta_kb
      ∷ (codes "\n    peak RSS           " ++ format_memory R m.process.peak_rss_kb)
      ∷ (codes "\n    minor faults       " ++ signed_text m.process.minor_faults)
      ∷ (codes "\n    major faults       " ++ signed_text m.process.major_faults)
      ∷ (codes "\n    voluntary ctx sw   " ++ signed_text m.process.voluntary_context_switches)
      ∷ (codes "\n    involuntary ctx sw " ++ signed_text m.process.involuntary_context_switches)
      ∷ codes "\n"
      ∷ [])

  unfoldable pub print_last : SessionStats → Text
  print_last s = elim s.last [
    | none ↦ codes "No measured operation yet.\n"
    | some m ↦ print_operation_metrics m
  ]
