-- ===== src/Cli/Lines.antt =====
-- What src/cli/fincore_cli.cpp writes of each kind of line, and of a session. The layout of the
-- lookup benchmark, whose times are in nanoseconds, is a parameter.
use fin_core_streaming_syste.Prelude.{
  ℕ, Bool, true, false, not, Option, none, some, List, [], ◌∷◌, ◌++◌, if◌then◌else◌, Text, codes,
  length, Exception, Message, lit, about, built, invalid_argument, out_of_range, logic_error,
  runtime_error, database_error,
}
use fin_core_streaming_syste.Cli.Metrics.{OperationMetrics}
use fin_core_streaming_syste.Cli.Metrics.Format.{Rounding, concat}
use fin_core_streaming_syste.Cli.Metrics.Printed.{print_summary, print_operation_metrics}
use fin_core_streaming_syste.Cli.Services.{Line}
use fin_core_streaming_syste.Cli.Tables.{print_help, print_quote, print_snapshot}
use fin_core_streaming_syste.Core.Double.{Double}
use fin_core_streaming_syste.Domain.Decimal.{to_text}
use fin_core_streaming_syste.Storage.Numbers.{signed_text}

abbrev pub message_text : Message → Text
message_text (lit s) = codes s
message_text (about s t) = codes s ++ t
message_text (built t) = t

-- `what()`.
unfoldable pub what : Exception → Text
what (invalid_argument m) = message_text m
what (out_of_range m) = message_text m
what (logic_error m) = message_text m
what (runtime_error m) = message_text m
what (database_error m state) = m
what (Exception.other m) = m

abbrev pub ok_or_failed : Bool → Text
ok_or_failed true = codes "ok"
ok_or_failed false = codes "failed"

abbrev pub unless_disabled : Bool → Bool → Text
unless_disabled enabled stored = if not enabled then codes "disabled" else ok_or_failed stored

unfoldable pub fetched_text : Text → OperationMetrics → Bool → Bool → Bool → Text
fetched_text symbol m enabled quote_stored snapshot_stored = concat (
    codes "[OK] "
    ∷ symbol
    ∷ (if m.redis_cache_hit
        then codes " [Redis cache]"
        else if m.api_cached
        then codes " [API client cache]"
        else codes " [external API]")
    ∷ codes " quote_redis="
    ∷ (if m.redis_cache_hit then codes "cache-hit" else ok_or_failed m.redis_quote_stored)
    ∷ (codes " book_redis=" ++ ok_or_failed m.redis_book_stored)
    ∷ (codes " quote_postgres=" ++ unless_disabled enabled quote_stored)
    ∷ (codes " book_postgres=" ++ unless_disabled enabled snapshot_stored)
    ∷ codes "\n"
    ∷ [])

unfoldable pub symbols_text : List Text → Text
symbols_text [] = []
symbols_text (symbol ∷ symbols) = codes "  - " ++ (symbol ++ (codes "\n" ++ symbols_text symbols))

-- The number of a round, counted from 1, and of all rounds.
abbrev pub round_text : Text → ℕ → ℕ → Text
round_text name index count =
    concat (codes "\n[" ∷ name ∷ to_text index ∷ codes "/" ∷ to_text count ∷ codes "]\n" ∷ [])

module _ {D : Double} (R : Rounding D) (benchmark_text : Text → ℕ → ℕ → ℕ → Text) where
  abbrev pub last_text : Option OperationMetrics → Text
  last_text none = codes "No measured operation yet.\n"
  last_text (some m) = print_operation_metrics R m

  unfoldable pub line_text : Line D → Text
  line_text (Line.fetched symbol m enabled quote_stored snapshot_stored) =
      fetched_text symbol m enabled quote_stored snapshot_stored
  line_text (Line.missed symbol) =
      codes "[MISS] Alpha Vantage returned no quote for " ++ (symbol ++ codes "\n")
  line_text (Line.quote_table quote) = print_quote R quote
  line_text (Line.snapshot_table snapshot) = print_snapshot R snapshot
  line_text (Line.metrics_table m) = print_operation_metrics R m
  line_text Line.redis_warning = codes "[WARN] Redis is disconnected; writes may fail.\n"
  line_text (Line.batch successes failures total) = concat (
      (codes "\n[batch] successful=" ++ to_text successes)
      ∷ (codes " failed=" ++ to_text failures)
      ∷ (codes " total=" ++ to_text total)
      ∷ codes "\n"
      ∷ [])
  line_text (Line.watching target count interval_ms) = concat (
      (codes "Watching " ++ target)
      ∷ (codes " count=" ++ to_text count)
      ∷ (codes " interval_ms=" ++ to_text interval_ms)
      ∷ codes "\n"
      ∷ [])
  line_text (Line.watch_round index count) = round_text (codes "watch ") index count
  line_text (Line.cycle index count) = round_text (codes "cycle ") index count
  line_text (Line.sleeping seconds) =
      codes "[FinCore] Sleeping for " ++ (to_text seconds ++ codes "s ...\n")
  line_text Line.help_text = print_help
  line_text (Line.symbol_list symbols) =
      codes "Configured symbols ("
      ++ (to_text (length symbols) ++ (codes "):\n" ++ symbols_text symbols))
  line_text (Line.no_book symbol) = concat (
      codes "[MISS] no in-memory order book data for "
      ∷ symbol
      ∷ codes ". Run 'fetch "
      ∷ symbol
      ∷ codes "' first.\n"
      ∷ [])
  line_text (Line.book_time lookup_us) =
      codes "[lookup] unordered_map + snapshot time: " ++ (signed_text lookup_us ++ codes " us\n")
  line_text (Line.benchmark symbol count vector_hits map_hits) =
      benchmark_text symbol count vector_hits map_hits
  line_text (Line.redis_status true) = codes "[OK] Redis is connected\n"
  line_text (Line.redis_status false) = codes "[ERROR] Redis is disconnected\n"
  line_text (Line.summary stats) = print_summary R stats
  line_text (Line.last_metrics m) = last_text m
  line_text Line.stats_reset = codes "[OK] session statistics reset\n"
  line_text Line.bye = codes "Bye.\n"
  line_text (Line.unknown_command command) =
      codes "[ERROR] unknown command: " ++ (command ++ codes ". Type 'help'.\n")
  line_text Line.banner =
      codes "\nFinCore Interactive CLI\n" ++ codes "Type 'help' to list commands.\n\n"
  line_text Line.prompt = codes "fincore> "
  line_text Line.end_of_input = codes "\n"
  line_text (Line.error e) = codes "[ERROR] " ++ (what e ++ codes "\n")

  -- The output of a session, whose lines are given latest first.
  unfoldable pub terminal_text : List (Line D) → Text
  terminal_text [] = []
  terminal_text (latest ∷ earlier) = terminal_text earlier ++ line_text latest
