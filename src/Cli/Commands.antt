-- ===== src/Cli/Commands.antt =====
-- The commands of `class FinCoreCli`: `run`, `handle_line` and its handlers
-- (src/cli/fincore_cli.cpp).
pub mod Keeps
pub mod Fetching
pub mod Consistent
pub mod Returns
use Prim.Native.String.{String}
use fin_core_streaming_syste.Prelude.{
  ℕ, zero, suc, ◌+◌, ◌-◌, ◌*◌, ◌≡◌, Bool, true, false, not, ◌&&◌, ◌||◌, Option, none, some, List,
  [], ◌∷◌, if◌then◌else◌, Text, codes, text_eq, is_some, Result, ok, err, Exception,
  invalid_argument, lit, length, ltb,
}
use fin_core_streaming_syste.Prelude.Int.{ℤ, pos, pos_part}
use fin_core_streaming_syste.Core.Double.{Double}
use fin_core_streaming_syste.Core.OrderBook.{OrderBook, create, snapshot}
use fin_core_streaming_syste.Cli.Metrics.{new_session, reset}
use fin_core_streaming_syste.Cli.Parse.{tokenize, normalize_symbol, lower_case, parse_number}
use fin_core_streaming_syste.Cli.Services.{
  Services, Line, State, snapshot_table, watching, watch_round, cycle, sleeping, help_text,
  symbol_list, no_book, book_time, benchmark, redis_status, summary, last_metrics, stats_reset, bye,
  unknown_command, banner, prompt, end_of_input, error,
}
use fin_core_streaming_syste.Cli.Monad.{
  Action, pure, throw, ◌>>=◌, ◌>>◌, catching, gets, modify, call, call_pure, write, steady_now,
  elapsed_us, read_process_snapshot, lookup, try_emplace,
}
use fin_core_streaming_syste.Cli.Fetch.{
  fresh_metrics, not_configured, is_configured, or_missing, fetch_symbol, fetch_all,
}

abbrev pub usage : String → Exception
usage text = invalid_argument (lit text)

-- `unordered_set::contains`.
pub has_name : Text → List Text → Bool
has_name k [] = false
has_name k (j ∷ names) = text_eq j k || has_name k names

-- The hits of `count` searches with this result.
pub hits : Bool → ℕ → ℕ
hits found zero = 0
hits true (suc count) = hits true count + 1
hits false (suc count) = hits false count

unfoldable pub upper_names : List Text → List Text
upper_names [] = []
upper_names (symbol ∷ symbols) = normalize_symbol symbol ∷ upper_names symbols

module _ {D : Double} where
  -- The constructor: the names in upper case, and an empty book for each.
  unfoldable pub configure :
      List Text → List (Text × OrderBook D) → Result (List (Text × OrderBook D))
  configure [] books = ok books
  configure (symbol ∷ symbols) books = elim (create D (normalize_symbol symbol)) [
    | ok book ↦ configure symbols (try_emplace (normalize_symbol symbol) book books)
    | err e ↦ err e
  ]

  unfoldable pub initial :
      (S : Services D) → List Text → ℤ → S.World → List (Text × OrderBook D) → State D S
  initial S symbols default_poll_seconds world books = record {
    symbols = upper_names symbols;
    books = books;
    books_with_data = [];
    default_poll_seconds = default_poll_seconds;
    running = true;
    stats = new_session;
    metrics = fresh_metrics [];
    out = [];
    world = world;
  }

module _ {D : Double} {S : Services D} where
  -- A result that has no effect, or its exception.
  unfoldable pub lift : {A : Type 0} → Result A → Action S A
  lift (ok a) = pure a
  lift (err e) = throw e

  unfoldable pub when : Bool → Action S (Unit {0}) → Action S (Unit {0})
  when true m = m
  when false m = pure tt

  -- The result of a fetch is not used.
  unfoldable pub discard : {A : Type 0} → Action S A → Action S (Unit {0})
  discard m = do _ ← m; pure tt

  unfoldable pub sleep : ℕ → Action S (Unit {0})
  sleep ms = modify (λ s. record s { world = S.sleep_ms ms s.world })

  unfoldable pub print_summary : Action S (Unit {0})
  print_summary = do stats ← gets (λ s. s.stats); write (summary stats)

  unfoldable pub handle_symbols : List Text → Action S (Unit {0})
  handle_symbols [] = do symbols ← gets (λ s. s.symbols); write (symbol_list symbols)
  handle_symbols (_ ∷ _) = throw (usage "usage: symbols")

  unfoldable pub handle_fetch : List Text → Action S (Unit {0})
  handle_fetch (arg ∷ []) =
      if text_eq (normalize_symbol arg) (codes "ALL")
      then fetch_all true true
      else discard (fetch_symbol (normalize_symbol arg) true true)
  handle_fetch [] = throw (usage "usage: fetch <SYMBOL|all>")
  handle_fetch (_ ∷ (_ ∷ _)) = throw (usage "usage: fetch <SYMBOL|all>")

  -- `if (!is_configured(symbol)) throw ...;`
  unfoldable pub require_configured : Text → Action S (Unit {0})
  require_configured symbol = do
    configured ← gets (is_configured symbol)
    when (not configured) (throw (not_configured symbol))

  unfoldable pub show_book : Text → Bool → Action S (Unit {0})
  show_book symbol false = write (no_book symbol)
  show_book symbol true = do
    started ← steady_now
    found ← gets (λ s. lookup symbol s.books)
    book ← or_missing found
    now ← call_pure S.system_now
    lookup_us ← elapsed_us started
    write (snapshot_table (snapshot D now (pos 0) book))
    write (book_time lookup_us)

  unfoldable pub handle_book : List Text → Action S (Unit {0})
  handle_book (arg ∷ []) = do
    require_configured (normalize_symbol arg)
    has_data ← gets (λ s. has_name (normalize_symbol arg) s.books_with_data)
    show_book (normalize_symbol arg) has_data
  handle_book [] = throw (usage "usage: book <SYMBOL>")
  handle_book (_ ∷ (_ ∷ _)) = throw (usage "usage: book <SYMBOL>")

  unfoldable pub measure_lookup : Text → ℕ → Action S (Unit {0})
  measure_lookup symbol count = do
    require_configured symbol
    process_before ← read_process_snapshot
    benchmark_started ← steady_now
    vector_started ← steady_now
    vector_hits ← gets (λ s. hits (has_name symbol s.symbols) count)
    vector_us ← elapsed_us vector_started
    map_started ← steady_now
    map_hits ← gets (λ s. hits (is_configured symbol s) count)
    map_us ← elapsed_us map_started
    benchmark_us ← elapsed_us benchmark_started
    process_after ← read_process_snapshot
    write (benchmark symbol count vector_hits map_hits)

  unfoldable pub handle_lookup : List Text → Action S (Unit {0})
  handle_lookup (arg ∷ []) = measure_lookup (normalize_symbol arg) 1_000_000
  handle_lookup (arg ∷ (count_text ∷ [])) = do
    count ← lift (parse_number count_text "COUNT" 1 100_000_000)
    measure_lookup (normalize_symbol arg) count
  handle_lookup [] = throw (usage "usage: lookup <SYMBOL> [COUNT]")
  handle_lookup (_ ∷ (_ ∷ (_ ∷ _))) = throw (usage "usage: lookup <SYMBOL> [COUNT]")

  -- The rounds of `handle_watch` that are left, of `count`.
  unfoldable pub watch_rounds : Text → ℕ → ℕ → ℕ → Action S (Unit {0})
  watch_rounds target count interval_ms zero = pure tt
  watch_rounds target count interval_ms (suc left) = do
    write (watch_round (count - left) count)
    (if text_eq target (codes "ALL")
        then fetch_all false false
        else discard (fetch_symbol target false true))
    when (ltb 0 left && ltb 0 interval_ms) (sleep interval_ms)
    watch_rounds target count interval_ms left

  unfoldable pub watch : Text → ℕ → ℕ → Action S (Unit {0})
  watch target count interval_ms = do
    when (not (text_eq target (codes "ALL"))) (require_configured target)
    write (watching target count interval_ms)
    watch_rounds target count interval_ms count
    print_summary

  unfoldable pub handle_watch : List Text → Action S (Unit {0})
  handle_watch (arg ∷ []) = watch (normalize_symbol arg) 10 1_000
  handle_watch (arg ∷ (count_text ∷ [])) = do
    count ← lift (parse_number count_text "COUNT" 1 100_000)
    watch (normalize_symbol arg) count 1_000
  handle_watch (arg ∷ (count_text ∷ (interval_text ∷ []))) = do
    count ← lift (parse_number count_text "COUNT" 1 100_000)
    interval_ms ← lift (parse_number interval_text "INTERVAL_MS" 0 3_600_000)
    watch (normalize_symbol arg) count interval_ms
  handle_watch [] = throw (usage "usage: watch <SYMBOL|all> [COUNT] [INTERVAL_MS]")
  handle_watch (_ ∷ (_ ∷ (_ ∷ (_ ∷ _)))) =
      throw (usage "usage: watch <SYMBOL|all> [COUNT] [INTERVAL_MS]")

  -- The cycles of `handle_poll` that are left, of `count`.
  unfoldable pub poll_cycles : ℕ → ℕ → ℕ → Action S (Unit {0})
  poll_cycles count seconds zero = pure tt
  poll_cycles count seconds (suc left) = do
    write (cycle (count - left) count)
    fetch_all true false
    when (ltb 0 left && ltb 0 seconds) (do write (sleeping seconds); sleep (seconds * 1_000))
    poll_cycles count seconds left

  unfoldable pub poll : ℕ → ℕ → Action S (Unit {0})
  poll count seconds = do poll_cycles count seconds count; print_summary

  -- `max(default_poll_seconds_, 0)`.
  unfoldable pub handle_poll : List Text → Action S (Unit {0})
  handle_poll [] = do seconds ← gets (λ s. pos_part s.default_poll_seconds); poll 1 seconds
  handle_poll (count_text ∷ []) = do
    count ← lift (parse_number count_text "COUNT" 1 100_000)
    seconds ← gets (λ s. pos_part s.default_poll_seconds)
    poll count seconds
  handle_poll (count_text ∷ (seconds_text ∷ [])) = do
    count ← lift (parse_number count_text "COUNT" 1 100_000)
    seconds ← lift (parse_number seconds_text "SECONDS" 0 86_400)
    poll count seconds
  handle_poll (_ ∷ (_ ∷ (_ ∷ _))) = throw (usage "usage: poll [COUNT] [SECONDS]")

  unfoldable pub handle_redis : List Text → Action S (Unit {0})
  handle_redis (arg ∷ []) =
      if text_eq (normalize_symbol arg) (codes "STATUS")
      then (do connected ← call S.redis_is_connected; write (redis_status connected))
      else throw (usage "usage: redis status")
  handle_redis [] = throw (usage "usage: redis status")
  handle_redis (_ ∷ (_ ∷ _)) = throw (usage "usage: redis status")

  unfoldable pub handle_stats : List Text → Action S (Unit {0})
  handle_stats [] = print_summary
  handle_stats (arg ∷ []) =
      if text_eq (normalize_symbol arg) (codes "LAST")
      then (do stats ← gets (λ s. s.stats); write (last_metrics stats.last))
      else if text_eq (normalize_symbol arg) (codes "RESET")
      then (do modify (λ s. record s { stats = reset s.stats }); write stats_reset)
      else throw (usage "usage: stats [last|reset]")
  handle_stats (_ ∷ (_ ∷ _)) = throw (usage "usage: stats [last|reset]")

  unfoldable pub dispatch : Text → List Text → Action S (Unit {0})
  dispatch command args =
      if text_eq command (codes "help")
      then write help_text
      else if text_eq command (codes "symbols")
      then handle_symbols args
      else if text_eq command (codes "fetch")
      then handle_fetch args
      else if text_eq command (codes "book")
      then handle_book args
      else if text_eq command (codes "lookup")
      then handle_lookup args
      else if text_eq command (codes "watch")
      then handle_watch args
      else if text_eq command (codes "poll")
      then handle_poll args
      else if text_eq command (codes "redis")
      then handle_redis args
      else if text_eq command (codes "stats")
      then handle_stats args
      else if text_eq command (codes "exit") || text_eq command (codes "quit")
      then (do modify (λ s. record s { running = false }); write bye)
      else write (unknown_command command)

  unfoldable pub handle_tokens : List Text → Action S (Unit {0})
  handle_tokens [] = pure tt
  handle_tokens (command ∷ args) = dispatch (lower_case (normalize_symbol command)) args

  unfoldable pub handle_line : Text → Action S (Unit {0})
  handle_line line = handle_tokens (tokenize line)

  -- The loop of `run`, over the lines of the input.
  unfoldable pub run_lines : List Text → Action S (Unit {0})
  run_lines [] = do
    running ← gets (λ s. s.running)
    when running (do write prompt; write end_of_input)
  run_lines (line ∷ lines) = do
    running ← gets (λ s. s.running)
    when running
        (do write prompt; catching (handle_line line) (λ e. write (error e)); run_lines lines)

  unfoldable pub run : List Text → Action S (Unit {0})
  run lines = do write banner; run_lines lines
