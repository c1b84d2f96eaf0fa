-- ===== src/Cli/Fetch.antt =====
-- `FinCoreCli::fetch_symbol` and `fetch_all` of src/cli/fincore_cli.cpp.
pub mod Frame
pub mod Ends
pub mod Recorded
use fin_core_streaming_syste.Prelude.{
  ℕ, ◌+◌, ◌-◌, ◌≡◌, Bool, true, false, not, ◌&&◌, Option, none, some, List, [], ◌∷◌, if◌then◌else◌,
  Text, text_eq, is_some, Result, ok, err, Exception, ◌<$>◌, invalid_argument, out_of_range, lit,
  about, length,
}
use fin_core_streaming_syste.Prelude.Int.{ℤ, pos}
use fin_core_streaming_syste.Core.Double.{Double}
use fin_core_streaming_syste.Core.Levels.{Levels, from_range}
use fin_core_streaming_syste.Core.Types.{Quote, OrderBookSnapshot}
use fin_core_streaming_syste.Core.OrderBook.{OrderBook, snapshot}
use fin_core_streaming_syste.Cli.Book.{populate}
use fin_core_streaming_syste.Cli.Metrics.{
  OperationMetrics, ProcessSnapshot, no_delta, process_delta, record_metrics,
}
use fin_core_streaming_syste.Cli.Parse.{normalize_symbol}
use fin_core_streaming_syste.Cli.Services.{
  Services, State, fetched, missed, quote_table, snapshot_table, metrics_table, redis_warning,
  batch,
}
use fin_core_streaming_syste.Cli.Monad.{
  Action, pure, throw, ◌>>=◌, ◌>>◌, catching, gets, modify, call, call_pure, write, write_if,
  set_metrics, steady_now, elapsed_us, read_process_snapshot, lookup, replace_at,
}

-- `OperationMetrics metrics; metrics.symbol = symbol;`
abbrev pub fresh_metrics : Text → OperationMetrics
fresh_metrics symbol = record {
  symbol = symbol;
  success = false;
  api_cached = false;
  redis_cache_hit = false;
  redis_quote_stored = false;
  redis_book_stored = false;
  api_us = none;
  redis_read_us = none;
  redis_quote_us = none;
  book_build_us = none;
  redis_book_us = none;
  total_us = pos 0;
  process = no_delta;
}

abbrev pub not_configured : Text → Exception
not_configured symbol = invalid_argument (about "symbol is not configured: " symbol)

-- `unordered_set::insert`.
pub insert_name : Text → List Text → List Text
insert_name k [] = k ∷ []
insert_name k (j ∷ names) = if text_eq j k then j ∷ names else j ∷ insert_name k names

module _ {D : Double} {S : Services D} where
  unfoldable pub is_configured : Text → State D S → Bool
  is_configured symbol s = is_some (lookup symbol s.books)

  unfoldable pub read_cache : Text → Action S (Option (Quote D))
  read_cache symbol = do
    started ← steady_now
    quote ← call (S.get_cached_quote symbol)
    us ← elapsed_us started
    set_metrics (λ m. record m { redis_read_us = some us; redis_cache_hit = is_some quote })
    pure quote

  unfoldable pub ask_api : Text → Action S (Option (Quote D))
  ask_api symbol = do
    started ← steady_now
    quote ← call (S.get_quote symbol)
    us ← elapsed_us started
    set_metrics (λ m. record m { api_us = some us })
    cached ← call S.last_was_cached
    set_metrics (λ m. record m { api_cached = cached })
    pure quote

  unfoldable pub cache_or_api : Text → Option (Quote D) → Action S (Option (Quote D))
  cache_or_api symbol none = ask_api symbol
  cache_or_api symbol (some quote) = pure (some quote)

  -- `metrics.total_us`, `metrics.process` and `stats_.record(metrics)`.
  unfoldable pub conclude : ProcessSnapshot → ℤ → Action S (Unit {0})
  conclude before started = do
    us ← elapsed_us started
    set_metrics (λ m. record m { total_us = us })
    after ← read_process_snapshot
    set_metrics (λ m. record m { process = process_delta before after })
    modify (λ s. record s { stats = record_metrics s.metrics s.stats })

  unfoldable pub store_quote : Text → Quote D → Bool → Action S (Unit {0})
  store_quote symbol quote true = set_metrics (λ m. record m { redis_quote_stored = true })
  store_quote symbol quote false = do
    started ← steady_now
    stored ← call (S.store_quote symbol quote)
    set_metrics (λ m. record m { redis_quote_stored = stored })
    us ← elapsed_us started
    set_metrics (λ m. record m { redis_quote_us = some us })

  -- `books_.at(symbol)`.
  unfoldable pub or_missing : Option (OrderBook D) → Action S (OrderBook D)
  or_missing none = throw (out_of_range (lit "unordered_map::at"))
  or_missing (some book) = pure book

  -- The book in the map is changed in place, also where the call throws.
  unfoldable pub populate_at : Text → Quote D → OrderBook D → Action S (OrderBook D)
  populate_at symbol quote book s =
      let (r, b) = populate D quote book in
      ((λ _. b) <$> r, record s { books = replace_at symbol b s.books })

  unfoldable pub rebuild_book : Text → Quote D → Action S (OrderBook D)
  rebuild_book symbol quote = do
    found ← gets (λ s. lookup symbol s.books)
    book ← or_missing found
    started ← steady_now
    rebuilt ← populate_at symbol quote book
    us ← elapsed_us started
    set_metrics (λ m. record m { book_build_us = some us })
    modify (λ s. record s { books_with_data = insert_name symbol s.books_with_data })
    pure rebuilt

  unfoldable pub store_book : Text → OrderBook D → Action S (Unit {0})
  store_book symbol book = do
    started ← steady_now
    stored ←
        call
          (S.update_order_book symbol (from_range D.lt book.bids []) (from_range D.lt book.asks []))
    set_metrics (λ m. record m { redis_book_stored = stored })
    us ← elapsed_us started
    set_metrics (λ m. record m { redis_book_us = some us })

  -- Whether PostgreSQL is enabled, and what it stored.
  unfoldable pub persist :
      Option (Quote D → S.World → Result Bool × S.World)
      → Option (OrderBookSnapshot D → Text → S.World → Result Bool × S.World)
      → Quote D
      → OrderBookSnapshot D
      → Action S (Bool × Bool × Bool)
  persist (some persist_quote) (some persist_snapshot) quote snap = do
    quote_stored ← call (persist_quote quote)
    snapshot_stored ← call (persist_snapshot snap quote.source)
    pure (true, quote_stored, snapshot_stored)
  persist (some persist_quote) none quote snap = pure (false, true, true)
  persist none persist_snapshot quote snap = pure (false, true, true)

  unfoldable pub store_all : Text → Quote D → Action S (OrderBookSnapshot D × Bool × Bool × Bool)
  store_all symbol quote = do
    hit ← gets (λ s. s.metrics.redis_cache_hit)
    store_quote symbol quote hit
    book ← rebuild_book symbol quote
    store_book symbol book
    now ← call_pure S.system_now
    let snap = snapshot D now (pos 0) book
    (enabled, quote_stored, snapshot_stored) ← persist S.persist_quote S.persist_snapshot quote snap
    pure (snap, enabled, quote_stored, snapshot_stored)

  -- The rest of the `try` block, with the quote if there is one.
  unfoldable pub finish :
      Text → Bool → Bool → ProcessSnapshot → ℤ → Option (Quote D) → Action S Bool
  finish symbol print_data print_metrics before started none = do
    conclude before started
    m ← gets (λ s. s.metrics)
    write (missed symbol)
    write_if print_metrics (metrics_table m)
    pure false
  finish symbol print_data print_metrics before started (some quote) = do
    (snap, enabled, quote_stored, snapshot_stored) ← store_all symbol quote
    set_metrics (λ m. record m {
      success = m.redis_quote_stored && m.redis_book_stored && quote_stored && snapshot_stored;
    })
    conclude before started
    m ← gets (λ s. s.metrics)
    write (fetched symbol m enabled quote_stored snapshot_stored)
    write_if print_data (quote_table quote)
    write_if print_data (snapshot_table snap)
    write_if print_metrics (metrics_table m)
    pure m.success

  unfoldable pub try_fetch : Text → Bool → Bool → ProcessSnapshot → ℤ → Action S Bool
  try_fetch symbol print_data print_metrics before started = do
    cached ← read_cache symbol
    quote ← cache_or_api symbol cached
    finish symbol print_data print_metrics before started quote

  unfoldable pub measured_fetch : Text → Bool → Bool → Action S Bool
  measured_fetch symbol print_data print_metrics = do
    modify (λ s. record s { metrics = fresh_metrics symbol })
    before ← read_process_snapshot
    started ← steady_now
    catching (try_fetch symbol print_data print_metrics before started)
        (λ e. do conclude before started; throw e)

  unfoldable pub fetch_symbol : Text → Bool → Bool → Action S Bool
  fetch_symbol raw_symbol print_data print_metrics = do
    let symbol = normalize_symbol raw_symbol
    configured ← gets (is_configured symbol)
    (if configured
        then measured_fetch symbol print_data print_metrics
        else throw (not_configured symbol))

  -- The loop of `fetch_all`, which an exception leaves.
  unfoldable pub fetch_each : List Text → Bool → Bool → ℕ → Action S ℕ
  fetch_each [] print_data print_metrics successes = pure successes
  fetch_each (symbol ∷ symbols) print_data print_metrics successes = do
    fetched_it ← fetch_symbol symbol print_data print_metrics
    fetch_each symbols print_data print_metrics (if fetched_it then successes + 1 else successes)

  unfoldable pub fetch_all : Bool → Bool → Action S (Unit {0})
  fetch_all print_data print_metrics = do
    connected ← call S.redis_is_connected
    write_if (not connected) redis_warning
    symbols ← gets (λ s. s.symbols)
    successes ← fetch_each symbols print_data print_metrics 0
    write (batch successes (length symbols - successes) (length symbols))
