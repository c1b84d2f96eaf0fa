-- ===== src/Cli/Commands/Fetching.antt =====
-- The session statistics through a fetch (src/cli/fincore_cli.cpp).
use fin_core_streaming_syste.Prelude.{ℕ, refl, Bool, Option, none, some, List, [], ◌∷◌, Text}
use fin_core_streaming_syste.Prelude.Int.{ℤ}
use fin_core_streaming_syste.Core.Double.{Double}
use fin_core_streaming_syste.Core.Types.{Quote}
use fin_core_streaming_syste.Cli.Metrics.{ProcessSnapshot}
use fin_core_streaming_syste.Cli.Services.{Services}
use fin_core_streaming_syste.Cli.Monad.{modify}
use fin_core_streaming_syste.Cli.Fetch.{
  read_cache, cache_or_api, conclude, store_all, finish, try_fetch, measured_fetch, fetch_symbol,
  fetch_each, fetch_all, fresh_metrics,
}
use fin_core_streaming_syste.Cli.Fetch.Frame.{read_cache-Frame, cache_or_api-Frame, store_all-Frame}
use fin_core_streaming_syste.Cli.Commands.Keeps.{
  keeping, Keeps, Keeps-Frame, Keeps-bind, Keeps-pure, Keeps-modify, Keeps-record,
}

module _ {D : Double} {S : Services D} where
  read_cache-Keeps : (symbol : Text) → Keeps (read_cache {D = D} {S = S} symbol)
  read_cache-Keeps symbol = Keeps-Frame _ (read_cache-Frame symbol)

  cache_or_api-Keeps :
      (symbol : Text) (q : Option (Quote D)) → Keeps (cache_or_api {D = D} {S = S} symbol q)
  cache_or_api-Keeps symbol q = Keeps-Frame _ (cache_or_api-Frame symbol q)

  store_all-Keeps :
      (symbol : Text) (quote : Quote D) → Keeps (store_all {D = D} {S = S} symbol quote)
  store_all-Keeps symbol quote = Keeps-Frame _ (store_all-Frame symbol quote)

  conclude-Keeps :
      (before : ProcessSnapshot) (started : ℤ) → Keeps (conclude {D = D} {S = S} before started)
  unfolding conclude
  conclude-Keeps before started = search (keeping, Keeps-record) depth 24

  finish-Keeps :
      (symbol : Text) (print_data print_metrics : Bool) (before : ProcessSnapshot) (started : ℤ)
      (quote : Option (Quote D))
      → Keeps (finish {D = D} {S = S} symbol print_data print_metrics before started quote)
  unfolding finish
  finish-Keeps symbol print_data print_metrics before started none =
      search (keeping, conclude-Keeps) depth 24
  finish-Keeps symbol print_data print_metrics before started (some quote) =
      search (keeping, conclude-Keeps, store_all-Keeps) depth 24

  try_fetch-Keeps :
      (symbol : Text) (print_data print_metrics : Bool) (before : ProcessSnapshot) (started : ℤ)
      → Keeps (try_fetch {D = D} {S = S} symbol print_data print_metrics before started)
  unfolding try_fetch
  try_fetch-Keeps symbol print_data print_metrics before started =
      search (keeping, read_cache-Keeps, cache_or_api-Keeps, finish-Keeps) depth 24

  start_metrics-Keeps :
      (symbol : Text)
      → Keeps {D = D} {S = S} (modify (λ s. record s { metrics = fresh_metrics symbol }))
  start_metrics-Keeps symbol = Keeps-modify _ (λ s. refl)

  measured_fetch-Keeps :
      (symbol : Text) (print_data print_metrics : Bool)
      → Keeps (measured_fetch {D = D} {S = S} symbol print_data print_metrics)
  unfolding measured_fetch
  measured_fetch-Keeps symbol print_data print_metrics =
      search (keeping, start_metrics-Keeps, try_fetch-Keeps, conclude-Keeps) depth 24

  pub fetch_symbol-Keeps :
      (symbol : Text) (print_data print_metrics : Bool)
      → Keeps (fetch_symbol {D = D} {S = S} symbol print_data print_metrics)
  unfolding fetch_symbol
  fetch_symbol-Keeps symbol print_data print_metrics =
      search (keeping, measured_fetch-Keeps) depth 24

  fetch_each-Keeps :
      (symbols : List Text) (print_data print_metrics : Bool) (successes : ℕ)
      → Keeps (fetch_each {D = D} {S = S} symbols print_data print_metrics successes)
  unfolding fetch_each
  fetch_each-Keeps [] print_data print_metrics successes = Keeps-pure _
  fetch_each-Keeps (symbol ∷ symbols) print_data print_metrics successes =
      Keeps-bind _ _ (fetch_symbol-Keeps symbol print_data print_metrics)
        (λ fetched. fetch_each-Keeps symbols print_data print_metrics _)

  pub fetch_all-Keeps :
      (print_data print_metrics : Bool) → Keeps (fetch_all {D = D} {S = S} print_data print_metrics)
  unfolding fetch_all
  fetch_all-Keeps print_data print_metrics = search (keeping, fetch_each-Keeps) depth 24
