-- ===== src/Tests/Fetches.antt =====
-- Examples of src/cli/fincore_cli.cpp and src/cli/process_metrics.cpp.
use mathlib.Core.List.{cons-ne-nil}
use fin_core_streaming_syste.Prelude.{
  List, Text, ℕ, ◌+◌, ◌*◌, ◌≡◌, refl, true, false, none, some, [], ◌∷◌, text_eq, codes, ok,
}
use fin_core_streaming_syste.Prelude.Int.{pos}
use fin_core_streaming_syste.Core.Types.{Quote}
use fin_core_streaming_syste.Core.OrderBook.{OrderBook}
use fin_core_streaming_syste.Core.OrderBook.Invariant.{IsValid}
use fin_core_streaming_syste.Cli.Book.{populate, populate_lem}
use fin_core_streaming_syste.Cli.Metrics.{OperationMetrics, ProcessSnapshot, new_session}
use fin_core_streaming_syste.Cli.Metrics.Accounts.{Accounts, record_all, record_all-Accounts}
use fin_core_streaming_syste.Cli.Metrics.Invariant.{IsConsistent}
use fin_core_streaming_syste.Cli.Parse.{normalize_symbol, to_upper}
use fin_core_streaming_syste.Cli.Services.{Services, State, UsageWorks}
use fin_core_streaming_syste.Cli.Fetch.{fresh_metrics, fetch_symbol, is_configured}
use fin_core_streaming_syste.Cli.Fetch.Ends.{FetchedOnce}
use fin_core_streaming_syste.Cli.Fetch.Recorded.{fetch_symbol-FetchedOnce}
use fin_core_streaming_syste.Cli.Commands.{run, initial}
use fin_core_streaming_syste.Cli.Commands.Consistent.{run-IsConsistent}
use fin_core_streaming_syste.Cli.Monad.{lookup}
use fin_core_streaming_syste.Tests.Doubles.{cents, cents-IsIeee}
use fin_core_streaming_syste.Tests.Books.{dollars, sample}

abbrev quote : Quote cents
quote = record {
  symbol = codes "AAPL";
  price = dollars 189;
  opening = dollars 188;
  high = dollars 190;
  low = dollars 187;
  volume = 50000;
  change_pct = some (pos 53);
  source = codes "ALPHA_VANTAGE";
  timestamp = pos 1700000000000000000;
}

abbrev empty_book : OrderBook cents
empty_book = record { symbol = codes "AAPL"; bids = []; asks = [] }

populate_lem_example :
    let (r, b) = populate cents quote sample in
    (r ≡ ok tt)
    × IsValid cents b
    × (b.symbol ≡ sample.symbol)
    × (populate cents quote empty_book ≡ populate cents quote sample)
populate_lem_example =
    populate_lem cents cents-IsIeee quote sample empty_book (cons-ne-nil _ _) refl

abbrev hit : OperationMetrics
hit = record (fresh_metrics (codes "AAPL")) {
  success = true;
  redis_cache_hit = true;
  redis_read_us = some (pos 120);
  total_us = pos 400;
}

record_all-Accounts_example :
    Accounts new_session
      (hit ∷ fresh_metrics (codes "MSFT") ∷ [])
      (record_all (hit ∷ fresh_metrics (codes "MSFT") ∷ []) new_session)
record_all-Accounts_example =
    record_all-Accounts (hit ∷ fresh_metrics (codes "MSFT") ∷ []) new_session

abbrev idle : ProcessSnapshot
idle = record {
  user_cpu_us = pos 10;
  system_cpu_us = pos 5;
  current_rss_kb = pos 9000;
  peak_rss_kb = pos 9500;
  minor_faults = pos 100;
  major_faults = pos 0;
  voluntary_context_switches = pos 3;
  involuntary_context_switches = pos 1;
}

-- The world is a clock. Redis has nothing and stores everything; there is no database.
abbrev services : Services cents
services = record {
  World = ℕ;
  get_quote = λ symbol w. (ok (some quote), w + 900);
  last_was_cached = λ w. (ok false, w);
  redis_is_connected = λ w. (ok true, w);
  get_cached_quote = λ symbol w. (ok none, w + 100);
  store_quote = λ symbol q w. (ok true, w + 50);
  update_order_book = λ symbol bids asks w. (ok true, w + 60);
  persist_quote = none;
  persist_snapshot = none;
  steady_now = λ w. (pos w, w + 1);
  system_now = λ w. (pos (w * 1000), w);
  read_process_snapshot = λ w. (ok idle, w);
  sleep_ms = λ n w. w + n * 1000;
}

services_usage : UsageWorks services
services_usage w = (idle, w, refl)

abbrev start : State cents services
start = record {
  symbols = codes "AAPL" ∷ [];
  books = (codes "AAPL", empty_book) ∷ [];
  books_with_data = [];
  default_poll_seconds = pos 60;
  running = true;
  stats = new_session;
  metrics = fresh_metrics [];
  out = [];
  world = 0;
}

aapl_is_configured : is_configured (normalize_symbol (codes "aapl")) start ≡ true
unfolding is_configured lookup normalize_symbol text_eq to_upper
aapl_is_configured = refl

fetch_symbol-FetchedOnce_example :
    FetchedOnce
      (normalize_symbol (codes "aapl"))
      start
      (fetch_symbol {D = cents} {S = services} (codes "aapl") true false start)
fetch_symbol-FetchedOnce_example =
    fetch_symbol-FetchedOnce services_usage (codes "aapl") true false start aapl_is_configured

abbrev script : List Text
script = codes "fetch aapl" ∷ codes "watch all 2" ∷ codes "stats reset" ∷ codes "fetch msft" ∷ []

run-IsConsistent_example :
    IsConsistent
      (run script
        (initial services (codes "aapl" ∷ []) (pos 60) 0 ((codes "AAPL", empty_book) ∷ []))).1.stats
run-IsConsistent_example =
    run-IsConsistent services (codes "aapl" ∷ []) (pos 60) 0 ((codes "AAPL", empty_book) ∷ [])
      script
