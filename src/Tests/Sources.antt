-- ===== src/Tests/Sources.antt =====
-- Examples of src/api/alpha_vantage_client.cpp, and of its quotes in the database.
use mathlib.Core.List.{cons-ne-nil}
use fin_core_streaming_syste.Prelude.{
  ℕ, ◌+◌, ◌≡◌, ◌↔◌, refl, true, false, none, some, [], ◌∷◌, ◌++◌, Text, codes, ok, arith,
}
use fin_core_streaming_syste.Prelude.Int.{pos}
use fin_core_streaming_syste.Prelude.Io.{◌>>◌, ◌>>=◌}
use fin_core_streaming_syste.Api.AlphaVantage.{
  Web, Client, get_quote, get_quote_fresh, read_date, to_micros, parse_quote, extract_double,
  read_volume, set_entry,
}
use fin_core_streaming_syste.Api.AlphaVantage.Cache.{at_once, waits, served, get_quote-served}
use fin_core_streaming_syste.Api.AlphaVantage.Dates.{read_date-year}
use fin_core_streaming_syste.Api.Json.{extract_string, after_first, strip_prefix, until_quote}
use fin_core_streaming_syste.Api.Json.Fields.{Extracted, extract_string_iff}
use fin_core_streaming_syste.Cli.Postgres.Times.{time_point_of}
use fin_core_streaming_syste.Core.Types.{Quote}
use fin_core_streaming_syste.Domain.Decimal.Spelling.{value}
use fin_core_streaming_syste.Cli.Wiring.{Printing, stored_quote, persist_quote}
use fin_core_streaming_syste.Cli.Wiring.Persisted.{Persisted, persist_quote-Persisted}
use fin_core_streaming_syste.Storage.Port.{postgres_repository}
use fin_core_streaming_syste.Tests.Databases.{server, journal, server-IsTransactional, empty_db}
use fin_core_streaming_syste.Tests.Doubles.{cents}

abbrev pub answer : Text
answer =
    codes "\"02. open\": \"1.0\", \"03. high\": \"1.0\", "
    ++ codes "\"04. low\": \"1.0\", \"05. price\": \"1.0\""

abbrev pub web : Web cents
web = record {
  World = ℕ;
  steady_now = λ n. (pos n, n + 1);
  fetch_function = some (λ symbol n. (ok answer, n));
  transfer = λ url n. (none, n);
  stod = λ text. some (some (pos 100));
  mktime = λ year. pos 0;
}

abbrev symbol : Text
symbol = codes "IBM"

abbrev client : Client web
client = record { world = 5; last_was_cached = false; cache = [] }

abbrev quote : Quote cents
quote = record {
  symbol = symbol;
  price = some (pos 100);
  opening = some (pos 100);
  high = some (pos 100);
  low = some (pos 100);
  volume = 0;
  change_pct = some (pos 0);
  source = codes "ALPHA_VANTAGE";
  timestamp = pos 0;
}

abbrev later : Client web
later = record {
  world = 6;
  last_was_cached = false;
  cache = (symbol, record { quote = quote; fetched_at = pos 5 }) ∷ [];
}

fetches_quote : get_quote_fresh web (codes "demo") (pos 60) symbol client ≡ (ok (some quote), later)
unfolding get_quote_fresh ◌>>◌ ◌>>=◌ parse_quote extract_double extract_string after_first
    strip_prefix until_quote read_volume read_date set_entry
fetches_quote = refl

get_quote-served_example :
    (u : ℕ) × (get_quote web (codes "demo") (pos 60) symbol (record later { world = 100 })
      ≡ served web (codes "demo") (pos 60) symbol quote (pos u) (record later { world = 100 }))
get_quote-served_example =
    get_quote-served web (codes "demo") (pos 60) symbol quote client later
      (record later { world = 100 }) (cons-ne-nil _ _) fetches_quote (waits later 100 at_once)

extract_string_iff_example :
    (extract_string answer (codes "\"05. price\": \"") ≡ some (codes "1.0"))
    ↔ Extracted answer (codes "\"05. price\": \"") (codes "1.0")
extract_string_iff_example = extract_string_iff answer (codes "\"05. price\": \"") (codes "1.0")

read_date-year_example :
    read_date web (some (codes "2024" ++ (b'-' ∷ codes "01-15")))
    ≡ to_micros (time_point_of (web.mktime (pos (value 0 (codes "2024")))) 0)
read_date-year_example =
    read_date-year web (codes "2024") (codes "01-15") (cons-ne-nil _ _) (omega arith) (omega arith)

abbrev pub printing : Printing cents
printing = record { is_finite = λ x. true; fixed_text = λ x. codes "1.00000000" }

persist_quote-Persisted_example :
    Persisted printing {Q = server} tt journal server-IsTransactional
      (stored_quote printing (pos 0) quote)
      empty_db
      (persist_quote printing (postgres_repository server (some tt)) (λ db. pos 0) quote empty_db)
persist_quote-Persisted_example =
    persist_quote-Persisted printing {Q = server} tt journal server-IsTransactional (λ db. pos 0)
      quote empty_db refl (λ row tables. omega arith)
