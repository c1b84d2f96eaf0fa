-- ===== src/Cli/Tables.antt =====
-- The texts that src/cli/fincore_cli.cpp and src/cli/postgres_cli.cpp write: the help, a quote, a
-- snapshot, the line of a fetch, and the lines of the PostgreSQL commands.
use fin_core_streaming_syste.Prelude.{Option, none, some, [], ◌∷◌, ◌++◌, Text, codes}
use fin_core_streaming_syste.Cli.Metrics.Format.{Rounding, concat}
use fin_core_streaming_syste.Cli.Postgres.{PgLine}
use fin_core_streaming_syste.Core.Double.{Double}
use fin_core_streaming_syste.Core.Types.{Quote, OrderBookSnapshot}
use fin_core_streaming_syste.Domain.Decimal.{Decimal, to_text, to_string}
use fin_core_streaming_syste.Domain.MarketData as Domain
use fin_core_streaming_syste.Domain.Timestamps.{timestamp_to_utc_text}
use fin_core_streaming_syste.Storage.Repository.{InsertSummary, duplicates}

abbrev pub line : Text → Text → Text
line label value = label ++ (value ++ codes "\n")

unfoldable pub print_help : Text
print_help = concat (
    codes "Commands:\n"
    ∷ codes "  help                              Show this help\n"
    ∷ codes "  symbols                           Show configured symbols\n"
    ∷ codes "  fetch <SYMBOL|all>                API -> Redis -> OrderBook -> Redis\n"
    ∷ codes "  book <SYMBOL>                     Show current in-memory book snapshot\n"
    ∷ codes "  lookup <SYMBOL> [COUNT]           Benchmark vector/map lookup in ns\n"
    ∷ codes "  watch <SYMBOL|all> [COUNT] [MS]   Repeat a fetch operation\n"
    ∷ codes "  poll [COUNT] [SECONDS]            Repeat full-symbol polling cycles\n"
    ∷ codes "  redis status                      Show Redis connection state\n"
    ∷ codes "  stats                             Show aggregate latency/resource stats\n"
    ∷ codes "  stats last                        Show the last measured operation\n"
    ∷ codes "  stats reset                       Reset session measurements\n"
    ∷ codes "  exit | quit                       Exit\n"
    ∷ [])

module _ {D : Double} (R : Rounding D) where
  unfoldable pub print_quote : Quote D → Text
  print_quote quote = concat (
      (codes "\n--- Quote: " ++ (quote.symbol ++ codes " ---------------------\n"))
      ∷ line (codes "  Price  : $") (R.fixed 4 quote.price)
      ∷ line (codes "  Open   : $") (R.fixed 4 quote.opening)
      ∷ line (codes "  High   : $") (R.fixed 4 quote.high)
      ∷ line (codes "  Low    : $") (R.fixed 4 quote.low)
      ∷ line (codes "  Volume :  ") (to_text quote.volume)
      ∷ line (codes "  Chg %  :  ") (R.fixed 4 quote.change_pct ++ codes "%")
      ∷ line (codes "  Source :  ") quote.source
      ∷ [])

  unfoldable pub print_snapshot : OrderBookSnapshot D → Text
  print_snapshot snapshot = concat (
      (codes "\n--- OrderBook Snapshot: " ++ (snapshot.symbol ++ codes " -----------------\n"))
      ∷ line (codes "  Best Bid : $") (R.fixed 4 snapshot.best_bid)
      ∷ line (codes "  Best Ask : $") (R.fixed 4 snapshot.best_ask)
      ∷ line (codes "  Mid      : $") (R.fixed 4 snapshot.mid_price)
      ∷ line (codes "  Spread   : $") (R.fixed 4 snapshot.spread)
      ∷ line (codes "  Imbalance:  ") (R.fixed 4 snapshot.imbalance)
      ∷ line (codes "  Bid Vol  :  ") (to_text snapshot.total_bid_vol)
      ∷ line (codes "  Ask Vol  :  ") (to_text snapshot.total_ask_vol)
      ∷ [])

-- `print_help` of src/cli/postgres_cli.cpp.
unfoldable pub postgres_help : Text
postgres_help = concat (
    codes "FinCore PostgreSQL CLI\n\n"
    ∷ codes "Usage: fincore_app postgres COMMAND [ARGUMENTS]\n\n"
    ∷ codes "Commands:\n"
    ∷ codes "  instrument SYMBOL NAME ASSET_CLASS EXCHANGE TICK_DECIMALS ACTIVE\n"
    ∷ codes "  source CODE DISPLAY_NAME BASE_URL|- ACTIVE\n"
    ∷ codes "  quote SYMBOL SOURCE TIMESTAMP PRICE OPEN HIGH LOW VOLUME CHANGE_PCT|-\n"
    ∷ codes "  tick SYMBOL SOURCE TIMESTAMP TRADE_ID|- PRICE SIZE SIDE\n"
    ∷ codes "  snapshot SYMBOL SOURCE TIMESTAMP BEST_BID BEST_ASK IMBALANCE BID_VOLUME ASK_VOLUME\n"
    ∷ codes "  indicator SYMBOL SOURCE NAME TIMESTAMP VALUE PARAMETERS_JSON\n"
    ∷ codes "  latest-quote SYMBOL SOURCE\n\n"
    ∷ codes "TIMESTAMP is 'now' or UTC RFC3339; quote dependencies must be upserted first.\n"
    ∷ [])

unfoldable pub summary_text : InsertSummary → Text
summary_text s = concat (
    (codes "attempted=" ++ to_text s.attempted)
    ∷ (codes " inserted=" ++ to_text s.inserted)
    ∷ (codes " duplicates=" ++ to_text (duplicates s))
    ∷ codes "\n"
    ∷ [])

abbrev pub or_null : Option Decimal → Text
or_null none = codes "null"
or_null (some change) = to_string change

unfoldable pub latest_text : Domain.Quote → Text
latest_text q = concat (
    (codes "symbol=" ++ q.symbol)
    ∷ (codes " source=" ++ q.source)
    ∷ (codes " timestamp=" ++ timestamp_to_utc_text q.timestamp)
    ∷ (codes " price=" ++ to_string q.price)
    ∷ (codes " open=" ++ to_string q.opening)
    ∷ (codes " high=" ++ to_string q.high)
    ∷ (codes " low=" ++ to_string q.low)
    ∷ (codes " volume=" ++ to_string q.volume)
    ∷ (codes " change_pct=" ++ or_null q.change_pct)
    ∷ codes "\n"
    ∷ [])

-- What the PostgreSQL command line writes of each kind of line.
unfoldable pub postgres_text : PgLine → Text
postgres_text PgLine.help_text = postgres_help
postgres_text (PgLine.instrument_upserted symbol) = line (codes "instrument upserted: ") symbol
postgres_text (PgLine.source_upserted code) = line (codes "data source upserted: ") code
postgres_text (PgLine.summary s) = summary_text s
postgres_text PgLine.not_found = codes "not found\n"
postgres_text (PgLine.quote_line q) = latest_text q
