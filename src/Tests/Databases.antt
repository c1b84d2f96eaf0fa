-- ===== src/Tests/Databases.antt =====
-- A database that journals its statements, and examples of src/storage/persistence/postgres.
use fin_core_streaming_syste.Prelude.{
  ℕ, zero, suc, ap, sym, ◌≡◌, refl, inr, Bool, true, false, Option, none, some, List, [], ◌∷◌,
  if◌then◌else◌, Text, codes, text_eq, ok, arith,
}
use fin_core_streaming_syste.Prelude.Int.{pos, negsuc}
use fin_core_streaming_syste.Domain.Decimal.{to_text, to_string}
use fin_core_streaming_syste.Domain.MarketData.{
  Instrument, DataSource, Quote, Tick, OrderBookSnapshot, TechnicalIndicator, AssetClass, TradeSide,
}
use fin_core_streaming_syste.Domain.Timestamps.{micros_of}
use fin_core_streaming_syste.Domain.Validation.{
  validate_quote, validate_tick, validate_snapshot, validate_indicator,
}
use fin_core_streaming_syste.Storage.Numbers.{signed_text}
use fin_core_streaming_syste.Storage.Libpq.{Libpq, Reply}
use fin_core_streaming_syste.Storage.Connection.{SqlParameter, in_transaction, default_config}
use fin_core_streaming_syste.Storage.Connection.Atomic.{
  Session, IsTransactional, Settled, in_transaction-Settled,
}
use fin_core_streaming_syste.Storage.Repository.{
  connect_repository, upsert_instrument, upsert_data_source, insert_rows, insert_quotes,
  insert_ticks, insert_order_book_snapshots, insert_technical_indicators, quote_parameters,
  tick_parameters, snapshot_parameters, indicator_parameters, latest_quote, optional_decimal_text,
}
use fin_core_streaming_syste.Storage.Repository.Arity.{strict}
use fin_core_streaming_syste.Storage.Repository.Arity.Operations.{operations-strict}
use fin_core_streaming_syste.Storage.Repository.Atomic.{
  Stored, apply_rows, insert_rows-Works, insert_functions-Stored,
}
use fin_core_streaming_syste.Storage.Repository.Row.{Fits, Holds, in_micros, latest_quote-IsAnswer}
use fin_core_streaming_syste.Storage.Repository.Statements.{
  insert_quote_name, insert_tick_name, insert_snapshot_name, insert_indicator_name,
}

abbrev pub Journal : Type 0
Journal = List (Text × List SqlParameter)

pub record Db : Type 0 where
  pub committed : Journal
  pub working : Journal
  pub in_block : Bool

abbrev pub reply : Text → Reply
reply affected = record {
  succeeded = true;
  command_ok = true;
  message = [];
  sql_state = none;
  tuples = 0;
  fields = 0;
  cell = λ i k. none;
  cmd_tuples = affected;
}

unfoldable pub run_sql : Text → Db → Option Reply × Db
run_sql sql db =
    if text_eq sql (codes "BEGIN")
    then (
      some (reply []),
      if db.in_block then db else record db { working = db.committed; in_block = true },
    )
    else if text_eq sql (codes "COMMIT")
    then (
      some (reply []),
      record db { committed = if db.in_block then db.working else db.committed; in_block = false },
    )
    else (some (reply []), record db { in_block = false })

abbrev pub server : Libpq
server = record {
  World = Db;
  Handle = Unit;
  connect = λ parameters db. (some tt, db);
  status_ok = λ c db. true;
  error_message = λ c db. [];
  exec = λ c sql db. run_sql sql db;
  exec_params = λ c sql ps db. (some (reply []), db);
  prepare = λ c name sql n db. (some (reply []), db);
  exec_prepared =
      λ c name ps db. (some (reply (to_text 1)), record db { working = (name, ps) ∷ db.working });
  finish = λ c db. db;
  environment = λ name db. none;
}

abbrev pub journal : Session server
journal = record {
  Tables = Journal;
  committed = λ db. db.committed;
  working = λ db. db.working;
  in_block = λ db. db.in_block;
  effect = λ name ps tables. ((name, ps) ∷ tables, 1);
}

abbrev count_text : Option Reply → Text
count_text none = []
count_text (some r) = r.cmd_tuples

begin_committed :
    (db : Db) (b : Bool)
    → (if b then db else record db { working = db.committed; in_block = true }).committed
      ≡ db.committed
begin_committed db true = refl
begin_committed db false = refl

pub server-IsTransactional : IsTransactional {Q = server} tt journal
unfolding run_sql text_eq
server-IsTransactional = record {
  begin_keeps = λ db. begin_committed db db.in_block;
  begin_opens = λ db idle good. rw idle (refl, refl);
  statement_keeps = λ db name ps inside. refl;
  statement_works =
      λ db name ps r inside e good. (inside, refl, sym (ap count_text e), omega arith);
  commit_applies = λ db inside good. rw inside (refl, refl);
  commit_atomic = λ db inside. inr (rw inside refl);
  rollback_keeps = λ db. refl;
}

abbrev pub empty_db : Db
empty_db = record { committed = []; working = []; in_block = false }

abbrev instrument : Instrument
instrument = record {
  symbol = codes "AAPL";
  name = codes "Apple";
  asset_class = AssetClass.equity;
  exchange = codes "NASDAQ";
  tick_size_decimals = pos 2;
  is_active = true;
}

abbrev source : DataSource
source = record {
  code = codes "ALPHA_VANTAGE";
  display_name = codes "Alpha Vantage";
  base_url = none;
  is_active = true;
}

abbrev pub quote : Quote
quote = record {
  symbol = codes "AAPL";
  source = codes "ALPHA_VANTAGE";
  timestamp = pos 1_700_000_000_123_456_789;
  price = pos 18_950_000_000;
  opening = pos 18_800_000_000;
  high = pos 19_000_000_000;
  low = pos 18_700_000_000;
  volume = pos 5_000_000_000_000;
  change_pct = some (negsuc 53_000_000);
}

abbrev tick : Tick
tick = record {
  symbol = codes "AAPL";
  source = codes "ALPHA_VANTAGE";
  timestamp = pos 1_700_000_000_000_000_000;
  trade_id = none;
  price = pos 18_950_000_000;
  size = pos 100_000_000;
  side = TradeSide.bid;
}

abbrev snapshot : OrderBookSnapshot
snapshot = record {
  symbol = codes "AAPL";
  source = codes "ALPHA_VANTAGE";
  snapshot_time = pos 1_700_000_000_000_000_000;
  best_bid = pos 18_940_000_000;
  best_ask = pos 18_960_000_000;
  imbalance = pos 0;
  total_bid_volume = pos 100_000_000;
  total_ask_volume = pos 100_000_000;
}

abbrev indicator : TechnicalIndicator
indicator = record {
  symbol = codes "AAPL";
  source = codes "ALPHA_VANTAGE";
  indicator_name = codes "SMA";
  timestamp = pos 1_700_000_000_000_000_000;
  value = pos 18_900_000_000;
  parameters_json = codes "{}";
}

insert_functions-Stored_example :
    Stored {Q = server} tt journal server-IsTransactional validate_quote insert_quote_name
      quote_parameters
      (quote ∷ (quote ∷ []))
      empty_db
      (insert_quotes server (some tt) (quote ∷ (quote ∷ [])) empty_db)
    × Stored {Q = server} tt journal server-IsTransactional validate_tick insert_tick_name
        tick_parameters
        (tick ∷ [])
        empty_db
        (insert_ticks server (some tt) (tick ∷ []) empty_db)
    × Stored {Q = server} tt journal server-IsTransactional validate_snapshot insert_snapshot_name
        snapshot_parameters
        (snapshot ∷ [])
        empty_db
        (insert_order_book_snapshots server (some tt) (snapshot ∷ []) empty_db)
    × Stored {Q = server} tt journal server-IsTransactional validate_indicator insert_indicator_name
        indicator_parameters
        (indicator ∷ [])
        empty_db
        (insert_technical_indicators server (some tt) (indicator ∷ []) empty_db)
insert_functions-Stored_example =
    insert_functions-Stored {Q = server} tt journal server-IsTransactional (quote ∷ (quote ∷ []))
      (tick ∷ []) (snapshot ∷ []) (indicator ∷ []) empty_db refl

in_transaction-Settled_example :
    Settled {Q = server} tt journal server-IsTransactional
      (λ tables n tables'.
        (tables', n) ≡ apply_rows journal insert_quote_name quote_parameters (quote ∷ []) tables 0)
      (insert_rows server (some tt) insert_quote_name quote_parameters (quote ∷ []) 0)
      empty_db
      (in_transaction server
        (some tt)
        (insert_rows server (some tt) insert_quote_name quote_parameters (quote ∷ []) 0)
        empty_db)
in_transaction-Settled_example =
    in_transaction-Settled {Q = server} tt journal server-IsTransactional
      (λ tables n tables'.
        (tables', n) ≡ apply_rows journal insert_quote_name quote_parameters (quote ∷ []) tables 0)
      (insert_rows server (some tt) insert_quote_name quote_parameters (quote ∷ []) 0) empty_db refl
      (insert_rows-Works {Q = server} tt journal server-IsTransactional insert_quote_name
        quote_parameters (quote ∷ []))

operations-strict_example :
    (connect_repository (strict server) default_config ≡ connect_repository server default_config)
    × (upsert_instrument (strict server) (some tt) instrument
        ≡ upsert_instrument server (some tt) instrument)
    × (upsert_data_source (strict server) (some tt) source
        ≡ upsert_data_source server (some tt) source)
    × (latest_quote (strict server) (some tt) (codes "AAPL") (codes "STREAM")
        ≡ latest_quote server (some tt) (codes "AAPL") (codes "STREAM"))
    × (insert_quotes (strict server) (some tt) (quote ∷ [])
        ≡ insert_quotes server (some tt) (quote ∷ []))
    × (insert_ticks (strict server) (some tt) (tick ∷ [])
        ≡ insert_ticks server (some tt) (tick ∷ []))
    × (insert_order_book_snapshots (strict server) (some tt) (snapshot ∷ [])
        ≡ insert_order_book_snapshots server (some tt) (snapshot ∷ []))
    × (insert_technical_indicators (strict server) (some tt) (indicator ∷ [])
        ≡ insert_technical_indicators server (some tt) (indicator ∷ []))
operations-strict_example =
    operations-strict server default_config (some tt) instrument source (quote ∷ []) (tick ∷ [])
      (snapshot ∷ []) (indicator ∷ []) (codes "AAPL") (codes "STREAM")

-- A server that answers every query with the row of one quote.
abbrev columns : List (Option Text)
columns =
    some quote.symbol
    ∷ some quote.source
    ∷ some (signed_text (micros_of quote.timestamp))
    ∷ some (to_string quote.price)
    ∷ some (to_string quote.opening)
    ∷ some (to_string quote.high)
    ∷ some (to_string quote.low)
    ∷ some (to_string quote.volume)
    ∷ some (to_string (negsuc 53_000_000))
    ∷ []

unfoldable nth : List (Option Text) → ℕ → Option Text
nth [] k = none
nth (x ∷ xs) zero = x
nth (x ∷ xs) (suc k) = nth xs k

abbrev row : Reply
row = record (reply []) { tuples = 1; fields = 9; cell = λ i k. nth columns k }

abbrev answering : Libpq
answering = record server { exec_prepared = λ c name ps db. (some row, db) }

row-Holds : Holds row quote
unfolding nth optional_decimal_text
row-Holds = record {
  some_row = omega arith;
  nine_columns = refl;
  symbol = refl;
  source = refl;
  timestamp = refl;
  price = refl;
  opening = refl;
  high = refl;
  low = refl;
  volume = refl;
  change_pct = refl;
}

pub quote-Fits : Fits quote
quote-Fits = record {
  timestamp = omega arith;
  price = omega arith;
  opening = omega arith;
  high = omega arith;
  low = omega arith;
  volume = omega arith;
  change_pct = omega arith;
}

latest_quote-IsAnswer_example :
    (latest_quote answering (some tt) (codes "AAPL") (codes "ALPHA_VANTAGE") empty_db).0
    ≡ ok (some (in_micros quote))
latest_quote-IsAnswer_example =
    latest_quote-IsAnswer answering tt (codes "AAPL") (codes "ALPHA_VANTAGE") empty_db row
      (some quote) refl refl refl (row-Holds, quote-Fits)
