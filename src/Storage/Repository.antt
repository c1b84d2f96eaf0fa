-- ===== src/Storage/Repository.antt =====
-- `PostgresMarketDataRepository` of
-- src/storage/persistence/postgres/postgres_market_data_repository.cpp. The object is its
-- connection.
pub mod Statements
pub mod Atomic
pub mod Arity
pub mod Checked
pub mod Row
use fin_core_streaming_syste.Prelude.{
  ℕ, ◌+◌, ◌-◌, ◌*◌, ◌%◌, ◌^◌, ◌==◌, ◌≡◌, Bool, true, false, not, Option, none, some, List, [], ◌∷◌,
  if◌then◌else◌, Text, codes, length, Result, ok, err, Exception, invalid_argument, database_error,
  lit,
}
use fin_core_streaming_syste.Prelude.Int.{ℤ, pos, negsuc}
use fin_core_streaming_syste.Prelude.Io.{Io, pure, throw, lift, ◌>>=◌, ◌>>◌, observe}
use fin_core_streaming_syste.Domain.Decimal.{Decimal, to_string, from_string}
use fin_core_streaming_syste.Domain.MarketData.{
  Instrument, DataSource, Quote, Tick, OrderBookSnapshot, TechnicalIndicator, Timestamp,
  asset_class_name, to_char,
}
use fin_core_streaming_syste.Domain.Timestamps.{timestamp_to_utc_text}
use fin_core_streaming_syste.Domain.Validation.{
  validate_instrument, validate_data_source, validate_quote, validate_tick, validate_snapshot,
  validate_indicator,
}
use fin_core_streaming_syste.Storage.Numbers.{whole_i64, signed_text}
use fin_core_streaming_syste.Storage.Libpq.{Libpq}
use fin_core_streaming_syste.Storage.Connection.{
  SqlParameter, PgResult, PgConnection, rows, is_null, value, affected_rows, prepare,
  execute_prepared, is_open, in_transaction, ConnectionConfig, open_connection,
}
use fin_core_streaming_syste.Storage.Repository.Statements.{
  Statement, statements, upsert_instrument_name, upsert_data_source_name, insert_quote_name,
  insert_tick_name, insert_snapshot_name, insert_indicator_name, latest_quote_name,
}

pub record InsertSummary : Type 0 where
  pub attempted : ℕ
  pub inserted : ℕ

-- On `size_t`.
unfoldable pub duplicates : InsertSummary → ℕ
duplicates summary = (summary.attempted + 2 ^ 64 - summary.inserted) % 2 ^ 64

-- A count of microseconds as a `Timestamp`, in nanoseconds. Its overflow behind
-- the year 2262 is not modelled.
abbrev pub from_micros : ℤ → Timestamp
from_micros (pos n) = pos (n * 1_000)
from_micros (negsuc n) = negsuc (n * 1_000 + 999)

abbrev pub epoch_of : Option ℤ → Result Timestamp
epoch_of none = err (database_error (codes "database returned an invalid timestamp epoch") [])
epoch_of (some microseconds) = ok (from_micros microseconds)

unfoldable pub timestamp_from_epoch_microseconds : Text → Result Timestamp
timestamp_from_epoch_microseconds text = epoch_of (whole_i64 text)

unfoldable pub bool_text : Bool → Text
bool_text true = codes "true"
bool_text false = codes "false"

unfoldable pub optional_decimal_text : Option Decimal → SqlParameter
optional_decimal_text none = none
optional_decimal_text (some d) = some (to_string d)

-- The parameters of each statement.
unfoldable pub instrument_parameters : Instrument → List SqlParameter
instrument_parameters instrument =
    some instrument.symbol
    ∷ some instrument.name
    ∷ some (asset_class_name instrument.asset_class)
    ∷ some instrument.exchange
    ∷ some (signed_text instrument.tick_size_decimals)
    ∷ some (bool_text instrument.is_active)
    ∷ []

unfoldable pub data_source_parameters : DataSource → List SqlParameter
data_source_parameters source =
    some source.code
    ∷ some source.display_name
    ∷ source.base_url
    ∷ some (bool_text source.is_active)
    ∷ []

unfoldable pub quote_parameters : Quote → List SqlParameter
quote_parameters quote =
    some quote.symbol
    ∷ some quote.source
    ∷ some (timestamp_to_utc_text quote.timestamp)
    ∷ some (to_string quote.price)
    ∷ some (to_string quote.opening)
    ∷ some (to_string quote.high)
    ∷ some (to_string quote.low)
    ∷ some (to_string quote.volume)
    ∷ optional_decimal_text quote.change_pct
    ∷ []

unfoldable pub tick_parameters : Tick → List SqlParameter
tick_parameters tick =
    some tick.symbol
    ∷ some tick.source
    ∷ some (timestamp_to_utc_text tick.timestamp)
    ∷ tick.trade_id
    ∷ some (to_string tick.price)
    ∷ some (to_string tick.size)
    ∷ some (to_char tick.side ∷ [])
    ∷ []

unfoldable pub snapshot_parameters : OrderBookSnapshot → List SqlParameter
snapshot_parameters snapshot =
    some snapshot.symbol
    ∷ some snapshot.source
    ∷ some (timestamp_to_utc_text snapshot.snapshot_time)
    ∷ some (to_string snapshot.best_bid)
    ∷ some (to_string snapshot.best_ask)
    ∷ some (to_string snapshot.imbalance)
    ∷ some (to_string snapshot.total_bid_volume)
    ∷ some (to_string snapshot.total_ask_volume)
    ∷ []

unfoldable pub indicator_parameters : TechnicalIndicator → List SqlParameter
indicator_parameters indicator =
    some indicator.symbol
    ∷ some indicator.source
    ∷ some indicator.indicator_name
    ∷ some (timestamp_to_utc_text indicator.timestamp)
    ∷ some (to_string indicator.value)
    ∷ some indicator.parameters_json
    ∷ []

-- `for (const auto& row : rows) domain::validate(row);`
unfoldable pub validate_all : {R : Type 0} → (R → Result (Unit {0})) → List R → Result (Unit {0})
validate_all validate [] = ok tt
validate_all validate (row ∷ rest) = elim (validate row) [
  | ok done ↦ validate_all validate rest
  | err e ↦ err e
]

abbrev pub some_change : Result Decimal → Result (Option Decimal)
some_change (ok d) = ok (some d)
some_change (err e) = err e

abbrev pub read_change : Result Text → Result (Option Decimal)
read_change (ok text) = some_change (from_string text)
read_change (err e) = err e

-- Column 8 of row 0 of `latest_quote`, by whether it is null.
abbrev pub change_of : PgResult → Bool → Result (Option Decimal)
change_of result true = ok none
change_of result false = read_change (value result 0 8)

module _ (Q : Libpq) where
  unfoldable pub prepare_all : PgConnection Q → List Statement → Io Q.World (Unit {0})
  prepare_all connection [] = pure tt
  prepare_all connection (s ∷ rest) = do
    prepare Q connection s.name s.sql s.parameter_count
    prepare_all connection rest

  unfoldable pub prepare_statements : PgConnection Q → Io Q.World (Unit {0})
  unfolding prepare_all
  prepare_statements connection = prepare_all connection statements

  -- The constructor from a connection, which is returned.
  unfoldable pub open_repository : PgConnection Q → Io Q.World (PgConnection Q)
  open_repository connection = do
    usable ← observe (is_open Q connection)
    (if usable
        then (do prepare_statements connection; pure connection)
        else throw (invalid_argument (lit "repository requires an open PostgreSQL connection")))

  -- The constructor from a configuration.
  unfoldable pub connect_repository : ConnectionConfig → Io Q.World (PgConnection Q)
  connect_repository config = do connection ← open_connection Q config; open_repository connection

  unfoldable pub upsert_instrument : PgConnection Q → Instrument → Io Q.World (Unit {0})
  upsert_instrument connection instrument = do
    lift (validate_instrument instrument)
    _ ← execute_prepared Q connection upsert_instrument_name (instrument_parameters instrument)
    pure tt

  unfoldable pub upsert_data_source : PgConnection Q → DataSource → Io Q.World (Unit {0})
  upsert_data_source connection source = do
    lift (validate_data_source source)
    _ ← execute_prepared Q connection upsert_data_source_name (data_source_parameters source)
    pure tt

  -- The loop over the rows, with `summary.inserted`.
  unfoldable pub insert_rows :
      {R : Type 0} → PgConnection Q → Text → (R → List SqlParameter) → List R → ℕ → Io Q.World ℕ
  insert_rows connection name parameters [] inserted = pure inserted
  insert_rows connection name parameters (row ∷ rest) inserted = do
    result ← execute_prepared Q connection name (parameters row)
    affected ← lift (affected_rows result)
    insert_rows connection name parameters rest ((inserted + affected) % 2 ^ 64)

  abbrev pub insert_valid :
      {R : Type 0}
      → PgConnection Q
      → Text
      → (R → List SqlParameter)
      → List R
      → Io Q.World InsertSummary
  insert_valid connection name parameters [] = pure (record { attempted = 0; inserted = 0 })
  insert_valid connection name parameters (row ∷ rest) = do
    inserted ← in_transaction Q connection (insert_rows connection name parameters (row ∷ rest) 0)
    pure (record { attempted = length (row ∷ rest); inserted = inserted })

  -- What the four functions share: all rows are validated, then all are inserted in one transaction.
  unfoldable pub insert_batch :
      {R : Type 0}
      → (R → Result (Unit {0}))
      → Text
      → (R → List SqlParameter)
      → PgConnection Q
      → List R
      → Io Q.World InsertSummary
  insert_batch validate name parameters connection batch = do
    lift (validate_all validate batch)
    insert_valid connection name parameters batch

  unfoldable pub insert_quotes : PgConnection Q → List Quote → Io Q.World InsertSummary
  insert_quotes = insert_batch validate_quote insert_quote_name quote_parameters

  unfoldable pub insert_ticks : PgConnection Q → List Tick → Io Q.World InsertSummary
  insert_ticks = insert_batch validate_tick insert_tick_name tick_parameters

  unfoldable pub insert_order_book_snapshots :
      PgConnection Q → List OrderBookSnapshot → Io Q.World InsertSummary
  insert_order_book_snapshots =
      insert_batch validate_snapshot insert_snapshot_name snapshot_parameters

  unfoldable pub insert_technical_indicators :
      PgConnection Q → List TechnicalIndicator → Io Q.World InsertSummary
  insert_technical_indicators =
      insert_batch validate_indicator insert_indicator_name indicator_parameters

  -- The row that a result holds, read as the code reads it.
  unfoldable pub quote_of_row : PgResult → Io Q.World Quote
  quote_of_row result = do
    symbol ← lift (value result 0 0)
    source ← lift (value result 0 1)
    epoch ← lift (value result 0 2)
    timestamp ← lift (timestamp_from_epoch_microseconds epoch)
    price_text ← lift (value result 0 3)
    price ← lift (from_string price_text)
    open_text ← lift (value result 0 4)
    opening ← lift (from_string open_text)
    high_text ← lift (value result 0 5)
    high ← lift (from_string high_text)
    low_text ← lift (value result 0 6)
    low ← lift (from_string low_text)
    volume_text ← lift (value result 0 7)
    volume ← lift (from_string volume_text)
    no_change ← lift (is_null result 0 8)
    change_pct ← lift (change_of result no_change)
    pure (record {
      symbol = symbol;
      source = source;
      timestamp = timestamp;
      price = price;
      opening = opening;
      high = high;
      low = low;
      volume = volume;
      change_pct = change_pct;
    })

  unfoldable pub latest_quote : PgConnection Q → Text → Text → Io Q.World (Option Quote)
  latest_quote connection symbol source = do
    result ← execute_prepared Q connection latest_quote_name (some symbol ∷ some source ∷ [])
    (if rows result == 0 then pure none else (do quote ← quote_of_row result; pure (some quote)))
