-- ===== src/Storage/Port.antt =====
-- `class MarketDataRepository` of include/storage/persistance/market_data_repository.hpp, and the
-- PostgreSQL repository as one.
use fin_core_streaming_syste.Prelude.{Option, List, Text}
use fin_core_streaming_syste.Prelude.Io.{Io}
use fin_core_streaming_syste.Domain.MarketData.{
  Instrument, DataSource, Quote, Tick, OrderBookSnapshot, TechnicalIndicator,
}
use fin_core_streaming_syste.Storage.Libpq.{Libpq}
use fin_core_streaming_syste.Storage.Connection.{PgConnection}
use fin_core_streaming_syste.Storage.Repository.{
  InsertSummary, upsert_instrument, upsert_data_source, insert_quotes, insert_ticks,
  insert_order_book_snapshots, insert_technical_indicators, latest_quote,
}

pub record MarketDataRepository (W : Type 0) : Type 0 where
  pub upsert_instrument : Instrument → Io W (Unit {0})
  pub upsert_data_source : DataSource → Io W (Unit {0})
  pub insert_quotes : List Quote → Io W InsertSummary
  pub insert_ticks : List Tick → Io W InsertSummary
  pub insert_order_book_snapshots : List OrderBookSnapshot → Io W InsertSummary
  pub insert_technical_indicators : List TechnicalIndicator → Io W InsertSummary
  pub latest_quote : Text → Text → Io W (Option Quote)

unfoldable pub postgres_repository : (Q : Libpq) → PgConnection Q → MarketDataRepository Q.World
postgres_repository Q connection = record {
  upsert_instrument = upsert_instrument Q connection;
  upsert_data_source = upsert_data_source Q connection;
  insert_quotes = insert_quotes Q connection;
  insert_ticks = insert_ticks Q connection;
  insert_order_book_snapshots = insert_order_book_snapshots Q connection;
  insert_technical_indicators = insert_technical_indicators Q connection;
  latest_quote = latest_quote Q connection;
}
