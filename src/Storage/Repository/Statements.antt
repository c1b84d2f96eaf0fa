-- ===== src/Storage/Repository/Statements.antt =====
-- The statements that `prepare_statements` of
-- src/storage/persistence/postgres/postgres_market_data_repository.cpp prepares, with single blanks
-- for the white space of the source.
use fin_core_streaming_syste.Prelude.{ℕ, List, [], ◌∷◌, ◌++◌, Text, codes}

pub record Statement : Type 0 where
  pub name : Text
  pub sql : Text
  pub parameter_count : ℕ

abbrev pub upsert_instrument_name : Text
upsert_instrument_name = codes "fincore_upsert_instrument"

abbrev pub upsert_instrument_statement : Statement
upsert_instrument_statement = record {
  name = upsert_instrument_name;
  sql =
      codes "INSERT INTO fincore.instruments (symbol, name, asset_class, exchange, "
      ++ (codes "tick_size_decimals, is_active) VALUES ($1, $2, $3, $4, $5::smallint, "
          ++ (codes "$6::boolean) ON CONFLICT (symbol) DO UPDATE SET name = EXCLUDED.name, "
              ++ (codes "asset_class = EXCLUDED.asset_class, exchange = EXCLUDED.exchange, "
                  ++ (codes
                      "tick_size_decimals = EXCLUDED.tick_size_decimals, is_active = EXCLUDED.is_active"))));
  parameter_count = 6;
}

abbrev pub upsert_data_source_name : Text
upsert_data_source_name = codes "fincore_upsert_data_source"

abbrev pub upsert_data_source_statement : Statement
upsert_data_source_statement = record {
  name = upsert_data_source_name;
  sql =
      codes "INSERT INTO fincore.data_sources (code, display_name, base_url, is_active) "
      ++ (codes "VALUES ($1, $2, $3, $4::boolean) ON CONFLICT (code) DO UPDATE SET display_name = "
          ++ (codes "EXCLUDED.display_name, base_url = EXCLUDED.base_url, is_active = "
              ++ (codes "EXCLUDED.is_active")));
  parameter_count = 4;
}

abbrev pub insert_quote_name : Text
insert_quote_name = codes "fincore_insert_quote"

abbrev pub insert_quote_statement : Statement
insert_quote_statement = record {
  name = insert_quote_name;
  sql =
      codes "INSERT INTO fincore.quotes (symbol, source, timestamp, price, open, high, low, "
      ++ (codes "volume, change_pct) VALUES ($1, $2, $3::timestamptz, $4::numeric, $5::numeric, "
          ++ (codes
                "$6::numeric, $7::numeric, $8::numeric, $9::numeric) ON CONFLICT (symbol, source, "
              ++ (codes "timestamp) DO NOTHING")));
  parameter_count = 9;
}

abbrev pub insert_tick_name : Text
insert_tick_name = codes "fincore_insert_tick"

abbrev pub insert_tick_statement : Statement
insert_tick_statement = record {
  name = insert_tick_name;
  sql =
      codes "INSERT INTO fincore.ticks (symbol, source, timestamp, trade_id, price, size, "
      ++ (codes "side) VALUES ($1, $2, $3::timestamptz, $4, $5::numeric, $6::numeric, "
          ++ (codes
                "$7::char(1)) ON CONFLICT (source, symbol, trade_id) WHERE trade_id IS NOT NULL "
              ++ (codes "DO NOTHING")));
  parameter_count = 7;
}

abbrev pub insert_snapshot_name : Text
insert_snapshot_name = codes "fincore_insert_snapshot"

abbrev pub insert_snapshot_statement : Statement
insert_snapshot_statement = record {
  name = insert_snapshot_name;
  sql =
      codes "INSERT INTO fincore.order_book_snapshots (symbol, source, snapshot_time, "
      ++ (codes "best_bid, best_ask, imbalance, total_bid_vol, total_ask_vol) VALUES ($1, $2, "
          ++ (codes "$3::timestamptz, $4::numeric, $5::numeric, $6::numeric, $7::numeric, "
              ++ (codes "$8::numeric) ON CONFLICT (symbol, source, snapshot_time) DO NOTHING")));
  parameter_count = 8;
}

abbrev pub insert_indicator_name : Text
insert_indicator_name = codes "fincore_insert_indicator"

abbrev pub insert_indicator_statement : Statement
insert_indicator_statement = record {
  name = insert_indicator_name;
  sql =
      codes "INSERT INTO fincore.technical_indicators (symbol, source, indicator_name, "
      ++ (codes "timestamp, value, parameters) VALUES ($1, $2, $3, $4::timestamptz, $5::numeric, "
          ++ (codes
                "$6::jsonb) ON CONFLICT (symbol, source, indicator_name, timestamp, parameters) "
              ++ (codes "DO NOTHING")));
  parameter_count = 6;
}

abbrev pub latest_quote_name : Text
latest_quote_name = codes "fincore_latest_quote"

abbrev pub latest_quote_statement : Statement
latest_quote_statement = record {
  name = latest_quote_name;
  sql =
      codes "SELECT symbol, source, (extract(epoch FROM timestamp) * 1000000)::bigint, "
      ++ (codes "price::text, open::text, high::text, low::text, volume::text, change_pct::text "
          ++ (codes "FROM fincore.quotes WHERE symbol = $1 AND source = $2 ORDER BY timestamp DESC "
              ++ (codes "LIMIT 1")));
  parameter_count = 2;
}

-- In the order of their preparation.
abbrev pub statements : List Statement
statements =
    upsert_instrument_statement ∷ upsert_data_source_statement ∷ insert_quote_statement
    ∷ insert_tick_statement ∷ insert_snapshot_statement ∷ insert_indicator_statement
    ∷ latest_quote_statement ∷ []
