-- ===== src/Tests/Sinks.antt =====
-- A database that refuses snapshots, and examples of src/storage/cli_postgres.cpp.
use fin_core_streaming_syste.Prelude.{
  ◌≡◌, ◌⊎◌, inl, inr, refl, sym, Bool, true, false, Option, none, some, List, [], ◌∷◌, map, arith,
  Text, codes, text_eq, true≢false,
}
use fin_core_streaming_syste.Prelude.Int.{pos}
use fin_core_streaming_syste.Core.Types.{Quote, OrderBookSnapshot, TimePoint}
use fin_core_streaming_syste.Domain.Decimal.{to_text}
use fin_core_streaming_syste.Storage.CliPostgres.{
  CliPostgres, pop_breaks, instrument_sql, quote_sql, snapshot_sql, quote_values, snapshot_values,
  store_quote, store_snapshot, accepted, ensure_instrument,
}
use fin_core_streaming_syste.Storage.CliPostgres.Errors.{Stripped, pop_breaks-Stripped}
use fin_core_streaming_syste.Storage.CliPostgres.Kept.{Statement, Autocommit, Twice, stores-Twice}
use fin_core_streaming_syste.Storage.Libpq.{Libpq, Reply}
use fin_core_streaming_syste.Tests.Databases.{reply}
use fin_core_streaming_syste.Tests.Statistics.{hundredths}

abbrev answer : Bool → Text → List (Option Text) → List Statement → Option Reply × List Statement
answer true sql values w = (none, w)
answer false sql values w = (some (reply []), (sql, values) ∷ w)

abbrev sink : Libpq
sink = record {
  World = List Statement;
  Handle = Unit {0};
  connect = λ parameters w. (some tt, w);
  status_ok = λ c w. true;
  error_message = λ c w. codes "permission denied\n";
  exec = λ c sql w. (none, w);
  exec_params = λ c sql values w. answer (text_eq sql snapshot_sql) sql values w;
  prepare = λ c name sql n w. (none, w);
  exec_prepared = λ c name values w. (none, w);
  finish = λ c w. w;
  environment = λ name w. none;
}

sink_accepts :
    (b : Bool) (sql : Text) (values : List (Option Text)) (w : List Statement)
    → accepted sink (answer b sql values w).0 ≡ true
    → (answer b sql values w).1 ≡ (sql, values) ∷ w
sink_accepts true sql values w h = absurd (true≢false (sym h))
sink_accepts false sql values w h = refl

sink_is_atomic :
    (b : Bool) (sql : Text) (values : List (Option Text)) (w : List Statement)
    → ((answer b sql values w).1 ≡ w) ⊎ ((answer b sql values w).1 ≡ (sql, values) ∷ w)
sink_is_atomic true sql values w = inl refl
sink_is_atomic false sql values w = inr refl

abbrev sink_autocommit : Autocommit sink
sink_autocommit = record {
  kept = λ w. w;
  outside_block = λ w. true;
  stays_outside = λ c sql values w insert outside. refl;
  accepts = λ c sql values w insert outside. sink_accepts (text_eq sql snapshot_sql) sql values w;
  is_atomic =
      λ c sql values w insert outside. sink_is_atomic (text_eq sql snapshot_sql) sql values w;
}

abbrev sink_state : CliPostgres sink
sink_state = record { connection = some tt; last_error = []; world = [] }

abbrev sink_quote : Quote hundredths
sink_quote = record {
  symbol = codes "AAPL";
  price = 19_000;
  opening = 18_900;
  high = 19_100;
  low = 18_800;
  volume = 1_000;
  change_pct = 52;
  source = codes "ALPHA_VANTAGE";
  timestamp = pos 1_700_000_000_000_005;
}

abbrev sink_snapshot : OrderBookSnapshot hundredths
sink_snapshot = record {
  symbol = codes "AAPL";
  best_bid = 18_999;
  best_ask = 19_001;
  mid_price = 19_000;
  spread = 2;
  imbalance = 0;
  total_bid_vol = 500;
  total_ask_vol = 500;
  snapshot_time = pos 0;
}

abbrev clock : List Statement → TimePoint
clock w = pos 1_700_000_000_000_000

stores-Twice_example :
    Twice sink []
      (instrument_sql, some (codes "AAPL") ∷ [])
      (quote_sql, map some (quote_values to_text (pos 1_700_000_000_000_000) sink_quote))
      (ensure_instrument sink (codes "AAPL") sink_state)
      (store_quote sink to_text clock sink_quote sink_state).0
      (store_quote sink to_text clock sink_quote sink_state).1.world
    × Twice sink []
        (instrument_sql, some (codes "AAPL") ∷ [])
        (snapshot_sql, map some (snapshot_values to_text (pos 1_700_000_000_000_000) sink_snapshot))
        (ensure_instrument sink (codes "AAPL") sink_state)
        (store_snapshot sink to_text clock sink_snapshot sink_state).0
        (store_snapshot sink to_text clock sink_snapshot sink_state).1.world
unfolding store_quote store_snapshot
stores-Twice_example =
    stores-Twice sink_autocommit to_text clock sink_quote sink_snapshot sink_state refl

pop_breaks-Stripped_example :
    Stripped (codes "server closed\r\n\n") (pop_breaks 17 (codes "server closed\r\n\n"))
pop_breaks-Stripped_example = pop_breaks-Stripped 17 (codes "server closed\r\n\n") (omega arith)
