-- ===== src/Storage/CliPostgres.antt =====
-- `class CliPostgres` of include/storage/cli_postgres.hpp and src/storage/cli_postgres.cpp, over
-- libpq. A method returns its result and the object with the world that it leaves.
pub mod Errors
pub mod Kept
use fin_core_streaming_syste.Prelude.{
  ℕ, zero, suc, ◌+◌, ◌-◌, ◌/◌, ◌%◌, ◌==◌, Bool, true, false, ◌||◌, Option, none, some, List, [],
  ◌∷◌, ◌++◌, length, map, replicate, Text, codes,
}
use fin_core_streaming_syste.Prelude.Int.{ℤ, pos, negsuc, negate}
use fin_core_streaming_syste.Core.Double.{Double}
use fin_core_streaming_syste.Core.Types.{Quote, OrderBookSnapshot, TimePoint}
use fin_core_streaming_syste.Domain.Calendar.{Tm, gmtime}
use fin_core_streaming_syste.Domain.Decimal.{to_text}
use fin_core_streaming_syste.Domain.Timestamps.{padded}
use fin_core_streaming_syste.Storage.Libpq.{Libpq, Reply}
use fin_core_streaming_syste.Storage.Numbers.{signed_text}

pub record PostgresConfig : Type 0 where
  pub host : Text
  pub port : ℤ
  pub database : Text
  pub user : Text
  pub password : Text
  pub ssl_mode : Text

abbrev pub default_config : PostgresConfig
default_config = record {
  host = codes "127.0.0.1";
  port = pos 5432;
  database = codes "fincore";
  user = codes "fincore_app";
  password = [];
  ssl_mode = codes "prefer";
}

-- `std::put_time` with `%Y-%m-%d %H:%M:%S`.
unfoldable pub put_time : Tm → Text
put_time t =
    padded 4 t.year
    ++ (b'-'
        ∷ (padded 2 t.month
            ++ (b'-'
                ∷ (padded 2 t.day
                    ++ (b' '
                        ∷ (padded 2 t.hour
                            ++ (b':' ∷ (padded 2 t.minute ++ (b':' ∷ padded 2 t.second)))))))))

-- `time_point_cast<seconds>` cuts towards zero, and what is left has the sign of the time.
abbrev pub whole_seconds : TimePoint → ℤ
whole_seconds (pos n) = pos (n / 1_000_000)
whole_seconds (negsuc n) = negate (pos ((n + 1) / 1_000_000))

abbrev pub rest_micros : TimePoint → ℤ
rest_micros (pos n) = pos (n % 1_000_000)
rest_micros (negsuc n) = negate (pos ((n + 1) % 1_000_000))

-- `std::setw(6) << std::setfill('0')`, which fills in front of a minus sign.
abbrev pub filled : ℤ → Text
filled z = replicate (6 - length (signed_text z)) b'0' ++ signed_text z

abbrev pub shown_time : TimePoint → Text
shown_time t =
    put_time (gmtime (whole_seconds t)) ++ (b'.' ∷ (filled (rest_micros t) ++ codes "+00"))

-- The time `now` stands for a time that is not set.
unfoldable pub timestamp_text : TimePoint → TimePoint → Text
timestamp_text now (pos zero) = shown_time now
timestamp_text now (pos (suc n)) = shown_time (pos (suc n))
timestamp_text now (negsuc n) = shown_time (negsuc n)

abbrev pub is_break : ℕ → Bool
is_break c = c == b'\n' || c == b'\r'

-- `!error.empty()` and the test of `error.back()`.
unfoldable pub ends_in_break : Text → Bool
ends_in_break [] = false
ends_in_break (c ∷ []) = is_break c
ends_in_break (c ∷ (d ∷ s)) = ends_in_break (d ∷ s)

unfoldable pub pop_back : Text → Text
pop_back [] = []
pop_back (c ∷ []) = []
pop_back (c ∷ (d ∷ s)) = c ∷ pop_back (d ∷ s)

-- The loop of `set_error`, with fuel.
unfoldable pub pop_breaks : ℕ → Text → Option Text
pop_breaks zero error = none
pop_breaks (suc fuel) error = elim (ends_in_break error) [
  | true ↦ pop_breaks fuel (pop_back error)
  | false ↦ some error
]

abbrev pub value_of : Option Text → Text
value_of none = []
value_of (some text) = text

-- One round for each character, and one for the last test.
unfoldable pub trimmed : Text → Text
trimmed error = value_of (pop_breaks (suc (length error)) error)

abbrev pub instrument_sql : Text
instrument_sql =
    codes "INSERT INTO instruments (symbol,name,asset_class,exchange) "
    ++ codes "VALUES ($1,$1,'EQUITY','UNKNOWN') ON CONFLICT (symbol) DO NOTHING"

abbrev pub quote_sql : Text
quote_sql =
    codes "INSERT INTO quotes (symbol,price,open,high,low,volume,change_pct,source,timestamp) "
    ++ codes "VALUES ($1,$2,$3,$4,$5,$6,$7,$8,$9)"

abbrev pub snapshot_sql : Text
snapshot_sql =
    codes "INSERT INTO order_book_snapshots "
    ++ (codes "(symbol,best_bid,best_ask,imbalance,total_bid_vol,total_ask_vol,snapshot_time) "
        ++ codes "VALUES ($1,$2,$3,$4,$5,$6,$7)")

-- `number` is `std::setprecision(15)`.
module _ {D : Double} (number : D.Num → Text) where
  unfoldable pub quote_values : TimePoint → Quote D → List Text
  quote_values now quote =
      quote.symbol
      ∷ number quote.price
      ∷ number quote.opening
      ∷ number quote.high
      ∷ number quote.low
      ∷ to_text quote.volume
      ∷ number quote.change_pct
      ∷ quote.source
      ∷ timestamp_text now quote.timestamp
      ∷ []

  unfoldable pub snapshot_values : TimePoint → OrderBookSnapshot D → List Text
  snapshot_values now snapshot =
      snapshot.symbol
      ∷ number snapshot.best_bid
      ∷ number snapshot.best_ask
      ∷ number snapshot.imbalance
      ∷ to_text snapshot.total_bid_vol
      ∷ to_text snapshot.total_ask_vol
      ∷ timestamp_text now snapshot.snapshot_time
      ∷ []

module _ (Q : Libpq) where
  pub record CliPostgres : Type 0 where
    pub connection : Option Q.Handle
    pub last_error : Text
    pub world : Q.World

  abbrev pub open_in : Option Q.Handle → Q.World → Bool
  open_in none w = false
  open_in (some c) w = Q.status_ok c w

  unfoldable pub is_connected : CliPostgres → Bool
  is_connected s = open_in s.connection s.world

  unfoldable pub set_error : Text → CliPostgres → CliPostgres
  set_error error s = record s { last_error = trimmed error }

  abbrev pub failed_connection : Option Q.Handle → Q.World → Text
  failed_connection none w = codes "connection allocation failed"
  failed_connection (some c) w = Q.error_message c w

  abbrev pub parameters : PostgresConfig → List (Text × Text)
  parameters config =
      (codes "host", config.host)
      ∷ (codes "port", signed_text config.port)
      ∷ (codes "dbname", config.database)
      ∷ (codes "user", config.user)
      ∷ (codes "password", config.password)
      ∷ (codes "sslmode", config.ssl_mode)
      ∷ (codes "application_name", codes "fincore_cli")
      ∷ []

  -- The constructor.
  unfoldable pub connect : PostgresConfig → Q.World → CliPostgres
  connect config w =
      let (handle, w') = Q.connect (parameters config) w in
      let s : CliPostgres = record { connection = handle; last_error = []; world = w' } in
      elim (is_connected s) [ true ↦ s | false ↦ set_error (failed_connection handle w') s ]

  -- The destructor of `connection_`, by `ConnectionDeleter`.
  abbrev pub delete_connection : Option Q.Handle → Q.World → Q.World
  delete_connection none w = w
  delete_connection (some c) w = Q.finish c w

  abbrev pub accepted : Option Reply → Bool
  accepted none = false
  accepted (some r) = r.command_ok

  abbrev pub report : Q.Handle → CliPostgres → Bool → Bool × CliPostgres
  report c s true = (true, record s { last_error = [] })
  report c s false = (false, set_error (Q.error_message c s.world) s)

  abbrev pub send : Option Q.Handle → Text → List Text → CliPostgres → Bool × CliPostgres
  send none sql values s = (false, set_error (codes "PostgreSQL is disconnected") s)
  send (some c) sql values s =
      let (reply, w) = Q.exec_params c sql (map some values) s.world in
      report c (record s { world = w }) (accepted reply)

  unfoldable pub execute : Text → List Text → CliPostgres → Bool × CliPostgres
  execute sql values s = elim (is_connected s) [
    | true ↦ send s.connection sql values s
    | false ↦ (false, set_error (codes "PostgreSQL is disconnected") s)
  ]

  unfoldable pub ensure_instrument : Text → CliPostgres → Bool × CliPostgres
  ensure_instrument symbol = execute instrument_sql (symbol ∷ [])

  -- What is done after `ensure_instrument`, which stops at a failure.
  abbrev pub if_ensured :
      Bool × CliPostgres → (CliPostgres → Bool × CliPostgres) → Bool × CliPostgres
  if_ensured (true, s) next = next s
  if_ensured (false, s) next = (false, s)

  module _ {D : Double} (number : D.Num → Text) (now : Q.World → TimePoint) where
    unfoldable pub store_quote : Quote D → CliPostgres → Bool × CliPostgres
    store_quote quote s =
        if_ensured (ensure_instrument quote.symbol s)
          (λ s'. execute quote_sql (quote_values number (now s'.world) quote) s')

    unfoldable pub store_snapshot : OrderBookSnapshot D → CliPostgres → Bool × CliPostgres
    store_snapshot snapshot s =
        if_ensured (ensure_instrument snapshot.symbol s)
          (λ s'. execute snapshot_sql (snapshot_values number (now s'.world) snapshot) s')
