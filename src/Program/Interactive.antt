-- ===== src/Program/Interactive.antt =====
-- `main` of src/core/main.cpp without arguments: the clients, the database if there is one, and the
-- command line over them.
pub mod Codes
use fin_core_streaming_syste.Prelude.{
  ℕ, ◌≡◌, Bool, true, false, Option, none, some, List, [], ◌∷◌, Text, codes, Result, ok, err,
  Exception,
}
use fin_core_streaming_syste.Prelude.Int.{ℤ, pos}
use fin_core_streaming_syste.Prelude.Io.{Io, pure, ◌>>◌}
use fin_core_streaming_syste.Api.AlphaVantage
use fin_core_streaming_syste.Cli.Commands.{configure, initial, run}
use fin_core_streaming_syste.Cli.Services.{Services, Line, State}
use fin_core_streaming_syste.Cli.Wiring.{Printing, Backends, Machine, Joint, make_cli_services}
use fin_core_streaming_syste.Core.Double.{Double}
use fin_core_streaming_syste.Core.OrderBook.{OrderBook}
use fin_core_streaming_syste.Domain.MarketData.{Instrument, DataSource, AssetClass}
use fin_core_streaming_syste.Program.Settings.{Settings, read_settings}
use fin_core_streaming_syste.Storage.Connection.{
  PgConnection, ConnectionConfig, from_environment, close,
}
use fin_core_streaming_syste.Storage.Libpq.{Libpq}
use fin_core_streaming_syste.Storage.Port.{MarketDataRepository, postgres_repository}
use fin_core_streaming_syste.Storage.Redis
use fin_core_streaming_syste.Storage.Repository.{
  connect_repository, upsert_instrument, upsert_data_source,
}

abbrev pub symbols : List Text
symbols = codes "AAPL" ∷ codes "MSFT" ∷ codes "GOOGL" ∷ []

abbrev pub alpha_vantage : DataSource
alpha_vantage = record {
  code = codes "ALPHA_VANTAGE";
  display_name = codes "Alpha Vantage";
  base_url = some (codes "https://www.alphavantage.co");
  is_active = true;
}

abbrev pub equity : Text → Instrument
equity symbol = record {
  symbol = symbol;
  name = symbol;
  asset_class = AssetClass.equity;
  exchange = codes "UNKNOWN";
  tick_size_decimals = pos 4;
  is_active = true;
}

-- What `main` itself writes, to either stream.
pub data Note : Type 0 where
  starting : Settings → Note
  cannot_connect : Exception → Note
  connected : ConnectionConfig → Note
  disabled : Exception → Note

module _ (Q : Libpq) where
  unfoldable pub upsert_all : PgConnection Q → List Text → Io Q.World (Unit {0})
  upsert_all connection [] = pure tt
  upsert_all connection (symbol ∷ rest) =
      upsert_instrument Q connection (equity symbol) >> upsert_all connection rest

  -- The pointer `postgres` behind the block that sets it, and what the block writes.
  abbrev pub Opened : Type 0
  Opened = Option (PgConnection Q) × Note × Q.World

  -- The data source and the instruments, where the pointer is set already.
  abbrev pub noted : ConnectionConfig → PgConnection Q → Result (Unit {0}) × Q.World → Opened
  noted config connection (ok _, w) = (some connection, connected config, w)
  noted config connection (err e, w) = (some connection, disabled e, w)

  unfoldable pub register : ConnectionConfig → Result (PgConnection Q) × Q.World → Opened
  register config (err e, w) = (none, disabled e, w)
  register config (ok connection, w) =
      noted config connection
        ((upsert_data_source Q connection alpha_vantage >> upsert_all connection symbols) w)

  abbrev pub configured : Result ConnectionConfig × Q.World → Opened
  configured (err e, w) = (none, disabled e, w)
  configured (ok config, w) = register config (connect_repository Q config w)

  unfoldable pub open_database : Q.World → Opened
  open_database w = configured (from_environment Q w)

  -- The destructor of `postgres`.
  abbrev pub close_database : Option (PgConnection Q) → Q.World → Q.World
  close_database none w = w
  close_database (some connection) w = (close Q connection w).1

module _ {D : Double} (T : Printing D) (V : AlphaVantage.Web D) (C : Redis.Commands D) (M : Machine)
    (Q : Libpq) where
  -- The worlds as the program finds them.
  pub record Start : Type 0 where
    pub web : V.World
    pub redis : C.World
    pub database : Q.World
    pub machine : M.State

  -- How the program ends: its exit code, or the exception that nothing catches, what it wrote, and
  -- the worlds.
  pub record Outcome : Type 0 where
    pub code : Result ℕ
    pub notes : List Note
    pub lines : List (Line D)
    pub redis : C.World
    pub database : Q.World

  -- `postgres.get()`.
  abbrev pub repository_of : Option (PgConnection Q) → Option (MarketDataRepository Q.World)
  repository_of none = none
  repository_of (some connection) = some (postgres_repository Q connection)

  abbrev pub services : Settings → Option (PgConnection Q) → Services D
  services settings postgres =
      make_cli_services T V C M Q.World settings.api_key settings.poll_seconds
        settings.redis_quote_ttl (repository_of postgres)

  abbrev pub exit_code : Result (Unit {0}) → Result ℕ
  exit_code (ok _) = ok 0
  exit_code (err e) = err e

  -- `app.run()`, and the end of `main`.
  unfoldable pub finished :
      (settings : Settings) (postgres : Option (PgConnection Q))
      → List Note
      → Result (Unit {0}) × State D (services settings postgres)
      → Outcome
  unfolding make_cli_services
  finished settings postgres notes (r, s) = record {
    code = exit_code r;
    notes = notes;
    lines = s.out;
    redis = s.world.redis;
    database = close_database Q postgres s.world.database;
  }

  abbrev pub stopped : Result ℕ → List Note → C.World → Q.World → Outcome
  stopped code notes redis database = record {
    code = code;
    notes = notes;
    lines = [];
    redis = redis;
    database = database;
  }

  unfoldable pub run_shell :
      (settings : Settings) (opened : Opened Q)
      → AlphaVantage.Client V
      → Start
      → List Text
      → Result (List (Text × OrderBook D))
      → Outcome
  unfolding make_cli_services
  run_shell settings (postgres, note, w) client start input (err e) =
      stopped (err e) (starting settings ∷ note ∷ []) start.redis w
  run_shell settings (postgres, note, w) client start input (ok books) =
      finished settings postgres (starting settings ∷ note ∷ []) (
        run input (
          initial (services settings postgres) symbols settings.poll_seconds
            (record { api = client; redis = start.redis; database = w; machine = start.machine })
            books))

  unfoldable pub with_redis :
      Settings → AlphaVantage.Client V → Start → List Text → Result (Unit {0}) × C.World → Outcome
  with_redis settings client start input (err e, c) =
      stopped (ok 1) (starting settings ∷ cannot_connect e ∷ []) c start.database
  with_redis settings client start input (ok _, c) =
      run_shell settings (open_database Q start.database) client (record start { redis = c }) input
        (configure symbols [])

  unfoldable pub with_client :
      Settings → Start → List Text → Result (AlphaVantage.Client V) → Outcome
  with_client settings start input (err e) =
      stopped (err e) (starting settings ∷ []) start.redis start.database
  with_client settings start input (ok client) = with_redis settings client start input (
      Redis.make_client C settings.redis_host settings.redis_port settings.redis_quote_ttl
        start.redis)

  unfoldable pub with_settings : Result Settings → Start → List Text → Outcome
  with_settings (err e) start input = stopped (err e) [] start.redis start.database
  with_settings (ok settings) start input =
      with_client settings start input (AlphaVantage.make_client V settings.api_key start.web)

  -- `input` is what the user types.
  unfoldable pub main_interactive : Start → List Text → Outcome
  main_interactive start input =
      with_settings (read_settings (λ name. Q.environment name start.database)) start input
