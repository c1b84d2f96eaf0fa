-- ===== src/Program/Interactive/Codes.antt =====
-- How `main` of src/core/main.cpp without arguments ends.
use fin_core_streaming_syste.Prelude.{
  ◌≡◌, refl, Option, List, [], ◌∷◌, Text, text_eq, Result, ok, err, Exception,
}
use fin_core_streaming_syste.Api.AlphaVantage
use fin_core_streaming_syste.Cli.Commands.{configure}
use fin_core_streaming_syste.Cli.Commands.Returns.{Returned, run-Returned}
use fin_core_streaming_syste.Cli.Monad.{try_emplace}
use fin_core_streaming_syste.Cli.Parse.{normalize_symbol, to_upper}
use fin_core_streaming_syste.Cli.Services.{State}
use fin_core_streaming_syste.Cli.Wiring.{Printing, Machine, make_cli_services}
use fin_core_streaming_syste.Core.Double.{Double}
use fin_core_streaming_syste.Core.OrderBook.{OrderBook, create}
use fin_core_streaming_syste.Program.Settings.{Settings, read_settings}
use fin_core_streaming_syste.Program.Interactive.{
  Note, starting, cannot_connect, symbols, Opened, open_database, services, finished, stopped,
  run_shell, with_redis, with_client, with_settings, main_interactive, Start, Outcome,
}
use fin_core_streaming_syste.Storage.Connection.{PgConnection}
use fin_core_streaming_syste.Storage.Libpq.{Libpq}
use fin_core_streaming_syste.Storage.Redis

books_made : {D : Double} → (books : List (Text × OrderBook D)) × (configure symbols [] ≡ ok books)
unfolding configure create normalize_symbol to_upper try_emplace text_eq
books_made = (_, refl)

module _ {D : Double} (T : Printing D) (V : AlphaVantage.Web D) (C : Redis.Commands D) (M : Machine)
    (Q : Libpq) where
  abbrev pub read : Start T V C M Q → Result Settings
  read start = read_settings (λ name. Q.environment name start.database)

  -- The ends of the program.
  pub data Ended (start : Start T V C M Q) : Outcome T V C M Q → Type 0 where
    no_settings :
        (e : Exception) (o : Outcome T V C M Q)
        → read start ≡ err e
        → o ≡ stopped T V C M Q (err e) [] start.redis start.database
        → Ended start o
    no_key :
        (e : Exception) (settings : Settings) (o : Outcome T V C M Q)
        → read start ≡ ok settings
        → settings.api_key ≡ []
        → o ≡ stopped T V C M Q (err e) (starting settings ∷ []) start.redis start.database
        → Ended start o
    no_redis :
        (e : Exception) (settings : Settings) (redis : C.World) (o : Outcome T V C M Q)
        → read start ≡ ok settings
        → Redis.make_client C settings.redis_host settings.redis_port settings.redis_quote_ttl
            start.redis
          ≡ (err e, redis)
        → o
          ≡ stopped T V C M Q
              (ok 1)
              (starting settings ∷ cannot_connect e ∷ [])
              redis
              start.database
        → Ended start o
    ran :
        (settings : Settings) (redis : C.World) (note : Note) (o : Outcome T V C M Q)
        → read start ≡ ok settings
        → Redis.make_client C settings.redis_host settings.redis_port settings.redis_quote_ttl
            start.redis
          ≡ (ok tt, redis)
        → o.code ≡ ok 0
        → o.notes ≡ starting settings ∷ note ∷ []
        → note ≡ (open_database Q start.database).1
        → Ended start o

  finished-ok :
      (settings : Settings) (postgres : Option (PgConnection Q)) (notes : List Note)
      (r : Result (Unit {0}) × State D (services T V C M Q settings postgres))
      → Returned r
      → ((finished T V C M Q settings postgres notes r).code ≡ ok 0)
        × ((finished T V C M Q settings postgres notes r).notes ≡ notes)
  unfolding finished
  finished-ok settings postgres notes _ (Returned.returned a s) = (refl, refl)

  module _ (start : Start T V C M Q) (input : List Text) where
    key_missing :
        (key : Text) (e : Exception) → AlphaVantage.make_client V key start.web ≡ err e → key ≡ []
    unfolding AlphaVantage.make_client
    key_missing [] e h = refl
    key_missing (c ∷ key) e h = cc

    shell_ends :
        (settings : Settings) (client : AlphaVantage.Client V) (redis : C.World) (opened : Opened Q)
        (books : List (Text × OrderBook D))
        → ((run_shell T V C M Q settings opened client
              (record start { redis = redis })
              input
              (ok books)).code
            ≡ ok 0)
          × ((run_shell T V C M Q settings opened client
                (record start { redis = redis })
                input
                (ok books)).notes
              ≡ starting settings ∷ opened.1 ∷ [])
    unfolding run_shell make_cli_services
    shell_ends settings client redis (postgres, note, w) books =
        finished-ok settings postgres (starting settings ∷ note ∷ []) _ (run-Returned input _)

    redis_ends :
        (settings : Settings) (client : AlphaVantage.Client V) (r : Result (Unit {0}) × C.World)
        → read start ≡ ok settings
        → Redis.make_client C settings.redis_host settings.redis_port settings.redis_quote_ttl
            start.redis
          ≡ r
        → Ended start (with_redis T V C M Q settings client start input r)
    unfolding with_redis
    redis_ends settings client (err e, c) known made = no_redis e settings c _ known made refl
    redis_ends settings client (ok _, c) known made =
        let (books, e) = books_made {D = D} in
        let ends = shell_ends settings client c (open_database Q start.database) books in
        ran settings c (open_database Q start.database).1 _ known made (rw e ends.0) (rw e ends.1)
          refl

    client_ends :
        (settings : Settings)
        → read start ≡ ok settings
        → (r : Result (AlphaVantage.Client V))
        → AlphaVantage.make_client V settings.api_key start.web ≡ r
        → Ended start (with_client T V C M Q settings start input r)
    unfolding with_client
    client_ends settings known (err e) made =
        no_key e settings _ known (key_missing settings.api_key e made) refl
    client_ends settings known (ok client) made = redis_ends settings client _ known refl

    settings_end :
        (r : Result Settings) → read start ≡ r → Ended start (with_settings T V C M Q r start input)
    unfolding with_settings
    settings_end (err e) known = no_settings e _ known refl
    settings_end (ok settings) known = client_ends settings known _ refl

    -- Without arguments the program ends in one of four ways. It ends by an uncaught exception,
    -- before the Redis server and the database are used, where a setting is no int or the API
    -- key is empty; it returns 1 and has not used the database where the Redis client cannot be
    -- made; and else it returns 0, whatever the database, the API and the user do, with the note
    -- on the database that opening it has given.
    pub main_interactive-Ended : Ended start (main_interactive T V C M Q start input)
    unfolding main_interactive
    main_interactive-Ended = settings_end _ refl
