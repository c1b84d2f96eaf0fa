-- ===== src/Program.antt =====
-- The command `postgres` of src/core/main.cpp, with the streams of Cli/Postgres. The program without
-- arguments is Program/Interactive.
pub mod Exits
pub mod Settings
pub mod Interactive
use fin_core_streaming_syste.Prelude.{
  ℕ, ◌≡◌, Bool, true, false, Option, none, some, List, [], ◌∷◌, if◌then◌else◌, Text, codes, text_eq,
  Result, ok, err, Exception, database_error, invalid_argument, out_of_range, logic_error,
  runtime_error, invalid_argument, lit,
}
use fin_core_streaming_syste.Prelude.Io.{Io, pure, throw, ◌>>=◌, ◌>>◌, catching}
use fin_core_streaming_syste.Cli.Postgres.{Console, help_text, call, print, is_help, run}
use fin_core_streaming_syste.Domain.MarketData.{Timestamp}
use fin_core_streaming_syste.Storage.Libpq.{Libpq}
use fin_core_streaming_syste.Storage.Connection.{PgConnection, close, from_environment}
use fin_core_streaming_syste.Storage.Port.{postgres_repository}
use fin_core_streaming_syste.Storage.Repository.{connect_repository}

module _ {W : Type 0} where
  -- The handler of `DatabaseError`, and that of any other exception.
  unfoldable pub handle : Exception → Io (Console W) ℕ
  handle (database_error message state) c =
      (ok 1, record c { errors = database_error message state ∷ c.errors })
  handle (invalid_argument message) c =
      (ok 2, record c { errors = invalid_argument message ∷ c.errors })
  handle (out_of_range message) c = (ok 2, record c { errors = out_of_range message ∷ c.errors })
  handle (logic_error message) c = (ok 2, record c { errors = logic_error message ∷ c.errors })
  handle (runtime_error message) c = (ok 2, record c { errors = runtime_error message ∷ c.errors })
  handle (Exception.other message) c =
      (ok 2, record c { errors = Exception.other message ∷ c.errors })

module _ (Q : Libpq) (now : Q.World → Timestamp) where
  -- The repository closes its connection at the end of its scope.
  abbrev pub close_after :
      {A : Type 0} → PgConnection Q → Result A × Console Q.World → Result A × Console Q.World
  close_after connection (r, c) = (r, record c { world = (close Q connection c.world).1 })

  unfoldable pub run_commands : List Text → Io (Console Q.World) ℕ
  run_commands arguments = do
    config ← call (from_environment Q)
    connection ← call (connect_repository Q config)
    (λ c. close_after connection (run (postgres_repository Q connection) now arguments c))

  unfoldable pub run_postgres_cli : List Text → Io (Console Q.World) ℕ
  run_postgres_cli arguments =
      if is_help arguments
      then (do print help_text; pure 0)
      else catching (run_commands arguments) handle

  abbrev pub usage : Exception
  usage = invalid_argument (lit "usage: fincore_app [postgres COMMAND [ARGUMENTS]]")

  -- `main` with an argument, behind the name of the program.
  unfoldable pub main : Text → List Text → Io (Console Q.World) ℕ
  main command arguments =
      if text_eq command (codes "postgres")
      then run_postgres_cli arguments
      else (λ c. (ok 2, record c { errors = usage ∷ c.errors }))
