-- ===== src/Program/Exits.antt =====
-- The exit codes of src/core/main.cpp with arguments.
use fin_core_streaming_syste.Prelude.{
  ℕ, ap, ◌≡◌, ◌≢◌, refl, Bool, true, false, List, ◌∷◌, if◌then◌else◌, Text, codes, text_eq, Result,
  ok, err, Exception, database_error, invalid_argument, out_of_range, logic_error, runtime_error,
}
use fin_core_streaming_syste.Prelude.Io.{
  Io, pure, bind_result, handle_result, ◌>>=◌, ◌>>◌, catching,
}
use fin_core_streaming_syste.Cli.Postgres.{
  PgLine, Console, help_text, not_found, with_world, call, print, is_help, run,
}
use fin_core_streaming_syste.Cli.Postgres.Exits.{
  IsUsage, Exit, done, absent, misused, thrown, run-Exit,
}
use fin_core_streaming_syste.Domain.MarketData.{Timestamp}
use fin_core_streaming_syste.Program.{
  handle, close_after, run_commands, run_postgres_cli, usage, main,
}
use fin_core_streaming_syste.Storage.Libpq.{Libpq}
use fin_core_streaming_syste.Storage.Connection.{PgConnection, close, from_environment}
use fin_core_streaming_syste.Storage.Port.{postgres_repository}
use fin_core_streaming_syste.Storage.Repository.{connect_repository}

-- 1 for a database error, and 2 for any other.
abbrev pub code_of : Exception → ℕ
code_of (database_error message state) = 1
code_of (invalid_argument message) = 2
code_of (out_of_range message) = 2
code_of (logic_error message) = 2
code_of (runtime_error message) = 2
code_of (Exception.other message) = 2

usage_code : (e : Exception) → IsUsage e → 2 ≡ code_of e
usage_code (invalid_argument m) h = refl
usage_code (out_of_range m) h = refl
usage_code (logic_error m) h = absurd h
usage_code (runtime_error m) h = absurd h
usage_code (database_error m s) h = absurd h
usage_code (Exception.other m) h = absurd h

module _ {W : Type 0} where
  -- The ends of the program: with 0 and a line, with 3 and the line of a quote that is not found, or
  -- with the code of the one error that is reported, and no line.
  pub data Finished (c : Console W) : Result ℕ × Console W → Type 0 where
    worked :
        (line : PgLine) (c' : Console W)
        → line ≢ not_found
        → c'.out ≡ line ∷ c.out
        → c'.errors ≡ c.errors
        → Finished c (ok 0, c')
    missing :
        (c' : Console W) → c'.out ≡ not_found ∷ c.out → c'.errors ≡ c.errors → Finished c (ok 3, c')
    failed :
        (e : Exception) (code : ℕ) (c' : Console W)
        → code ≡ code_of e
        → c'.out ≡ c.out
        → c'.errors ≡ e ∷ c.errors
        → Finished c (ok code, c')

  handled :
      (c c' : Console W) (e : Exception)
      → c'.out ≡ c.out
      → c'.errors ≡ c.errors
      → Finished c (handle e c')
  unfolding handle
  handled c c' (database_error m s) out errors =
      failed _ 1 _ refl out (ap (λ l. database_error m s ∷ l) errors)
  handled c c' (invalid_argument m) out errors =
      failed _ 2 _ refl out (ap (λ l. invalid_argument m ∷ l) errors)
  handled c c' (out_of_range m) out errors =
      failed _ 2 _ refl out (ap (λ l. out_of_range m ∷ l) errors)
  handled c c' (logic_error m) out errors =
      failed _ 2 _ refl out (ap (λ l. logic_error m ∷ l) errors)
  handled c c' (runtime_error m) out errors =
      failed _ 2 _ refl out (ap (λ l. runtime_error m ∷ l) errors)
  handled c c' (Exception.other m) out errors =
      failed _ 2 _ refl out (ap (λ l. Exception.other m ∷ l) errors)

  after_call :
      {A : Type 0} (c : Console W) (v : W) (r : Result A × W) (k : A → Io (Console W) ℕ)
      → ((a : A) (w : W) → Finished c (handle_result (k a (record c { world = w })) handle))
      → Finished c (handle_result (bind_result (with_world (record c { world = v }) r) k) handle)
  after_call c v (ok a, w) k h = h a w
  after_call c v (err e, w) k h = handled c (record c { world = w }) e refl refl

module _ (Q : Libpq) (now : Q.World → Timestamp) where
  after_run :
      (c : Console Q.World) (w : Q.World) (connection : PgConnection Q)
      (r : Result ℕ × Console Q.World)
      → Exit (record c { world = w }) r
      → Finished c (handle_result (close_after Q now connection r) handle)
  after_run c w connection r (done line c' ne out errors) = worked line _ ne out errors
  after_run c w connection r (absent c' out errors) = missing _ out errors
  after_run c w connection r (misused e c' use_error out errors) =
      failed e 2 _ (usage_code e use_error) out errors
  after_run c w connection r (thrown e c' other out errors) =
      handled c (record c' { world = (close Q connection c'.world).1 }) e out errors

  commands-Finished :
      (arguments : List Text) (c : Console Q.World)
      → Finished c (handle_result (run_commands Q now arguments c) handle)
  unfolding run_commands ◌>>=◌ call
  commands-Finished arguments c = after_call c c.world (from_environment Q c.world) _ (λ config w.
      after_call c w (connect_repository Q config w) _ (λ connection u.
        after_run c u connection
          (run (postgres_repository Q connection) now arguments (record c { world = u }))
          (run-Exit (postgres_repository Q connection) now arguments (record c { world = u }))))

  help_or_commands :
      (arguments : List Text) (c : Console Q.World) (b : Bool)
      → Finished c (
          (if b
              then (print help_text >> pure 0)
              else catching (run_commands Q now arguments) handle)
            c)
  unfolding ◌>>◌ ◌>>=◌ print pure catching
  help_or_commands arguments c true = worked help_text _ (λ e. cc) refl refl
  help_or_commands arguments c false = commands-Finished arguments c

  cli-Finished :
      (arguments : List Text) (c : Console Q.World)
      → Finished c (run_postgres_cli Q now arguments c)
  unfolding run_postgres_cli
  cli-Finished arguments c = help_or_commands arguments c (is_help arguments)

  command-Finished :
      (arguments : List Text) (c : Console Q.World) (b : Bool)
      → Finished c (
          (if b
              then run_postgres_cli Q now arguments
              else (λ c. (ok 2, record c { errors = usage Q now ∷ c.errors })))
            c)
  command-Finished arguments c true = cli-Finished arguments c
  command-Finished arguments c false = failed _ 2 _ refl refl refl

  -- With an argument the program always returns an exit code, whatever the database does: 0 with one line,
  -- which is not "not found"; 3 with the line "not found"; or, with no line and one error reported,
  -- 1 for a database error and 2 for any other.
  pub main-Finished :
      (command : Text) (arguments : List Text) (c : Console Q.World)
      → Finished c (main Q now command arguments c)
  unfolding main
  main-Finished command arguments c =
      command-Finished arguments c (text_eq command (codes "postgres"))
