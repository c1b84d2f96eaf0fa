-- ===== src/Cli/Postgres.antt =====
-- `class PostgresCli` of src/cli/postgres_cli.cpp over any repository, with the two output streams, latest
-- first.
pub mod Times
pub mod Requests
pub mod Exits
pub mod Printed
pub mod Stored
use fin_core_streaming_syste.Prelude.{
  ℕ, ◌≡◌, Bool, true, false, ◌||◌, Option, none, some, List, [], ◌∷◌, if◌then◌else◌, Text, codes,
  text_eq, Result, ok, err, Exception, invalid_argument, out_of_range, logic_error, runtime_error,
  database_error, built, ◌++◌,
}
use fin_core_streaming_syste.Prelude.Io.{Io, pure, throw, lift, ◌>>=◌, ◌>>◌, catching}
use fin_core_streaming_syste.Cli.Postgres.Times.{upper}
use fin_core_streaming_syste.Cli.Postgres.Requests.{
  require_count, arg, instrument_of, source_of, quote_of, tick_of, snapshot_of, indicator_of,
}
use fin_core_streaming_syste.Domain.MarketData.{Quote, Timestamp}
use fin_core_streaming_syste.Storage.Port.{MarketDataRepository}
use fin_core_streaming_syste.Storage.Repository.{InsertSummary}

-- What is written to `out_`: the texts of `print_help`, of the upserts, of `print_summary` and of
-- `latest-quote`.
pub data PgLine : Type 0 where
  help_text : PgLine
  instrument_upserted : Text → PgLine
  source_upserted : Text → PgLine
  summary : InsertSummary → PgLine
  not_found : PgLine
  quote_line : Quote → PgLine

pub record Console (W : Type 0) : Type 0 where
  pub world : W
  pub out : List PgLine
  pub errors : List Exception

abbrev pub is_help : List Text → Bool
is_help [] = true
is_help (command ∷ args) =
    text_eq command (codes "help")
    || text_eq command (codes "--help")
    || text_eq command (codes "-h")

module _ {W : Type 0} where
  -- A call of the repository.
  abbrev pub with_world : {A : Type 0} → Console W → Result A × W → Result A × Console W
  with_world c (r, w) = (r, record c { world = w })

  unfoldable pub call : {A : Type 0} → Io W A → Io (Console W) A
  call m c = with_world c (m c.world)

  unfoldable pub print : PgLine → Io (Console W) (Unit {0})
  print line c = (ok tt, record c { out = line ∷ c.out })

  abbrev pub print_latest : Option Quote → Io (Console W) ℕ
  print_latest none = do print not_found; pure 3
  print_latest (some quote) = do print (quote_line quote); pure 0

  -- The handlers of `run`; other exceptions go on.
  unfoldable pub report : Exception → Io (Console W) ℕ
  report (invalid_argument message) c =
      (ok 2, record c { errors = invalid_argument message ∷ c.errors })
  report (out_of_range message) c = (ok 2, record c { errors = out_of_range message ∷ c.errors })
  report (logic_error message) c = (err (logic_error message), c)
  report (runtime_error message) c = (err (runtime_error message), c)
  report (database_error message state) c = (err (database_error message state), c)
  report (Exception.other message) c = (err (Exception.other message), c)

module _ {W : Type 0} (R : MarketDataRepository W) (now : W → Timestamp) where
  -- What is read of the arguments, at the time of the clock.
  unfoldable pub request : {A : Type 0} → (Timestamp → Result A) → Io (Console W) A
  request f c = (f (now c.world), c)

  -- The `if` chain behind the test for help, with the return value.
  unfoldable pub dispatch : List Text → Io (Console W) ℕ
  dispatch args =
      let command = arg args 0 in
      if text_eq command (codes "instrument")
      then (do
        instrument ← lift (instrument_of args)
        call (R.upsert_instrument instrument)
        print (instrument_upserted (upper (arg args 1)))
        pure 0)
      else if text_eq command (codes "source")
      then (do
        source ← lift (source_of args)
        call (R.upsert_data_source source)
        print (source_upserted (upper (arg args 1)))
        pure 0)
      else if text_eq command (codes "quote")
      then (do
        quote ← request (λ t. quote_of t args)
        result ← call (R.insert_quotes (quote ∷ []))
        print (summary result)
        pure 0)
      else if text_eq command (codes "tick")
      then (do
        tick ← request (λ t. tick_of t args)
        result ← call (R.insert_ticks (tick ∷ []))
        print (summary result)
        pure 0)
      else if text_eq command (codes "snapshot")
      then (do
        snapshot ← request (λ t. snapshot_of t args)
        result ← call (R.insert_order_book_snapshots (snapshot ∷ []))
        print (summary result)
        pure 0)
      else if text_eq command (codes "indicator")
      then (do
        indicator ← request (λ t. indicator_of t args)
        result ← call (R.insert_technical_indicators (indicator ∷ []))
        print (summary result)
        pure 0)
      else if text_eq command (codes "latest-quote")
      then (do
        lift (require_count args 3 (codes "latest-quote SYMBOL SOURCE"))
        result ← call (R.latest_quote (upper (arg args 1)) (upper (arg args 2)))
        print_latest result)
      else throw (
          invalid_argument
            (built (codes "unknown command: " ++ (command ++ codes " (run with --help)"))))

  unfoldable pub commands : List Text → Io (Console W) ℕ
  commands args = if is_help args then (do print help_text; pure 0) else dispatch args

  unfoldable pub run : List Text → Io (Console W) ℕ
  run args = catching (commands args) report
