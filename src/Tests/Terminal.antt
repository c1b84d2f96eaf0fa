-- ===== src/Tests/Terminal.antt =====
-- Examples of src/cli/postgres_cli.cpp.
use fin_core_streaming_syste.Prelude.{
  ◌≡◌, ◌+◌, ◌*◌, ◌++◌, refl, some, [], ◌∷◌, codes, ok, err, Message, invalid_argument, arith,
}
use fin_core_streaming_syste.Prelude.Int.{pos, negsuc, ◌+ℤ◌}
use fin_core_streaming_syste.Cli.Postgres.{Console, run}
use fin_core_streaming_syste.Cli.Postgres.Exits.{Exit, run-Exit}
use fin_core_streaming_syste.Cli.Postgres.Printed.{quote_args}
use fin_core_streaming_syste.Cli.Postgres.Stored.{QuoteRun, run_quote-Stored}
use fin_core_streaming_syste.Cli.Postgres.Times.{parse_timestamp, upper}
use fin_core_streaming_syste.Cli.Postgres.Times.Accepted.{
  seconds_since_epoch, parse_timestamp-accepts,
}
use fin_core_streaming_syste.Cli.Postgres.Times.Fields.{InRange}
use fin_core_streaming_syste.Cli.Postgres.Times.RoundTrip.{
  parse_timestamp-utc_text, parse_timestamp-before_epoch,
}
use fin_core_streaming_syste.Domain.Timestamps.{timestamp_to_utc_text, micros_of, put_time, padded}
use fin_core_streaming_syste.Domain.Calendar.{Tm, gmtime, civil_of, days_of}
use fin_core_streaming_syste.Domain.Decimal.{to_text, digits_of}
use fin_core_streaming_syste.Program.{main}
use fin_core_streaming_syste.Program.Exits.{Finished, main-Finished}
use fin_core_streaming_syste.Storage.Port.{postgres_repository}
use fin_core_streaming_syste.Storage.Repository.{from_micros}
use fin_core_streaming_syste.Storage.Repository.Row.{in_micros}
use fin_core_streaming_syste.Tests.Databases.{
  Db, server, journal, server-IsTransactional, empty_db, quote, quote-Fits,
}

abbrev console : Console Db
console = record { world = empty_db; out = []; errors = [] }

abbrev no_day : Tm
no_day = record { year = 2023; month = 2; day = 30; hour = 10; minute = 20; second = 30 }

no_day-InRange : InRange no_day
no_day-InRange = record {
  year = omega arith;
  month = (omega arith, omega arith);
  day = (omega arith, omega arith);
  hour = omega arith;
  minute = omega arith;
  second = omega arith;
}

-- The 14th of November 2023.
epoch_text :
    timestamp_to_utc_text (pos 1_700_000_000_123_456_789) ≡ codes "2023-11-14T22:13:20.123456Z"
unfolding timestamp_to_utc_text put_time gmtime civil_of padded to_text digits_of ◌+ℤ◌
epoch_text = refl

parse_timestamp-utc_text_example :
    parse_timestamp (pos 0) (timestamp_to_utc_text (pos 1_700_000_000_123_456_789))
    ≡ ok (from_micros (micros_of (pos 1_700_000_000_123_456_789)))
parse_timestamp-utc_text_example =
    parse_timestamp-utc_text (pos 0) (pos 1_700_000_000_123_456_789) (omega arith) tt

parse_timestamp-before_epoch_example :
    (m : Message) × (parse_timestamp (pos 0) (timestamp_to_utc_text (negsuc 1_500_000_000))
      ≡ err (invalid_argument m))
parse_timestamp-before_epoch_example =
    parse_timestamp-before_epoch (pos 0) 1_500_000_000 (omega arith) (λ e. omega (arith, e))

-- The 30th of February is read as the 2nd of March.
parse_timestamp-accepts_example :
    parse_timestamp (pos 0) (put_time no_day ++ (b'.' ∷ (padded 6 250_000 ++ (b'Z' ∷ []))))
    ≡ ok (pos (seconds_since_epoch no_day * 1_000_000_000 + 250_000 * 1_000))
parse_timestamp-accepts_example =
    parse_timestamp-accepts (pos 0) no_day 250_000 no_day-InRange (omega arith) (omega arith)
      (omega arith)

second_of_march :
    gmtime (pos (seconds_since_epoch no_day))
    ≡ record { year = 2023; month = 3; day = 2; hour = 10; minute = 20; second = 30 }
unfolding seconds_since_epoch days_of gmtime civil_of ◌+ℤ◌
second_of_march = refl

upper_symbol : upper (codes "AAPL") ≡ codes "AAPL"
unfolding upper
upper_symbol = refl

upper_source : upper (codes "ALPHA_VANTAGE") ≡ codes "ALPHA_VANTAGE"
unfolding upper
upper_source = refl

run-Exit_example :
    Exit console
      (run (postgres_repository server (some tt)) (λ db. pos 0) (codes "latest-quote" ∷ []) console)
run-Exit_example =
    run-Exit (postgres_repository server (some tt)) (λ db. pos 0) (codes "latest-quote" ∷ [])
      console

run_quote-Stored_example :
    QuoteRun {Q = server} tt journal server-IsTransactional
      (in_micros quote)
      console
      (run (postgres_repository server (some tt)) (λ db. pos 0) (quote_args quote) console)
run_quote-Stored_example =
    run_quote-Stored {Q = server} tt journal server-IsTransactional (λ db. pos 0) quote console refl
      quote-Fits tt upper_symbol upper_source

main-Finished_example :
    Finished console
      (main server (λ db. pos 0) (codes "postgres") (codes "latest-quote" ∷ []) console)
main-Finished_example =
    main-Finished server (λ db. pos 0) (codes "postgres") (codes "latest-quote" ∷ []) console
