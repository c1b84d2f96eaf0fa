-- ===== src/Lib.antt =====
-- FinCore: quotes from Alpha Vantage, cached in Redis, kept in PostgreSQL and turned into order books
-- by an interactive command line.
--
-- The parts and their files:
--   * Prelude: shared types, tests, lists, texts, exceptions as values (Prelude/Exceptions) and
--     signed integers (Prelude/Int).
--   * Domain/Decimal models `Decimal` of include/domain/decimal.hpp and src/domain/decimal.cpp. A
--     `Decimal` is its raw value; the loops of `from_string` are structural recursion on the text.
--     `digits_of` prints with twenty rounds, enough for every unsigned 64-bit number.
--     Domain/Decimal/Spelling says what a decimal text is and spells, independently of the parser.
--   * Domain/MarketData and Domain/Validation model include/domain/market_data.hpp and
--     src/domain/validation.cpp; Domain/Validation/Schema states the constraints of
--     migration/schema.sql on the same rows.
--   * Core/Double is the interface to `double`: operations as parameters, with the laws of IEEE
--     comparison as hypotheses. Core/Types models include/core/types.hpp; Core/Levels the ordered
--     maps; Core/OrderBook models include/core/order_book.hpp and src/core/order_book.cpp. A method
--     that may throw returns its result and the book as it is left.
--   * Cli/Metrics models include/cli/process_metrics.hpp and src/cli/process_metrics.cpp: the
--     session statistics as a record, `SessionStats::record` as `record_metrics`.
--     Cli/Metrics/Format has `double` and `long double` as they are printed and rounded,
--     Cli/Metrics/Samples `percentile` and `LatencySeries::print`, Cli/Metrics/Printed the other
--     printed texts, and Cli/Metrics/Usage `read_process_snapshot` over what the kernel reports.
--     Cli/Metrics/Samples/Rounded and Cli/Metrics/Samples/Average state the laws of IEEE arithmetic
--     that the proofs rely on.
--   * Cli/Parse, Cli/Book and Cli/Fetch model src/cli/fincore_cli.cpp: the text helpers, the book that
--     is derived from a quote, and `fetch_symbol` and `fetch_all`; Cli/Commands models `run`,
--     `handle_line`, its handlers and the constructor. Cli/Services is `CliServices` with
--     the clocks as a record of functions over a world; Cli/Monad is the state of `FinCoreCli` passed
--     through actions that may throw. What is written is a list of lines, a constructor for each
--     kind; Cli/Tables and Cli/Lines have the text of each kind, and Cli/Tables those of the
--     PostgreSQL commands.
--   * Prelude/Io is code over a world that may throw, with do blocks. Domain/Calendar and
--     Domain/Timestamps model `gmtime_r`, `timegm`, which also normalises the fields it is given, and
--     the texts of timestamps, as
--     `timestamp_to_utc_text` and `format_timestamp` write them.
--   * Storage/Libpq is libpq as a record of functions over a world. Storage/Connection models
--     src/storage/persistence/postgres/pg_connection.cpp: results, connections, and transactions
--     whose destructor is `rollback`, run by `leave`. Storage/Connection/Ownership has the destructors
--     and moves of the two classes over numbered objects. Storage/Connection/Atomic says what PostgreSQL
--     promises of transactions (`IsTransactional`), where no other session commits in between; a
--     COMMIT that does not report success may have been done or not.
--   * Storage/Repository models postgres_market_data_repository.cpp beside it, with its statements in
--     Storage/Repository/Statements; `insert_batch` is what its four batch inserts share.
--     Storage/Repository/Arity is a libpq that does not run calls with another number of parameters.
--     Storage/Port is the class `MarketDataRepository` as a record, and the PostgreSQL repository as
--     one.
--   * Storage/Redis models src/storage/redis_client.cpp over a record of the commands of
--     redis-plus-plus; Storage/Redis/Kept and Storage/Redis/Book state the documented promises of
--     the commands on hashes.
--   * Cli/Postgres models src/cli/postgres_cli.cpp over any repository: Cli/Postgres/Times is
--     `parse_timestamp`, Cli/Postgres/Requests reads the arguments of the commands.
--   * Cli/Wiring models `make_cli_services`, which makes the services of Cli/Services from the
--     clients, with their worlds side by side.
--   * Storage/CliPostgres models src/storage/cli_postgres.cpp; the loop of `set_error` has a round for
--     each character of the text and one for its last test. Storage/CliPostgres/Kept says what
--     PostgreSQL promises of statements outside of a transaction block.
--   * Program models the command `postgres` of src/core/main.cpp, Program/Settings the settings from
--     the environment, and Program/Interactive the program without arguments.
--   * Api/Json and Api/AlphaVantage model src/api/alpha_vantage_client.cpp over a record of the
--     clock, libcurl, `std::stod` and `mktime`; the cache is an association list.
--   * Tests holds an instance of the double interface, a journalling database and one that loses the
--     reply of COMMIT, a server of hashes and a source of quotes, and each property at a concrete
--     input.
--
-- A fetch reads the cache through the services, asks the API on a miss, rebuilds the book with
-- `OrderBook`, stores it, and records its measurements in the session statistics; the database rows
-- are validated domain records of fixed-point decimals.
--
-- Machine words: `uint64_t` sums and counters wrap at 2^64. Times and sizes of the metrics are
-- integers without a bound, as their overflow is not reached in a process's life.
--
-- The nanoseconds of `system_clock` that `parse_timestamp` and `parse_quote` compute wrap at 2^64;
-- those read from the database by `timestamp_from_epoch_microseconds` have no bound. Texts have no
-- NUL character, where the source passes them by `c_str`.
--
-- Not modelled: the times and the layout of the lookup benchmark, and what is written to `std::cerr` by
-- the clients. Of src/core/main.cpp the texts that it writes are a constructor for each kind.
pub mod Prelude
pub mod Cli
pub mod Core
pub mod Domain
pub mod Storage
pub mod Api
pub mod Program
pub mod Tests
