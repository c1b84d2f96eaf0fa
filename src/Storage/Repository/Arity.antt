-- ===== src/Storage/Repository/Arity.antt =====
-- The prepared statements of src/storage/persistence/postgres/postgres_market_data_repository.cpp, and
-- a libpq that does not run a call with another number of parameters.
pub mod Transactions
pub mod Operations
use fin_core_streaming_syste.Prelude.{
  ℕ, ap, codes, ok, err, ◌-◌, ◌%◌, ◌+◌, ◌^◌, ◌≡◌, refl, Bool, true, false, ◌&&◌, Option, none, some,
  List, [], ◌∷◌, if◌then◌else◌, Text, length, All, leb, ltb, ◌==◌, text_eq, Result, lit,
  invalid_argument,
}
use fin_core_streaming_syste.Prelude.Io.{Io, pure, throw, lift, observe, bind_result, ◌>>=◌, ◌>>◌}
use fin_core_streaming_syste.Domain.MarketData.{
  Instrument, DataSource, Quote, Tick, OrderBookSnapshot, TechnicalIndicator,
}
use fin_core_streaming_syste.Domain.Validation.{validate_instrument, validate_data_source}
use fin_core_streaming_syste.Storage.Libpq.{Libpq, Reply}
use fin_core_streaming_syste.Storage.Connection.{
  SqlParameter, PgResult, PgTransaction, affected_rows, checked, check_result, result_error,
  execute_prepared, in_transaction, begin, commit, rollback, execute, leave, prepare,
  open_connection, set_up, is_open, rows, ConnectionConfig,
}
use fin_core_streaming_syste.Storage.Repository.{
  instrument_parameters, data_source_parameters, quote_parameters, tick_parameters,
  snapshot_parameters, indicator_parameters, insert_rows, insert_batch, insert_quotes, validate_all,
  prepare_all, insert_ticks, insert_order_book_snapshots, insert_technical_indicators, latest_quote,
  quote_of_row, upsert_instrument, upsert_data_source, connect_repository, open_repository,
  prepare_statements,
}
use fin_core_streaming_syste.Storage.Repository.Statements.{
  Statement, statements, upsert_instrument_name, upsert_data_source_name, insert_quote_name,
  insert_tick_name, insert_snapshot_name, insert_indicator_name, latest_quote_name,
}

-- The statement that the name stands for: the first one that is prepared under it.
unfoldable pub find_statement : Text → List Statement → Option Statement
find_statement name [] = none
find_statement name (s ∷ rest) = if text_eq name s.name then some s else find_statement name rest

abbrev pub digit_behind : ℕ → ℕ → ℕ
digit_behind c d = if c == b'$' && leb b'1' d && leb d b'9' then d - b'0' else 0

abbrev pub larger : ℕ → ℕ → ℕ
larger a b = if ltb a b then b else a

-- The largest digit behind a `$`.
unfoldable pub highest_placeholder : Text → ℕ
highest_placeholder [] = 0
highest_placeholder (c ∷ []) = 0
highest_placeholder (c ∷ (d ∷ s)) = larger (digit_behind c d) (highest_placeholder (d ∷ s))

-- Each parameter to which the text refers is passed, and no other.
abbrev pub takes : Option Statement → List SqlParameter → Bool
takes none ps = false
takes (some s) ps = highest_placeholder s.sql == length ps

unfoldable pub is_called : Text → List SqlParameter → Bool
unfolding find_statement
is_called name ps = takes (find_statement name statements) ps

abbrev pub only_if : {W : Type 0} → Bool → Option Reply × W → W → Option Reply × W
only_if true answer w = answer
only_if false answer w = (none, w)

-- The functions of libpq, but a call of a statement that is not prepared, or with another number of
-- parameters than its text refers to, is not done and has no reply; nor is one prepared with
-- another number.
abbrev pub strict : Libpq → Libpq
strict Q = record Q {
  exec_prepared = λ c name ps w. only_if (is_called name ps) (Q.exec_prepared c name ps w) w;
  prepare = λ c name sql n w. only_if (highest_placeholder sql == n) (Q.prepare c name sql n w) w;
}
