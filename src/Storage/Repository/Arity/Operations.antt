-- ===== src/Storage/Repository/Arity/Operations.antt =====
-- The operations of the repository over the strict libpq.
use fin_core_streaming_syste.Prelude.{
  ℕ, codes, ◌%◌, ◌+◌, ◌^◌, ◌≡◌, refl, true, Option, none, some, List, [], ◌∷◌, if◌then◌else◌, Text,
  length, All, ◌==◌, text_eq, Result, lit, invalid_argument,
}
use fin_core_streaming_syste.Prelude.Io.{pure, throw, lift, observe, ◌>>=◌, ◌>>◌}
use fin_core_streaming_syste.Domain.MarketData.{
  Instrument, DataSource, Quote, Tick, OrderBookSnapshot, TechnicalIndicator,
}
use fin_core_streaming_syste.Domain.Validation.{validate_instrument, validate_data_source}
use fin_core_streaming_syste.Storage.Libpq.{Libpq}
use fin_core_streaming_syste.Storage.Connection.{
  SqlParameter, affected_rows, checked, check_result, result_error, execute_prepared, execute,
  prepare, open_connection, set_up, is_open, rows, ConnectionConfig,
}
use fin_core_streaming_syste.Storage.Repository.{
  instrument_parameters, data_source_parameters, quote_parameters, tick_parameters,
  snapshot_parameters, indicator_parameters, insert_rows, insert_batch, insert_quotes, validate_all,
  prepare_all, insert_ticks, insert_order_book_snapshots, insert_technical_indicators, latest_quote,
  quote_of_row, upsert_instrument, upsert_data_source, connect_repository, open_repository,
  prepare_statements,
}
use fin_core_streaming_syste.Storage.Repository.Statements.{
  Statement, statements, upsert_instrument_name, upsert_data_source_name, latest_quote_name,
}
use fin_core_streaming_syste.Storage.Repository.Arity.{
  only_if, is_called, highest_placeholder, strict,
}
use fin_core_streaming_syste.Storage.Repository.Arity.Transactions.{in_transaction-same}

module _ (Q : Libpq) where
  execute_prepared-strict :
      (connection : Option Q.Handle) (name : Text) (ps : List SqlParameter)
      → is_called name ps ≡ true
      → execute_prepared (strict Q) connection name ps ≡ execute_prepared Q connection name ps
  unfolding execute_prepared checked check_result result_error
  execute_prepared-strict none name ps called = refl
  execute_prepared-strict (some c) name ps called = λ i.
      checked Q (codes "cannot execute prepared SQL on a closed PostgreSQL connection") (some c)
        (λ c w. only_if (called i) (Q.exec_prepared c name ps w) w)

  insert_rows-strict :
      {R : Type 0} (name : Text) (parameters : R → List SqlParameter)
      (called : (row : R) → is_called name (parameters row) ≡ true) (connection : Option Q.Handle)
      (batch : List R) (n : ℕ)
      → insert_rows (strict Q) connection name parameters batch n
        ≡ insert_rows Q connection name parameters batch n
  unfolding insert_rows
  insert_rows-strict name parameters called connection [] n = refl
  insert_rows-strict name parameters called connection (row ∷ rest) n = λ i.
      execute_prepared-strict connection name (parameters row) (called row) i >>= (λ result.
        lift (affected_rows result) >>= (λ affected.
          insert_rows-strict name parameters called connection rest ((n + affected) % 2 ^ 64) i))

  insert_batch-strict :
      {R : Type 0} (validate : R → Result (Unit {0})) (name : Text)
      (parameters : R → List SqlParameter)
      (called : (row : R) → is_called name (parameters row) ≡ true) (connection : Option Q.Handle)
      (batch : List R)
      → insert_batch (strict Q) validate name parameters connection batch
        ≡ insert_batch Q validate name parameters connection batch
  unfolding insert_batch
  insert_batch-strict validate name parameters called connection [] = refl
  insert_batch-strict validate name parameters called connection (row ∷ rest) = (λ i.
      lift (validate_all validate (row ∷ rest))
      >> (in_transaction-same Q connection
            (insert_rows-strict name parameters called connection (row ∷ rest) 0 i) i
          >>= λ inserted. pure (record { attempted = length (row ∷ rest); inserted = inserted })))

  prepare-strict :
      (connection : Option Q.Handle) (name sql : Text) (n : ℕ)
      → (highest_placeholder sql == n) ≡ true
      → prepare (strict Q) connection name sql n ≡ prepare Q connection name sql n
  unfolding prepare checked check_result result_error
  prepare-strict none name sql n counted = refl
  prepare-strict (some c) name sql n counted = λ i.
      checked Q (codes "cannot prepare SQL on a closed PostgreSQL connection") (some c)
        (λ c w. only_if (counted i) (Q.prepare c name sql n w) w)
      >>= (λ result. pure tt)

  prepare_all-strict :
      (connection : Option Q.Handle) (l : List Statement)
      → All (λ s. (highest_placeholder s.sql == s.parameter_count) ≡ true) l
      → prepare_all (strict Q) connection l ≡ prepare_all Q connection l
  unfolding prepare_all prepare
  prepare_all-strict connection [] all = refl
  prepare_all-strict connection (s ∷ rest) (counted, all) = λ i.
      prepare-strict connection s.name s.sql s.parameter_count counted i
      >> prepare_all-strict connection rest all i

  open_connection-strict :
      (config : ConnectionConfig) → open_connection (strict Q) config ≡ open_connection Q config
  unfolding open_connection set_up execute checked check_result result_error
  open_connection-strict config = refl

  connect_repository-strict :
      (config : ConnectionConfig)
      → connect_repository (strict Q) config ≡ connect_repository Q config
  unfolding connect_repository open_repository prepare_statements is_open highest_placeholder
  connect_repository-strict config = λ i. open_connection-strict config i >>= (λ connection.
      observe (is_open Q connection) >>= (λ usable.
        if usable
        then (prepare_all-strict connection statements
              (refl, (refl, (refl, (refl, (refl, (refl, (refl, tt))))))) i
            >> pure connection)
        else throw (invalid_argument (lit "repository requires an open PostgreSQL connection"))))

  upsert_instrument-strict :
      (connection : Option Q.Handle) (instrument : Instrument)
      → upsert_instrument (strict Q) connection instrument
        ≡ upsert_instrument Q connection instrument
  unfolding upsert_instrument is_called text_eq highest_placeholder instrument_parameters
  upsert_instrument-strict connection instrument = λ i.
      lift (validate_instrument instrument)
      >> (execute_prepared-strict connection upsert_instrument_name
            (instrument_parameters instrument) refl i
          >>= (λ result. pure tt))

  upsert_data_source-strict :
      (connection : Option Q.Handle) (source : DataSource)
      → upsert_data_source (strict Q) connection source ≡ upsert_data_source Q connection source
  unfolding upsert_data_source is_called text_eq highest_placeholder data_source_parameters
  upsert_data_source-strict connection source = λ i.
      lift (validate_data_source source)
      >> (execute_prepared-strict connection upsert_data_source_name (data_source_parameters source)
            refl i
          >>= (λ result. pure tt))

  latest_quote-strict :
      (connection : Option Q.Handle) (symbol code : Text)
      → latest_quote (strict Q) connection symbol code ≡ latest_quote Q connection symbol code
  unfolding latest_quote quote_of_row is_called text_eq highest_placeholder
  latest_quote-strict connection symbol code = λ i.
      execute_prepared-strict connection latest_quote_name (some symbol ∷ some code ∷ []) refl i
      >>= (λ result.
          if rows result == 0
          then pure none
          else (quote_of_row Q result >>= λ quote. pure (some quote)))

  -- Every operation of the repository, its construction included, does the same over a libpq that
  -- does not run a call of a prepared statement unless it is prepared under that name by
  -- `prepare_statements` and the call passes as many parameters as its SQL refers to, and that
  -- prepares no statement under another number of parameters.
  pub operations-strict :
      (config : ConnectionConfig) (connection : Option Q.Handle) (instrument : Instrument)
      (source : DataSource) (quotes : List Quote) (ticks : List Tick)
      (snapshots : List OrderBookSnapshot) (indicators : List TechnicalIndicator)
      (symbol code : Text)
      → (connect_repository (strict Q) config ≡ connect_repository Q config)
        × (upsert_instrument (strict Q) connection instrument
            ≡ upsert_instrument Q connection instrument)
        × (upsert_data_source (strict Q) connection source ≡ upsert_data_source Q connection source)
        × (latest_quote (strict Q) connection symbol code ≡ latest_quote Q connection symbol code)
        × (insert_quotes (strict Q) connection quotes ≡ insert_quotes Q connection quotes)
        × (insert_ticks (strict Q) connection ticks ≡ insert_ticks Q connection ticks)
        × (insert_order_book_snapshots (strict Q) connection snapshots
            ≡ insert_order_book_snapshots Q connection snapshots)
        × (insert_technical_indicators (strict Q) connection indicators
            ≡ insert_technical_indicators Q connection indicators)
  unfolding insert_quotes insert_ticks insert_order_book_snapshots insert_technical_indicators
      is_called text_eq highest_placeholder quote_parameters tick_parameters snapshot_parameters
      indicator_parameters
  operations-strict config connection instrument source quotes ticks snapshots indicators symbol
        code =
      (
        connect_repository-strict config,
        upsert_instrument-strict connection instrument,
        upsert_data_source-strict connection source,
        latest_quote-strict connection symbol code,
        insert_batch-strict _ _ _ (λ row. refl) connection quotes,
        insert_batch-strict _ _ _ (λ row. refl) connection ticks,
        insert_batch-strict _ _ _ (λ row. refl) connection snapshots,
        insert_batch-strict _ _ _ (λ row. refl) connection indicators,
      )
