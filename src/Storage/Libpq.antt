-- ===== src/Storage/Libpq.antt =====
-- libpq, which src/storage/persistence/postgres calls: a record of its functions over a world. A null
-- pointer is `none`; a null message or a message without characters is an empty text.
use fin_core_streaming_syste.Prelude.{ℕ, Bool, Option, List, Text}

-- What the functions on a `PGresult` return.
pub record Reply : Type 0 where
  -- `PQresultStatus` is `PGRES_COMMAND_OK` or `PGRES_TUPLES_OK`.
  pub succeeded : Bool
  -- It is `PGRES_COMMAND_OK`, of a command that returns no rows.
  pub command_ok : Bool
  -- `PQresultErrorMessage`.
  pub message : Text
  -- `PQresultErrorField(result, PG_DIAG_SQLSTATE)`.
  pub sql_state : Option Text
  -- `PQntuples` and `PQnfields`.
  pub tuples : ℕ
  pub fields : ℕ
  -- `PQgetvalue`, or `none` where `PQgetisnull`.
  pub cell : ℕ → ℕ → Option Text
  -- `PQcmdTuples`.
  pub cmd_tuples : Text

pub record Libpq : Type 1 where
  pub World : Type 0
  -- A `PGconn *` that is not null.
  pub Handle : Type 0
  -- `PQconnectdbParams` with keywords and values.
  pub connect : List (Text × Text) → World → Option Handle × World
  -- `PQstatus(connection) == CONNECTION_OK`.
  pub status_ok : Handle → World → Bool
  -- `PQerrorMessage`.
  pub error_message : Handle → World → Text
  -- `PQexec`, `PQexecParams`, `PQprepare` with a number of parameters, and `PQexecPrepared`.
  pub exec : Handle → Text → World → Option Reply × World
  pub exec_params : Handle → Text → List (Option Text) → World → Option Reply × World
  pub prepare : Handle → Text → Text → ℕ → World → Option Reply × World
  pub exec_prepared : Handle → Text → List (Option Text) → World → Option Reply × World
  -- `PQfinish`.
  pub finish : Handle → World → World
  -- `std::getenv`.
  pub environment : Text → World → Option Text
