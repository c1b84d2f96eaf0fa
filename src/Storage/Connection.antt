-- ===== src/Storage/Connection.antt =====
-- `PgResult`, `PgConnection` and `PgTransaction` of
-- include/storage/persistance/postgres/pg_connection.hpp and
-- src/storage/persistence/postgres/pg_connection.cpp. A `PgResult` and a `PgConnection` are their
-- pointer; the release of a `PGresult` has no effect here.
pub mod Atomic
pub mod Ownership
use fin_core_streaming_syste.Prelude.{
  ℕ, ◌+◌, ◌≡◌, Bool, true, false, not, ◌&&◌, ◌||◌, Option, none, some, List, [], ◌∷◌, ◌++◌,
  if◌then◌else◌, Text, codes, ltb, leb, is_some, Result, ok, err, Exception, invalid_argument,
  out_of_range, logic_error, database_error, lit, about,
}
use fin_core_streaming_syste.Prelude.Int.{ℤ, pos, negsuc, pos_part, ltb_ℤ, leb_ℤ}
use fin_core_streaming_syste.Prelude.Io.{
  Io, pure, throw, lift, ◌>>=◌, ◌>>◌, bind_result, catching, observe, act,
}
use fin_core_streaming_syste.Domain.Decimal.{to_text}
use fin_core_streaming_syste.Storage.Numbers.{whole_u64, whole_i64, signed_text}
use fin_core_streaming_syste.Storage.Libpq.{Libpq, Reply}

abbrev pub SqlParameter : Type 0
SqlParameter = Option Text

abbrev pub PgResult : Type 0
PgResult = Option Reply

unfoldable pub rows : PgResult → ℕ
rows none = 0
rows (some r) = r.tuples

unfoldable pub columns : PgResult → ℕ
columns none = 0
columns (some r) = r.fields

abbrev pub out_of_result : Exception
out_of_result = out_of_range (lit "PostgreSQL result coordinate is out of range")

unfoldable pub is_null : PgResult → ℕ → ℕ → Result Bool
is_null none row column = err out_of_result
is_null (some r) row column =
    if leb r.tuples row || leb r.fields column
    then err out_of_result
    else ok (not (is_some (r.cell row column)))

abbrev pub read_cell : Option Text → Result Text
read_cell none = err (logic_error (lit "attempted to read a SQL NULL as text"))
read_cell (some text) = ok text

-- `value`, which asks `is_null` first.
unfoldable pub value : PgResult → ℕ → ℕ → Result Text
value none row column = err out_of_result
value (some r) row column =
    if leb r.tuples row || leb r.fields column
    then err out_of_result
    else read_cell (r.cell row column)

abbrev pub count_of : Option ℕ → Result ℕ
count_of none = err (database_error (codes "PostgreSQL returned an invalid affected-row count") [])
count_of (some n) = ok n

abbrev pub affected_of : Text → Result ℕ
affected_of [] = ok 0
affected_of (c ∷ s) = count_of (whole_u64 (c ∷ s))

unfoldable pub affected_rows : PgResult → Result ℕ
affected_rows none = ok 0
affected_rows (some r) = affected_of r.cmd_tuples

abbrev pub first_text : Text → Text → Text
first_text [] other = other
first_text (c ∷ s) other = c ∷ s

pub record ConnectionConfig : Type 0 where
  pub host : Text
  pub port : Text
  pub database : Text
  pub user : Text
  pub password : Text
  pub application_name : Text
  pub connect_timeout_seconds : ℤ

abbrev pub default_config : ConnectionConfig
default_config = record {
  host = codes "127.0.0.1";
  port = codes "6379";
  database = codes "mydb";
  user = codes "StaticGhost";
  password = codes "myStrongPasswd123";
  application_name = codes "fincore-cpp";
  connect_timeout_seconds = pos 5;
}

abbrev pub value_or : Option Text → Text → Text
value_or none fallback = fallback
value_or (some text) fallback = text

-- `from_chars` to an `int` that is to be positive.
abbrev pub positive_int : Text → Option ℤ → Result ℤ
positive_int name none =
    err (invalid_argument (about "invalid positive integer in environment variable " name))
positive_int name (some n) =
    if leb_ℤ n (pos 0) || ltb_ℤ (pos 2_147_483_647) n
    then err (invalid_argument (about "invalid positive integer in environment variable " name))
    else ok n

module _ (Q : Libpq) where
  abbrev pub PgConnection : Type 0
  PgConnection = Option Q.Handle

  unfoldable pub environment_or : Text → Text → Q.World → Text
  environment_or name fallback w = value_or (Q.environment name w) fallback

  abbrev pub int_or : Text → ℤ → Text → Result ℤ
  int_or name fallback [] = ok fallback
  int_or name fallback (c ∷ s) = positive_int name (whole_i64 (c ∷ s))

  unfoldable pub environment_int_or : Text → ℤ → Q.World → Result ℤ
  unfolding environment_or
  environment_int_or name fallback w = int_or name fallback (environment_or name [] w)

  unfoldable pub from_environment : Io Q.World ConnectionConfig
  from_environment = do
    host ← observe (environment_or (codes "FINCORE_DB_HOST") default_config.host)
    port ← observe (environment_or (codes "FINCORE_DB_PORT") default_config.port)
    database ← observe (environment_or (codes "FINCORE_DB_NAME") default_config.database)
    user ← observe (environment_or (codes "FINCORE_DB_USER") default_config.user)
    password ← observe (environment_or (codes "FINCORE_DB_PASSWORD") default_config.password)
    application_name ←
        observe
          (environment_or (codes "FINCORE_DB_APPLICATION_NAME") default_config.application_name)
    seconds ← observe (
        environment_int_or (codes "FINCORE_DB_CONNECT_TIMEOUT")
          default_config.connect_timeout_seconds)
    connect_timeout_seconds ← lift seconds
    pure (record {
      host = host;
      port = port;
      database = database;
      user = user;
      password = password;
      application_name = application_name;
      connect_timeout_seconds = connect_timeout_seconds;
    })

  abbrev pub reply_message : Option Reply → Text
  reply_message none = []
  reply_message (some r) = r.message

  abbrev pub connection_message : PgConnection → Q.World → Text
  connection_message none w = []
  connection_message (some c) w = Q.error_message c w

  unfoldable pub result_error : PgConnection → Option Reply → Q.World → Text
  result_error connection result w =
      first_text (reply_message result)
        (first_text (connection_message connection w) (codes "unknown PostgreSQL error"))

  unfoldable pub is_open : PgConnection → Q.World → Bool
  is_open none w = false
  is_open (some c) w = Q.status_ok c w

  unfoldable pub check_result : PgConnection → Option Reply → Io Q.World PgResult
  check_result connection none w = (err (database_error (result_error connection none w) []), w)
  check_result connection (some r) w =
      if r.succeeded
      then (ok (some r), w)
      else (err (database_error (result_error connection (some r) w) (value_or r.sql_state [])), w)

  abbrev pub closed : Text → Exception
  closed message = database_error message []

  -- A call on an open connection, whose result is checked.
  unfoldable pub checked :
      Text → PgConnection → (Q.Handle → Q.World → Option Reply × Q.World) → Io Q.World PgResult
  unfolding check_result
  checked message none call w = (err (closed message), w)
  checked message (some c) call w = elim (Q.status_ok c w) [
    | true ↦ let (reply, w') = call c w in check_result (some c) reply w'
    | false ↦ (err (closed message), w)
  ]

  unfoldable pub execute : PgConnection → Text → Io Q.World PgResult
  unfolding checked
  execute connection sql =
      checked (codes "cannot execute SQL on a closed PostgreSQL connection") connection
        (λ c. Q.exec c sql)

  unfoldable pub execute_params : PgConnection → Text → List SqlParameter → Io Q.World PgResult
  unfolding checked
  execute_params connection sql parameters =
      checked (codes "cannot execute SQL on a closed PostgreSQL connection") connection
        (λ c. Q.exec_params c sql parameters)

  unfoldable pub prepare : PgConnection → Text → Text → ℕ → Io Q.World (Unit {0})
  prepare connection name sql parameter_count = do
    _ ←
        checked (codes "cannot prepare SQL on a closed PostgreSQL connection") connection
          (λ c. Q.prepare c name sql parameter_count)
    pure tt

  unfoldable pub execute_prepared : PgConnection → Text → List SqlParameter → Io Q.World PgResult
  unfolding checked
  execute_prepared connection name parameters =
      checked (codes "cannot execute prepared SQL on a closed PostgreSQL connection") connection
        (λ c. Q.exec_prepared c name parameters)

  unfoldable pub close : PgConnection → Io Q.World PgConnection
  close none = pure none
  close (some c) = act (λ w. (none, Q.finish c w))

  abbrev pub connect_parameters : ConnectionConfig → List (Text × Text)
  connect_parameters config =
      (codes "host", config.host)
      ∷ (codes "port", config.port)
      ∷ (codes "dbname", config.database)
      ∷ (codes "user", config.user)
      ∷ (codes "password", config.password)
      ∷ (codes "application_name", config.application_name)
      ∷ (codes "connect_timeout", signed_text config.connect_timeout_seconds)
      ∷ []

  -- The handle is released before the exception goes on.
  abbrev pub give_up : {A : Type 0} → Q.Handle → Exception → Io Q.World A
  give_up c e w = (err e, Q.finish c w)

  unfoldable pub set_up : Option Q.Handle → Io Q.World PgConnection
  set_up none w =
      (err (database_error (codes "libpq could not allocate a PostgreSQL connection") []), w)
  set_up (some c) w = elim (Q.status_ok c w) [
    | false ↦ give_up c (database_error (Q.error_message c w) []) w
    | true ↦
        catching (do _ ← execute (some c) (codes "SET TIME ZONE 'UTC'"); pure (some c)) (give_up c)
          w
  ]

  -- The constructor.
  unfoldable pub open_connection : ConnectionConfig → Io Q.World PgConnection
  open_connection config = do handle ← act (Q.connect (connect_parameters config)); set_up handle

  pub record PgTransaction : Type 0 where
    pub connection : PgConnection
    pub active : Bool

  unfoldable pub begin : PgConnection → Io Q.World PgTransaction
  begin connection = do
    _ ← execute connection (codes "BEGIN")
    pure (record { connection = connection; active = true })

  unfoldable pub commit : PgTransaction → Io Q.World PgTransaction
  commit t =
      if not t.active || not (is_some t.connection)
      then throw (logic_error (lit "transaction is no longer active"))
      else (do _ ← execute t.connection (codes "COMMIT"); pure (record t { active = false }))

  -- The destructor, in which no exception goes on.
  unfoldable pub rollback : PgTransaction → Io Q.World (Unit {0})
  rollback t =
      if t.active && is_some t.connection
      then catching (do _ ← execute t.connection (codes "ROLLBACK"); pure tt) (λ e. pure tt)
      else pure tt

  -- The end of the scope of a transaction: its destructor runs, and the result or the exception
  -- goes on. After an exception the object is as it was made, as `commit` changes it last.
  abbrev pub leave :
      {A : Type 0} → PgTransaction → Result (A × PgTransaction) × Q.World → Result A × Q.World
  leave t (ok (a, t'), w) = (rollback t' >> pure a) w
  leave t (err e, w) = (rollback t >> throw e) w

  -- `PgTransaction transaction(connection); ...; transaction.commit(); return a;`
  unfoldable pub in_transaction : {A : Type 0} → PgConnection → Io Q.World A → Io Q.World A
  in_transaction connection body = do
    t ← begin connection
    (λ w. leave t ((do a ← body; t' ← commit t; pure (a, t')) w))
