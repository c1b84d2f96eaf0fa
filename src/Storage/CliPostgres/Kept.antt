-- ===== src/Storage/CliPostgres/Kept.antt =====
-- What is in the database after `CliPostgres::store_quote` and `store_snapshot`
-- (src/storage/cli_postgres.cpp), whose statements are not one transaction.
use fin_core_streaming_syste.Prelude.{
  ◌≡◌, refl, ap, ◌∙◌, ◌⊎◌, inl, inr, Bool, true, false, Option, none, some, List, [], ◌∷◌, map,
  Text, codes,
}
use fin_core_streaming_syste.Core.Double.{Double}
use fin_core_streaming_syste.Core.Types.{Quote, OrderBookSnapshot, TimePoint}
use fin_core_streaming_syste.Storage.CliPostgres.{
  CliPostgres, is_connected, set_error, execute, ensure_instrument, store_quote, store_snapshot,
  if_ensured, report, send, accepted, instrument_sql, quote_sql, snapshot_sql, quote_values,
  snapshot_values,
}
use fin_core_streaming_syste.Storage.Libpq.{Libpq}

abbrev pub Statement : Type 0
Statement = Text × List (Option Text)

abbrev pub IsInsert : Text → Type 0
IsInsert sql = (sql ≡ instrument_sql) ⊎ (sql ≡ quote_sql) ⊎ (sql ≡ snapshot_sql)

-- Outside of a transaction block PostgreSQL runs each of the three insertions as a transaction of its own: it
-- keeps all of the statement or nothing of it, and keeps it where it reports PGRES_COMMAND_OK. Without
-- that report, as where the connection is lost, it may be kept or not. `kept` is what the
-- statements sent so far have done, once the server is through with them.
pub record Autocommit (Q : Libpq) : Type 0 where
  pub kept : Q.World → List Statement
  pub outside_block : Q.World → Bool
  pub stays_outside :
      (c : Q.Handle) (sql : Text) (values : List (Option Text)) (w : Q.World)
      → IsInsert sql
      → outside_block w ≡ true
      → outside_block (Q.exec_params c sql values w).1 ≡ true
  pub accepts :
      (c : Q.Handle) (sql : Text) (values : List (Option Text)) (w : Q.World)
      → IsInsert sql
      → outside_block w ≡ true
      → accepted Q (Q.exec_params c sql values w).0 ≡ true
      → kept (Q.exec_params c sql values w).1 ≡ (sql, values) ∷ kept w
  pub is_atomic :
      (c : Q.Handle) (sql : Text) (values : List (Option Text)) (w : Q.World)
      → IsInsert sql
      → outside_block w ≡ true
      → (kept (Q.exec_params c sql values w).1 ≡ kept w)
        ⊎ (kept (Q.exec_params c sql values w).1 ≡ (sql, values) ∷ kept w)

-- The statement was sent on the connection of the object, and success was not reported.
abbrev pub Unconfirmed : (Q : Libpq) → Statement → CliPostgres Q → Type 0
Unconfirmed Q (sql, values) s =
    (c : Q.Handle) × (s.connection ≡ some c)
    × (accepted Q (Q.exec_params c sql values s.world).0 ≡ false)

-- The database behind a call of one statement, by its result: kept with true; with false not, or
-- unconfirmed.
abbrev pub Once :
    (Q : Libpq) → List Statement → Statement → CliPostgres Q → Bool → List Statement → Type 0
Once Q old statement s true new = new ≡ statement ∷ old
Once Q old statement s false new =
    (new ≡ old) ⊎ (Unconfirmed Q statement s × (new ≡ statement ∷ old))

-- The database behind a call that keeps the instrument and then a row. With true both are kept. With
-- false nothing is, or the instrument alone, or both, where the insertion of the instrument reported success,
-- and that of the row was sent and did not.
abbrev pub Twice :
    (Q : Libpq)
    → List Statement
    → Statement
    → Statement
    → Bool × CliPostgres Q
    → Bool
    → List Statement
    → Type 0
Twice Q old instrument row ensured true new = new ≡ row ∷ instrument ∷ old
Twice Q old instrument row ensured false new =
    (new ≡ old)
    ⊎ (new ≡ instrument ∷ old)
    ⊎ ((ensured.0 ≡ true) × Unconfirmed Q row ensured.1 × (new ≡ row ∷ instrument ∷ old))

module _ {Q : Libpq} (A : Autocommit Q) where
  open A use {kept, outside_block, stays_outside, accepts, is_atomic}

  error-kept : (error : Text) (s : CliPostgres Q) → kept (set_error Q error s).world ≡ kept s.world
  unfolding set_error
  error-kept error s = refl

  error-outside :
      (error : Text) (s : CliPostgres Q)
      → outside_block (set_error Q error s).world ≡ outside_block s.world
  unfolding set_error
  error-outside error s = refl

  -- What a call of one of the insertions leaves.
  abbrev Sent : Statement → CliPostgres Q → Bool × CliPostgres Q → Type 0
  Sent statement s r =
      Once Q (kept s.world) statement s r.0 (kept r.1.world) × (outside_block r.1.world ≡ true)

  unsent :
      (statement : Statement) (error : Text) (s : CliPostgres Q)
      → outside_block s.world ≡ true
      → Sent statement s (false, set_error Q error s)
  unsent statement error s outside = (inl (error-kept error s), error-outside error s ∙ outside)

  report-Sent :
      (c : Q.Handle) (sql : Text) (values : List Text) (s : CliPostgres Q)
      → s.connection ≡ some c
      → IsInsert sql
      → outside_block s.world ≡ true
      → (b : Bool) → accepted Q (Q.exec_params c sql (map some values) s.world).0 ≡ b
      → Sent
          (sql, map some values)
          s
          (report Q c (record s { world = (Q.exec_params c sql (map some values) s.world).1 }) b)
  report-Sent c sql values s e insert outside true h = (
    accepts c sql (map some values) s.world insert outside h,
    stays_outside c sql (map some values) s.world insert outside,
  )
  report-Sent c sql values s e insert outside false h = (
    elim (is_atomic c sql (map some values) s.world insert outside) [
      | inl same ↦ inl (error-kept _ _ ∙ same)
      | inr done ↦ inr ((c, e, h), error-kept _ _ ∙ done)
    ],
    error-outside _ _ ∙ stays_outside c sql (map some values) s.world insert outside,
  )

  send-Sent :
      (connection : Option Q.Handle) (sql : Text) (values : List Text) (s : CliPostgres Q)
      → s.connection ≡ connection
      → IsInsert sql
      → outside_block s.world ≡ true
      → Sent (sql, map some values) s (send Q connection sql values s)
  send-Sent none sql values s e insert outside = unsent _ _ s outside
  send-Sent (some c) sql values s e insert outside =
      report-Sent c sql values s e insert outside _ refl

  execute-Sent :
      (sql : Text) (values : List Text) (s : CliPostgres Q)
      → IsInsert sql
      → outside_block s.world ≡ true
      → Sent (sql, map some values) s (execute Q sql values s)
  unfolding execute
  execute-Sent sql values s insert outside =
      elim (is_connected Q s)
        as (λ b.
          Sent (sql, map some values) s
            (elim b as (λ _. Bool × CliPostgres Q) [
              | true ↦ send Q s.connection sql values s
              | false ↦ (false, set_error Q (codes "PostgreSQL is disconnected") s)
            ])) [
              | true ↦ send-Sent s.connection sql values s refl insert outside
              | false ↦ unsent _ _ s outside
            ]

  row_after :
      (old : List Statement) (instrument row : Statement) (s : CliPostgres Q) (b : Bool)
      (new : List Statement)
      → kept s.world ≡ instrument ∷ old
      → Once Q (kept s.world) row s b new
      → Twice Q old instrument row (true, s) b new
  row_after old instrument row s true new e h = h ∙ ap (λ l. row ∷ l) e
  row_after old instrument row s false new e (inl same) = inr (inl (same ∙ e))
  row_after old instrument row s false new e (inr (sent, all_of_it)) =
      inr (inr (refl, sent, all_of_it ∙ ap (λ l. row ∷ l) e))

  ensured-Twice :
      (instrument row : Statement) (s : CliPostgres Q) (r : Bool × CliPostgres Q)
      (next : CliPostgres Q → Bool × CliPostgres Q)
      → Sent instrument s r
      → (outside_block r.1.world ≡ true → Sent row r.1 (next r.1))
      → Twice Q
          (kept s.world)
          instrument
          row
          r
          (if_ensured Q r next).0
          (kept (if_ensured Q r next).1.world)
  ensured-Twice instrument row s (false, s') next (inl same, outside) second = inl same
  ensured-Twice instrument row s (false, s') next (inr (sent, one), outside) second = inr (inl one)
  ensured-Twice instrument row s (true, s') next (first, outside) second =
      row_after (kept s.world) instrument row s' _ _ first (second outside).0

  module _ {D : Double} (number : D.Num → Text) (now : Q.World → TimePoint) where
    -- Over a database that runs each insertion as a transaction of its own, outside of a transaction block,
    -- where CliPostgres::store_quote or store_snapshot returns true, the instrument is kept and
    -- then the row with its values. Where it returns false, nothing is kept, or the instrument alone, or
    -- both, where the insertion of the instrument reported success and that of the row was sent
    -- and did not report it. A row is never kept without its instrument.
    pub stores-Twice :
        (quote : Quote D) (snapshot : OrderBookSnapshot D) (s : CliPostgres Q)
        → outside_block s.world ≡ true
        → Twice Q
            (kept s.world)
            (instrument_sql, some quote.symbol ∷ [])
            (
              quote_sql,
              map some
                  (quote_values number (now (ensure_instrument Q quote.symbol s).1.world) quote),
            )
            (ensure_instrument Q quote.symbol s)
            (store_quote Q number now quote s).0
            (kept (store_quote Q number now quote s).1.world)
          × Twice Q
              (kept s.world)
              (instrument_sql, some snapshot.symbol ∷ [])
              (
                snapshot_sql,
                map some (
                    snapshot_values number
                      (now (ensure_instrument Q snapshot.symbol s).1.world)
                      snapshot),
              )
              (ensure_instrument Q snapshot.symbol s)
              (store_snapshot Q number now snapshot s).0
              (kept (store_snapshot Q number now snapshot s).1.world)
    unfolding store_quote store_snapshot ensure_instrument
    stores-Twice quote snapshot s outside = (
      ensured-Twice _ _ s _ _ (execute-Sent instrument_sql (quote.symbol ∷ []) s (inl refl) outside)
          (execute-Sent quote_sql _ _ (inr (inl refl))),
      ensured-Twice _ _ s _ _
          (execute-Sent instrument_sql (snapshot.symbol ∷ []) s (inl refl) outside)
          (execute-Sent snapshot_sql _ _ (inr (inr refl))),
    )
