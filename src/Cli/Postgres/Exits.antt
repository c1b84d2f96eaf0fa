-- ===== src/Cli/Postgres/Exits.antt =====
-- The ways in which `PostgresCli::run` of src/cli/postgres_cli.cpp ends.
use fin_core_streaming_syste.Prelude.{
  ℕ, ap, ◌∙◌, ◌≡◌, ◌≢◌, refl, ◌⊎◌, inl, inr, Bool, true, false, Option, none, some, List, ◌∷◌,
  if◌then◌else◌, Text, Result, ok, err, Exception, invalid_argument, out_of_range, logic_error,
  runtime_error, database_error,
}
use fin_core_streaming_syste.Prelude.Io.{
  Io, pure, throw, lift, bind_result, handle_result, ◌>>=◌, ◌>>◌, catching,
}
use fin_core_streaming_syste.Cli.Postgres.{
  PgLine, help_text, instrument_upserted, source_upserted, summary, not_found, quote_line, Console,
  with_world, call, print, request, print_latest, dispatch, is_help, commands, report, run,
}
use fin_core_streaming_syste.Cli.Postgres.Times.{upper}
use fin_core_streaming_syste.Cli.Postgres.Requests.{arg}
use fin_core_streaming_syste.Domain.MarketData.{Quote, Timestamp}
use fin_core_streaming_syste.Storage.Port.{MarketDataRepository}
use fin_core_streaming_syste.Storage.Repository.{InsertSummary}

-- An error in the use of a command.
abbrev pub IsUsage : Exception → Type 0
IsUsage (invalid_argument message) = Unit
IsUsage (out_of_range message) = Unit
IsUsage (logic_error message) = ⊥
IsUsage (runtime_error message) = ⊥
IsUsage (database_error message state) = ⊥
IsUsage (Exception.other message) = ⊥

module _ {W : Type 0} where
  -- One line more was written, that of a quote that is not found with the code 3; or nothing was.
  data Ended (c : Console W) : Result ℕ × Console W → Type 0 where
    wrote :
        (code : ℕ) (line : PgLine) (c' : Console W)
        → c'.out ≡ line ∷ c.out
        → c'.errors ≡ c.errors
        → ((code ≡ 0) × (line ≢ not_found)) ⊎ ((code ≡ 3) × (line ≡ not_found))
        → Ended c (ok code, c')
    raised :
        (e : Exception) (c' : Console W)
        → c'.out ≡ c.out
        → c'.errors ≡ c.errors
        → Ended c (err e, c')

  -- The exit codes: 0 with a line, 3 for a quote that is not found, and 2 for an error in the use,
  -- which is the only thing written; other exceptions go on.
  pub data Exit (c : Console W) : Result ℕ × Console W → Type 0 where
    done :
        (line : PgLine) (c' : Console W)
        → line ≢ not_found
        → c'.out ≡ line ∷ c.out
        → c'.errors ≡ c.errors
        → Exit c (ok 0, c')
    absent :
        (c' : Console W) → c'.out ≡ not_found ∷ c.out → c'.errors ≡ c.errors → Exit c (ok 3, c')
    misused :
        (e : Exception) (c' : Console W)
        → IsUsage e
        → c'.out ≡ c.out
        → c'.errors ≡ e ∷ c.errors
        → Exit c (ok 2, c')
    thrown :
        (e : Exception) (c' : Console W)
        → ¬ IsUsage e
        → c'.out ≡ c.out
        → c'.errors ≡ c.errors
        → Exit c (err e, c')

  ends_if :
      (c : Console W) (b : Bool) (x y : Io (Console W) ℕ)
      → Ended c (x c)
      → Ended c (y c)
      → Ended c ((if b then x else y) c)
  ends_if c true x y h k = h
  ends_if c false x y h k = k

  ends_throw : (c : Console W) (e : Exception) → Ended c (throw e c)
  unfolding throw
  ends_throw c e = raised e c refl refl

  ends_lift :
      {A : Type 0} (c : Console W) (r : Result A) (k : A → Io (Console W) ℕ)
      → ((a : A) → Ended c (k a c))
      → Ended c (bind_result (r, c) k)
  ends_lift c (ok a) k h = h a
  ends_lift c (err e) k h = raised e c refl refl

  ends_call :
      {A : Type 0} (c : Console W) (r : Result A × W) (k : A → Io (Console W) ℕ)
      → ((a : A) (w : W) → Ended c (k a (record c { world = w })))
      → Ended c (bind_result (with_world c r) k)
  ends_call c (ok a, w) k h = h a w
  ends_call c (err e, w) k h = raised e _ refl refl

  module _ (R : MarketDataRepository W) (now : W → Timestamp) where
    -- A call of the repository and the line about it.
    ends_upsert :
        {A : Type 0} (c : Console W) (r : Result A) (m : A → Io W (Unit {0})) (line : PgLine)
        → line ≢ not_found
        → Ended c ((lift r >>= (λ a. call (m a) >> (print line >> pure 0))) c)
    unfolding lift ◌>>=◌ ◌>>◌ call print pure
    ends_upsert c r m line ne =
        ends_lift c r _
          (λ a. ends_call c (m a c.world) _ (λ done w. wrote 0 line _ refl refl (inl (refl, ne))))

    ends_insert :
        {A : Type 0} (c : Console W) (f : Timestamp → Result A) (m : A → Io W InsertSummary)
        → Ended c (
            (request R now f >>= (λ a. call (m a) >>= (λ result. print (summary result) >> pure 0)))
              c)
    unfolding request ◌>>=◌ ◌>>◌ call print pure
    ends_insert c f m = ends_lift c (f (now c.world)) _ (λ a.
        ends_call c (m a c.world) _ (λ s w. wrote 0 (summary s) _ refl refl (inl (refl, λ e. cc))))

    ends_latest :
        (c : Console W) (w : W) (latest : Option Quote)
        → Ended c (print_latest latest (record c { world = w }))
    unfolding ◌>>=◌ ◌>>◌ print pure
    ends_latest c w none = wrote 3 not_found _ refl refl (inr (refl, refl))
    ends_latest c w (some quote) = wrote 0 (quote_line quote) _ refl refl (inl (refl, λ e. cc))

    ends_query :
        (c : Console W) (r : Result (Unit {0})) (m : Io W (Option Quote))
        → Ended c ((lift r >> (call m >>= print_latest)) c)
    unfolding ◌>>◌ lift ◌>>=◌ call
    ends_query c r m =
        ends_lift c r _ (λ fine. ends_call c (m c.world) _ (λ latest w. ends_latest c w latest))

    dispatch-Ended : (args : List Text) (c : Console W) → Ended c (dispatch R now args c)
    unfolding dispatch
    dispatch-Ended args c =
        search
          (
            ends_if c,
            ends_upsert c _ _ (instrument_upserted (upper (arg args 1))) (λ e. cc),
            ends_upsert c _ _ (source_upserted (upper (arg args 1))) (λ e. cc),
            ends_insert c,
            ends_query c,
            ends_throw c,
          )
          depth 12

    commands-Ended : (args : List Text) (c : Console W) → Ended c (commands R now args c)
    unfolding commands ◌>>=◌ ◌>>◌ print pure
    commands-Ended args c =
        ends_if c (is_help args) _ _ (wrote 0 help_text _ refl refl (inl (refl, λ e. cc)))
          (dispatch-Ended args c)

    exit_of :
        (c : Console W) (r : Result ℕ × Console W) → Ended c r → Exit c (handle_result r report)
    unfolding report
    exit_of c r (wrote code line c' out errors (inl (zero_code, ne))) =
        rw zero_code (done line c' ne out errors)
    exit_of c r (wrote code line c' out errors (inr (three, same))) =
        rw three (absent c' (out ∙ ap (λ l. l ∷ c.out) same) errors)
    exit_of c r (raised (invalid_argument m) c' out errors) =
        misused (invalid_argument m) _ tt out (ap (λ l. invalid_argument m ∷ l) errors)
    exit_of c r (raised (out_of_range m) c' out errors) =
        misused (out_of_range m) _ tt out (ap (λ l. out_of_range m ∷ l) errors)
    exit_of c r (raised (logic_error m) c' out errors) = thrown _ c' (λ h. h) out errors
    exit_of c r (raised (runtime_error m) c' out errors) = thrown _ c' (λ h. h) out errors
    exit_of c r (raised (database_error m s) c' out errors) = thrown _ c' (λ h. h) out errors
    exit_of c r (raised (Exception.other m) c' out errors) = thrown _ c' (λ h. h) out errors

    -- `run` ends in one of four ways, whatever the arguments and the repository: with 0 and
    -- one line that is not "not found"; with 3 and the line "not found"; with 2, no line and one error
    -- message, that of an `invalid_argument` or `out_of_range`; or with an exception of another
    -- kind, and nothing is written.
    pub run-Exit : (args : List Text) (c : Console W) → Exit c (run R now args c)
    unfolding run catching
    run-Exit args c = exit_of c _ (commands-Ended args c)
