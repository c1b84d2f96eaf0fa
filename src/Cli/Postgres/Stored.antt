-- ===== src/Cli/Postgres/Stored.antt =====
-- The command `quote` of src/cli/postgres_cli.cpp over the PostgreSQL repository, down to the
-- transaction.
use fin_core_streaming_syste.Prelude.{
  ℕ, ap, ◌∙◌, ◌%◌, ◌^◌, ◌≡◌, refl, ◌⊎◌, inl, inr, false, some, [], ◌∷◌, text_eq, Result, ok, err,
  Exception, invalid_argument, out_of_range, logic_error, runtime_error, database_error, arith,
}
use fin_core_streaming_syste.Prelude.Io.{pure, bind_result, handle_result, ◌>>=◌, ◌>>◌, catching}
use fin_core_streaming_syste.Cli.Postgres.{
  summary, Console, with_world, call, print, request, dispatch, commands, report, run,
}
use fin_core_streaming_syste.Cli.Postgres.Printed.{quote_args, quote_of-quote_args}
use fin_core_streaming_syste.Cli.Postgres.Requests.{arg}
use fin_core_streaming_syste.Cli.Postgres.Times.{upper}
use fin_core_streaming_syste.Cli.Postgres.Times.RoundTrip.{IsReadable}
use fin_core_streaming_syste.Domain.MarketData.{Quote, Timestamp}
use fin_core_streaming_syste.Domain.Validation.{validate_quote}
use fin_core_streaming_syste.Storage.Libpq.{Libpq}
use fin_core_streaming_syste.Storage.Connection.Atomic.{Session, IsTransactional, Unconfirmed}
use fin_core_streaming_syste.Storage.Port.{postgres_repository}
use fin_core_streaming_syste.Storage.Repository.{
  InsertSummary, insert_rows, insert_quotes, quote_parameters,
}
use fin_core_streaming_syste.Storage.Repository.Atomic.{Stored, apply_rows, insert_functions-Stored}
use fin_core_streaming_syste.Storage.Repository.Row.{Fits, in_micros}
use fin_core_streaming_syste.Storage.Repository.Statements.{insert_quote_name}

same_summary :
    (s : InsertSummary) {a i : ℕ}
    → s.attempted ≡ a
    → s.inserted ≡ i
    → s ≡ record { attempted = a; inserted = i }
same_summary s e f = λ k. record { attempted = e k; inserted = f k }

module _ {Q : Libpq} (c : Q.Handle) (S : Session Q) (laws : IsTransactional c S) where
  -- Nothing is committed, or the statement for the quote succeeded, its COMMIT was sent and did not
  -- report success, and the effect of the insertion is committed.
  abbrev pub Unstored : Quote → Q.World → Q.World → Type 0
  Unstored quote w w' =
      (S.committed w' ≡ S.committed w)
      ⊎ ((n : ℕ) × Unconfirmed c S laws
            (insert_rows Q (some c) insert_quote_name quote_parameters (quote ∷ []) 0) w n
          × (S.committed w'
              ≡ (S.effect insert_quote_name (quote_parameters quote) (S.committed w)).0))

  -- With the exit code 0 the quote is valid, the effect of its insertion is committed, and the summary is written. Otherwise the exit
  -- code is 2 or there is an exception, and the quote is not stored or its COMMIT is unconfirmed.
  abbrev pub QuoteRun : Quote → Console Q.World → Result ℕ × Console Q.World → Type 0
  QuoteRun quote console (ok code, after) =
      ((code ≡ 0)
        × (validate_quote quote ≡ ok tt)
        × (S.committed after.world
            ≡ (S.effect insert_quote_name (quote_parameters quote) (S.committed console.world)).0)
        × (after.out
            ≡ summary (record {
              attempted = 1;
              inserted =
                  (S.effect insert_quote_name (quote_parameters quote)
                    (S.committed console.world)).1
                  % 2 ^ 64;
            })
              ∷ console.out))
      ⊎ ((code ≡ 2) × Unstored quote console.world after.world)
  QuoteRun quote console (err e, after) = Unstored quote console.world after.world

  pub unstored :
      (quote : Quote) (w w' : Q.World) (e : Exception)
      → Stored c S laws validate_quote insert_quote_name quote_parameters (quote ∷ []) w (err e, w')
      → Unstored quote w w'
  unfolding apply_rows
  unstored quote w w' e (inl (bad, same)) = inl (ap S.committed same)
  unstored quote w w' e (inr (valid, inl same)) = inl same
  unstored quote w w' e (inr (valid, inr (n, sent, all_of_it))) =
      inr (n, sent, ap (λ p. p.0) all_of_it)

  reported :
      (quote : Quote) (console : Console Q.World) (e : Exception) (w' : Q.World)
      → Unstored quote console.world w'
      → QuoteRun quote console (report e (record console { world = w' }))
  unfolding report
  reported quote console (invalid_argument m) w' h = inr (refl, h)
  reported quote console (out_of_range m) w' h = inr (refl, h)
  reported quote console (logic_error m) w' h = h
  reported quote console (runtime_error m) w' h = h
  reported quote console (database_error m s) w' h = h
  reported quote console (Exception.other m) w' h = h

  after_insert :
      (quote : Quote) (console : Console Q.World) (r : Result InsertSummary × Q.World)
      → Stored c S laws validate_quote insert_quote_name quote_parameters
          (quote ∷ [])
          console.world
          r
      → QuoteRun quote console (
          handle_result
            (bind_result (with_world console r) (λ result. print (summary result) >> pure 0))
            report)
  unfolding ◌>>◌ ◌>>=◌ print pure apply_rows
  after_insert quote console (ok s, w') (valid, attempted, stored, left) = inl (
    refl,
    valid.0,
    ap (λ p. p.0) stored,
    ap (λ (p : InsertSummary). summary p ∷ console.out)
        (same_summary s attempted (ap (λ p. p.1) stored ∙ omega arith)),
  )
  after_insert quote console (err e, w') h =
      reported quote console e w' (unstored quote console.world w' e h)

  -- `run` with the command `quote` and the columns of a quote, printed as by `latest-quote`, over the
  -- PostgreSQL repository, outside of a transaction block: with the exit code 0 the quote, its timestamp
  -- rounded down to microseconds, is valid, the effect of its insertion is committed and nothing else, and the summary
  -- of one row is written; else the exit code is 2 or an exception goes on, and nothing is
  -- committed; but where the insertion succeeded and its COMMIT was sent and did not report
  -- success, the effect of the insertion may be committed.
  pub run_quote-Stored :
      (now : Q.World → Timestamp) (quote : Quote) (console : Console Q.World)
      → S.in_block console.world ≡ false
      → Fits quote
      → IsReadable quote.timestamp
      → upper quote.symbol ≡ quote.symbol
      → upper quote.source ≡ quote.source
      → QuoteRun
          (in_micros quote)
          console
          (run (postgres_repository Q (some c)) now (quote_args quote) console)
  unfolding run catching commands dispatch text_eq arg request call ◌>>=◌ postgres_repository
  run_quote-Stored now quote console idle fits readable symbol source =
      rw (quote_of-quote_args (now console.world) quote fits readable symbol source) (
        after_insert (in_micros quote) console
          (insert_quotes Q (some c) (in_micros quote ∷ []) console.world)
          (insert_functions-Stored c S laws (in_micros quote ∷ []) [] [] [] console.world idle).0)
