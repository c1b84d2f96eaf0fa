-- ===== src/Cli/Wiring/Persisted.antt =====
-- What `persist_quote` of src/cli/fincore_cli.cpp does to the database, over the PostgreSQL
-- repository.
use fin_core_streaming_syste.Prelude.{
  ap, ◌∙◌, ◌%◌, ◌^◌, ◌≤◌, ◌≡◌, refl, ◌⊎◌, inl, inr, Bool, true, false, some, [], ◌∷◌, Result, ok,
  err, arith,
}
use fin_core_streaming_syste.Cli.Postgres.Stored.{Unstored, unstored}
use fin_core_streaming_syste.Cli.Wiring.{
  Printing, stored_quote, is_stored, judge, insert_one, persist_quote,
}
use fin_core_streaming_syste.Core.Double.{Double}
use fin_core_streaming_syste.Core.Types.{Quote, TimePoint}
use fin_core_streaming_syste.Domain.MarketData as Domain
use fin_core_streaming_syste.Domain.Validation.{validate_quote}
use fin_core_streaming_syste.Storage.Libpq.{Libpq}
use fin_core_streaming_syste.Storage.Connection.Atomic.{Session, IsTransactional}
use fin_core_streaming_syste.Storage.Port.{postgres_repository}
use fin_core_streaming_syste.Storage.Repository.{
  InsertSummary, duplicates, insert_quotes, quote_parameters,
}
use fin_core_streaming_syste.Storage.Repository.Atomic.{Stored, apply_rows, insert_functions-Stored}
use fin_core_streaming_syste.Storage.Repository.Statements.{insert_quote_name}

stored_or_duplicate : (s : InsertSummary) → s.attempted ≡ 1 → s.inserted ≤ 1 → is_stored s ≡ true
unfolding duplicates
stored_or_duplicate s one h = ground arith

module _ {D : Double} (T : Printing D) {Q : Libpq} (c : Q.Handle) (S : Session Q)
    (laws : IsTransactional c S) where
  -- With a result it is true, and the insertion of the quote as a domain record is committed;
  -- after an exception nothing is, or the COMMIT of that insertion is unconfirmed.
  abbrev pub Persisted : Result Domain.Quote → Q.World → Result Bool × Q.World → Type 0
  Persisted stored w (ok b, w') =
      (b ≡ true)
      × (row : Domain.Quote) × (stored ≡ ok row)
      × (validate_quote row ≡ ok tt)
      × (S.committed w' ≡ (S.effect insert_quote_name (quote_parameters row) (S.committed w)).0)
  Persisted stored w (err e, w') =
      (S.committed w' ≡ S.committed w)
      ⊎ ((row : Domain.Quote) × (stored ≡ ok row) × Unstored c S laws row w w')

  judged :
      (row : Domain.Quote) (w : Q.World) (r : Result InsertSummary × Q.World)
      → ((tables : S.Tables) → (S.effect insert_quote_name (quote_parameters row) tables).1 ≤ 1)
      → Stored c S laws validate_quote insert_quote_name quote_parameters (row ∷ []) w r
      → Persisted (ok row) w (judge r)
  unfolding apply_rows
  judged row w (ok s, w') at_most_one (valid, attempted, done, left) =
      let count : s.inserted
          ≡ (S.effect insert_quote_name (quote_parameters row) (S.committed w)).1 % 2 ^ 64 =
        ap (λ p. p.1) done ∙ omega arith in
      (
        stored_or_duplicate s attempted (omega (arith, count, at_most_one (S.committed w))),
        row,
        refl,
        valid.0,
        ap (λ p. p.0) done,
      )
  judged row w (err e, w') at_most_one h = inr (row, refl, unstored c S laws row w w' e h)

  inserted :
      (stored : Result Domain.Quote) (w : Q.World)
      → S.in_block w ≡ false
      → ((row : Domain.Quote) (tables : S.Tables)
          → (S.effect insert_quote_name (quote_parameters row) tables).1 ≤ 1)
      → Persisted stored w (insert_one (insert_quotes Q (some c)) stored w)
  inserted (err e) w idle at_most_one = inl refl
  inserted (ok row) w idle at_most_one =
      judged row w (insert_quotes Q (some c) (row ∷ []) w) (at_most_one row)
        (insert_functions-Stored c S laws (row ∷ []) [] [] [] w idle).0

  -- Over the PostgreSQL repository and a database that keeps the promises, outside of a transaction
  -- block, where the insertion of one quote affects at most one row, `persist_quote` returns true or
  -- throws. With true the quote is finite and in range, its domain record is valid and the effect of
  -- its insertion is committed. After an exception nothing is; but where the insertion succeeded and
  -- its COMMIT was sent and did not report success, the effect of the insertion may be committed.
  pub persist_quote-Persisted :
      (now : Q.World → TimePoint) (quote : Quote D) (w : Q.World)
      → S.in_block w ≡ false
      → ((row : Domain.Quote) (tables : S.Tables)
          → (S.effect insert_quote_name (quote_parameters row) tables).1 ≤ 1)
      → Persisted
          (stored_quote T (now w) quote)
          w
          (persist_quote T (postgres_repository Q (some c)) now quote w)
  unfolding persist_quote postgres_repository
  persist_quote-Persisted now quote w idle at_most_one =
      inserted (stored_quote T (now w) quote) w idle at_most_one
