-- ===== src/Storage/Repository/Atomic.antt =====
-- The batches of PostgresMarketDataRepository over a database that keeps the promises of
-- Storage/Connection/Atomic.antt.
use fin_core_streaming_syste.Prelude.{
  ℕ, ◌+◌, ◌%◌, ◌^◌, ◌<◌, ◌≡◌, refl, ◌∙◌, true, false, some, List, [], ◌∷◌, ◌⊎◌, inl, inr, All, Text,
  length, Result, ok, err, ◌≢◌,
}
use fin_core_streaming_syste.Prelude.Io.{pure, lift, bind_result, ◌>>=◌, ◌>>◌}
use fin_core_streaming_syste.Domain.Decimal.{to_text}
use fin_core_streaming_syste.Domain.Decimal.RoundTrip.{to_text-ne-nil}
use fin_core_streaming_syste.Domain.MarketData.{Quote, Tick, OrderBookSnapshot, TechnicalIndicator}
use fin_core_streaming_syste.Domain.Validation.{
  validate_quote, validate_tick, validate_snapshot, validate_indicator,
}
use fin_core_streaming_syste.Storage.Numbers.{whole_u64, whole_u64-to_text}
use fin_core_streaming_syste.Storage.Libpq.{Libpq, Reply}
use fin_core_streaming_syste.Storage.Connection.{
  SqlParameter, PgResult, affected_rows, affected_of, count_of, execute_prepared,
}
use fin_core_streaming_syste.Storage.Connection.Atomic.{
  Session, IsTransactional, Ran, refused, failed, ran, checked-Ran, Works, Unconfirmed, Settled,
  in_transaction-Settled,
}
use fin_core_streaming_syste.Storage.Repository.{
  InsertSummary, validate_all, insert_rows, insert_valid, insert_batch, insert_quotes, insert_ticks,
  insert_order_book_snapshots, insert_technical_indicators, quote_parameters, tick_parameters,
  snapshot_parameters, indicator_parameters,
}
use fin_core_streaming_syste.Storage.Repository.Checked.{Invalid, Checked, validate_all-Checked}
use fin_core_streaming_syste.Storage.Repository.Statements.{
  insert_quote_name, insert_tick_name, insert_snapshot_name, insert_indicator_name,
}

affected_of-ne-nil : (s : Text) → s ≢ [] → affected_of s ≡ count_of (whole_u64 s)
affected_of-ne-nil [] ne = absurd (ne refl)
affected_of-ne-nil (c ∷ s) ne = refl

affected_rows-reply :
    (r : Reply) (n : ℕ) → r.cmd_tuples ≡ to_text n → n < 2 ^ 64 → affected_rows (some r) ≡ ok n
unfolding affected_rows
affected_rows-reply r n e h =
    rw (e, affected_of-ne-nil (to_text n) (to_text-ne-nil n), whole_u64-to_text n h) refl

module _ {Q : Libpq} (S : Session Q) {R : Type 0} (name : Text)
    (parameters : R → List SqlParameter) where
  -- The effects of a statement on the rows, one after the other, with the sum of the affected rows
  -- in 64 bits.
  unfoldable pub apply_rows : List R → S.Tables → ℕ → S.Tables × ℕ
  apply_rows [] tables inserted = (tables, inserted)
  apply_rows (row ∷ rest) tables inserted =
      apply_rows rest (S.effect name (parameters row) tables).0
        ((inserted + (S.effect name (parameters row) tables).1) % 2 ^ 64)

module _ {Q : Libpq} (c : Q.Handle) (S : Session Q) (laws : IsTransactional c S) where
  -- Nothing is committed; with a result the session has worked up to `goal`.
  abbrev Advanced : Q.World → Result ℕ × Q.World → S.Tables × ℕ → Type 0
  Advanced w (err e, w') goal = S.committed w' ≡ S.committed w
  Advanced w (ok n, w') goal =
      (S.committed w' ≡ S.committed w) × (S.in_block w' ≡ true) × ((S.working w', n) ≡ goal)

  advance_from :
      (w w1 : Q.World) (r : Result ℕ × Q.World) (goal : S.Tables × ℕ)
      → S.committed w1 ≡ S.committed w
      → Advanced w1 r goal
      → Advanced w r goal
  advance_from w w1 (err e, w') goal same h = h ∙ same
  advance_from w w1 (ok n, w') goal same (h, inside, done) = (h ∙ same, inside, done)

  keeps_of :
      (w : Q.World) (r : Result ℕ × Q.World) (goal : S.Tables × ℕ)
      → Advanced w r goal
      → S.committed r.1 ≡ S.committed w
  keeps_of w (ok n, w') goal h = h.0
  keeps_of w (err e, w') goal h = h

  works_of :
      (w w' : Q.World) (n : ℕ) (r : Result ℕ × Q.World) (goal : S.Tables × ℕ)
      → Advanced w r goal
      → r ≡ (ok n, w')
      → (S.in_block w' ≡ true) × ((S.working w', n) ≡ goal)
  works_of w w' n r goal h e = let a = rw e at h in (a.1, a.2)

  module _ {R : Type 0} (name : Text) (parameters : R → List SqlParameter) where
    after_statement :
        (row : R) (rest : List R) (n : ℕ) (w : Q.World) (r : Result PgResult × Q.World)
        → S.in_block w ≡ true
        → Ran Q (Q.exec_prepared c name (parameters row)) w r
        → ((w1 : Q.World) (m : ℕ)
            → S.in_block w1 ≡ true
            → Advanced w1
                (insert_rows Q (some c) name parameters rest m w1)
                (apply_rows S name parameters rest (S.working w1) m))
        → Advanced w
            (bind_result r (λ result.
              lift (affected_rows result)
              >>= (λ a. insert_rows Q (some c) name parameters rest ((n + a) % 2 ^ 64))))
            (apply_rows S name parameters (row ∷ rest) (S.working w) n)
    unfolding ◌>>=◌ lift apply_rows
    after_statement row rest n w r inside (refused e) h = refl
    after_statement row rest n w r inside (failed e bad) h =
        laws.statement_keeps w name (parameters row) inside
    after_statement row rest n w r inside (ran reply g good) h =
        let (still, moved, count, small) =
          laws.statement_works w name (parameters row) reply inside g good in
        rw (affected_rows-reply reply _ count small, ← moved)
          (advance_from w _ _ _ (laws.statement_keeps w name (parameters row) inside) (h _ _ still))

    insert_rows-Advanced :
        (batch : List R) (n : ℕ) (w : Q.World)
        → S.in_block w ≡ true
        → Advanced w
            (insert_rows Q (some c) name parameters batch n w)
            (apply_rows S name parameters batch (S.working w) n)
    unfolding insert_rows apply_rows pure ◌>>=◌
    insert_rows-Advanced [] n w inside = (refl, inside, refl)
    insert_rows-Advanced (row ∷ rest) n w inside =
        after_statement row rest n w (execute_prepared Q (some c) name (parameters row) w) inside
          (unfold execute_prepared in
            checked-Ran c _ (λ c. Q.exec_prepared c name (parameters row)) w)
          (λ w1 m i. insert_rows-Advanced rest m w1 i)

    pub insert_rows-Works :
        (batch : List R)
        → Works c S laws
            (λ tables n tables'. (tables', n) ≡ apply_rows S name parameters batch tables 0)
            (insert_rows Q (some c) name parameters batch 0)
    insert_rows-Works batch = record {
      keeps = λ w inside. keeps_of w _ _ (insert_rows-Advanced batch 0 w inside);
      works = λ w w' n inside e. works_of w w' n _ _ (insert_rows-Advanced batch 0 w inside) e;
    }

  module _ {R : Type 0} (validate : R → Result (Unit {0})) (name : Text)
      (parameters : R → List SqlParameter) where
    -- The outcomes of a batch. With a summary, all rows are valid and the effects of all rows are
    -- committed, and the summary counts the rows and the sum of the affected rows. After the exception
    -- of the first invalid row nothing was sent. After another exception all rows are valid, and
    -- nothing is committed, or all rows were sent and their COMMIT did not report success, and
    -- the effects of all of them are committed.
    abbrev pub Stored : List R → Q.World → Result InsertSummary × Q.World → Type 0
    Stored batch w (ok summary, w') =
        All (λ row. validate row ≡ ok tt) batch
        × (summary.attempted ≡ length batch)
        × ((S.committed w', summary.inserted)
            ≡ apply_rows S name parameters batch (S.committed w) 0)
        × (S.in_block w' ≡ false)
    Stored batch w (err e, w') =
        (Invalid validate batch e × (w' ≡ w))
        ⊎ (All (λ row. validate row ≡ ok tt) batch
            × ((S.committed w' ≡ S.committed w)
                ⊎ ((n : ℕ) × Unconfirmed c S laws (insert_rows Q (some c) name parameters batch 0) w
                      n
                    × ((S.committed w', n)
                        ≡ apply_rows S name parameters batch (S.committed w) 0))))

    after_transaction :
        (batch : List R) (w : Q.World) (r : Result ℕ × Q.World)
        → All (λ row. validate row ≡ ok tt) batch
        → Settled c S laws
            (λ tables n tables'. (tables', n) ≡ apply_rows S name parameters batch tables 0)
            (insert_rows Q (some c) name parameters batch 0)
            w
            r
        → Stored batch w
            (bind_result r (λ n. pure (record { attempted = length batch; inserted = n })))
    unfolding pure
    after_transaction batch w (ok n, w') valid (left, h) = (valid, refl, h, left)
    after_transaction batch w (err e, w') valid h = inr (valid, h)

    insert_valid-Stored :
        (batch : List R) (w : Q.World)
        → S.in_block w ≡ false
        → All (λ row. validate row ≡ ok tt) batch
        → Stored batch w (insert_valid Q (some c) name parameters batch w)
    unfolding pure ◌>>=◌ apply_rows
    insert_valid-Stored [] w idle valid = (tt, refl, refl, idle)
    insert_valid-Stored (row ∷ rest) w idle valid = after_transaction (row ∷ rest) w _ valid (
        in_transaction-Settled c S laws _ (insert_rows Q (some c) name parameters (row ∷ rest) 0) w
          idle (insert_rows-Works name parameters (row ∷ rest)))

    after_validation :
        (batch : List R) (w : Q.World) (r : Result (Unit {0}))
        → S.in_block w ≡ false
        → Checked validate batch r
        → Stored batch w (bind_result (r, w) (λ _. insert_valid Q (some c) name parameters batch))
    after_validation batch w (ok done) idle valid = insert_valid-Stored batch w idle valid
    after_validation batch w (err e) idle bad = inl (bad, refl)

    insert_batch-Stored :
        (batch : List R) (w : Q.World)
        → S.in_block w ≡ false
        → Stored batch w (insert_batch Q validate name parameters (some c) batch w)
    unfolding insert_batch ◌>>=◌ ◌>>◌ lift
    insert_batch-Stored batch w idle =
        after_validation batch w (validate_all validate batch) idle
          (validate_all-Checked validate batch)

  -- Outside of a transaction block, each of the four batch inserts is all or nothing. Where it returns
  -- a summary, every row is valid, what is committed is the effect of the statement on all rows in
  -- their order, `attempted` is the number of rows, `inserted` is the sum of the affected rows in 64
  -- bits, and no block is open. Where it throws, the exception is that of the first invalid row and
  -- nothing was sent to the database, or every row is valid and nothing is committed; but where all
  -- statements succeeded and their COMMIT was sent and did not report success, all rows may
  -- be committed. The database keeps the documented promises of transactions (`IsTransactional`).
  pub insert_functions-Stored :
      (quotes : List Quote) (ticks : List Tick) (snapshots : List OrderBookSnapshot)
      (indicators : List TechnicalIndicator) (w : Q.World)
      → S.in_block w ≡ false
      → Stored validate_quote insert_quote_name quote_parameters quotes w
          (insert_quotes Q (some c) quotes w)
        × Stored validate_tick insert_tick_name tick_parameters ticks w
            (insert_ticks Q (some c) ticks w)
        × Stored validate_snapshot insert_snapshot_name snapshot_parameters snapshots w
            (insert_order_book_snapshots Q (some c) snapshots w)
        × Stored validate_indicator insert_indicator_name indicator_parameters indicators w
            (insert_technical_indicators Q (some c) indicators w)
  unfolding insert_quotes insert_ticks insert_order_book_snapshots insert_technical_indicators
  insert_functions-Stored quotes ticks snapshots indicators w idle = (
    insert_batch-Stored validate_quote _ _ quotes w idle,
    insert_batch-Stored validate_tick _ _ ticks w idle,
    insert_batch-Stored validate_snapshot _ _ snapshots w idle,
    insert_batch-Stored validate_indicator _ _ indicators w idle,
  )
