-- ===== src/Tests/Losses.antt =====
-- A database that does what a COMMIT demands and loses its reply, as the code of
-- src/storage/persistence/postgres sees it where the connection breaks.
use fin_core_streaming_syste.Prelude.{
  ◌≡◌, refl, sym, true≢false, Bool, true, false, Option, none, some, [], ◌∷◌, codes, text_eq,
}
use fin_core_streaming_syste.Prelude.Io.{pure, throw, lift, catching, ◌>>=◌, ◌>>◌}
use fin_core_streaming_syste.Domain.Decimal.{to_text, digits_of}
use fin_core_streaming_syste.Storage.Numbers.{whole_u64}
use fin_core_streaming_syste.Storage.Libpq.{Libpq, Reply}
use fin_core_streaming_syste.Storage.Connection.{
  in_transaction, begin, commit, rollback, execute, execute_prepared, checked, check_result,
  result_error, affected_rows,
}
use fin_core_streaming_syste.Storage.Connection.Atomic.{Session, IsTransactional}
use fin_core_streaming_syste.Storage.Repository.{insert_rows, quote_parameters}
use fin_core_streaming_syste.Storage.Repository.Statements.{insert_quote_name}
use fin_core_streaming_syste.Tests.Databases.{
  Journal, Db, server, server-IsTransactional, run_sql, empty_db, quote,
}

abbrev lose : Bool → Option Reply × Db → Option Reply × Db
lose true (reply, db) = (none, db)
lose false answer = answer

abbrev lossy : Libpq
lossy = record server { exec = λ c sql db. lose (text_eq sql (codes "COMMIT")) (run_sql sql db) }

abbrev lossy_journal : Session lossy
lossy_journal = record {
  Tables = Journal;
  committed = λ db. db.committed;
  working = λ db. db.working;
  in_block = λ db. db.in_block;
  effect = λ name ps tables. ((name, ps) ∷ tables, 1);
}

lossy-IsTransactional : IsTransactional {Q = lossy} tt lossy_journal
unfolding run_sql text_eq
lossy-IsTransactional = record {
  begin_keeps = server-IsTransactional.begin_keeps;
  begin_opens = server-IsTransactional.begin_opens;
  statement_keeps = server-IsTransactional.statement_keeps;
  statement_works = server-IsTransactional.statement_works;
  commit_applies = λ db inside good. absurd (true≢false (sym good));
  commit_atomic = server-IsTransactional.commit_atomic;
  rollback_keeps = server-IsTransactional.rollback_keeps;
}

-- The transaction throws, and its row is committed.
lost_reply :
    (in_transaction lossy
      (some tt)
      (insert_rows lossy (some tt) insert_quote_name quote_parameters (quote ∷ []) 0)
      empty_db).1.committed
    ≡ (insert_quote_name, quote_parameters quote) ∷ []
unfolding in_transaction begin commit rollback execute checked check_result result_error insert_rows
    execute_prepared affected_rows pure throw lift catching ◌>>=◌ ◌>>◌ run_sql text_eq to_text
    digits_of whole_u64
lost_reply = refl
