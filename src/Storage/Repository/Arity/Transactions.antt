-- ===== src/Storage/Repository/Arity/Transactions.antt =====
-- A transaction of the repository without prepared calls of its own, over the strict libpq.
use fin_core_streaming_syste.Prelude.{
  ap, codes, ok, err, ◌≡◌, refl, true, false, Option, none, some, Text, Result,
}
use fin_core_streaming_syste.Prelude.Io.{Io, pure, throw, bind_result, ◌>>=◌, ◌>>◌}
use fin_core_streaming_syste.Storage.Libpq.{Libpq}
use fin_core_streaming_syste.Storage.Connection.{
  PgResult, PgTransaction, checked, check_result, result_error, in_transaction, begin, commit,
  rollback, execute, leave,
}
use fin_core_streaming_syste.Storage.Repository.Arity.{strict}

abbrev opened : (Q : Libpq) → Q.Handle → PgTransaction Q
opened Q c = record { connection = some c; active = true }

module _ (Q : Libpq) where
  module _ (c : Q.Handle) where
    rollback-strict : rollback (strict Q) (opened (strict Q) c) ≡ rollback Q (opened Q c)
    unfolding rollback execute checked check_result result_error
    rollback-strict = refl

    execute-strict : (sql : Text) → execute (strict Q) (some c) sql ≡ execute Q (some c) sql
    unfolding execute checked check_result result_error
    execute-strict sql = refl

    module _ {A : Type 0} where
      after_commit :
          (a : A) (r : Result PgResult × Q.World)
          → leave (strict Q) (opened (strict Q) c) (
              bind_result
                (bind_result r (λ _. pure (record (opened (strict Q) c) { active = false })))
                (λ t. pure (a, t)))
            ≡ leave Q (opened Q c) (
                bind_result
                  (bind_result r (λ _. pure (record (opened Q c) { active = false })))
                  (λ t. pure (a, t)))
      unfolding pure rollback
      after_commit a (ok r, w) = refl
      after_commit a (err e, w) =
          ap (λ (io : Io Q.World (Unit {0})). (io >> throw e) w) rollback-strict

      after_body :
          (r : Result A × Q.World)
          → leave
              (strict Q)
              (opened (strict Q) c)
              (bind_result r (λ a. commit (strict Q) (opened (strict Q) c) >>= λ t. pure (a, t)))
            ≡ leave Q (opened Q c) (bind_result r (λ a. commit Q (opened Q c) >>= λ t. pure (a, t)))
      unfolding commit ◌>>=◌ execute checked check_result result_error
      after_body (ok a, w) = after_commit a (execute Q (some c) (codes "COMMIT") w)
      after_body (err e, w) = ap (λ (io : Io Q.World (Unit {0})). (io >> throw e) w) rollback-strict

      after_begin :
          (body : Io Q.World A) (r : Result PgResult × Q.World)
          → bind_result (bind_result r (λ _. pure (opened (strict Q) c))) (λ t u.
            leave (strict Q) t ((body >>= λ a. commit (strict Q) t >>= λ t'. pure (a, t')) u))
            ≡ bind_result
                (bind_result r (λ _. pure (opened Q c)))
                (λ t u. leave Q t ((body >>= λ a. commit Q t >>= λ t'. pure (a, t')) u))
      unfolding pure ◌>>=◌
      after_begin body (ok r, w) = after_body (body w)
      after_begin body (err e, w) = refl

      in_transaction-strict :
          (body : Io Q.World A)
          → in_transaction (strict Q) (some c) body ≡ in_transaction Q (some c) body
      unfolding in_transaction begin ◌>>=◌ execute checked check_result result_error
      in_transaction-strict body = λ i w. after_begin body (execute Q (some c) (codes "BEGIN") w) i

  pub in_transaction-same :
      {A : Type 0} (connection : Option Q.Handle) (body : Io Q.World A)
      → in_transaction (strict Q) connection body ≡ in_transaction Q connection body
  unfolding in_transaction begin ◌>>=◌ execute checked
  in_transaction-same none body = refl
  in_transaction-same (some c) body = in_transaction-strict c body
