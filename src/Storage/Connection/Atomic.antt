-- ===== src/Storage/Connection/Atomic.antt =====
-- Transactions over a database that keeps the documented promises of PostgreSQL
-- (src/storage/persistence/postgres/pg_connection.cpp).
use fin_core_streaming_syste.Prelude.{
  ℕ, ◌^◌, ◌<◌, ◌≡◌, refl, ◌∙◌, Bool, true, false, Option, none, some, List, ◌⊎◌, inl, inr, Text,
  codes, Result, ok, err, Exception, if◌then◌else◌,
}
use fin_core_streaming_syste.Prelude.Io.{
  Io, pure, throw, bind_result, handle_result, ◌>>=◌, ◌>>◌, catching,
}
use fin_core_streaming_syste.Domain.Decimal.{to_text}
use fin_core_streaming_syste.Storage.Libpq.{Libpq, Reply}
use fin_core_streaming_syste.Storage.Connection.{
  SqlParameter, PgResult, PgTransaction, checked, check_result, execute, begin, commit, rollback,
  leave, in_transaction,
}

-- What a session sees of the database: what the commands that it has sent so far commit, once the
-- server is through with them; what its own transaction has made of the tables; whether it is in a
-- transaction block that has not failed (`PQTRANS_INTRANS`); and the effect of a prepared
-- statement, which is no transaction command, with the number of rows that it affects.
pub record Session (Q : Libpq) : Type 1 where
  pub Tables : Type 0
  pub committed : Q.World → Tables
  pub working : Q.World → Tables
  pub in_block : Q.World → Bool
  pub effect : Text → List SqlParameter → Tables → Tables × ℕ

abbrev pub succeeds : Option Reply → Bool
succeeds none = false
succeeds (some r) = r.succeeded

-- The promises, where no other session commits in between. A COMMIT that does not report success,
-- as where the connection is lost, may have been done or not; it commits the work of the whole block
-- or nothing. Of a BEGIN inside a block, which only warns, nothing is said but that it does not
-- commit.
pub record IsTransactional {Q : Libpq} (c : Q.Handle) (S : Session Q) : Type 0 where
  pub begin_keeps : (w : Q.World) → S.committed (Q.exec c (codes "BEGIN") w).1 ≡ S.committed w
  pub begin_opens :
      (w : Q.World)
      → S.in_block w ≡ false
      → succeeds (Q.exec c (codes "BEGIN") w).0 ≡ true
      → (S.in_block (Q.exec c (codes "BEGIN") w).1 ≡ true)
        × (S.working (Q.exec c (codes "BEGIN") w).1 ≡ S.committed w)
  pub statement_keeps :
      (w : Q.World) (name : Text) (ps : List SqlParameter)
      → S.in_block w ≡ true
      → S.committed (Q.exec_prepared c name ps w).1 ≡ S.committed w
  pub statement_works :
      (w : Q.World) (name : Text) (ps : List SqlParameter) (r : Reply)
      → S.in_block w ≡ true
      → (Q.exec_prepared c name ps w).0 ≡ some r
      → r.succeeded ≡ true
      → (S.in_block (Q.exec_prepared c name ps w).1 ≡ true)
        × (S.working (Q.exec_prepared c name ps w).1 ≡ (S.effect name ps (S.working w)).0)
        × (r.cmd_tuples ≡ to_text (S.effect name ps (S.working w)).1)
        × ((S.effect name ps (S.working w)).1 < 2 ^ 64)
  pub commit_applies :
      (w : Q.World)
      → S.in_block w ≡ true
      → succeeds (Q.exec c (codes "COMMIT") w).0 ≡ true
      → (S.in_block (Q.exec c (codes "COMMIT") w).1 ≡ false)
        × (S.committed (Q.exec c (codes "COMMIT") w).1 ≡ S.working w)
  pub commit_atomic :
      (w : Q.World)
      → S.in_block w ≡ true
      → (S.committed (Q.exec c (codes "COMMIT") w).1 ≡ S.committed w)
        ⊎ (S.committed (Q.exec c (codes "COMMIT") w).1 ≡ S.working w)
  pub rollback_keeps : (w : Q.World) → S.committed (Q.exec c (codes "ROLLBACK") w).1 ≡ S.committed w

abbrev pub Outcome : Libpq → Type 0
Outcome Q = Result PgResult × Q.World

-- The outcomes of a checked call: the connection was closed, the call failed, or it succeeded.
pub data Ran (Q : Libpq) (call : Q.World → Option Reply × Q.World) (w : Q.World)
    : Outcome Q → Type 0 where
  refused : (e : Exception) → Ran Q call w (err e, w)
  failed : (e : Exception) → succeeds (call w).0 ≡ false → Ran Q call w (err e, (call w).1)
  ran :
      (r : Reply)
      → (call w).0 ≡ some r
      → r.succeeded ≡ true
      → Ran Q call w (ok (some r), (call w).1)

module _ {Q : Libpq} (c : Q.Handle) where
  status-Ran :
      (call : Q.World → Option Reply × Q.World) (w : Q.World) (r : Reply) (e : Exception) (b : Bool)
      → (call w).0 ≡ some r
      → r.succeeded ≡ b
      → Ran Q call w (if b then (ok (some r), (call w).1) else (err e, (call w).1))
  status-Ran call w r e true g good = ran r g good
  status-Ran call w r e false g bad = failed e (rw g bad)

  check_result-Ran :
      (call : Q.World → Option Reply × Q.World) (w : Q.World) (o : Option Reply)
      → (call w).0 ≡ o
      → Ran Q call w (check_result Q (some c) o (call w).1)
  unfolding check_result
  check_result-Ran call w none g = failed _ (rw g refl)
  check_result-Ran call w (some r) g = status-Ran call w r _ r.succeeded g refl

  guarded-Ran :
      (e : Exception) (call : Q.World → Option Reply × Q.World) (w : Q.World) (b : Bool)
      → Ran Q call w (elim b as (λ _. Outcome Q) [
        | true ↦ check_result Q (some c) (call w).0 (call w).1
        | false ↦ (err e, w)
      ])
  guarded-Ran e call w true = check_result-Ran call w (call w).0 refl
  guarded-Ran e call w false = refused e

  pub checked-Ran :
      (message : Text) (call : Q.Handle → Q.World → Option Reply × Q.World) (w : Q.World)
      → Ran Q (call c) w (checked Q message (some c) call w)
  unfolding checked
  checked-Ran message call w = guarded-Ran _ (call c) w (Q.status_ok c w)

module _ {Q : Libpq} (c : Q.Handle) (S : Session Q) (laws : IsTransactional c S) where
  -- Work in a transaction block: it commits nothing, and with a result it has done `P`.
  pub record Works {A : Type 0} (P : S.Tables → A → S.Tables → Type 0) (body : Io Q.World A)
      : Type 0 where
    pub keeps : (w : Q.World) → S.in_block w ≡ true → S.committed (body w).1 ≡ S.committed w
    pub works :
        (w w' : Q.World) (a : A)
        → S.in_block w ≡ true
        → body w ≡ (ok a, w')
        → (S.in_block w' ≡ true) × P (S.working w) a (S.working w')

  -- The body was done in the block that BEGIN opened, with a result, and the COMMIT behind it was sent
  -- and did not report success.
  abbrev pub Unconfirmed : {A : Type 0} → Io Q.World A → Q.World → A → Type 0
  Unconfirmed body w a =
      (u : Q.World) × (body (Q.exec c (codes "BEGIN") w).1 ≡ (ok a, u))
      × (succeeds (Q.exec c (codes "COMMIT") u).0 ≡ false)

  -- All or nothing: with a result all of `P` is committed, and the block is left. After an exception nothing
  -- is committed, or the COMMIT of this run did not report success and all of `P` is committed.
  abbrev pub Settled :
      {A : Type 0}
      → (S.Tables → A → S.Tables → Type 0)
      → Io Q.World A
      → Q.World
      → Result A × Q.World
      → Type 0
  Settled P body w (ok a, w') = (S.in_block w' ≡ false) × P (S.committed w) a (S.committed w')
  Settled {A} P body w (err e, w') =
      (S.committed w' ≡ S.committed w)
      ⊎ ((a : A) × Unconfirmed body w a × P (S.committed w) a (S.committed w'))

  abbrev opened : PgTransaction Q
  opened = record { connection = some c; active = true }

  -- The destructor does not throw, and changes nothing that is committed.
  record RolledBack (u : Q.World) (r : Result (Unit {0}) × Q.World) : Type 0 where
    after : Q.World
    no_throw : r ≡ (ok tt, after)
    same : S.committed after ≡ S.committed u

  after_rollback :
      (u : Q.World) (r : Result PgResult × Q.World)
      → Ran Q (Q.exec c (codes "ROLLBACK")) u r
      → RolledBack u (handle_result (bind_result r (λ _. pure tt)) (λ _. pure tt))
  unfolding pure
  after_rollback u r (refused x) = record { after = u; no_throw = refl; same = refl }
  after_rollback u r (failed x f) = record {
    after = _;
    no_throw = refl;
    same = laws.rollback_keeps u;
  }
  after_rollback u r (ran reply f g) = record {
    after = _;
    no_throw = refl;
    same = laws.rollback_keeps u;
  }

  rollback-RolledBack : (u : Q.World) → RolledBack u (rollback Q opened u)
  unfolding rollback catching ◌>>=◌ execute
  rollback-RolledBack u =
      after_rollback u (execute Q (some c) (codes "ROLLBACK") u)
        (checked-Ran c _ (λ c. Q.exec c (codes "ROLLBACK")) u)

  module _ {A : Type 0} (P : S.Tables → A → S.Tables → Type 0) (body : Io Q.World A) where
    thrown :
        (w u : Q.World) (e : Exception)
        → S.committed u ≡ S.committed w
        → Settled P body w ((rollback Q opened >> throw e) u)
    unfolding ◌>>◌ ◌>>=◌ throw
    thrown w u e same = let r = rollback-RolledBack u in rw r.no_throw (inl (r.same ∙ same))

    thrown_unconfirmed :
        (w u : Q.World) (e : Exception) (a : A)
        → Unconfirmed body w a
        → P (S.committed w) a (S.committed u)
        → Settled P body w ((rollback Q opened >> throw e) u)
    unfolding ◌>>◌ ◌>>=◌ throw
    thrown_unconfirmed w u e a sent p =
        let r = rollback-RolledBack u in rw r.no_throw (inr (a, sent, rw r.same p))

    commit_failed :
        (w u : Q.World) (e : Exception) (a : A)
        → S.committed u ≡ S.committed w
        → S.in_block u ≡ true
        → P (S.committed w) a (S.working u)
        → Unconfirmed body w a
        → Settled P body w ((rollback Q opened >> throw e) (Q.exec c (codes "COMMIT") u).1)
    commit_failed w u e a same inside p sent = elim (laws.commit_atomic u inside) [
      | inl none_of_it ↦ thrown w _ e (none_of_it ∙ same)
      | inr all_of_it ↦ thrown_unconfirmed w _ e a sent (rw all_of_it p)
    ]

    after_commit :
        (w u : Q.World) (a : A) (r : Result PgResult × Q.World)
        → body (Q.exec c (codes "BEGIN") w).1 ≡ (ok a, u)
        → S.committed u ≡ S.committed w
        → S.in_block u ≡ true
        → P (S.committed w) a (S.working u)
        → Ran Q (Q.exec c (codes "COMMIT")) u r
        → Settled P body w (
            leave Q opened (
              bind_result
                (bind_result r (λ _. pure (record opened { active = false })))
                (λ t'. pure (a, t'))))
    unfolding pure ◌>>◌ ◌>>=◌ rollback
    after_commit w u a r reached same inside p (refused e) = thrown w u e same
    after_commit w u a r reached same inside p (failed e bad) =
        commit_failed w u e a same inside p (u, reached, bad)
    after_commit w u a r reached same inside p (ran reply g good) =
        let (left, applied) = laws.commit_applies u inside (rw g good) in (left, rw applied p)

    after_body :
        (w : Q.World) (r : Result A × Q.World)
        → body (Q.exec c (codes "BEGIN") w).1 ≡ r
        → S.committed r.1 ≡ S.committed w
        → ((a : A) (u : Q.World)
            → r ≡ (ok a, u)
            → (S.in_block u ≡ true) × P (S.committed w) a (S.working u))
        → Settled P body w
            (leave Q opened (bind_result r (λ a. commit Q opened >>= λ t'. pure (a, t'))))
    unfolding ◌>>=◌ commit
    after_body w (err e, u) reached same h = thrown w u e same
    after_body w (ok a, u) reached same h =
        let (inside, p) = h a u refl in
        after_commit w u a (execute Q (some c) (codes "COMMIT") u) reached same inside p
          (unfold execute in checked-Ran c _ (λ c. Q.exec c (codes "COMMIT")) u)

    after_begin :
        (w : Q.World) (r : Result PgResult × Q.World)
        → S.in_block w ≡ false
        → Works P body
        → Ran Q (Q.exec c (codes "BEGIN")) w r
        → Settled P body w (
            bind_result
              (bind_result r (λ _. pure opened))
              (λ t u. leave Q t ((body >>= λ a. commit Q t >>= λ t'. pure (a, t')) u)))
    unfolding pure ◌>>=◌
    after_begin w r idle h (refused e) = inl refl
    after_begin w r idle h (failed e bad) = inl (laws.begin_keeps w)
    after_begin w r idle h (ran reply g good) =
        let u = (Q.exec c (codes "BEGIN") w).1 in
        let (inside, start) = laws.begin_opens w idle (rw g good) in
        after_body w (body u) refl (h.keeps u inside ∙ laws.begin_keeps w)
          (λ a v e. let (still, p) = h.works u v a inside e in (still, rw (← start) p))

    -- Over a database that keeps the promises, outside of a transaction block, a transaction around
    -- work that commits nothing in a block and, with a result, has done `P`, is all or
    -- nothing. With a result `P` is committed and the block is left. After an exception nothing is
    -- committed, except that where the work was done and its COMMIT was sent and did not report
    -- success, `P` may be committed, and then as a whole.
    pub in_transaction-Settled :
        (w : Q.World)
        → S.in_block w ≡ false
        → Works P body
        → Settled P body w (in_transaction Q (some c) body w)
    unfolding in_transaction begin ◌>>=◌
    in_transaction-Settled w idle h =
        after_begin w (execute Q (some c) (codes "BEGIN") w) idle h
          (unfold execute in checked-Ran c _ (λ c. Q.exec c (codes "BEGIN")) w)
