-- ===== src/Storage/CliPostgres/Errors.antt =====
-- The error texts of src/storage/cli_postgres.cpp: the loop of `set_error`, and `last_error_`.
use fin_core_streaming_syste.Prelude.{
  ℕ, zero, suc, ◌<◌, ◌≡◌, refl, sym, ap, ◌∙◌, Bool, true, false, Option, none, some, List, [], ◌∷◌,
  ◌++◌, map, codes, append_assoc, append-nil, All, All-append, length, arith, Text, inl, inr,
  Bool-cases, true≢false,
}
use fin_core_streaming_syste.Core.Double.{Double}
use fin_core_streaming_syste.Core.Types.{Quote, OrderBookSnapshot, TimePoint}
use fin_core_streaming_syste.Storage.CliPostgres.{
  is_break, ends_in_break, pop_back, pop_breaks, trimmed, CliPostgres, is_connected, set_error,
  execute, ensure_instrument, store_quote, store_snapshot, if_ensured, report, send, accepted,
  instrument_sql, quote_sql, snapshot_sql, quote_values, snapshot_values,
}
use fin_core_streaming_syste.Storage.Libpq.{Libpq}

length-pop_back : (s : Text) → ends_in_break s ≡ true → suc (length (pop_back s)) ≡ length s
unfolding pop_back ends_in_break
length-pop_back [] h = cc
length-pop_back (c ∷ []) h = refl
length-pop_back (c ∷ (d ∷ s)) h = ap suc (length-pop_back (d ∷ s) h)

pop_back-split :
    (s : Text)
    → ends_in_break s ≡ true
    → (c : ℕ) × (is_break c ≡ true) × (s ≡ pop_back s ++ (c ∷ []))
unfolding pop_back ends_in_break
pop_back-split [] h = absurd (true≢false (sym h))
pop_back-split (c ∷ []) h = (c, h, refl)
pop_back-split (c ∷ (d ∷ s)) h =
    let (e, p, q) = pop_back-split (d ∷ s) h in (e, p, ap (λ t. c ∷ t) q)

-- What the loop leaves: the text without the line breaks at its end.
pub record Stripped (error : Text) (result : Option Text) : Type 0 where
  pub kept : Text
  pub breaks : Text
  pub ends : result ≡ some kept
  pub parts : error ≡ kept ++ breaks
  pub only_breaks : All (λ c. is_break c ≡ true) breaks
  pub no_break : ends_in_break kept ≡ false

Stripped-pop :
    (error : Text) (result : Option Text)
    → ends_in_break error ≡ true
    → Stripped (pop_back error) result
    → Stripped error result
Stripped-pop error result h p =
    let (c, is, split) = pop_back-split error h in
    record {
      kept = p.kept;
      breaks = p.breaks ++ (c ∷ []);
      ends = p.ends;
      parts = split ∙ ap (λ t. t ++ (c ∷ [])) p.parts ∙ append_assoc p.kept p.breaks (c ∷ []);
      only_breaks = All-append _ p.breaks (c ∷ []) p.only_breaks (is, tt);
      no_break = p.no_break;
    }

-- With more rounds than the text has characters the loop of CliPostgres::set_error ends, and
-- leaves the text without the line breaks at its end: what it removes is line breaks only, and
-- what is left ends in none.
pub pop_breaks-Stripped :
    (fuel : ℕ) (error : Text) → length error < fuel → Stripped error (pop_breaks fuel error)
unfolding pop_breaks
pop_breaks-Stripped zero error h = elim h [ ]
pop_breaks-Stripped (suc fuel) error h = elim (Bool-cases (ends_in_break error)) [
  | inl more ↦
      rw (more, pop_breaks)
        (Stripped-pop error _ more
          (pop_breaks-Stripped fuel (pop_back error) (omega (arith, length-pop_back error more))))
  | inr done ↦
      rw (done, pop_breaks)
        (record {
          kept = error;
          breaks = [];
          ends = refl;
          parts = sym (append-nil error);
          only_breaks = tt;
          no_break = done;
        })
]

trimmed_lem : (error : Text) → ends_in_break (trimmed error) ≡ false
unfolding trimmed
trimmed_lem error =
    let p = pop_breaks-Stripped (suc (length error)) error (omega arith) in rw p.ends p.no_break

module _ {Q : Libpq} where
  -- What a call reports: success with no error, or failure with a last error that ends in no line
  -- break.
  pub data Reported : Bool × CliPostgres Q → Type 0 where
    worked : (s : CliPostgres Q) → s.last_error ≡ [] → Reported (true, s)
    failed : (s : CliPostgres Q) → ends_in_break s.last_error ≡ false → Reported (false, s)

  set_error-Reported : (error : Text) (s : CliPostgres Q) → Reported (false, set_error Q error s)
  unfolding set_error
  set_error-Reported error s = failed _ (trimmed_lem error)

  report-Reported : (c : Q.Handle) (s : CliPostgres Q) (b : Bool) → Reported (report Q c s b)
  report-Reported c s true = worked _ refl
  report-Reported c s false = set_error-Reported (Q.error_message c s.world) s

  send-Reported :
      (connection : Option Q.Handle) (sql : Text) (values : List Text) (s : CliPostgres Q)
      → Reported (send Q connection sql values s)
  send-Reported none sql values s = set_error-Reported (codes "PostgreSQL is disconnected") s
  send-Reported (some c) sql values s =
      let (reply, w) = Q.exec_params c sql (map some values) s.world in
      report-Reported c (record s { world = w }) (accepted Q reply)

  pub execute-Reported :
      (sql : Text) (values : List Text) (s : CliPostgres Q) → Reported (execute Q sql values s)
  unfolding execute
  execute-Reported sql values s =
      elim (is_connected Q s)
        as (λ b. Reported (elim b [
          | true ↦ send Q s.connection sql values s
          | false ↦ (false, set_error Q (codes "PostgreSQL is disconnected") s)
        ])) [
          | true ↦ send-Reported s.connection sql values s
          | false ↦ set_error-Reported (codes "PostgreSQL is disconnected") s
        ]

  ensured-Reported :
      (r : Bool × CliPostgres Q) (next : CliPostgres Q → Bool × CliPostgres Q)
      → Reported r
      → ((s : CliPostgres Q) → Reported (next s))
      → Reported (if_ensured Q r next)
  ensured-Reported _ next (worked s e) h = h s
  ensured-Reported _ next (failed s e) h = failed s e

  module _ {D : Double} (number : D.Num → Text) (now : Q.World → TimePoint) where
    -- CliPostgres::store_quote and store_snapshot leave no last error where they return true;
    -- where they return false the last error ends in no line break.
    stores-Reported :
        (quote : Quote D) (snapshot : OrderBookSnapshot D) (s : CliPostgres Q)
        → Reported (store_quote Q number now quote s)
          × Reported (store_snapshot Q number now snapshot s)
    unfolding store_quote store_snapshot ensure_instrument
    stores-Reported quote snapshot s = (
      ensured-Reported _ _ (execute-Reported instrument_sql (quote.symbol ∷ []) s)
          (λ s'. execute-Reported quote_sql (quote_values number (now s'.world) quote) s'),
      ensured-Reported _ _ (execute-Reported instrument_sql (snapshot.symbol ∷ []) s)
          (λ s'. execute-Reported snapshot_sql (snapshot_values number (now s'.world) snapshot) s'),
    )
