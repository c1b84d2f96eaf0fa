-- ===== src/Storage/Repository/Row.antt =====
-- The row that `latest_quote` of
-- src/storage/persistence/postgres/postgres_market_data_repository.cpp reads.
use fin_core_streaming_syste.Prelude.{
  ℕ, ap, ◌∙◌, ◌<◌, ◌≡◌, refl, Bool, true, false, not, Option, none, some, List, [], ◌∷◌, Text, ok,
  arith, is_some, if◌then◌else◌, ◌==◌,
}
use fin_core_streaming_syste.Prelude.Int.{pos, negsuc, IsInt64}
use fin_core_streaming_syste.Prelude.Io.{pure, lift, ◌>>=◌}
use fin_core_streaming_syste.Domain.Decimal.{Decimal, to_string}
use fin_core_streaming_syste.Domain.Decimal.RoundTrip.{from_string-to_string}
use fin_core_streaming_syste.Domain.MarketData.{Quote, Timestamp}
use fin_core_streaming_syste.Domain.Timestamps.{micros_of}
use fin_core_streaming_syste.Storage.Numbers.{signed_text, whole_i64-signed_text}
use fin_core_streaming_syste.Storage.Libpq.{Libpq, Reply}
use fin_core_streaming_syste.Storage.Connection.{
  SqlParameter, rows, is_null, value, execute_prepared, checked, check_result,
}
use fin_core_streaming_syste.Storage.Repository.{
  from_micros, timestamp_from_epoch_microseconds, optional_decimal_text, change_of, quote_of_row,
  latest_quote,
}
use fin_core_streaming_syste.Storage.Repository.Statements.{latest_quote_name}

abbrev pub IsOptionalInt64 : Option Decimal → Type 0
IsOptionalInt64 none = Unit
IsOptionalInt64 (some d) = IsInt64 d

-- A quote of which every number fits into 64 bits.
pub record Fits (quote : Quote) : Type 0 where
  pub timestamp : IsInt64 quote.timestamp
  pub price : IsInt64 quote.price
  pub opening : IsInt64 quote.opening
  pub high : IsInt64 quote.high
  pub low : IsInt64 quote.low
  pub volume : IsInt64 quote.volume
  pub change_pct : IsOptionalInt64 quote.change_pct

-- The first row of a reply holds the columns of a quote: the timestamp in microseconds, the decimals
-- as they are printed, and NULL for no change.
pub record Holds (r : Reply) (quote : Quote) : Type 0 where
  pub some_row : 0 < r.tuples
  pub nine_columns : r.fields ≡ 9
  pub symbol : r.cell 0 0 ≡ some quote.symbol
  pub source : r.cell 0 1 ≡ some quote.source
  pub timestamp : r.cell 0 2 ≡ some (signed_text (micros_of quote.timestamp))
  pub price : r.cell 0 3 ≡ some (to_string quote.price)
  pub opening : r.cell 0 4 ≡ some (to_string quote.opening)
  pub high : r.cell 0 5 ≡ some (to_string quote.high)
  pub low : r.cell 0 6 ≡ some (to_string quote.low)
  pub volume : r.cell 0 7 ≡ some (to_string quote.volume)
  pub change_pct : r.cell 0 8 ≡ optional_decimal_text quote.change_pct

-- The quote with its timestamp rounded down to microseconds.
abbrev pub in_micros : Quote → Quote
in_micros quote = record quote { timestamp = from_micros (micros_of quote.timestamp) }

-- What a reply says: no row, or the row of a quote.
abbrev pub IsAnswer : Reply → Option Quote → Type 0
IsAnswer r none = r.tuples ≡ 0
IsAnswer r (some quote) = Holds r quote × Fits quote

abbrev pub rounded : Option Quote → Option Quote
rounded none = none
rounded (some quote) = some (in_micros quote)

value-at :
    (r : Reply) (k : ℕ) (text : Text)
    → 0 < r.tuples
    → k < r.fields
    → r.cell 0 k ≡ some text
    → value (some r) 0 k ≡ ok text
unfolding value
value-at r k text h i e = ground arith

is_null-at :
    (r : Reply) (k : ℕ)
    → 0 < r.tuples
    → k < r.fields
    → is_null (some r) 0 k ≡ ok (not (is_some (r.cell 0 k)))
unfolding is_null
is_null-at r k h i = ground arith

micros-IsInt64 : (t : Timestamp) → IsInt64 t → IsInt64 (micros_of t)
micros-IsInt64 (pos n) h = omega arith
micros-IsInt64 (negsuc n) h = omega arith

epoch-read :
    (t : Timestamp)
    → IsInt64 t
    → timestamp_from_epoch_microseconds (signed_text (micros_of t)) ≡ ok (from_micros (micros_of t))
unfolding timestamp_from_epoch_microseconds
epoch-read t h = rw (whole_i64-signed_text (micros_of t) (micros-IsInt64 t h)) refl

change-read :
    (r : Reply) (change : Option Decimal)
    → 0 < r.tuples
    → r.fields ≡ 9
    → r.cell 0 8 ≡ optional_decimal_text change
    → IsOptionalInt64 change
    → change_of (some r) (not (is_some (r.cell 0 8))) ≡ ok change
unfolding optional_decimal_text
change-read r none h nine e i = rw e refl
change-read r (some d) h nine e i =
    rw (e, value-at r 8 (to_string d) h (omega arith) e, from_string-to_string d i) refl

module _ (Q : Libpq) where
  quote_of_row-Holds :
      (r : Reply) (quote : Quote) (w : Q.World)
      → Holds r quote
      → Fits quote
      → quote_of_row Q (some r) w ≡ (ok (in_micros quote), w)
  unfolding quote_of_row ◌>>=◌ lift pure
  quote_of_row-Holds r quote w h fits =
      let some_row = h.some_row in
      let nine = h.nine_columns in
      rw
        (
          value-at r 0 _ some_row (omega arith) h.symbol,
          value-at r 1 _ some_row (omega arith) h.source,
          value-at r 2 _ some_row (omega arith) h.timestamp,
          epoch-read quote.timestamp fits.timestamp,
          value-at r 3 _ some_row (omega arith) h.price,
          from_string-to_string quote.price fits.price,
          value-at r 4 _ some_row (omega arith) h.opening,
          from_string-to_string quote.opening fits.opening,
          value-at r 5 _ some_row (omega arith) h.high,
          from_string-to_string quote.high fits.high,
          value-at r 6 _ some_row (omega arith) h.low,
          from_string-to_string quote.low fits.low,
          value-at r 7 _ some_row (omega arith) h.volume,
          from_string-to_string quote.volume fits.volume,
          is_null-at r 8 some_row (omega arith),
          change-read r quote.change_pct some_row nine h.change_pct fits.change_pct,
        )
        refl

  open_guard :
      (A : Type 0) (b : Bool) (x y : A) → b ≡ true → elim b as (λ _. A) [ true ↦ x | false ↦ y ] ≡ x
  open_guard A true x y e = refl
  open_guard A false x y e = cc

  execute_prepared-ok :
      (c : Q.Handle) (name : Text) (parameters : List SqlParameter) (w : Q.World) (r : Reply)
      → Q.status_ok c w ≡ true
      → (Q.exec_prepared c name parameters w).0 ≡ some r
      → r.succeeded ≡ true
      → execute_prepared Q (some c) name parameters w
        ≡ (ok (some r), (Q.exec_prepared c name parameters w).1)
  unfolding execute_prepared checked check_result
  execute_prepared-ok c name parameters w r open_it reply good =
      open_guard _ (Q.status_ok c w) _ _ open_it ∙ (rw (reply, good) refl)

  after_call :
      (r : Reply) (quote : Quote) (w : Q.World) (empty : Bool)
      → Holds r quote
      → Fits quote
      → empty ≡ false
      → (if empty then pure none else (quote_of_row Q (some r) >>= λ q. pure (some q))) w
        ≡ (ok (some (in_micros quote)), w)
  unfolding ◌>>=◌ pure
  after_call r quote w true h fits e = cc
  after_call r quote w false h fits e = rw (quote_of_row-Holds r quote w h fits) refl

  -- On an open connection, where the prepared query succeeds, `latest_quote` returns the quote whose
  -- columns the first row holds as the code writes them, with the timestamp rounded down to
  -- microseconds, if its numbers fit into 64 bits; and no quote where there is no row.
  pub latest_quote-IsAnswer :
      (c : Q.Handle) (symbol source : Text) (w : Q.World) (r : Reply) (latest : Option Quote)
      → Q.status_ok c w ≡ true
      → (Q.exec_prepared c latest_quote_name (some symbol ∷ some source ∷ []) w).0 ≡ some r
      → r.succeeded ≡ true
      → IsAnswer r latest
      → (latest_quote Q (some c) symbol source w).0 ≡ ok (rounded latest)
  unfolding latest_quote ◌>>=◌ rows pure
  latest_quote-IsAnswer c symbol source w r none open_it reply good empty =
      rw (execute_prepared-ok c _ _ w r open_it reply good, empty) refl
  latest_quote-IsAnswer c symbol source w r (some quote) open_it reply good (h, fits) =
      rw (execute_prepared-ok c _ _ w r open_it reply good)
        (ap (λ p. p.0) (after_call r quote _ (r.tuples == 0) h fits (ground (arith, h.some_row))))
