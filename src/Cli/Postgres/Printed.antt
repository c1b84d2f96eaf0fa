-- ===== src/Cli/Postgres/Printed.antt =====
-- The command `quote` of src/cli/postgres_cli.cpp on the texts that `latest-quote` prints, over the
-- PostgreSQL repository.
use fin_core_streaming_syste.Prelude.{
  ◌≡◌, refl, inl, inr, Bool-cases, false, Option, none, some, List, [], ◌∷◌, Text, codes, text_eq,
  text_eq_iff, ok, err, invalid_argument, lit,
}
use fin_core_streaming_syste.Prelude.Int.{IsInt64}
use fin_core_streaming_syste.Cli.Postgres.Times.{upper}
use fin_core_streaming_syste.Cli.Postgres.Times.RoundTrip.{IsReadable, parse_timestamp-utc_text}
use fin_core_streaming_syste.Cli.Postgres.Requests.{arg, require_count, change_of, quote_of}
use fin_core_streaming_syste.Domain.Decimal.{Decimal, to_string, from_string, from_unsigned}
use fin_core_streaming_syste.Domain.Decimal.RoundTrip.{from_string-to_string}
use fin_core_streaming_syste.Domain.MarketData.{Quote, Timestamp}
use fin_core_streaming_syste.Domain.Timestamps.{timestamp_to_utc_text}
use fin_core_streaming_syste.Storage.Repository.Row.{Fits, IsOptionalInt64, in_micros}

-- A change as `latest-quote` prints it, with the dash of the arguments for its `null`.
abbrev pub change_text : Option Decimal → Text
change_text none = codes "-"
change_text (some d) = to_string d

-- The command `quote` with the printed columns.
abbrev pub quote_args : Quote → List Text
quote_args quote =
    codes "quote"
    ∷ quote.symbol
    ∷ quote.source
    ∷ timestamp_to_utc_text quote.timestamp
    ∷ to_string quote.price
    ∷ to_string quote.opening
    ∷ to_string quote.high
    ∷ to_string quote.low
    ∷ to_string quote.volume
    ∷ change_text quote.change_pct
    ∷ []

dash_fails :
    from_string (codes "-") ≡ err (invalid_argument (lit "decimal has a sign but no digits"))
unfolding from_string from_unsigned
dash_fails = refl

to_string-no_dash : (d : Decimal) → IsInt64 d → text_eq (to_string d) (codes "-") ≡ false
to_string-no_dash d h = elim (Bool-cases (text_eq (to_string d) (codes "-"))) [
  | inr other ↦ other
  | inl same ↦
      let e = (text_eq_iff (to_string d) (codes "-")).0 same in
      cc (e, dash_fails, from_string-to_string d h)
]

change-read :
    (change : Option Decimal) → IsOptionalInt64 change → change_of (change_text change) ≡ ok change
unfolding text_eq
change-read none h = refl
change-read (some d) h = rw (to_string-no_dash d h, from_string-to_string d h) refl

-- The columns of a quote, as `latest-quote` prints them, are read by the command `quote` as the quote
-- with its timestamp rounded down to microseconds, where its numbers fit, its timestamp is one that
-- can be read back, and its names are in upper case.
pub quote_of-quote_args :
    (now : Timestamp) (quote : Quote)
    → Fits quote
    → IsReadable quote.timestamp
    → upper quote.symbol ≡ quote.symbol
    → upper quote.source ≡ quote.source
    → quote_of now (quote_args quote) ≡ ok (in_micros quote)
unfolding quote_of require_count arg
quote_of-quote_args now quote fits readable symbol source =
    rw
      (
        parse_timestamp-utc_text now quote.timestamp fits.timestamp readable,
        from_string-to_string quote.price fits.price,
        from_string-to_string quote.opening fits.opening,
        from_string-to_string quote.high fits.high,
        from_string-to_string quote.low fits.low,
        from_string-to_string quote.volume fits.volume,
        change-read quote.change_pct fits.change_pct,
        symbol,
        source,
      )
      refl
