-- ===== src/Domain/Timestamps.antt =====
-- A timestamp as text: `timestamp_to_utc_text` of
-- src/storage/persistence/postgres/postgres_market_data_repository.cpp, which is also
-- `format_timestamp` of src/cli/postgres_cli.cpp.
use fin_core_streaming_syste.Prelude.{ℕ, ◌-◌, [], ◌∷◌, ◌++◌, Text, length, replicate}
use fin_core_streaming_syste.Prelude.Int.{ℤ}
use fin_core_streaming_syste.Domain.Decimal.{to_text}
use fin_core_streaming_syste.Domain.Calendar.{Tm, floor_div, floor_mod, gmtime}
use fin_core_streaming_syste.Domain.MarketData.{Timestamp}

-- A number with zeros in front, as `std::setw` with `std::setfill('0')` writes it.
unfoldable pub padded : ℕ → ℕ → Text
padded width n = replicate (width - length (to_text n)) b'0' ++ to_text n

-- `std::put_time` with `%Y-%m-%dT%H:%M:%S`.
unfoldable pub put_time : Tm → Text
put_time t =
    padded 4 t.year
    ++ (b'-'
        ∷ (padded 2 t.month
            ++ (b'-'
                ∷ (padded 2 t.day
                    ++ (b'T'
                        ∷ (padded 2 t.hour
                            ++ (b':' ∷ (padded 2 t.minute ++ (b':' ∷ padded 2 t.second)))))))))

-- `floor<microseconds>` and `floor<seconds>` of a count of nanoseconds.
abbrev pub micros_of : Timestamp → ℤ
micros_of timestamp = floor_div timestamp 1_000

abbrev pub seconds_of : Timestamp → ℤ
seconds_of timestamp = floor_div (micros_of timestamp) 1_000_000

unfoldable pub timestamp_to_utc_text : Timestamp → Text
timestamp_to_utc_text timestamp =
    put_time (gmtime (seconds_of timestamp))
    ++ (b'.' ∷ (padded 6 (floor_mod (micros_of timestamp) 1_000_000) ++ (b'Z' ∷ [])))
