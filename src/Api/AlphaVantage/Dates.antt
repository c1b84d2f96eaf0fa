-- ===== src/Api/AlphaVantage/Dates.antt =====
-- The date of a quote in `parse_quote` of src/api/alpha_vantage_client.cpp.
use fin_core_streaming_syste.Prelude.{
  ℕ, ◌+◌, ◌-◌, ◌*◌, ◌^◌, ◌<◌, ◌≡◌, ◌≢◌, refl, false, some, [], ◌∷◌, ◌++◌, Text, length, arith, All,
}
use fin_core_streaming_syste.Prelude.Int.{pos}
use fin_core_streaming_syste.Api.Json.{read_int, int_of}
use fin_core_streaming_syste.Api.AlphaVantage.{Web, read_date, to_micros}
use fin_core_streaming_syste.Cli.Parse.{read_digits}
use fin_core_streaming_syste.Cli.Postgres.Times.{time_point_of}
use fin_core_streaming_syste.Core.Double.{Double}
use fin_core_streaming_syste.Domain.Decimal.Spelling.{IsDigit, value}

read_digits-dash :
    (s rest : Text) (v used : ℕ)
    → All IsDigit s
    → read_digits (s ++ (b'-' ∷ rest)) v used ≡ (value v s, used + length s)
unfolding read_digits
read_digits-dash [] rest v used h = ground arith
read_digits-dash (c ∷ s) rest v used (h, hs) =
    ground (arith, read_digits-dash s rest (v * 10 + (c - b'0')) (used + 1) hs)

read_int-digits :
    (s rest : Text)
    → s ≢ []
    → All IsDigit s
    → read_int (s ++ (b'-' ∷ rest)) ≡ int_of false (read_digits (s ++ (b'-' ∷ rest)) 0 0)
unfolding read_int
read_int-digits [] rest ne h = absurd (ne refl)
read_int-digits (c ∷ s) rest ne (h, hs) = ground arith

length-pos : (s : Text) → s ≢ [] → 0 < length s
length-pos [] h = absurd (h refl)
length-pos (c ∷ s) h = omega arith

-- The time of a date that begins with a year of digits below 2^31 and a dash is that of `mktime` for the year as a count of
-- years since 1900, in the wrap-around of the clock's nanoseconds, whatever month and day
-- follow.
pub read_date-year :
    {D : Double} (V : Web D) (year rest : Text)
    → year ≢ []
    → All IsDigit year
    → value 0 year < 2 ^ 31
    → read_date V (some (year ++ (b'-' ∷ rest)))
      ≡ to_micros (time_point_of (V.mktime (pos (value 0 year))) 0)
unfolding read_date
read_date-year V year rest ne digits small =
    let e : read_int (year ++ (b'-' ∷ rest)) ≡ some (pos (value 0 year)) =
      rw (read_int-digits year rest ne digits, read_digits-dash year rest 0 0 digits)
        (ground (arith, length-pos year ne)) in
    rw e refl
