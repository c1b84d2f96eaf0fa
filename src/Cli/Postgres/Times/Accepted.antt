-- ===== src/Cli/Postgres/Times/Accepted.antt =====
-- The check of the calendar date in `parse_timestamp` of src/cli/postgres_cli.cpp, between 1970 and
-- 2261.
use fin_core_streaming_syste.Prelude.{
  ℕ, ◌+◌, ◌-◌, ◌*◌, ◌≤◌, ◌<◌, ◌≡◌, refl, ap, [], ◌∷◌, ◌++◌, arith, ok,
}
use fin_core_streaming_syste.Prelude.Int.{pos, ◌-ℤ◌}
use fin_core_streaming_syste.Cli.Postgres.Times.{
  time_point_of, to_time_t, checked_time, parse_timestamp,
}
use fin_core_streaming_syste.Cli.Postgres.Times.Fields.{InRange}
use fin_core_streaming_syste.Cli.Postgres.Times.Printed.{parse_timestamp-text}
use fin_core_streaming_syste.Cli.Postgres.Times.RoundTrip.{same_time_self}
use fin_core_streaming_syste.Domain.Calendar.{Tm, gmtime, timegm, days_of, epoch_days}
use fin_core_streaming_syste.Domain.MarketData.{Timestamp}
use fin_core_streaming_syste.Domain.Timestamps.{padded, put_time}

-- The seconds since the epoch, the days counted on from the first one of the month.
unfoldable pub seconds_since_epoch : Tm → ℕ
seconds_since_epoch t =
    (days_of t.year t.month 1 + (t.day - 1) - epoch_days) * 86_400
    + t.hour * 3_600
    + t.minute * 60
    + t.second

days_of-bounds :
    (year month day : ℕ)
    → 1_970 ≤ year
    → year ≤ 2_261
    → (1 ≤ month) × (month ≤ 12)
    → (1 ≤ day) × (day ≤ 31)
    → (days_of year month day ≡ days_of year month 1 + (day - 1))
      × (epoch_days ≤ days_of year month day)
      × (days_of year month day ≤ epoch_days + 106_651)
unfolding days_of
days_of-bounds year month day early late (m1, m12) (d1, d31) = ground arith

timegm-pos :
    (t : Tm)
    → InRange t
    → 1_970 ≤ t.year
    → t.year ≤ 2_261
    → ((timegm t).0 ≡ pos (seconds_since_epoch t)) × (seconds_since_epoch t ≤ 9_214_732_800)
unfolding timegm seconds_since_epoch ◌-ℤ◌
timegm-pos t r early late =
    let (e, low, high) = days_of-bounds t.year t.month t.day early late r.month r.day in
    let hour = r.hour in let minute = r.minute in let second = r.second in ground arith

time_point-pos :
    (n micros : ℕ)
    → n ≤ 9_214_732_800
    → micros < 1_000_000
    → time_point_of (pos n) micros ≡ pos (n * 1_000_000_000 + micros * 1_000)
unfolding time_point_of
time_point-pos n micros h small = ground arith

to_time_t-pos :
    (n micros : ℕ)
    → micros < 1_000_000
    → to_time_t (pos (n * 1_000_000_000 + micros * 1_000)) ≡ pos n
unfolding to_time_t
to_time_t-pos n micros small = ap pos (omega arith)

-- Between 1970 and 2261, `parse_timestamp` accepts every text of the form YYYY-MM-DDTHH:MM:SS.ffffffZ
-- whose fields are in their ranges, the day up to 31 in each month and the second up to 60: the check
-- of the calendar date refuses none of them. The days are counted on from the first one of the
-- month, so that a day behind the last one is read as a day of the next month, and the second 60 as
-- the next minute.
pub parse_timestamp-accepts :
    (now : Timestamp) (t : Tm) (micros : ℕ)
    → InRange t
    → 1_970 ≤ t.year
    → t.year ≤ 2_261
    → micros < 1_000_000
    → parse_timestamp now (put_time t ++ (b'.' ∷ (padded 6 micros ++ (b'Z' ∷ []))))
      ≡ ok (pos (seconds_since_epoch t * 1_000_000_000 + micros * 1_000))
unfolding checked_time
parse_timestamp-accepts now t micros r early late small =
    let (e, bound) = timegm-pos t r early late in
    rw
      (
        parse_timestamp-text t r micros small now,
        e,
        time_point-pos (seconds_since_epoch t) micros bound small,
        to_time_t-pos (seconds_since_epoch t) micros small,
        same_time_self (gmtime (pos (seconds_since_epoch t))),
      )
      refl
