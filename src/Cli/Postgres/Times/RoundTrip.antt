-- ===== src/Cli/Postgres/Times/RoundTrip.antt =====
-- `parse_timestamp` of src/cli/postgres_cli.cpp on what `timestamp_to_utc_text` and
-- `format_timestamp` print.
use fin_core_streaming_syste.Prelude.{
  ℕ, ◌-◌, ◌*◌, ◌/◌, ◌%◌, ◌^◌, ◌≤◌, ◌<◌, ◌≡◌, ◌≢◌, refl, ◌∙◌, ap, Bool-cases, inl, inr, true, false,
  arith, ok, err, Message, lit, invalid_argument,
}
use fin_core_streaming_syste.Prelude.Int.{ℤ, pos, negsuc, pos_part, neg_part, IsInt64, ◌+ℤ◌}
use fin_core_streaming_syste.Cli.Postgres.Times.{
  time_point_of, to_time_t, same_time, is_minus_one, checked_time, parse_timestamp,
}
use fin_core_streaming_syste.Cli.Postgres.Times.Fields.{InRange}
use fin_core_streaming_syste.Cli.Postgres.Times.Printed.{parse_timestamp-text}
use fin_core_streaming_syste.Domain.Calendar.{
  Tm, gmtime, floor_div, floor_mod, epoch_days, civil_of, era_year, era_month, days_before,
  days_before_month,
}
use fin_core_streaming_syste.Domain.Calendar.Civil.{timegm-gmtime}
use fin_core_streaming_syste.Domain.MarketData.{Timestamp}
use fin_core_streaming_syste.Domain.Timestamps.{micros_of, seconds_of, timestamp_to_utc_text}
use fin_core_streaming_syste.Storage.Repository.{from_micros}

-- A calendar date of four digits.
IsDate : ℕ × ℕ × ℕ → Type 0
IsDate (year, month, day) = (year ≤ 9_999) × (1 ≤ month) × (month ≤ 12) × (1 ≤ day) × (day ≤ 31)

month_length : (rest : ℕ) → rest < 366 → rest - days_before_month (era_month rest) < 31
month_length rest h = omega arith

year-IsDate : (days : ℕ) → days < 146_097 * 20 → IsDate (civil_of days)
unfolding civil_of IsDate
year-IsDate days h =
    let day = days % 146_097 in
    let rest = day - days_before (era_year day) in
    let small : rest < 366 = omega arith in ground (arith, month_length rest small)

seconds-range :
    (t : Timestamp)
    → IsInt64 t
    → (pos_part (seconds_of t) < 10 ^ 10) × (neg_part (seconds_of t) < 10 ^ 10)
seconds-range (pos n) h = omega arith
seconds-range (negsuc n) h = omega arith

days-lt :
    (z : ℤ) → pos_part z < 10 ^ 10 → pos_part (floor_div z 86_400 +ℤ pos epoch_days) < 146_097 * 20
unfolding ◌+ℤ◌
days-lt (pos n) h = ground arith
days-lt (negsuc n) h = ground arith

floor_mod-lt : (z : ℤ) (k : ℕ) → 0 < k → floor_mod z k < k
floor_mod-lt (pos n) k h = ground arith
floor_mod-lt (negsuc n) k h = ground arith

gmtime-InRange : (z : ℤ) → pos_part z < 10 ^ 10 → InRange (gmtime z)
unfolding gmtime IsDate
gmtime-InRange z h =
    let date = year-IsDate (pos_part (floor_div z 86_400 +ℤ pos epoch_days)) (days-lt z h) in
    let rest = floor_mod-lt z 86_400 (omega arith) in
    record {
      year = date.0;
      month = (date.1, date.2);
      day = (date.3, date.4);
      hour = omega (arith, rest);
      minute = omega (arith, rest);
      second = omega (arith, rest);
    }

pub same_time_self : (t : Tm) → same_time t t ≡ true
unfolding same_time
same_time_self t = ground arith

-- The time is printed so that it can be read: from the epoch on, or a whole second before it other
-- than the last one.
abbrev pub IsReadable : Timestamp → Type 0
IsReadable (pos n) = Unit
IsReadable (negsuc n) = (n / 1_000 % 1_000_000 ≡ 999_999) × (n / 1_000_000_000 ≢ 0)

module _ (t : Timestamp) (fits : IsInt64 t) where
  abbrev z : ℤ
  z = seconds_of t

  abbrev micros : ℕ
  micros = floor_mod (micros_of t) 1_000_000

  printed :
      (now : Timestamp)
      → parse_timestamp now (timestamp_to_utc_text t) ≡ checked_time (gmtime z) z micros
  unfolding timestamp_to_utc_text
  printed now =
      let (up, down) = seconds-range t fits in
      parse_timestamp-text (gmtime z) (gmtime-InRange z up) micros
        (floor_mod-lt (micros_of t) 1_000_000 (omega arith)) now
      ∙ ap (λ s. checked_time (gmtime s) s micros) (timegm-gmtime z (omega (arith, down)))

time_point-readable :
    (t : Timestamp)
    → IsInt64 t
    → IsReadable t
    → time_point_of (seconds_of t) (floor_mod (micros_of t) 1_000_000) ≡ from_micros (micros_of t)
unfolding time_point_of
time_point-readable (pos n) h r = ground arith
time_point-readable (negsuc n) h (whole, before) = ground arith

to_time_t-readable :
    (t : Timestamp) → IsReadable t → to_time_t (from_micros (micros_of t)) ≡ seconds_of t
unfolding to_time_t
to_time_t-readable (pos n) r = ground arith
to_time_t-readable (negsuc n) (whole, before) = ground arith

not_minus_one : (t : Timestamp) → IsReadable t → is_minus_one (seconds_of t) ≡ false
not_minus_one (pos n) r = refl
not_minus_one (negsuc n) (whole, before) = ground arith

same_time-second :
    (a b : ℤ)
    → floor_mod a 86_400 % 60 ≢ floor_mod b 86_400 % 60
    → same_time (gmtime a) (gmtime b) ≡ false
unfolding same_time gmtime
same_time-second a b ne = ground arith

other_second :
    (n : ℕ)
    → n < 2 ^ 63
    → n / 1_000 % 1_000_000 ≢ 999_999
    → let z = seconds_of (negsuc n) in
      let micros = floor_mod (micros_of (negsuc n)) 1_000_000 in
      floor_mod (to_time_t (time_point_of z micros)) 86_400 % 60 ≢ floor_mod z 86_400 % 60
unfolding time_point_of to_time_t
other_second n h part = ground arith

-- A timestamp that is printed by `format_timestamp`, or for the database, is read back, rounded down to
-- microseconds, where it is at or behind the epoch, or a whole number of seconds in front of it
-- other than one.
pub parse_timestamp-utc_text :
    (now t : Timestamp)
    → IsInt64 t
    → IsReadable t
    → parse_timestamp now (timestamp_to_utc_text t) ≡ ok (from_micros (micros_of t))
unfolding checked_time
parse_timestamp-utc_text now t fits r =
    rw
      (
        printed t fits now,
        not_minus_one t r,
        time_point-readable t fits r,
        to_time_t-readable t r,
        same_time_self (gmtime (seconds_of t)),
      )
      refl

-- Every timestamp in front of the epoch with a fraction of a second, counted in microseconds, is printed
-- as a text that `parse_timestamp` refuses.
pub parse_timestamp-before_epoch :
    (now : Timestamp) (n : ℕ)
    → n < 2 ^ 63
    → n / 1_000 % 1_000_000 ≢ 999_999
    → (m : Message) × (parse_timestamp now (timestamp_to_utc_text (negsuc n))
        ≡ err (invalid_argument m))
unfolding checked_time
parse_timestamp-before_epoch now n h part =
    let e = printed (negsuc n) h now in
    elim (Bool-cases (is_minus_one (seconds_of (negsuc n)))) [
      | inl one ↦ (lit "timestamp is outside the supported range", rw (e, one) refl)
      | inr more ↦ (
        lit "timestamp contains an invalid calendar date",
        rw (e, more, same_time-second _ _ (other_second n h part)) refl,
      )
    ]
