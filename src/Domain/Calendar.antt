-- ===== src/Domain/Calendar.antt =====
-- `gmtime_r`, `timegm` and the calendar fields of a `struct tm`, as the source uses them to print
-- and to read timestamps; `timegm` also normalises the fields that it is given. The days are counted from 1 March of the year -400, so that they are not
-- negative at any time of `system_clock`, which counts nanoseconds in an `int64_t` (1677 to 2262).
pub mod Civil
use fin_core_streaming_syste.Prelude.{
  ℕ, ◌+◌, ◌-◌, ◌*◌, ◌/◌, ◌%◌, ◌≤◌, ◌<◌, ◌≡◌, Bool, if◌then◌else◌, ltb, arith,
}
use fin_core_streaming_syste.Prelude.Int.{ℤ, pos, negsuc, pos_part, ◌+ℤ◌, ◌-ℤ◌}

-- `tm_year + 1900`, `tm_mon + 1` and the other fields.
pub record Tm : Type 0 where
  pub year : ℕ
  pub month : ℕ
  pub day : ℕ
  pub hour : ℕ
  pub minute : ℕ
  pub second : ℕ

-- The days up to 1 January 1970.
abbrev pub epoch_days : ℕ
epoch_days = 719_468 + 146_097

-- Years begin in March; 400 of them are an era of 146097 days. The year of an era that holds the
-- day, the days of the years in front of it, and the month by its day.
abbrev pub era_year : ℕ → ℕ
era_year day = (day - day / 1_460 + day / 36_524 - day / 146_096) / 365

abbrev pub days_before : ℕ → ℕ
days_before year = year * 365 + year / 4 - year / 100

abbrev pub era_month : ℕ → ℕ
era_month day = (5 * day + 2) / 153

abbrev pub days_before_month : ℕ → ℕ
days_before_month month = (153 * month + 2) / 5

-- The year, the month and the day of a day number.
unfoldable pub civil_of : ℕ → ℕ × ℕ × ℕ
civil_of days =
    let day = days % 146_097 in
    let year = era_year day in
    let rest = day - days_before year in
    let month = era_month rest in
    let calendar_year = days / 146_097 * 400 + year in
    if ltb month 10
    then (calendar_year - 400, month + 3, rest - days_before_month month + 1)
    else (calendar_year + 1 - 400, month - 9, rest - days_before_month month + 1)

-- The number of a day; a day of the month that does not exist counts on, as in `timegm`.
unfoldable pub days_of : ℕ → ℕ → ℕ → ℕ
days_of year month day =
    let march_year = if ltb 2 month then year + 400 else year + 399 in
    let month_index = if ltb 2 month then month - 3 else month + 9 in
    march_year / 400 * 146_097
    + (days_before (march_year % 400) + (days_before_month month_index + (day - 1)))

-- The quotient that is rounded down, and what is left.
abbrev pub floor_div : ℤ → ℕ → ℤ
floor_div (pos n) k = pos (n / k)
floor_div (negsuc n) k = negsuc (n / k)

abbrev pub floor_mod : ℤ → ℕ → ℕ
floor_mod (pos n) k = n % k
floor_mod (negsuc n) k = k - 1 - n % k

unfoldable pub gmtime : ℤ → Tm
gmtime seconds =
    let (year, month, day) = civil_of (pos_part (floor_div seconds 86_400 +ℤ pos epoch_days)) in
    let rest = floor_mod seconds 86_400 in
    record {
      year = year;
      month = month;
      day = day;
      hour = rest / 3_600;
      minute = rest / 60 % 60;
      second = rest % 60;
    }

-- The seconds of the fields, of which a day or a second may lie behind the last one of its month or
-- minute; and the fields as `timegm` leaves them in its argument, in their ranges.
unfoldable pub timegm : Tm → ℤ × Tm
unfolding gmtime
timegm t =
    let seconds =
      pos (days_of t.year t.month t.day * 86_400 + t.hour * 3_600 + t.minute * 60 + t.second)
      -ℤ pos (epoch_days * 86_400) in
    (seconds, gmtime seconds)
