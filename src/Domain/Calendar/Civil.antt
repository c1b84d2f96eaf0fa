-- ===== src/Domain/Calendar/Civil.antt =====
-- The calendar there and back.
use fin_core_streaming_syste.Prelude.{
  ℕ, ◌+◌, ◌-◌, ◌*◌, ◌/◌, ◌%◌, ◌≤◌, ◌<◌, ◌≡◌, refl, if◌then◌else◌, ltb, arith,
}
use fin_core_streaming_syste.Prelude.Int.{ℤ, pos, negsuc, pos_part, neg_part, ◌+ℤ◌, ◌-ℤ◌}
use fin_core_streaming_syste.Domain.Calendar.{
  floor_div, floor_mod, epoch_days, era_year, days_before, era_month, days_before_month, civil_of,
  days_of, gmtime, timegm,
}

epoch_runs :
    gmtime (pos 1_700_000_000)
    ≡ record { year = 2023; month = 11; day = 14; hour = 22; minute = 13; second = 20 }
unfolding gmtime civil_of ◌+ℤ◌
epoch_runs = refl

era_year-le : (day : ℕ) → day < 146_097 → days_before (era_year day) ≤ day
era_year-le day h = omega arith

era_year-lt : (day : ℕ) → day < 146_097 → era_year day < 400
era_year-lt day h = omega arith

era_rest-lt : (day : ℕ) → day < 146_097 → day - days_before (era_year day) < 366
era_rest-lt day h = omega arith

month-le : (day : ℕ) → days_before_month (era_month day) ≤ day
month-le day = omega arith

month-lt : (day : ℕ) → day < 366 → era_month day < 12
month-lt day h = omega arith

-- A day number as its era, its year in the era, its month and its day.
days_of-parts :
    (era year month day : ℕ)
    → 1 ≤ era
    → year < 400
    → month < 12
    → let calendar_year = era * 400 + year in
      (if ltb month 10
        then days_of (calendar_year - 400) (month + 3) (day + 1)
        else days_of (calendar_year + 1 - 400) (month - 9) (day + 1))
      ≡ era * 146_097 + (days_before year + (days_before_month month + day))
unfolding days_of
days_of-parts era year month day one small twelve = ground arith

pub days_of-civil_of :
    (days : ℕ)
    → 146_097 ≤ days
    → let (year, month, day) = civil_of days in days_of year month day ≡ days
unfolding civil_of
days_of-civil_of days late =
    let day = days % 146_097 in
    let small : day < 146_097 = omega arith in
    let rest = day - days_before (era_year day) in
    let parts =
      days_of-parts (days / 146_097) (era_year day) (era_month rest)
        (rest - days_before_month (era_month rest)) (omega arith) (era_year-lt day small)
        (month-lt rest (era_rest-lt day small)) in
    ground (arith, parts, era_year-le day small, month-le rest)

-- The time lies behind the year 0, as do all of `system_clock`.
abbrev pub IsCommonEra : ℤ → Type 0
IsCommonEra seconds = neg_part seconds ≤ 719_468 * 86_400

day_number-lem :
    (z : ℤ)
    → IsCommonEra z
    → let days = pos_part (floor_div z 86_400 +ℤ pos epoch_days) in
      (146_097 ≤ days)
      × (days * 86_400 + floor_mod z 86_400 + neg_part z ≡ epoch_days * 86_400 + pos_part z)
unfolding ◌+ℤ◌
day_number-lem (pos n) h = ground arith
day_number-lem (negsuc n) h = ground arith

time_of_day :
    (days rest : ℕ) (z : ℤ)
    → days * 86_400 + rest + neg_part z ≡ epoch_days * 86_400 + pos_part z
    → pos (days * 86_400 + rest / 3_600 * 3_600 + rest / 60 % 60 * 60 + rest % 60)
        -ℤ pos (epoch_days * 86_400)
      ≡ z
unfolding ◌-ℤ◌
time_of_day days rest (pos n) e = ground arith
time_of_day days rest (negsuc n) e = ground arith

pub timegm-gmtime : (z : ℤ) → IsCommonEra z → (timegm (gmtime z)).0 ≡ z
unfolding timegm gmtime
timegm-gmtime z h =
    let days = pos_part (floor_div z 86_400 +ℤ pos epoch_days) in
    let (late, sum) = day_number-lem z h in
    rw (days_of-civil_of days late) (time_of_day days (floor_mod z 86_400) z sum)
