-- ===== src/Cli/Postgres/Times.antt =====
-- `parse_timestamp` of src/cli/postgres_cli.cpp, with what it uses of the standard library: the C
-- locale, and `std::get_time` of libstdc++, which wants all digits of a field. Its `%Y` also takes two digits
-- for a year where the next character is no digit; these texts, which begin with two blanks here,
-- are refused by the model.
pub mod Accepted
pub mod Fields
pub mod Printed
pub mod RoundTrip
use fin_core_streaming_syste.Prelude.{
  ℕ, zero, suc, ◌+◌, ◌-◌, ◌*◌, ◌/◌, ◌%◌, ◌^◌, ◌≡◌, Bool, true, false, not, ◌&&◌, ◌||◌, Option, none,
  some, List, [], ◌∷◌, if◌then◌else◌, map, Text, codes, text_eq, length, ltb, leb, ◌==◌, all_of,
  Result, ok, err, Exception, guard, ◌>>=◌, ◌>>◌, invalid_argument, lit,
}
use fin_core_streaming_syste.Prelude.Int.{
  ℤ, pos, negsuc, pos_part, neg_part, sub_ℕ, int64_of, negate,
}
use fin_core_streaming_syste.Cli.Parse.{to_upper, is_digit}
use fin_core_streaming_syste.Domain.Calendar.{Tm, gmtime, timegm}
use fin_core_streaming_syste.Domain.MarketData.{Timestamp}

unfoldable pub upper : Text → Text
unfolding to_upper
upper value = map to_upper value

-- The character at an index, below the size.
unfoldable pub char_at : Text → ℕ → ℕ
char_at [] k = 0
char_at (c ∷ s) zero = c
char_at (c ∷ s) (suc k) = char_at s k

unfoldable pub back : Text → ℕ
back [] = 0
back (c ∷ []) = c
back (c ∷ (d ∷ s)) = back (d ∷ s)

unfoldable pub take : ℕ → Text → Text
take zero s = []
take (suc n) [] = []
take (suc n) (c ∷ s) = c ∷ take n s

unfoldable pub drop : ℕ → Text → Text
drop zero s = s
drop (suc n) [] = []
drop (suc n) (c ∷ s) = drop n s

-- Exactly so many digits.
unfoldable pub read_number : ℕ → ℕ → Text → Option (ℕ × Text)
read_number zero n s = some (n, s)
read_number (suc width) n [] = none
read_number (suc width) n (c ∷ s) = elim (is_digit c) [
  | true ↦ read_number width (n * 10 + (c - b'0')) s
  | false ↦ none
]

abbrev pub check_field : ℕ → ℕ → Option (ℕ × Text) → Option (ℕ × Text)
check_field low high none = none
check_field low high (some (n, s)) = if leb low n && leb n high then some (n, s) else none

abbrev pub read_char : ℕ → Text → Option Text
read_char c [] = none
read_char c (d ∷ s) = if d == c then some s else none

abbrev pub and_then : {A B : Type 0} → Option A → (A → Option B) → Option B
and_then none f = none
and_then (some a) f = f a

-- A field of a fixed width within its bounds, and the character behind it.
unfoldable pub read_field : ℕ → ℕ → ℕ → Text → Option (ℕ × Text)
read_field width low high s = check_field low high (read_number width 0 s)

unfoldable pub field_and : ℕ → ℕ → ℕ → ℕ → Text → Option (ℕ × Text)
field_and width low high c s =
    and_then (read_field width low high s)
      (λ p. and_then (read_char c p.1) (λ rest. some (p.0, rest)))

-- `std::get_time(&utc, "%Y-%m-%dT%H:%M:%S")`.
unfoldable pub get_time : Text → Option Tm
get_time s = and_then (field_and 4 0 9_999 b'-' s) (λ year.
    and_then (field_and 2 1 12 b'-' year.1) (λ month.
      and_then (field_and 2 1 31 b'T' month.1) (λ day.
        and_then (field_and 2 0 23 b':' day.1) (λ hour.
          and_then (field_and 2 0 59 b':' hour.1) (λ minute.
            and_then (read_field 2 0 60 minute.1) (λ second. some (record {
              year = year.0;
              month = month.0;
              day = day.0;
              hour = hour.0;
              minute = minute.0;
              second = second.0;
            })))))))

abbrev pub is_shaped : Text → Bool
is_shaped value =
    not (ltb (length value) 20)
    && char_at value 4 == b'-'
    && char_at value 7 == b'-'
    && char_at value 10 == b'T'
    && char_at value 13 == b':'
    && char_at value 16 == b':'
    && back value == b'Z'

abbrev pub invalid : Exception
invalid = invalid_argument (lit "timestamp contains an invalid date or time")

abbrev pub result_of : {A : Type 0} → Exception → Option A → Result A
result_of e none = err e
result_of e (some a) = ok a

-- The value of digits, and the zeros that fill the fraction up to microseconds.
unfoldable pub digits_value : ℕ → Text → ℕ
digits_value n [] = n
digits_value n (c ∷ s) = digits_value (n * 10 + (c - b'0')) s

unfoldable pub read_fraction : Text → Result ℕ
read_fraction value =
    let fraction = take (length value - 21) (drop 20 value) in
    if not (ltb 20 (length value))
    then ok 0
    else guard (char_at value 19 == b'.')
        (invalid_argument (lit "invalid timestamp fractional seconds"))
      >> (guard (ltb 0 (length fraction) && leb (length fraction) 6 && all_of is_digit fraction)
            (invalid_argument (lit "timestamp supports one to six fractional digits"))
          >> ok (digits_value 0 fraction * 10 ^ (6 - length fraction)))

-- `system_clock` counts nanoseconds in an `int64_t`, where the code does not guard the product; it
-- is taken to wrap around.
abbrev pub wrap_int64 : ℤ → ℤ
wrap_int64 (pos n) = int64_of (n % 2 ^ 64)
wrap_int64 (negsuc n) = int64_of (2 ^ 64 - 1 - n % 2 ^ 64)

unfoldable pub time_point_of : ℤ → ℕ → Timestamp
time_point_of seconds micros =
    wrap_int64
      (sub_ℕ (pos_part seconds * 1_000_000_000 + micros * 1_000) (neg_part seconds * 1_000_000_000))

-- `system_clock::to_time_t`, which rounds toward zero.
unfoldable pub to_time_t : Timestamp → ℤ
to_time_t (pos n) = pos (n / 1_000_000_000)
to_time_t (negsuc n) = negate (pos ((n + 1) / 1_000_000_000))

unfoldable pub same_time : Tm → Tm → Bool
same_time a b =
    a.year == b.year
    && a.month == b.month
    && a.day == b.day
    && a.hour == b.hour
    && a.minute == b.minute
    && a.second == b.second

abbrev pub is_minus_one : ℤ → Bool
is_minus_one (pos n) = false
is_minus_one (negsuc n) = n == 0

abbrev pub no_date : Exception
no_date = invalid_argument (lit "timestamp contains an invalid calendar date")

-- `utc` as `timegm` has left it.
unfoldable pub checked_time : Tm → ℤ → ℕ → Result Timestamp
checked_time utc seconds micros =
    guard (not (is_minus_one seconds))
      (invalid_argument (lit "timestamp is outside the supported range"))
    >> (guard (same_time (gmtime (to_time_t (time_point_of seconds micros))) utc) no_date
        >> ok (time_point_of seconds micros))

unfoldable pub parse_timestamp : Timestamp → Text → Result Timestamp
parse_timestamp now value =
    if text_eq (upper value) (codes "NOW")
    then ok now
    else guard (is_shaped value) (
        invalid_argument
          (lit "timestamp must be UTC RFC3339 (YYYY-MM-DDTHH:MM:SS[.ffffff]Z) or 'now'"))
      >> (result_of invalid (get_time (take 19 value)) >>= (λ utc.
          read_fraction value >>= (λ micros.
            let (seconds, normalised) = timegm utc in checked_time normalised seconds micros)))
