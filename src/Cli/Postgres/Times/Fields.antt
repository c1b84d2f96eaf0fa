-- ===== src/Cli/Postgres/Times/Fields.antt =====
-- The fields of a timestamp, as they are printed and read.
use fin_core_streaming_syste.Prelude.{
  ℕ, zero, suc, ◌+◌, ◌-◌, ◌*◌, ◌^◌, ◌≤◌, ◌<◌, ◌≡◌, refl, ◌∙◌, ap, true, some, [], ◌∷◌, ◌++◌, Text,
  length, length-append, length-replicate, replicate, arith, All, All-append, append-nil, all_of,
}
use fin_core_streaming_syste.Cli.Parse.{is_digit}
use fin_core_streaming_syste.Cli.Postgres.Times.{
  char_at, back, take, drop, read_number, read_field, field_and, get_time, digits_value,
}
use fin_core_streaming_syste.Domain.Calendar.{Tm}
use fin_core_streaming_syste.Domain.Decimal.{to_text}
use fin_core_streaming_syste.Domain.Decimal.Spelling.{IsDigit, value}
use fin_core_streaming_syste.Domain.Decimal.RoundTrip.{
  to_text-digits, to_text-value, length-digits_of, value-zeros, zeros-digits,
}
use fin_core_streaming_syste.Domain.Timestamps.{padded, put_time}

length-to_text : (j n : ℕ) → n < 10 ^ suc j → length (to_text n) ≤ suc j
unfolding to_text
length-to_text j n h = omega (arith, length-digits_of 20 j n [] h)

pub length-padded : (j n : ℕ) → n < 10 ^ suc j → length (padded (suc j) n) ≡ suc j
unfolding padded
length-padded j n h =
    let k = suc j - length (to_text n) in
    omega (
      arith,
      length-append (replicate k b'0') (to_text n),
      length-replicate {A = ℕ} k b'0',
      length-to_text j n h,
    )

pub padded-digits : (w n : ℕ) → n < 10 ^ 20 → All IsDigit (padded w n)
unfolding padded
padded-digits w n h =
    All-append IsDigit (replicate (w - length (to_text n)) b'0') (to_text n) (zeros-digits _)
      (to_text-digits n h)

padded-value : (w n : ℕ) → n < 10 ^ 20 → value 0 (padded w n) ≡ n
unfolding padded
padded-value w n h = value-zeros (w - length (to_text n)) (to_text n) ∙ to_text-value n h

read_number-digits :
    (s rest : Text) (n : ℕ)
    → All IsDigit s
    → read_number (length s) n (s ++ rest) ≡ some (value n s, rest)
unfolding read_number
read_number-digits [] rest n h = refl
read_number-digits (c ∷ s) rest n (h, hs) =
    ground (arith, read_number-digits s rest (n * 10 + (c - b'0')) hs)

pub digits_value-eq : (s : Text) (n : ℕ) → digits_value n s ≡ value n s
unfolding digits_value
digits_value-eq [] n = refl
digits_value-eq (c ∷ s) n = digits_value-eq s (n * 10 + (c - b'0'))

pub digits_value-padded : (w n : ℕ) → n < 10 ^ 20 → digits_value 0 (padded w n) ≡ n
digits_value-padded w n h = digits_value-eq (padded w n) 0 ∙ padded-value w n h

read_field-padded :
    (j n low high : ℕ) (rest : Text)
    → n < 10 ^ suc j
    → n < 10 ^ 20
    → low ≤ n
    → n ≤ high
    → read_field (suc j) low high (padded (suc j) n ++ rest) ≡ some (n, rest)
unfolding read_field
read_field-padded j n low high rest h big l u =
    let e = read_number-digits (padded (suc j) n) rest 0 (padded-digits (suc j) n big) in
    let e' = rw (length-padded j n h, padded-value (suc j) n big) at e in rw e' (ground arith)

pub all_of-digits : (s : Text) → All IsDigit s → all_of is_digit s ≡ true
all_of-digits [] h = refl
all_of-digits (c ∷ s) (h, hs) = ground (arith, all_of-digits s hs)

add-suc_left : (n k : ℕ) → suc n + k ≡ suc (n + k)
add-suc_left n k = omega arith

add-zero_left : (k : ℕ) → 0 + k ≡ k
add-zero_left k = omega arith

pub char_at-skip : (s t : Text) (n k : ℕ) → length s ≡ n → char_at (s ++ t) (n + k) ≡ char_at t k
unfolding char_at
char_at-skip [] t zero k e = rw (add-zero_left k) refl
char_at-skip [] t (suc n) k e = absurd (omega (arith, e))
char_at-skip (c ∷ s) t zero k e = absurd (omega (arith, e))
char_at-skip (c ∷ s) t (suc n) k e = rw (add-suc_left n k) (char_at-skip s t n k (omega (arith, e)))

pub char_at-front : (s t : Text) (k : ℕ) → k < length s → char_at (s ++ t) k ≡ char_at s k
unfolding char_at
char_at-front [] t k h = absurd (omega (arith, h))
char_at-front (c ∷ s) t zero h = refl
char_at-front (c ∷ s) t (suc k) h = char_at-front s t k (omega (arith, h))

-- The character behind a field, and those behind it.
pub char_at-behind :
    (j n c : ℕ) (rest : Text)
    → n < 10 ^ suc j
    → char_at (padded (suc j) n ++ (c ∷ rest)) (suc j + 0) ≡ c
unfolding char_at
char_at-behind j n c rest h =
    char_at-skip (padded (suc j) n) (c ∷ rest) (suc j) 0 (length-padded j n h)

pub char_at-later :
    (j n c k : ℕ) (rest : Text)
    → n < 10 ^ suc j
    → char_at (padded (suc j) n ++ (c ∷ rest)) (suc j + suc k) ≡ char_at rest k
unfolding char_at
char_at-later j n c k rest h =
    char_at-skip (padded (suc j) n) (c ∷ rest) (suc j) (suc k) (length-padded j n h)

pub drop-length : (s t : Text) (n : ℕ) → length s ≡ n → drop n (s ++ t) ≡ t
unfolding drop
drop-length [] t zero e = refl
drop-length [] t (suc n) e = absurd (omega (arith, e))
drop-length (c ∷ s) t zero e = absurd (omega (arith, e))
drop-length (c ∷ s) t (suc n) e = drop-length s t n (omega (arith, e))

pub take-length : (s t : Text) (n : ℕ) → length s ≡ n → take n (s ++ t) ≡ s
unfolding take
take-length [] t zero e = refl
take-length [] t (suc n) e = absurd (omega (arith, e))
take-length (c ∷ s) t zero e = absurd (omega (arith, e))
take-length (c ∷ s) t (suc n) e = ap (λ r. c ∷ r) (take-length s t n (omega (arith, e)))

pub back-last : (s : Text) (c : ℕ) → back (s ++ (c ∷ [])) ≡ c
unfolding back
back-last [] c = refl
back-last (a ∷ []) c = refl
back-last (a ∷ (b ∷ s)) c = back-last (b ∷ s) c

-- The bounds of the fields that four and two digits print.
pub record InRange (t : Tm) : Type 0 where
  pub year : t.year ≤ 9_999
  pub month : (1 ≤ t.month) × (t.month ≤ 12)
  pub day : (1 ≤ t.day) × (t.day ≤ 31)
  pub hour : t.hour ≤ 23
  pub minute : t.minute ≤ 59
  pub second : t.second ≤ 60

field_and-padded :
    (j n low high c : ℕ) (rest : Text)
    → n < 10 ^ suc j
    → n < 10 ^ 20
    → low ≤ n
    → n ≤ high
    → field_and (suc j) low high c (padded (suc j) n ++ (c ∷ rest)) ≡ some (n, rest)
unfolding field_and
field_and-padded j n low high c rest h big l u =
    rw (read_field-padded j n low high (c ∷ rest) h big l u) (ground arith)

read_last :
    (j n low high : ℕ)
    → n < 10 ^ suc j
    → n < 10 ^ 20
    → low ≤ n
    → n ≤ high
    → read_field (suc j) low high (padded (suc j) n) ≡ some (n, [])
read_last j n low high h big l u =
    rw (← append-nil (padded (suc j) n)) (read_field-padded j n low high [] h big l u)

pub get_time-put_time : (t : Tm) → InRange t → get_time (put_time t) ≡ some t
unfolding get_time put_time
get_time-put_time t r =
    rw
      (
        field_and-padded 3 t.year 0 9_999 b'-' _ (omega (arith, r.year)) (omega (arith, r.year))
            (omega arith) r.year,
        field_and-padded 1 t.month 1 12 b'-' _ (omega (arith, r.month)) (omega (arith, r.month))
            r.month.0 r.month.1,
        field_and-padded 1 t.day 1 31 b'T' _ (omega (arith, r.day)) (omega (arith, r.day)) r.day.0
            r.day.1,
        field_and-padded 1 t.hour 0 23 b':' _ (omega (arith, r.hour)) (omega (arith, r.hour))
            (omega arith) r.hour,
        field_and-padded 1 t.minute 0 59 b':' _ (omega (arith, r.minute)) (omega (arith, r.minute))
            (omega arith) r.minute,
        read_last 1 t.second 0 60 (omega (arith, r.second)) (omega (arith, r.second)) (omega arith)
            r.second,
      )
      refl
