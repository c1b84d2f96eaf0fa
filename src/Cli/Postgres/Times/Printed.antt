-- ===== src/Cli/Postgres/Times/Printed.antt =====
-- `parse_timestamp` of src/cli/postgres_cli.cpp on a text with six digits of a second's fraction.
use fin_core_streaming_syste.Prelude.{
  ℕ, suc, ◌^◌, ◌<◌, ◌≡◌, refl, ◌∙◌, ap, Bool-cases, inl, inr, true, false, [], ◌∷◌, ◌++◌, Text,
  codes, text_eq, text_eq_iff, length, length-append, arith, ok, append_assoc,
}
use fin_core_streaming_syste.Cli.Postgres.Times.{
  upper, char_at, back, take, drop, is_shaped, read_fraction, checked_time, parse_timestamp,
}
use fin_core_streaming_syste.Cli.Postgres.Times.Fields.{
  length-padded, padded-digits, digits_value-padded, all_of-digits, char_at-skip, char_at-front,
  char_at-behind, char_at-later, drop-length, take-length, back-last, InRange, get_time-put_time,
}
use fin_core_streaming_syste.Domain.Calendar.{Tm, gmtime, timegm}
use fin_core_streaming_syste.Domain.MarketData.{Timestamp}
use fin_core_streaming_syste.Domain.Timestamps.{padded, put_time}

length-upper : (s : Text) → length (upper s) ≡ length s
unfolding upper
length-upper [] = refl
length-upper (c ∷ s) = ap suc (length-upper s)

-- A text of the form that is printed: 19 characters with their separators, and six digits.
module _ (t : Tm) (r : InRange t) (micros : ℕ) (small : micros < 1_000_000) where
  abbrev pub fraction : Text
  fraction = padded 6 micros

  abbrev pub text : Text
  text = put_time t ++ (b'.' ∷ (fraction ++ (b'Z' ∷ [])))

  length-fraction : length fraction ≡ 6
  length-fraction = length-padded 5 micros (omega arith)

  length-put_time : length (put_time t) ≡ 19
  unfolding put_time
  length-put_time =
      let year = length-padded 3 t.year (omega (arith, r.year)) in
      let month = length-padded 1 t.month (omega (arith, r.month)) in
      let day = length-padded 1 t.day (omega (arith, r.day)) in
      let hour = length-padded 1 t.hour (omega (arith, r.hour)) in
      let minute = length-padded 1 t.minute (omega (arith, r.minute)) in
      let second = length-padded 1 t.second (omega (arith, r.second)) in
      omega (arith, length-append {0})

  length-text : length text ≡ 27
  length-text = omega (
    arith,
    length-append (put_time t) (b'.' ∷ (fraction ++ (b'Z' ∷ []))),
    length-append fraction (b'Z' ∷ []),
    length-fraction,
    length-put_time,
  )

  not_now : text_eq (upper text) (codes "NOW") ≡ false
  not_now = elim (Bool-cases (text_eq (upper text) (codes "NOW"))) [
    | inr other ↦ other
    | inl same ↦ absurd (
        omega (
          arith,
          ap length ((text_eq_iff (upper text) (codes "NOW")).0 same),
          length-upper text,
          length-text,
        ))
  ]

  text-back : back text ≡ b'Z'
  text-back =
      let e : (put_time t ++ (b'.' ∷ fraction)) ++ (b'Z' ∷ []) ≡ text =
        append_assoc (put_time t) (b'.' ∷ fraction) (b'Z' ∷ []) in
      rw (← e) (back-last (put_time t ++ (b'.' ∷ fraction)) b'Z')

  shaped : is_shaped text ≡ true
  unfolding put_time
  shaped =
      let year : t.year < 10 ^ 4 = omega (arith, r.year) in
      let month : t.month < 10 ^ 2 = omega (arith, r.month) in
      let day : t.day < 10 ^ 2 = omega (arith, r.day) in
      let hour : t.hour < 10 ^ 2 = omega (arith, r.hour) in
      let minute : t.minute < 10 ^ 2 = omega (arith, r.minute) in
      let front = λ (k : ℕ) (h : k < 19).
        char_at-front (put_time t) (b'.' ∷ (fraction ++ (b'Z' ∷ []))) k
          (omega (arith, h, length-put_time)) in
      let at_4 = front 4 (omega arith) ∙ char_at-behind 3 t.year b'-' _ year in
      let at_7 =
        front 7 (omega arith)
        ∙ char_at-later 3 t.year b'-' 2 _ year
        ∙ char_at-behind 1 t.month b'-' _ month in
      let at_10 =
        front 10 (omega arith)
        ∙ char_at-later 3 t.year b'-' 5 _ year
        ∙ char_at-later 1 t.month b'-' 2 _ month
        ∙ char_at-behind 1 t.day b'T' _ day in
      let at_13 =
        front 13 (omega arith)
        ∙ char_at-later 3 t.year b'-' 8 _ year
        ∙ char_at-later 1 t.month b'-' 5 _ month
        ∙ char_at-later 1 t.day b'T' 2 _ day
        ∙ char_at-behind 1 t.hour b':' _ hour in
      let at_16 =
        front 16 (omega arith)
        ∙ char_at-later 3 t.year b'-' 11 _ year
        ∙ char_at-later 1 t.month b'-' 8 _ month
        ∙ char_at-later 1 t.day b'T' 5 _ day
        ∙ char_at-later 1 t.hour b':' 2 _ hour
        ∙ char_at-behind 1 t.minute b':' _ minute in
      rw (length-text, at_4, at_7, at_10, at_13, at_16, text-back) (ground arith)

  fraction-read : read_fraction text ≡ ok micros
  unfolding read_fraction char_at
  fraction-read =
      let n = length-text in
      let d : drop 20 text ≡ fraction ++ (b'Z' ∷ []) =
        rw (← append_assoc (put_time t) (b'.' ∷ []) (fraction ++ (b'Z' ∷ []))) (
          drop-length (put_time t ++ (b'.' ∷ [])) (fraction ++ (b'Z' ∷ [])) 20
            (omega (arith, length-append (put_time t) (b'.' ∷ []), length-put_time))) in
      let f : take 6 (fraction ++ (b'Z' ∷ [])) ≡ fraction =
        take-length fraction (b'Z' ∷ []) 6 length-fraction in
      let point : char_at text 19 ≡ b'.' =
        char_at-skip (put_time t) (b'.' ∷ (fraction ++ (b'Z' ∷ []))) 19 0 length-put_time in
      rw
        (
          n,
          d,
          f,
          point,
          length-fraction,
          all_of-digits fraction (padded-digits 6 micros (omega arith)),
          digits_value-padded 6 micros (omega arith),
        )
        (ground arith)

  pub parse_timestamp-text :
      (now : Timestamp)
      → parse_timestamp now text ≡ checked_time (gmtime (timegm t).0) (timegm t).0 micros
  unfolding parse_timestamp timegm
  parse_timestamp-text now =
      let first : take 19 text ≡ put_time t =
        take-length (put_time t) (b'.' ∷ (fraction ++ (b'Z' ∷ []))) 19 length-put_time in
      rw (not_now, shaped, first, get_time-put_time t r, fraction-read) refl
