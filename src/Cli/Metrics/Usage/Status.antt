-- ===== src/Cli/Metrics/Usage/Status.antt =====
-- `read_status_kb` of src/cli/process_metrics.cpp on the lines that the kernel writes.
use fin_core_streaming_syste.Prelude.{
  ℕ, ◌+◌, ◌-◌, ◌*◌, ◌^◌, ◌<◌, ◌≡◌, ◌≢◌, refl, ◌∙◌, true, false, none, some, List, [], ◌∷◌, ◌++◌,
  All, arith, leb, ◌&&◌, Text, length,
}
use fin_core_streaming_syste.Prelude.Int.{pos}
use fin_core_streaming_syste.Api.Json.{strip_prefix}
use fin_core_streaming_syste.Api.Json.Fields.{strip_prefix-append}
use fin_core_streaming_syste.Cli.Metrics.Usage.{
  clamp_i64, signed, extract_i64, read_lines, read_status_kb,
}
use fin_core_streaming_syste.Cli.Parse.{is_space, read_digits}
use fin_core_streaming_syste.Domain.Decimal.{to_text}
use fin_core_streaming_syste.Domain.Decimal.Spelling.{IsDigit, value}
use fin_core_streaming_syste.Domain.Decimal.RoundTrip.{
  to_text-digits, to_text-value, to_text-ne-nil,
}

-- A text that is empty or goes on with another character than a digit.
abbrev pub EndsNumber : Text → Type 0
EndsNumber [] = Unit
EndsNumber (c ∷ s) = (leb b'0' c && leb c b'9') ≡ false

read_digits-behind :
    (s rest : Text) (v used : ℕ)
    → All IsDigit s
    → EndsNumber rest
    → read_digits (s ++ rest) v used ≡ (value v s, used + length s)
unfolding read_digits
read_digits-behind [] [] v used _ h = ground arith
read_digits-behind [] (c ∷ rest) v used _ h = ground arith
read_digits-behind (c ∷ s) rest v used (d, ds) h =
    ground (arith, read_digits-behind s rest (v * 10 + (c - b'0')) (used + 1) ds h)

length-pos : (s : Text) → s ≢ [] → 0 < length s
length-pos [] h = absurd (h refl)
length-pos (c ∷ s) h = omega arith

signed-digits :
    (s rest : Text)
    → s ≢ []
    → All IsDigit s
    → EndsNumber rest
    → signed (s ++ rest) ≡ clamp_i64 false (value 0 s, length s)
signed-digits [] rest ne _ h = absurd (ne refl)
signed-digits (c ∷ s) rest ne (d, ds) h =
    ground (arith, read_digits-behind (c ∷ s) rest 0 0 (d, ds) h)

extract-digits :
    (s rest : Text)
    → s ≢ []
    → All IsDigit s
    → EndsNumber rest
    → extract_i64 (s ++ rest) ≡ clamp_i64 false (value 0 s, length s)
unfolding extract_i64
extract-digits [] rest ne _ h = absurd (ne refl)
extract-digits (c ∷ s) rest ne (d, ds) h = ground (arith, signed-digits (c ∷ s) rest ne (d, ds) h)

extract-blanks :
    (blanks s : Text)
    → All (λ c. is_space c ≡ true) blanks
    → extract_i64 (blanks ++ s) ≡ extract_i64 s
unfolding extract_i64
extract-blanks [] s _ = refl
extract-blanks (c ∷ blanks) s (h, hs) = rw (h, extract_i64) (extract-blanks blanks s hs)

read_lines-skip :
    (field_name : Text) (before lines : List Text)
    → All (λ line. strip_prefix field_name line ≡ none) before
    → read_lines field_name (before ++ lines) ≡ read_lines field_name lines
unfolding read_lines
read_lines-skip field_name [] lines _ = refl
read_lines-skip field_name (line ∷ before) lines (h, hs) =
    rw (h, read_lines) (read_lines-skip field_name before lines hs)

number_of :
    (n : ℕ) (rest : Text) → n < 2 ^ 63 → EndsNumber rest → extract_i64 (to_text n ++ rest) ≡ pos n
number_of n rest small h =
    extract-digits (to_text n) rest (to_text-ne-nil n) (to_text-digits n (omega arith)) h
    ∙ rw (to_text-value n (omega arith)) (ground (arith, length-pos (to_text n) (to_text-ne-nil n)))

-- read_status_kb returns the number below 2^63 that stands behind the name of the field and any
-- white space, in the first line that begins with the name, where something other than a digit
-- or nothing follows the number.
pub read_status_kb-line :
    (field_name blanks : Text) (n : ℕ) (rest : Text) (before lines : List Text)
    → All (λ line. strip_prefix field_name line ≡ none) before
    → All (λ c. is_space c ≡ true) blanks
    → n < 2 ^ 63
    → EndsNumber rest
    → read_status_kb field_name
        (some (before ++ ((field_name ++ (blanks ++ (to_text n ++ rest))) ∷ lines)))
      ≡ pos n
unfolding read_status_kb read_lines
read_status_kb-line field_name blanks n rest before lines others spaces small h =
    read_lines-skip field_name before _ others
    ∙ rw (strip_prefix-append field_name (blanks ++ (to_text n ++ rest)), read_lines)
        (extract-blanks blanks (to_text n ++ rest) spaces ∙ number_of n rest small h)
