-- ===== src/Cli/Parse/Number.antt =====
-- `parse_number` (src/cli/fincore_cli.cpp).
use Prim.Native.String.{String}
use fin_core_streaming_syste.Prelude.{
  ℕ, ◌+◌, ◌-◌, ◌*◌, ◌%◌, ◌^◌, ◌≤◌, ◌<◌, ◌≡◌, ◌≢◌, refl, Bool, true, false, [], ◌∷◌, All, Text,
  length, ok, err, arith, if◌then◌else◌, Result,
}
use fin_core_streaming_syste.Domain.Decimal.{to_text}
use fin_core_streaming_syste.Domain.Decimal.Spelling.{IsDigit, value}
use fin_core_streaming_syste.Domain.Decimal.RoundTrip.{
  to_text-digits, to_text-value, to_text-ne-nil,
}
use fin_core_streaming_syste.Cli.Parse.{read_digits, convert, stoull, check_number, parse_number}

pub read_digits-All :
    (s : Text) (v used : ℕ) → All IsDigit s → read_digits s v used ≡ (value v s, used + length s)
unfolding read_digits
read_digits-All [] v used h = ground arith
read_digits-All (c ∷ s) v used (h, hs) =
    ground (arith, read_digits-All s (v * 10 + (c - b'0')) (used + 1) hs)

length-pos : (s : Text) → s ≢ [] → 0 < length s
length-pos [] h = absurd (h refl)
length-pos (c ∷ s) h = omega arith

-- Whatever is accepted lies between the bounds.
parse_number_bounds :
    (text : Text) (name : String) (minimum maximum : ℕ) {n : ℕ}
    → parse_number text name minimum maximum ≡ ok n
    → (minimum ≤ n) × (n ≤ maximum)
unfolding parse_number
parse_number_bounds text name minimum maximum h = check_bounds (stoull 0 text) h
  where
    check_bounds :
        (r : Result (ℕ × ℕ)) {n : ℕ}
        → check_number text name minimum maximum r ≡ ok n
        → (minimum ≤ n) × (n ≤ maximum)
    check_bounds (ok (v, used)) h = ground arith
    check_bounds (err e) h = ground arith

-- The text of a number, behind what `stoull` has read of it.
convert-to_text :
    (negative : Bool) (before n : ℕ)
    → n < 2 ^ 64
    → convert negative before (read_digits (to_text n) 0 0)
      ≡ ok (if negative then (2 ^ 64 - n) % 2 ^ 64 else n, before + length (to_text n))
convert-to_text negative before n small =
    rw
      (
        read_digits-All (to_text n) 0 0 (to_text-digits n (omega arith)),
        to_text-value n (omega arith),
      )
      (ground (arith, length-pos (to_text n) (to_text-ne-nil n)))

stoull-digits :
    (s : Text) → s ≢ [] → All IsDigit s → stoull 0 s ≡ convert false 0 (read_digits s 0 0)
unfolding stoull
stoull-digits [] ne h = absurd (ne refl)
stoull-digits (c ∷ s) ne (h, hs) = ground arith

pub stoull-to_text : (n : ℕ) → n < 2 ^ 64 → stoull 0 (to_text n) ≡ ok (n, length (to_text n))
stoull-to_text n small =
    rw
      (
        stoull-digits (to_text n) (to_text-ne-nil n) (to_text-digits n (omega arith)),
        convert-to_text false 0 n small,
      )
      (ground arith)

-- A number that is printed is read back, if it lies between the bounds.
parse_number-to_text :
    (n : ℕ) (name : String) (minimum maximum : ℕ)
    → n < 2 ^ 64
    → minimum ≤ n
    → n ≤ maximum
    → parse_number (to_text n) name minimum maximum ≡ ok n
unfolding parse_number
parse_number-to_text n name minimum maximum small low high =
    let digits = stoull-digits (to_text n) (to_text-ne-nil n) (to_text-digits n (omega arith)) in
    rw (digits, convert-to_text false 0 n small) (ground arith)

stoull-minus : (s : Text) → stoull 0 (b'-' ∷ s) ≡ convert true 1 (read_digits s 0 0)
unfolding stoull
stoull-minus s = refl

-- A minus sign is not refused: the text of -(2^64 - n) is read as `n`, for every `n` between the
-- bounds but 0.
pub parse_number_negative :
    (n : ℕ) (name : String) (minimum maximum : ℕ)
    → 0 < n
    → n < 2 ^ 64
    → minimum ≤ n
    → n ≤ maximum
    → parse_number (b'-' ∷ to_text (2 ^ 64 - n)) name minimum maximum ≡ ok n
unfolding parse_number
parse_number_negative n name minimum maximum positive small low high =
    let back : (2 ^ 64 - (2 ^ 64 - n)) % 2 ^ 64 ≡ n = omega arith in
    rw
      (stoull-minus (to_text (2 ^ 64 - n)), convert-to_text true 1 (2 ^ 64 - n) (omega arith), back)
      (ground arith)
