-- ===== src/Domain/Decimal.antt =====
-- `class Decimal` of include/domain/decimal.hpp and src/domain/decimal.cpp: an `int64_t` that
-- counts units of 10^-8, its parser and its printer.
pub mod Spelling
pub mod Exact
pub mod Sound
pub mod RoundTrip
use fin_core_streaming_syste.Prelude.{
  ℕ, zero, suc, ◌+◌, ◌-◌, ◌*◌, ◌/◌, ◌%◌, ◌^◌, ◌≡◌, refl, Bool, true, false, ◌||◌, [], ◌∷◌, ◌++◌,
  ltb, ◌==◌, if◌then◌else◌, not, length, replicate, Text, codes, Result, ok, err, Exception,
  invalid_argument, out_of_range, lit, ◌>>=◌, ◌>>◌, guard,
}
use fin_core_streaming_syste.Prelude.Int.{ℤ, pos, negsuc, int64_of, negate}

abbrev pub scale : ℕ
scale = 100_000_000

-- `raw_`; `from_raw` and `raw()` are the identity on it.
abbrev pub Decimal : Type 0
Decimal = ℤ

abbrev pub max_u64 : ℕ
max_u64 = 2 ^ 64 - 1

abbrev pub supported_range : Exception
supported_range = out_of_range (lit "decimal value exceeds the supported range")

unfoldable pub checked_accumulate : ℕ → ℕ → Result ℕ
checked_accumulate current digit =
    if ltb ((max_u64 - digit) / 10) current
    then err supported_range
    else ok ((current * 10 + digit) % 2 ^ 64)

abbrev pub is_not_digit : ℕ → Bool
is_not_digit ch = ltb ch b'0' || ltb b'9' ch

abbrev pub non_digit : Exception
non_digit = invalid_argument (lit "decimal contains a non-digit character")

-- The loop up to the decimal point: `whole`, `saw_whole_digit` and what is left of the text.
unfoldable pub read_whole : Text → ℕ → Bool → Result (ℕ × Bool × Text)
read_whole [] whole saw = ok (whole, saw, [])
read_whole (ch ∷ rest) whole saw = elim (ch == b'.') [
  | true ↦ ok (whole, saw, ch ∷ rest)
  | false ↦ elim (is_not_digit ch) [
    | true ↦ err non_digit
    | false ↦ checked_accumulate whole (ch - b'0') >>= λ whole'. read_whole rest whole' true
  ]
]

-- The loop behind the decimal point: `fraction` and `fraction_digits`.
unfoldable pub read_fraction : Text → ℕ → ℕ → Result (ℕ × ℕ)
read_fraction [] fraction digits = ok (fraction, digits)
read_fraction (ch ∷ rest) fraction digits = elim (is_not_digit ch) [
  | true ↦ err non_digit
  | false ↦ elim (digits == 8) [
    | true ↦ err (invalid_argument (lit "decimal contains more than eight fractional digits"))
    | false ↦ read_fraction rest ((fraction * 10 + (ch - b'0')) % 2 ^ 64) (digits + 1)
  ]
]

-- What follows the whole part: nothing, or the point and one to eight digits.
unfoldable pub read_point : Text → Result (ℕ × ℕ)
unfolding read_fraction
read_point [] = ok (0, 0)
read_point (_ ∷ []) = err (invalid_argument (lit "decimal point must be followed by digits"))
read_point (_ ∷ (c ∷ rest)) = read_fraction (c ∷ rest) 0 0

-- `while (fraction_digits < 8)`, by the rounds that are left.
unfoldable pub pad_fraction : ℕ → ℕ → ℕ
pad_fraction zero fraction = fraction
pad_fraction (suc rounds) fraction = pad_fraction rounds ((fraction * 10) % 2 ^ 64)

abbrev pub limit_of : Bool → ℕ
limit_of negative = if negative then 2 ^ 63 - 1 + 1 else 2 ^ 63 - 1

abbrev pub int64_range : Exception
int64_range = out_of_range (lit "decimal value exceeds int64 range")

-- The end of `from_string`: the sign of a magnitude that is in range.
unfoldable pub apply_sign : Bool → ℕ → Decimal
apply_sign negative magnitude =
    if not negative
    then int64_of magnitude
    else if magnitude == 2 ^ 63
    then negsuc (2 ^ 63 - 1)
    else negate (int64_of magnitude)

-- The range check in front of it.
unfoldable pub assemble : Bool → ℕ → ℕ → Result Decimal
unfolding apply_sign
assemble negative whole fraction =
    if ltb ((limit_of negative - fraction) / scale) whole
    then err int64_range
    else ok (apply_sign negative ((whole * scale + fraction) % 2 ^ 64))

abbrev pub is_sign : ℕ → Bool
is_sign c = c == b'+' || c == b'-'

-- `from_string` behind the sign.
unfoldable pub from_unsigned : Bool → Text → Result Decimal
from_unsigned negative [] = err (invalid_argument (lit "decimal has a sign but no digits"))
from_unsigned negative (c ∷ s) = do
  (whole, saw, rest) ← read_whole (c ∷ s) 0 false
  guard saw (invalid_argument (lit "decimal requires digits before the decimal point"))
  (fraction, digits) ← read_point rest
  assemble negative whole (pad_fraction (8 - digits) fraction)

unfoldable pub from_string : Text → Result Decimal
from_string [] = err (invalid_argument (lit "decimal string is empty"))
from_string (c ∷ s) = if is_sign c then from_unsigned (c == b'-') s else from_unsigned false (c ∷ s)

-- The digits of `n` in front of `out`, of which there are at most as many as the rounds.
unfoldable pub digits_of : ℕ → ℕ → Text → Text
digits_of zero n out = out
digits_of (suc rounds) n out =
    let more = digits_of rounds (n / 10) ((b'0' + n % 10) ∷ out) in
    if ltb n 10 then (b'0' + n) ∷ out else more

-- `std::to_string` of an unsigned 64-bit word, which has at most twenty digits.
unfoldable pub to_text : ℕ → Text
to_text n = digits_of 20 n []

-- The magnitude of `raw_`, in which `-(raw_ + 1)` is `n` at -(n + 1).
unfoldable pub magnitude_of : Decimal → ℕ
magnitude_of (pos n) = n
magnitude_of (negsuc n) = (n + 1) % 2 ^ 64

abbrev pub sign_of : Decimal → Text
sign_of (pos n) = []
sign_of (negsuc n) = b'-' ∷ []

unfoldable pub to_string : Decimal → Text
unfolding magnitude_of
to_string raw =
    let whole = magnitude_of raw / scale in
    let fraction_text = to_text (magnitude_of raw % scale) in
    sign_of raw
    ++ (to_text whole ++ (b'.' ∷ (replicate (8 - length fraction_text) b'0' ++ fraction_text)))
