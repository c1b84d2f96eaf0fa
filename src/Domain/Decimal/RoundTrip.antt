-- ===== src/Domain/Decimal/RoundTrip.antt =====
-- `Decimal::to_string` and back (src/domain/decimal.cpp).
use native.Mathlib.Nat.{pow-succ'}
use fin_core_streaming_syste.Prelude.{
  ℕ, zero, suc, ◌+◌, ◌-◌, ◌/◌, ◌%◌, ◌^◌, ◌≤◌, ◌<◌, ◌≡◌, refl, ◌∙◌, ◌≢◌, [], ◌∷◌, ◌++◌, arith,
  length, length-append, length-replicate, replicate, All, All-append, Text, ok,
}
use fin_core_streaming_syste.Prelude.Int.{pos, negsuc, IsInt64}
use fin_core_streaming_syste.Domain.Decimal.{
  Decimal, scale, limit_of, digits_of, to_text, magnitude_of, sign_of, to_string, from_string,
}
use fin_core_streaming_syste.Domain.Decimal.Spelling.{
  Sign, sign_text, unsigned, plus, minus, is_minus, IsDigit, point, spell, IsDecimal, value, units,
  signed,
}
use fin_core_streaming_syste.Domain.Decimal.Exact.{from_string_exact}

digits_of-digits :
    (k n : ℕ) (out : Text) → n < 10 ^ k → All IsDigit out → All IsDigit (digits_of k n out)
unfolding digits_of
digits_of-digits zero n out h d = d
digits_of-digits (suc k) n out h d =
    let e = pow-succ' 10 k in ground (arith, digits_of-digits k (n / 10) ((b'0' + n % 10) ∷ out), e)

digits_of-value : (k n : ℕ) (out : Text) → n < 10 ^ k → value 0 (digits_of k n out) ≡ value n out
unfolding digits_of
digits_of-value zero n out h = ground arith
digits_of-value (suc k) n out h =
    ground (arith, digits_of-value k (n / 10) ((b'0' + n % 10) ∷ out), pow-succ' 10 k)

digits_of-ne-nil : (k n : ℕ) (out : Text) → out ≢ [] → digits_of k n out ≢ []
unfolding digits_of
digits_of-ne-nil zero n out h = h
digits_of-ne-nil (suc k) n out h =
    ground (arith, digits_of-ne-nil k (n / 10) ((b'0' + n % 10) ∷ out))

digits_of-ne-nil' : (k n : ℕ) → 0 < k → digits_of k n [] ≢ []
unfolding digits_of
digits_of-ne-nil' zero n h = elim h [ ]
digits_of-ne-nil' (suc k) n h = ground (arith, digits_of-ne-nil k (n / 10) ((b'0' + n % 10) ∷ []))

pub length-digits_of :
    (k j n : ℕ) (out : Text) → n < 10 ^ suc j → length (digits_of k n out) ≤ suc j + length out
unfolding digits_of
length-digits_of zero j n out h = omega arith
length-digits_of (suc k) zero n out h = ground arith
length-digits_of (suc k) (suc j) n out h =
    ground (arith, length-digits_of k j (n / 10) ((b'0' + n % 10) ∷ out), pow-succ' 10 (suc j))

-- `std::to_string` of an unsigned word: digits, at least one, that spell it.
pub to_text-digits : (n : ℕ) → n < 10 ^ 20 → All IsDigit (to_text n)
unfolding to_text
to_text-digits n h = digits_of-digits 20 n [] h tt

pub to_text-value : (n : ℕ) → n < 10 ^ 20 → value 0 (to_text n) ≡ n
unfolding to_text
to_text-value n h = digits_of-value 20 n [] h

pub to_text-ne-nil : (n : ℕ) → to_text n ≢ []
unfolding to_text
to_text-ne-nil n = digits_of-ne-nil' 20 n (omega arith)

length-to_text : (n : ℕ) → n < 10 ^ 8 → length (to_text n) ≤ 8
unfolding to_text
length-to_text n h = omega (arith, length-digits_of 20 7 n [] h)

pub value-zeros : (k : ℕ) (s : Text) → value 0 (replicate k b'0' ++ s) ≡ value 0 s
value-zeros zero s = refl
value-zeros (suc k) s = value-zeros k s

pub zeros-digits : (k : ℕ) → All IsDigit (replicate k b'0')
zeros-digits zero = tt
zeros-digits (suc k) = (omega arith, zeros-digits k)

-- The eight digits behind the point.
abbrev padded : ℕ → Text
padded fraction = replicate (8 - length (to_text fraction)) b'0' ++ to_text fraction

length-padded : (n : ℕ) → n < scale → length (padded n) ≡ 8
length-padded n h =
    let k = 8 - length (to_text n) in
    omega (
      arith,
      length-append (replicate k b'0') (to_text n),
      length-replicate {A = ℕ} k b'0',
      length-to_text n h,
    )

padded-digits : (n : ℕ) → n < scale → All IsDigit (padded n)
padded-digits n h =
    let k = 8 - length (to_text n) in
    All-append IsDigit (replicate k b'0') (to_text n) (zeros-digits k)
      (to_text-digits n (omega arith))

units-padded : (m : ℕ) → m ≤ 2 ^ 63 → units (to_text (m / scale)) (padded (m % scale)) ≡ m
units-padded m h =
    let whole = to_text-value (m / scale) (omega arith) in
    let part =
      value-zeros (8 - length (to_text (m % scale))) (to_text (m % scale))
      ∙ to_text-value (m % scale) (omega arith) in
    rw (length-padded (m % scale) (omega arith), whole, part) (omega arith)

-- `to_string` writes the decimal text of the value: the whole part and exactly eight digits.
abbrev printed_sign : Decimal → Sign
printed_sign (pos n) = unsigned
printed_sign (negsuc n) = minus

magnitude_of-le : (d : Decimal) → IsInt64 d → magnitude_of d ≤ limit_of (is_minus (printed_sign d))
unfolding magnitude_of
magnitude_of-le (pos n) h = omega arith
magnitude_of-le (negsuc n) h = omega arith

signed-magnitude_of :
    (d : Decimal) → IsInt64 d → signed (is_minus (printed_sign d)) (magnitude_of d) ≡ d
unfolding magnitude_of
signed-magnitude_of (pos n) h = refl
signed-magnitude_of (negsuc n) h = let e : (n + 1) % 2 ^ 64 ≡ suc n = omega arith in rw e

point-cons : (fs : Text) → 0 < length fs → point fs ≡ b'.' ∷ fs
point-cons [] h = elim h [ ]
point-cons (c ∷ fs) h = refl

limit-le : (sign : Sign) (m : ℕ) → m ≤ limit_of (is_minus sign) → m ≤ 2 ^ 63
limit-le unsigned m h = omega arith
limit-le plus m h = omega arith
limit-le minus m h = omega arith

sign_text-printed_sign : (d : Decimal) → sign_text (printed_sign d) ≡ sign_of d
sign_text-printed_sign (pos n) = refl
sign_text-printed_sign (negsuc n) = refl

to_string-spell :
    (d : Decimal)
    → IsInt64 d
    → to_string d
      ≡ spell (printed_sign d) (to_text (magnitude_of d / scale)) (padded (magnitude_of d % scale))
unfolding to_string
to_string-spell d h =
    let small : magnitude_of d % scale < scale = omega arith in
    let eight : 0 < length (padded (magnitude_of d % scale)) =
      omega (arith, length-padded (magnitude_of d % scale) small) in
    rw (sign_text-printed_sign d, point-cons (padded (magnitude_of d % scale)) eight)

to_string-IsDecimal : (m : ℕ) → m ≤ 2 ^ 63 → IsDecimal (to_text (m / scale)) (padded (m % scale))
to_string-IsDecimal m h = record {
  has_whole = to_text-ne-nil (m / scale);
  whole_digits = to_text-digits (m / scale) (omega arith);
  fraction_digits = padded-digits (m % scale) (omega arith);
  fits = omega (arith, length-padded (m % scale));
}

-- Every `Decimal` is read back from its text.
pub from_string-to_string : (d : Decimal) → IsInt64 d → from_string (to_string d) ≡ ok d
from_string-to_string d h =
    let m = magnitude_of d in
    let sign = printed_sign d in
    let limit = magnitude_of-le d h in
    let bound : m ≤ 2 ^ 63 = limit-le sign m limit in
    let same = units-padded m bound in
    let exact =
      from_string_exact sign (to_text (m / scale)) (padded (m % scale))
        (to_string-IsDecimal m bound) (rw same limit) in
    rw (to_string-spell d h, exact, same, signed-magnitude_of d h)
