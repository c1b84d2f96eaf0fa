-- ===== src/Domain/Decimal/Spelling.antt =====
-- What a decimal text is, without reference to the parser of src/domain/decimal.cpp: an optional
-- sign, digits, and perhaps a point with one to eight digits; and the integer that it spells.
use native.Mathlib.Nat.{pow-succ', zero-add, mul-le-mul, le_refl}
use fin_core_streaming_syste.Prelude.{
  ℕ, zero, suc, ◌+◌, ◌-◌, ◌*◌, ◌^◌, ◌≤◌, ◌<◌, ◌≡◌, refl, ◌≢◌, Bool, true, false, [], ◌∷◌, ◌++◌,
  arith, if◌then◌else◌, length, All, Text,
}
use fin_core_streaming_syste.Prelude.Int.{ℤ, pos, negate}
use fin_core_streaming_syste.Domain.Decimal.{scale}

pub data Sign : Type 0 where
  unsigned plus minus : Sign

abbrev pub sign_text : Sign → Text
sign_text unsigned = []
sign_text plus = b'+' ∷ []
sign_text minus = b'-' ∷ []

abbrev pub is_minus : Sign → Bool
is_minus unsigned = false
is_minus plus = false
is_minus minus = true

abbrev pub IsDigit : ℕ → Type 0
IsDigit c = (b'0' ≤ c) × (c ≤ b'9')

-- The point stands only in front of digits.
abbrev pub point : Text → Text
point [] = []
point (c ∷ fs) = b'.' ∷ (c ∷ fs)

abbrev pub spell : Sign → Text → Text → Text
spell sign whole fraction = sign_text sign ++ (whole ++ point fraction)

pub record IsDecimal (whole fraction : Text) : Type 0 where
  pub has_whole : whole ≢ []
  pub whole_digits : All IsDigit whole
  pub fraction_digits : All IsDigit fraction
  pub fits : length fraction ≤ 8

-- The number that digits spell behind `n`.
abbrev pub value : ℕ → Text → ℕ
value n [] = n
value n (c ∷ s) = value (n * 10 + (c - b'0')) s

-- The magnitude in units of 10^-8.
abbrev pub units : Text → Text → ℕ
units whole fraction = value 0 whole * scale + value 0 fraction * 10 ^ (8 - length fraction)

abbrev pub signed : Bool → ℕ → ℤ
signed negative n = if negative then negate (pos n) else pos n

pub pow_add : (a b : ℕ) → 10 ^ (a + b) ≡ 10 ^ a * 10 ^ b
pow_add zero b = rw zero-add (omega arith)
pow_add (suc a) b =
    let e : suc a + b ≡ suc (a + b) = omega arith in
    rw (e, pow-succ' 10 (a + b), pow_add a b, pow-succ' 10 a) (omega arith)

pub value-append : (n : ℕ) (s t : Text) → value n (s ++ t) ≡ value (value n s) t
value-append n [] t = refl
value-append n (c ∷ s) t = value-append (n * 10 + (c - b'0')) s t

pub le-value : (n : ℕ) (s : Text) → n ≤ value n s
le-value n [] = omega arith
le-value n (c ∷ s) = omega (arith, le-value (n * 10 + (c - b'0')) s)

pub value-lt : (n : ℕ) (s : Text) → All IsDigit s → value n s < (n + 1) * 10 ^ length s
value-lt n [] h = omega arith
value-lt n (c ∷ s) (h, hs) =
    let next = n * 10 + (c - b'0') in
    let p = 10 ^ length s in
    let ten : next + 1 ≤ (n + 1) * 10 = omega arith in
    rw (pow-succ' 10 (length s)) (omega (arith, value-lt next s hs, mul-le-mul ten (le_refl p)))
