-- ===== src/Domain/Decimal/Exact.antt =====
-- `Decimal::from_string` on every well-formed decimal text (src/domain/decimal.cpp).
use native.Mathlib.Decide.{dec_le}
use native.Mathlib.Nat.{
  pow-succ', one-le-pow, pow-le-pow_right, mod-eq_of_lt, mul-le-mul, le_refl, zero-add,
}
use fin_core_streaming_syste.Prelude.{
  ℕ, zero, suc, ◌+◌, ◌-◌, ◌*◌, ◌^◌, ◌≤◌, ◌<◌, ◌≡◌, refl, sym, ap, ◌∙◌, Bool, true, false, [], ◌∷◌,
  ◌++◌, arith, length, All, Text, ok, err, out_of_range, Message, lit,
}
use fin_core_streaming_syste.Domain.Decimal.{
  scale, max_u64, supported_range, checked_accumulate, read_whole, read_fraction, read_point,
  pad_fraction, limit_of, int64_range, apply_sign, assemble, from_unsigned, from_string,
}
use fin_core_streaming_syste.Domain.Decimal.Spelling.{
  Sign, unsigned, plus, minus, is_minus, IsDigit, point, spell, IsDecimal, value, units, signed,
  pow_add as add_powers, le-value, value-lt,
}

-- What may stand behind the digits of the whole part.
abbrev pub Stops : Text → Type 0
Stops [] = Unit
Stops (c ∷ s) = c ≡ b'.'

pub point-Stops : (fs : Text) → Stops (point fs)
point-Stops [] = tt
point-Stops (c ∷ fs) = refl

read_whole-append :
    (ws tail : Text) (w : ℕ)
    → All IsDigit ws
    → Stops tail
    → value w ws ≤ max_u64
    → read_whole (ws ++ tail) w true ≡ ok (value w ws, true, tail)
unfolding read_whole checked_accumulate
read_whole-append [] [] w h s fits = refl
read_whole-append [] (t ∷ tail) w h s fits = ground arith
read_whole-append (c ∷ ws) tail w (h, hs) s fits =
    let next = w * 10 + (c - b'0') in
    ground (arith, read_whole-append ws tail next hs s fits, le-value next ws)

read_whole-overflow :
    (ws tail : Text) (w : ℕ)
    → All IsDigit ws
    → w ≤ max_u64
    → max_u64 < value w ws
    → read_whole (ws ++ tail) w true ≡ err supported_range
unfolding read_whole checked_accumulate
read_whole-overflow [] tail w h s over = absurd (omega arith)
read_whole-overflow (c ∷ ws) tail w (h, hs) s over =
    ground (arith, read_whole-overflow ws tail (w * 10 + (c - b'0')) hs)

-- The first digit only sets `saw_whole_digit`.
read_whole-first :
    (c : ℕ) (s : Text) (saw : Bool)
    → IsDigit c
    → read_whole (c ∷ s) 0 saw ≡ read_whole (c ∷ s) 0 true
unfolding read_whole
read_whole-first c s saw h = ground arith

read_fraction-value :
    (fs : Text) (f d : ℕ)
    → All IsDigit fs
    → d + length fs ≤ 8
    → value f fs < 2 ^ 64
    → read_fraction fs f d ≡ ok (value f fs, d + length fs)
unfolding read_fraction
read_fraction-value [] f d h fits small = ground arith
read_fraction-value (c ∷ fs) f d (h, hs) fits small =
    let next = f * 10 + (c - b'0') in
    ground (arith, read_fraction-value fs next (d + 1) hs, le-value next fs)

pad_fraction-eq :
    (rounds f : ℕ) → f * 10 ^ rounds < 2 ^ 64 → pad_fraction rounds f ≡ f * 10 ^ rounds
unfolding pad_fraction
pad_fraction-eq zero f h = omega arith
pad_fraction-eq (suc rounds) f h =
    let p = 10 ^ rounds in
    let e : f * 10 ^ suc rounds ≡ f * 10 * p = rw (pow-succ' 10 rounds) (omega arith) in
    let one : 1 ≤ p = one-le-pow rounds 10 (omega arith) in
    let small : f * 10 < 2 ^ 64 = grind (arith, mul-le-mul (le_refl (f * 10)) one) in
    rw (e, mod-eq_of_lt small) (pad_fraction-eq rounds (f * 10) (omega arith))

-- The fraction, scaled to eight digits, stays below one whole unit.
fraction-lt :
    (fs : Text) → All IsDigit fs → length fs ≤ 8 → value 0 fs * 10 ^ (8 - length fs) < scale
fraction-lt fs h fits =
    let k = length fs in
    let p = 10 ^ (8 - k) in
    let split : (8 - k) + k ≡ 8 = omega arith in
    let whole : p * 10 ^ k ≡ scale = sym (add_powers (8 - k) k) ∙ ap (λ (n : ℕ). 10 ^ n) split in
    let one : 1 ≤ p = one-le-pow (8 - k) 10 (omega arith) in
    let low : value 0 fs + 1 ≤ 10 ^ k = omega (arith, value-lt 0 fs h) in
    omega (arith, mul-le-mul low (le_refl p), whole, one)

read_point-point :
    (fs : Text)
    → All IsDigit fs
    → length fs ≤ 8
    → read_point (point fs) ≡ ok (value 0 fs, length fs)
unfolding read_point
read_point-point [] h fits = refl
read_point-point (c ∷ fs) h fits =
    let bound : 10 ^ length (c ∷ fs) ≤ 10 ^ 8 = pow-le-pow_right (omega arith) fits in
    let small : value 0 (c ∷ fs) < 2 ^ 64 = omega (arith, value-lt 0 (c ∷ fs) h, bound) in
    rw (zero-add (length (c ∷ fs))) at (read_fraction-value (c ∷ fs) 0 0 h (omega arith) small)

apply_sign-signed :
    (negative : Bool) (m : ℕ) → m ≤ limit_of negative → apply_sign negative m ≡ signed negative m
unfolding apply_sign
apply_sign-signed false m h = ground arith
apply_sign-signed true zero h = refl
apply_sign-signed true (suc m) h = ground arith

-- The range check is exact.
assemble-ok :
    (negative : Bool) (w f : ℕ)
    → f < scale
    → w * scale + f ≤ limit_of negative
    → assemble negative w f ≡ ok (signed negative (w * scale + f))
unfolding assemble
assemble-ok negative w f h fits =
    let m = w * scale + f in
    let small : m < 2 ^ 64 = ground arith in
    rw (mod-eq_of_lt small, apply_sign-signed negative m fits) (ground arith)

assemble-overflow :
    (negative : Bool) (w f : ℕ)
    → f < scale
    → limit_of negative < w * scale + f
    → assemble negative w f ≡ err int64_range
unfolding assemble
assemble-overflow negative w f h over = ground arith

-- From the start of the digits.
read_whole-digits :
    (c : ℕ) (ws tail : Text)
    → All IsDigit (c ∷ ws)
    → Stops tail
    → value 0 (c ∷ ws) ≤ max_u64
    → read_whole (c ∷ (ws ++ tail)) 0 false ≡ ok (value 0 (c ∷ ws), true, tail)
read_whole-digits c ws tail h s fits =
    read_whole-first c (ws ++ tail) false h.0 ∙ read_whole-append (c ∷ ws) tail 0 h s fits

read_whole-digits_overflow :
    (c : ℕ) (ws tail : Text)
    → All IsDigit (c ∷ ws)
    → max_u64 < value 0 (c ∷ ws)
    → read_whole (c ∷ (ws ++ tail)) 0 false ≡ err supported_range
read_whole-digits_overflow c ws tail h over =
    read_whole-first c (ws ++ tail) false h.0
    ∙ read_whole-overflow (c ∷ ws) tail 0 h (omega arith) over

-- Behind the sign, where the whole part fits a word.
from_unsigned-assemble :
    (negative : Bool) (ws fs : Text)
    → IsDecimal ws fs
    → value 0 ws ≤ max_u64
    → from_unsigned negative (ws ++ point fs)
      ≡ assemble negative (value 0 ws) (value 0 fs * 10 ^ (8 - length fs))
unfolding from_unsigned
from_unsigned-assemble negative [] fs d fits = absurd (d.has_whole refl)
from_unsigned-assemble negative (c ∷ ws) fs d fits =
    let low = fraction-lt fs d.fraction_digits d.fits in
    let small : value 0 fs * 10 ^ (8 - length fs) < 2 ^ 64 = omega arith in
    rw (
      read_whole-digits c ws (point fs) d.whole_digits (point-Stops fs) fits,
      read_point-point fs d.fraction_digits d.fits,
      pad_fraction-eq (8 - length fs) (value 0 fs) small,
    )

from_unsigned-overflow :
    (negative : Bool) (ws fs : Text)
    → IsDecimal ws fs
    → max_u64 < value 0 ws
    → from_unsigned negative (ws ++ point fs) ≡ err supported_range
unfolding from_unsigned
from_unsigned-overflow negative [] fs d over = absurd (d.has_whole refl)
from_unsigned-overflow negative (c ∷ ws) fs d over =
    rw (read_whole-digits_overflow c ws (point fs) d.whole_digits over)

-- The sign decides the limit, and nothing else.
from_string-spell :
    (sign : Sign) (ws fs : Text)
    → IsDecimal ws fs
    → from_string (spell sign ws fs) ≡ from_unsigned (is_minus sign) (ws ++ point fs)
unfolding from_string
from_string-spell unsigned [] fs d = absurd (d.has_whole refl)
from_string-spell unsigned (c ∷ ws) fs d = ground arith
from_string-spell plus ws fs d = refl
from_string-spell minus ws fs d = refl

-- A well-formed text whose value fits an `int64_t` of units of 10^-8 is read as exactly that value.
pub from_string_exact :
    (sign : Sign) (ws fs : Text)
    → IsDecimal ws fs
    → units ws fs ≤ limit_of (is_minus sign)
    → from_string (spell sign ws fs) ≡ ok (signed (is_minus sign) (units ws fs))
from_string_exact sign ws fs d h =
    let small : value 0 ws ≤ max_u64 = ground (arith) in
    from_string-spell sign ws fs d
    ∙ from_unsigned-assemble (is_minus sign) ws fs d small
    ∙ assemble-ok (is_minus sign) (value 0 ws) _ (fraction-lt fs d.fraction_digits d.fits) h

-- A well-formed text whose value does not fit is refused with `out_of_range`: nothing wraps around.
pub from_string_overflow :
    (sign : Sign) (ws fs : Text)
    → IsDecimal ws fs
    → limit_of (is_minus sign) < units ws fs
    → (m : Message) × (from_string (spell sign ws fs) ≡ err (out_of_range m))
from_string_overflow sign ws fs d h = elim (dec_le (value 0 ws) max_u64) [
  | yes small ↦ (
    lit "decimal value exceeds int64 range",
    from_string-spell sign ws fs d
        ∙ from_unsigned-assemble (is_minus sign) ws fs d small
        ∙ assemble-overflow (is_minus sign) (value 0 ws) _ (fraction-lt fs d.fraction_digits d.fits)
            h,
  )
  | no large ↦ (
    lit "decimal value exceeds the supported range",
    from_string-spell sign ws fs d ∙ from_unsigned-overflow (is_minus sign) ws fs d (omega arith),
  )
]
