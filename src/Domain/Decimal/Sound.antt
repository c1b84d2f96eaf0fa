-- ===== src/Domain/Decimal/Sound.antt =====
-- What `Decimal::from_string` accepts (src/domain/decimal.cpp).
use native.Mathlib.Decide.{dec_le}
use mathlib.Core.List.{cons-ne-nil}
use fin_core_streaming_syste.Prelude.{
  ℕ, ◌+◌, ◌-◌, ◌*◌, ◌^◌, ◌≤◌, ◌≡◌, refl, sym, ap, ◌∙◌, ◌≢◌, Bool, true, false, [], ◌∷◌, ◌++◌, ◌==◌,
  arith, ==_iff, ◌%◌, inl, inr, length, All, Text, ok, Bool-cases, ok-injective, ok≢err, >>=-eq-ok,
  guard-eq-ok,
}
use fin_core_streaming_syste.Domain.Decimal.{
  Decimal, checked_accumulate, is_not_digit, read_whole, read_fraction, read_point, limit_of,
  from_unsigned, from_string,
}
use fin_core_streaming_syste.Domain.Decimal.Spelling.{
  Sign, sign_text, unsigned, plus, minus, is_minus, IsDigit, point, spell, IsDecimal, units, signed,
}
use fin_core_streaming_syste.Domain.Decimal.Exact.{Stops, from_string_exact, from_string_overflow}

-- How the loop of the whole part ended: it left `rest`, behind the digits `ws`.
pub record WholeShape (s rest : Text) (saw saw' : Bool) : Type 0 where
  pub ws : Text
  pub split : s ≡ ws ++ rest
  pub digits : All IsDigit ws
  pub stops : Stops rest
  pub seen : saw ≡ false → saw' ≡ true → ws ≢ []

IsDigit-of_test : (c : ℕ) → is_not_digit c ≡ false → IsDigit c
IsDigit-of_test c h = ground arith

read_whole-shape :
    (s : Text) (w : ℕ) (saw : Bool) {w' : ℕ} {saw' : Bool} {rest : Text}
    → read_whole s w saw ≡ ok (w', saw', rest)
    → WholeShape s rest saw saw'
unfolding read_whole
read_whole-shape [] w saw {rest = rest} h =
    let e : rest ≡ [] = ground arith in
    record {
      ws = [];
      split = ground arith;
      digits = tt;
      stops = rw e tt;
      seen = λ a b. ground arith;
    }
read_whole-shape (c ∷ s) w saw {saw' = saw'} {rest = rest} h = elim (Bool-cases (c == b'.')) [
  | inl dot ↦
      let e : rest ≡ c ∷ s = ground arith in
      record {
        ws = [];
        split = ground arith;
        digits = tt;
        stops = rw e ((==_iff c b'.').0 dot);
        seen = λ a b. ground arith;
      }
  | inr more ↦ elim (Bool-cases (is_not_digit c)) [
    | inl bad ↦ absurd (ground arith)
    | inr digit ↦
        let found =
          >>=-eq-ok (checked_accumulate w (c - b'0')) (λ n. read_whole s n true)
            (rw (more, digit, read_whole) at h) in
        let later = read_whole-shape s found.0 true found.2 in
        record {
          ws = c ∷ later.ws;
          split = ap (λ t. c ∷ t) later.split;
          digits = (IsDigit-of_test c digit, later.digits);
          stops = later.stops;
          seen = λ a b. cons-ne-nil c later.ws;
        }
  ]
]

-- The loop of the fraction accepts digits, as many as leave at most eight.
read_fraction-shape :
    (s : Text) (f d f' d' : ℕ)
    → d ≤ 8
    → read_fraction s f d ≡ ok (f', d')
    → All IsDigit s × (d + length s ≤ 8)
unfolding read_fraction
read_fraction-shape [] f d f' d' small h = (tt, omega arith)
read_fraction-shape (c ∷ s) f d f' d' small h =
    ground (arith, read_fraction-shape s ((f * 10 + (c - b'0')) % 2 ^ 64) (d + 1) f' d')

-- What may follow the whole part: nothing, or a point and its digits.
record PointShape (rest : Text) : Type 0 where
  fs : Text
  split : rest ≡ point fs
  digits : All IsDigit fs
  fits : length fs ≤ 8

read_point-shape :
    (rest : Text) (f d : ℕ) → Stops rest → read_point rest ≡ ok (f, d) → PointShape rest
unfolding read_point
read_point-shape [] f d s h = record { fs = []; split = refl; digits = tt; fits = omega arith }
read_point-shape (c ∷ []) f d s h = absurd (ground arith)
read_point-shape (c ∷ (e ∷ fs)) f d s h =
    let shape = read_fraction-shape (e ∷ fs) 0 0 f d (omega arith) h in
    record { fs = e ∷ fs; split = rw s; digits = shape.0; fits = omega (arith, shape.1) }

-- An accepted text behind the sign is digits and perhaps a fraction.
record UnsignedShape (s : Text) : Type 0 where
  ws : Text
  fs : Text
  split : s ≡ ws ++ point fs
  decimal : IsDecimal ws fs

from_unsigned-shape :
    (negative : Bool) (s : Text) {d : Decimal} → from_unsigned negative s ≡ ok d → UnsignedShape s
unfolding from_unsigned
from_unsigned-shape negative [] h = absurd (ground arith)
from_unsigned-shape negative (c ∷ s) h =
    let (_, read, after) = >>=-eq-ok (read_whole (c ∷ s) 0 false) _ h in
    let (saw, parsed) = guard-eq-ok _ _ _ after in
    let (_, pointed, _) = >>=-eq-ok (read_point _) _ parsed in
    let shape = read_whole-shape (c ∷ s) 0 false read in
    let tail = read_point-shape _ _ _ shape.stops pointed in
    record {
      ws = shape.ws;
      fs = tail.fs;
      split = rw (← tail.split) shape.split;
      decimal = record {
        has_whole = shape.seen refl saw;
        whole_digits = shape.digits;
        fraction_digits = tail.digits;
        fits = tail.fits;
      };
    }

-- The sign of a text, and what is behind it.
record SignShape (s : Text) (d : Decimal) : Type 0 where
  sign : Sign
  rest : Text
  split : s ≡ sign_text sign ++ rest
  parsed : from_unsigned (is_minus sign) rest ≡ ok d

from_string-shape : (s : Text) {d : Decimal} → from_string s ≡ ok d → SignShape s d
unfolding from_string
from_string-shape [] h = absurd (ground arith)
from_string-shape (c ∷ s) h = elim (Bool-cases (c == b'-')) [
  | inl e ↦ record {
    sign = minus;
    rest = s;
    split = ap (λ n. n ∷ s) ((==_iff c b'-').0 e);
    parsed = ground arith;
  }
  | inr e ↦ elim (Bool-cases (c == b'+')) [
    | inl f ↦ record {
      sign = plus;
      rest = s;
      split = ap (λ n. n ∷ s) ((==_iff c b'+').0 f);
      parsed = ground arith;
    }
    | inr f ↦ record { sign = unsigned; rest = c ∷ s; split = refl; parsed = ground arith }
  ]
]

-- A result comes only from a well-formed text, and it is the value which that text spells, a value
-- in the range of `int64_t`.
pub from_string_sound :
    (s : Text) {d : Decimal}
    → from_string s ≡ ok d
    → (sign : Sign) × (ws : Text) × (fs : Text) × (s ≡ spell sign ws fs)
      × IsDecimal ws fs
      × (units ws fs ≤ limit_of (is_minus sign))
      × (d ≡ signed (is_minus sign) (units ws fs))
from_string_sound s {d} h =
    let shape = from_string-shape s h in
    let body = from_unsigned-shape (is_minus shape.sign) shape.rest shape.parsed in
    let e : s ≡ spell shape.sign body.ws body.fs = rw (← body.split) shape.split in
    elim (dec_le (units body.ws body.fs) (limit_of (is_minus shape.sign))) [
      | yes small ↦
          let exact = from_string_exact shape.sign body.ws body.fs body.decimal small in
          (
            shape.sign,
            body.ws,
            body.fs,
            e,
            body.decimal,
            small,
            ok-injective (sym h ∙ (ap from_string e ∙ exact)),
          )
      | no large ↦
          let (m, over) =
            from_string_overflow shape.sign body.ws body.fs body.decimal (omega arith) in
          absurd (ok≢err (sym h ∙ (ap from_string e ∙ over)))
    ]
