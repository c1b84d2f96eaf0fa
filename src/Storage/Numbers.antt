-- ===== src/Storage/Numbers.antt =====
-- `std::from_chars` and `std::to_string` on integers, as src/storage uses them.
use fin_core_streaming_syste.Prelude.{
  ℕ, ◌+◌, ◌-◌, ◌*◌, ◌^◌, ◌<◌, ◌≡◌, ◌≢◌, refl, Bool, true, false, ◌&&◌, Option, none, some, [], ◌∷◌,
  All, Text, arith, if◌then◌else◌, leb, ◌==◌,
}
use fin_core_streaming_syste.Prelude.Int.{ℤ, pos, negsuc, IsInt64, negate}
use fin_core_streaming_syste.Domain.Decimal.{to_text}
use fin_core_streaming_syste.Domain.Decimal.Spelling.{IsDigit, value}
use fin_core_streaming_syste.Domain.Decimal.RoundTrip.{
  to_text-digits, to_text-value, to_text-ne-nil,
}

-- The digits of the whole text behind `n`, or `none` at another character.
unfoldable pub all_digits : Text → ℕ → Option ℕ
all_digits [] n = some n
all_digits (c ∷ s) n = elim (leb b'0' c && leb c b'9') [
  | true ↦ all_digits s (n * 10 + (c - b'0'))
  | false ↦ none
]

abbrev pub at_most : ℕ → Option ℕ → Option ℕ
at_most limit none = none
at_most limit (some n) = if leb n limit then some n else none

-- `from_chars` for an unsigned 64-bit word, where the call demands that it reads the whole text.
unfoldable pub whole_u64 : Text → Option ℕ
unfolding all_digits
whole_u64 [] = none
whole_u64 (c ∷ s) = at_most (2 ^ 64 - 1) (all_digits (c ∷ s) 0)

abbrev pub in_range : Bool → Option ℕ → Option ℤ
in_range negative none = none
in_range false (some n) = if leb n (2 ^ 63 - 1) then some (pos n) else none
in_range true (some n) = if leb n (2 ^ 63) then some (negate (pos n)) else none

-- The same for `int64_t`, which takes a minus sign and no plus sign.
unfoldable pub whole_i64 : Text → Option ℤ
unfolding all_digits
whole_i64 [] = none
whole_i64 (c ∷ []) = in_range false (all_digits (c ∷ []) 0)
whole_i64 (c ∷ (d ∷ s)) =
    if c == b'-'
    then in_range true (all_digits (d ∷ s) 0)
    else in_range false (all_digits (c ∷ (d ∷ s)) 0)

-- `std::to_string` of an `int64_t`.
unfoldable pub signed_text : ℤ → Text
signed_text (pos n) = to_text n
signed_text (negsuc n) = b'-' ∷ to_text (n + 1)

all_digits-value : (s : Text) (n : ℕ) → All IsDigit s → all_digits s n ≡ some (value n s)
unfolding all_digits
all_digits-value [] n h = refl
all_digits-value (c ∷ s) n (h, hs) = ground (arith, all_digits-value s (n * 10 + (c - b'0')) hs)

all_digits-to_text : (n : ℕ) → n < 10 ^ 20 → all_digits (to_text n) 0 ≡ some n
all_digits-to_text n h = rw (all_digits-value (to_text n) 0 (to_text-digits n h), to_text-value n h)

whole_u64-ne-nil : (s : Text) → s ≢ [] → whole_u64 s ≡ at_most (2 ^ 64 - 1) (all_digits s 0)
unfolding whole_u64
whole_u64-ne-nil [] ne = absurd (ne refl)
whole_u64-ne-nil (c ∷ s) ne = refl

pub whole_u64-to_text : (n : ℕ) → n < 2 ^ 64 → whole_u64 (to_text n) ≡ some n
whole_u64-to_text n h =
    rw (whole_u64-ne-nil (to_text n) (to_text-ne-nil n), all_digits-to_text n (omega arith))
      (ground arith)

whole_i64-digits :
    (s : Text) → s ≢ [] → All IsDigit s → whole_i64 s ≡ in_range false (all_digits s 0)
unfolding whole_i64
whole_i64-digits [] ne h = absurd (ne refl)
whole_i64-digits (c ∷ []) ne h = refl
whole_i64-digits (c ∷ (d ∷ s)) ne (h, hs) = ground arith

whole_i64-minus : (s : Text) → s ≢ [] → whole_i64 (b'-' ∷ s) ≡ in_range true (all_digits s 0)
unfolding whole_i64
whole_i64-minus [] ne = absurd (ne refl)
whole_i64-minus (d ∷ s) ne = refl

pub whole_i64-signed_text : (z : ℤ) → IsInt64 z → whole_i64 (signed_text z) ≡ some z
unfolding signed_text
whole_i64-signed_text (pos n) h =
    rw
      (
        whole_i64-digits (to_text n) (to_text-ne-nil n) (to_text-digits n (omega arith)),
        all_digits-to_text n (omega arith),
      )
      (ground arith)
whole_i64-signed_text (negsuc n) h =
    rw
      (
        whole_i64-minus (to_text (n + 1)) (to_text-ne-nil (n + 1)),
        all_digits-to_text (n + 1) (omega arith),
      )
      (ground arith)
