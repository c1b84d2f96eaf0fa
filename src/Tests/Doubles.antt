-- ===== src/Tests/Doubles.antt =====
-- Numbers that meet the laws of IEEE comparison: hundredths, and a NaN.
use fin_core_streaming_syste.Prelude.{
  ◌+◌, ◌*◌, ◌/◌, ◌≡◌, refl, sym, Bool, true, false, ◌&&◌, Option, none, some, if◌then◌else◌,
  true≢false,
}
use fin_core_streaming_syste.Prelude.Int.{
  ℤ, pos, negsuc, ◌+ℤ◌, ◌-ℤ◌, ltb_ℤ, leb_ℤ, pos_part, neg_part, negate,
}
use fin_core_streaming_syste.Core.Double.{Double, IsIeee}
use native.Mathlib.Omega.{arith}

abbrev Cents : Type 0
Cents = Option ℤ

abbrev lift : (ℤ → ℤ → ℤ) → Cents → Cents → Cents
lift f (some a) (some b) = some (f a b)
lift f (some a) none = none
lift f none b = none

abbrev test : (ℤ → ℤ → Bool) → Cents → Cents → Bool
test f (some a) (some b) = f a b
test f (some a) none = false
test f none b = false

abbrev times : ℤ → ℤ → ℤ
times (pos a) (pos b) = pos (a * b / 100)
times (pos a) (negsuc b) = negate (pos (a * (b + 1) / 100))
times (negsuc a) (pos b) = negate (pos ((a + 1) * b / 100))
times (negsuc a) (negsuc b) = pos ((a + 1) * (b + 1) / 100)

abbrev divide : ℤ → ℤ → ℤ
divide a b =
    if leb_ℤ b (pos 0)
    then pos 0
    else (if ltb_ℤ a (pos 0)
        then negate (pos (neg_part a * 100 / pos_part b))
        else pos (pos_part a * 100 / pos_part b))

abbrev opposite : Cents → Cents
opposite none = none
opposite (some a) = some (negate a)

abbrev pub cents : Double
cents = record {
  Num = Cents;
  nought = some (pos 0);
  one = some (pos 100);
  half = some (pos 50);
  hundredth = some (pos 1);
  lt = test ltb_ℤ;
  le = test leb_ℤ;
  eq = test (λ a b. leb_ℤ a b && leb_ℤ b a);
  add = lift (λ a b. a +ℤ b);
  sub = lift (λ a b. a -ℤ b);
  mul = lift times;
  div = lift divide;
  neg = opposite;
  of_u64 = λ n. some (pos (n * 100));
}

cents-connected :
    (a b : Cents)
    → test ltb_ℤ (some (pos 0)) a ≡ true
    → test ltb_ℤ (some (pos 0)) b ≡ true
    → test ltb_ℤ a b ≡ false
    → test ltb_ℤ b a ≡ false
    → a ≡ b
cents-connected none b p q r s = absurd (true≢false (sym p))
cents-connected (some a) none p q r s = absurd (true≢false (sym q))
cents-connected (some (pos a)) (some (pos b)) p q r s = ground arith
cents-connected (some (negsuc a)) (some b) p q r s = ground arith
cents-connected (some (pos a)) (some (negsuc b)) p q r s = ground arith

lt_irrefl : (a : Cents) → test ltb_ℤ a a ≡ false
lt_irrefl none = refl
lt_irrefl (some a) = ground arith

pub cents-IsIeee : IsIeee cents
cents-IsIeee = record {
  lt_irrefl = lt_irrefl;
  lt_trans = λ a b c h k. ground arith;
  numbers_of_le = λ a b h. ground arith;
  numbers_of_lt = λ a b h. ground arith;
  le_of_lt_le = λ a b c h k. ground arith;
  positive = λ a h k. ground arith;
  not_positive = λ a h. ground arith;
  connected = cents-connected;
}
