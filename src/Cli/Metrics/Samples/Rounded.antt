-- ===== src/Cli/Metrics/Samples/Rounded.antt =====
-- What `percentile` of src/cli/process_metrics.cpp asks of `double`, and its interpolation between two
-- samples.
use mathlib.Core.Path.{subst}
use fin_core_streaming_syste.Prelude.{ℕ, suc, ◌+◌, ◌-◌, ◌^◌, ◌≤◌, ◌≡◌, sym, ap, ◌∙◌, arith, true}
use fin_core_streaming_syste.Prelude.Int.{ℤ, pos, negsuc, ◌≤ℤ◌, ◌-ℤ◌}
use fin_core_streaming_syste.Core.Double.{Double}
use fin_core_streaming_syste.Cli.Metrics.Format.{Rounding}
use fin_core_streaming_syste.Cli.Metrics.Samples.{interpolated}

-- A time that is not negative and that a `double` holds exactly.
abbrev pub IsSample : ℤ → Type 0
IsSample (pos n) = n ≤ 2 ^ 53
IsSample (negsuc n) = ⊥

-- IEEE 754 arithmetic, rounded to the nearest, at the values that `percentile` meets: numbers up to
-- 2^53 are exact, every operation is monotone, and `floor`, `ceil` and `llround` are what their
-- names say.
pub record IsMonotone {D : Double} (R : Rounding D) : Type 0 where
  pub le_trans : (x y z : D.Num) → D.le x y ≡ true → D.le y z ≡ true → D.le x z ≡ true
  pub of_u64 : (n : ℕ) → D.of_u64 n ≡ R.of_i64 (pos n)
  pub of_zero : R.of_i64 (pos 0) ≡ D.nought
  pub of_mono : (m n : ℕ) → m ≤ n → D.le (R.of_i64 (pos m)) (R.of_i64 (pos n)) ≡ true
  pub mul_mono :
      (k : ℕ) (p q : D.Num)
      → D.le D.nought p ≡ true
      → D.le p q ≡ true
      → D.le q D.one ≡ true
      → D.le (D.mul p (R.of_i64 (pos k))) (D.mul q (R.of_i64 (pos k))) ≡ true
  pub mul_within :
      (k : ℕ) (p : D.Num)
      → D.le D.nought p ≡ true
      → D.le p D.one ≡ true
      → (D.le D.nought (D.mul p (R.of_i64 (pos k))) ≡ true)
        × (D.le (D.mul p (R.of_i64 (pos k))) (R.of_i64 (pos k)) ≡ true)
  pub floor_mono :
      (x y : D.Num)
      → D.le D.nought x ≡ true
      → D.le x y ≡ true
      → D.le y (R.of_i64 (pos (2 ^ 53))) ≡ true
      → R.to_size (R.floor x) ≤ R.to_size (R.floor y)
  pub ceil_mono :
      (x y : D.Num)
      → D.le D.nought x ≡ true
      → D.le x y ≡ true
      → D.le y (R.of_i64 (pos (2 ^ 53))) ≡ true
      → R.to_size (R.ceil x) ≤ R.to_size (R.ceil y)
  pub floor_ceil :
      (x : D.Num)
      → D.le D.nought x ≡ true
      → D.le x (R.of_i64 (pos (2 ^ 53))) ≡ true
      → (R.to_size (R.floor x) ≤ R.to_size (R.ceil x))
        × (R.to_size (R.ceil x) ≤ suc (R.to_size (R.floor x)))
  pub ceil_of : (k : ℕ) → k ≤ 2 ^ 53 → R.to_size (R.ceil (R.of_i64 (pos k))) ≡ k
  pub sub_mono :
      (k : ℕ) (x y : D.Num)
      → D.le x y ≡ true
      → D.le (D.sub x (R.of_i64 (pos k))) (D.sub y (R.of_i64 (pos k))) ≡ true
  pub sub_floor :
      (x : D.Num)
      → D.le D.nought x ≡ true
      → D.le x (R.of_i64 (pos (2 ^ 53))) ≡ true
      → (D.le D.nought (D.sub x (R.of_i64 (pos (R.to_size (R.floor x))))) ≡ true)
        × (D.le (D.sub x (R.of_i64 (pos (R.to_size (R.floor x))))) D.one ≡ true)
  pub add_mono :
      (k : ℕ) (x y : D.Num)
      → D.le D.nought x ≡ true
      → D.le x y ≡ true
      → D.le (D.add (R.of_i64 (pos k)) x) (D.add (R.of_i64 (pos k)) y) ≡ true
  pub add_exact :
      (k n : ℕ)
      → k + n ≤ 2 ^ 53
      → D.add (R.of_i64 (pos k)) (R.of_i64 (pos n)) ≡ R.of_i64 (pos (k + n))
  pub round_mono :
      (x y : D.Num)
      → D.le D.nought x ≡ true
      → D.le x y ≡ true
      → D.le y (R.of_i64 (pos (2 ^ 53))) ≡ true
      → R.llround x ≤ℤ R.llround y
  pub round_of : (k : ℕ) → k ≤ 2 ^ 53 → R.llround (R.of_i64 (pos k)) ≡ pos k

pub sub_pos : (m n : ℕ) → m ≤ n → pos n -ℤ pos m ≡ pos (n - m)
unfolding ◌-ℤ◌
sub_pos m n h = ground arith

m_plus : (m n : ℕ) → m ≤ n → m + (n - m) ≡ n
m_plus m n h = omega arith

module _ {D : Double} {R : Rounding D} (I : IsMonotone R) where
  abbrev pub num : ℕ → D.Num
  num n = R.of_i64 (pos n)

  pub num_pos : (n : ℕ) → D.le D.nought (num n) ≡ true
  num_pos n = subst (λ x. D.le x (num n) ≡ true) I.of_zero (I.of_mono 0 n (omega arith))

  zero_le_zero : D.le D.nought D.nought ≡ true
  zero_le_zero = subst (λ x. D.le D.nought x ≡ true) I.of_zero (num_pos 0)

  abbrev pub term : ℕ → ℕ → D.Num → D.Num
  term m d f = D.add (num m) (D.mul f (num d))

  module _ (m d : ℕ) (f : D.Num) (small : m + d ≤ 2 ^ 53) (pf : D.le D.nought f ≡ true)
      (fq : D.le f D.one ≡ true) where
    low_term : D.le (num m) (term m d f) ≡ true
    low_term =
        subst (λ x. D.le x (term m d f) ≡ true)
          (ap (λ x. D.add (num m) x) (sym I.of_zero)
            ∙ I.add_exact m 0 (omega arith)
            ∙ ap (λ x. num x) (omega arith))
          (I.add_mono m D.nought (D.mul f (num d)) zero_le_zero (I.mul_within d f pf fq).0)

    high_term : D.le (term m d f) (num (m + d)) ≡ true
    high_term =
        subst (λ x. D.le (term m d f) x ≡ true) (I.add_exact m d small)
          (I.add_mono m (D.mul f (num d)) (num d) (I.mul_within d f pf fq).0
            (I.mul_within d f pf fq).1)

    term_small : D.le (term m d f) (num (2 ^ 53)) ≡ true
    term_small =
        I.le_trans (term m d f) (num (m + d)) _ high_term (I.of_mono (m + d) (2 ^ 53) small)

    term_pos : D.le D.nought (term m d f) ≡ true
    term_pos = I.le_trans D.nought (num m) (term m d f) (num_pos m) low_term

    pub round_low : pos m ≤ℤ R.llround (term m d f)
    round_low =
        subst (λ x. x ≤ℤ R.llround (term m d f)) (I.round_of m (omega arith))
          (I.round_mono (num m) (term m d f) (num_pos m) low_term term_small)

    pub round_high : R.llround (term m d f) ≤ℤ pos (m + d)
    round_high =
        subst (λ x. R.llround (term m d f) ≤ℤ x) (I.round_of (m + d) small)
          (I.round_mono (term m d f) (num (m + d)) term_pos high_term
            (I.of_mono (m + d) (2 ^ 53) small))

  term_mono :
      (m d : ℕ) (f g : D.Num)
      → m + d ≤ 2 ^ 53
      → D.le D.nought f ≡ true
      → D.le f g ≡ true
      → D.le g D.one ≡ true
      → R.llround (term m d f) ≤ℤ R.llround (term m d g)
  term_mono m d f g small pf fg gq =
      I.round_mono (term m d f) (term m d g) (term_pos m d f small pf (I.le_trans f g D.one fg gq))
        (I.add_mono m (D.mul f (num d)) (D.mul g (num d))
          (I.mul_within d f pf (I.le_trans f g D.one fg gq)).0 (I.mul_mono d f g pf fg gq))
        (term_small m d g small (I.le_trans D.nought f g pf fg) gq)

  -- Between two samples in order the interpolation stays between them, and grows with the fraction.
  pub interpolated_bounds :
      (a b : ℤ) (f : D.Num)
      → IsSample a
      → IsSample b
      → a ≤ℤ b
      → D.le D.nought f ≡ true
      → D.le f D.one ≡ true
      → (a ≤ℤ interpolated R a b f) × (interpolated R a b f ≤ℤ b)
  interpolated_bounds (pos m) (pos n) f sa sb le pf fq =
      rw (sub_pos m n (omega arith), interpolated)
        (let small : m + (n - m) ≤ 2 ^ 53 = omega arith in
          (
            round_low m (n - m) f small pf fq,
            subst (λ x. R.llround (term m (n - m) f) ≤ℤ pos x) (m_plus m n (omega arith))
                (round_high m (n - m) f small pf fq),
          ))
  interpolated_bounds (negsuc m) b f sa sb le pf fq = absurd sa
  interpolated_bounds (pos m) (negsuc n) f sa sb le pf fq = absurd sb

  pub interpolated_mono :
      (a b : ℤ) (f g : D.Num)
      → IsSample a
      → IsSample b
      → a ≤ℤ b
      → D.le D.nought f ≡ true
      → D.le f g ≡ true
      → D.le g D.one ≡ true
      → interpolated R a b f ≤ℤ interpolated R a b g
  interpolated_mono (pos m) (pos n) f g sa sb le pf fg gq =
      rw (sub_pos m n (omega arith), interpolated) (term_mono m (n - m) f g (omega arith) pf fg gq)
  interpolated_mono (negsuc m) b f g sa sb le pf fg gq = absurd sa
  interpolated_mono (pos m) (negsuc n) f g sa sb le pf fg gq = absurd sb
