-- ===== src/Cli/Metrics/Samples/Order.antt =====
-- The order of what `LatencySeries::print` shows of the samples (src/cli/process_metrics.cpp).
use mathlib.Core.Path.{subst}
use native.Mathlib.Decide.{dec_lt}
use fin_core_streaming_syste.Prelude.{
  ℕ, suc, ◌^◌, ◌≤◌, ◌<◌, ◌≡◌, refl, List, ◌∷◌, All, arith, length, ◌==◌, true, false, inl, inr,
  Bool-cases, ◌⊎◌,
}
use fin_core_streaming_syste.Prelude.Int.{ℤ, ◌≤ℤ◌}
use fin_core_streaming_syste.Core.Double.{Double}
use fin_core_streaming_syste.Cli.Metrics.Format.{Rounding}
use fin_core_streaming_syste.Cli.Metrics.Samples.{
  sort, at, lower_index, upper_index, fraction, between, percentile_at, percentile,
}
use fin_core_streaming_syste.Cli.Metrics.Samples.Rounded.{
  IsSample, IsMonotone, num, interpolated_bounds, interpolated_mono,
}
use fin_core_streaming_syste.Cli.Metrics.Samples.Sorted.{
  IsSorted, sort-IsSorted, at-mono, at-sort, length-sort,
}

trans_ℤ : (a b c : ℤ) → a ≤ℤ b → b ≤ℤ c → a ≤ℤ c
trans_ℤ a b c h g = omega arith

split : (m n : ℕ) → (m ≤ n) ⊎ (n < m)
split m n = elim (dec_lt n m) [ yes h ↦ inr h | no h ↦ inl (omega arith) ]

differ : (m n : ℕ) → m < n → (m == n) ≡ false
differ m n h = ground arith

module _ {D : Double} {R : Rounding D} (I : IsMonotone R) where
  -- A position among `suc k` samples.
  abbrev IsPosition : ℕ → D.Num → Type 0
  IsPosition k x = (D.le D.nought x ≡ true) × (D.le x (num I k) ≡ true)

  position :
      (k : ℕ) (p : D.Num)
      → D.le D.nought p ≡ true
      → D.le p D.one ≡ true
      → IsPosition k (D.mul p (D.of_u64 k))
  position k p p0 p1 = rw (I.of_u64 k) (I.mul_within k p p0 p1)

  position_small :
      (k : ℕ) (x : D.Num) → k ≤ 2 ^ 53 → IsPosition k x → D.le x (num I (2 ^ 53)) ≡ true
  position_small k x h q = I.le_trans x (num I k) _ q.1 (I.of_mono k (2 ^ 53) h)

  upper-le : (k : ℕ) (x : D.Num) → k ≤ 2 ^ 53 → IsPosition k x → upper_index R x ≤ k
  upper-le k x h q =
      subst (λ n. upper_index R x ≤ n) (I.ceil_of k h)
        (I.ceil_mono x (num I k) q.0 q.1 (I.of_mono k (2 ^ 53) h))

  fraction_within :
      (x : D.Num)
      → D.le D.nought x ≡ true
      → D.le x (num I (2 ^ 53)) ≡ true
      → (D.le D.nought (fraction R x) ≡ true) × (D.le (fraction R x) D.one ≡ true)
  fraction_within x h k = rw (I.of_u64 (lower_index R x), fraction) (I.sub_floor x h k)

  fraction_mono :
      (x y : D.Num)
      → lower_index R x ≡ lower_index R y
      → D.le x y ≡ true
      → D.le (fraction R x) (fraction R y) ≡ true
  fraction_mono x y e h =
      rw (e, I.of_u64 (lower_index R y), fraction) (I.sub_mono (lower_index R y) x y h)

  -- What is known of the sorted samples.
  module _ (v : List ℤ) (k : ℕ) (sorted : IsSorted v) (long : length v ≡ suc k)
      (samples : (i : ℕ) → i ≤ k → IsSample (at v i)) where
    ordered : (i j : ℕ) → i ≤ j → j ≤ k → at v i ≤ℤ at v j
    ordered i j le h = at-mono v i j sorted le (omega (arith, long))

    between_bounds :
        (l u : ℕ) (f : D.Num)
        → l ≤ u
        → u ≤ k
        → D.le D.nought f ≡ true
        → D.le f D.one ≡ true
        → (at v l ≤ℤ between R v l u f) × (between R v l u f ≤ℤ at v u)
    between_bounds l u f lu uk f0 f1 = elim (Bool-cases (l == u)) [
      | inl same ↦ rw same (omega arith, ordered l u lu uk)
      | inr other ↦ rw other (
          interpolated_bounds I (at v l) (at v u) f (samples l (omega arith)) (samples u uk)
            (ordered l u lu uk) f0 f1)
    ]

    between_same :
        (l u : ℕ) (f g : D.Num)
        → l < u
        → u ≤ k
        → D.le D.nought f ≡ true
        → D.le f g ≡ true
        → D.le g D.one ≡ true
        → between R v l u f ≤ℤ between R v l u g
    between_same l u f g lt uk f0 fg g1 = rw (differ l u lt) (
        interpolated_mono I (at v l) (at v u) f g (samples l (omega arith)) (samples u uk)
          (ordered l u (omega arith) uk) f0 fg g1)

    between_mono :
        (l u l' u' : ℕ) (f g : D.Num)
        → l ≤ u
        → u ≤ suc l
        → l' ≤ u'
        → u' ≤ k
        → l ≤ l'
        → u ≤ u'
        → u' ≤ suc l'
        → (D.le D.nought f ≡ true) × (D.le f D.one ≡ true)
        → (D.le D.nought g ≡ true) × (D.le g D.one ≡ true)
        → (l ≡ l' → D.le f g ≡ true)
        → between R v l u f ≤ℤ between R v l' u' g
    between_mono l u l' u' f g lu ul lu' uk ll uu ul' f01 g01 fg = elim (split u l') [
      | inl far ↦ trans_ℤ _ (at v u) _ (between_bounds l u f lu (omega arith) f01.0 f01.1).1 (
          trans_ℤ _ (at v l') _ (ordered u l' far (omega arith))
            (between_bounds l' u' g lu' uk g01.0 g01.1).0)
      | inr near ↦
          subst (λ n. between R v l u f ≤ℤ between R v n u' g) {x = l} {y = l'} (omega arith)
            (subst (λ n. between R v l u f ≤ℤ between R v l n g) {x = u} {y = u'} (omega arith)
              (between_same l u f g (omega arith) (omega arith) f01.0 (fg (omega arith)) g01.1))
    ]

  -- The percentile of a sorted series.
  module _ (v : List ℤ) (k : ℕ) (sorted : IsSorted v) (long : length v ≡ suc k) (small : k ≤ 2 ^ 53)
      (samples : (i : ℕ) → i ≤ k → IsSample (at v i)) where
    percentile_at_bounds :
        (x : D.Num)
        → IsPosition k x
        → (at v 0 ≤ℤ percentile_at R v x) × (percentile_at R v x ≤ℤ at v k)
    percentile_at_bounds x q =
        let (lu, ul) = I.floor_ceil x q.0 (position_small k x small q) in
        let uk = upper-le k x small q in
        let within = fraction_within x q.0 (position_small k x small q) in
        let inner =
          between_bounds v k sorted long samples (lower_index R x) (upper_index R x) (fraction R x)
            lu uk within.0 within.1 in
        (
          trans_ℤ _ (at v (lower_index R x)) _
              (ordered v k sorted long samples 0 (lower_index R x) (omega arith) (omega arith))
              inner.0,
          trans_ℤ _ (at v (upper_index R x)) _ inner.1
              (ordered v k sorted long samples (upper_index R x) k uk (omega arith)),
        )

    percentile_at_mono :
        (x y : D.Num)
        → IsPosition k x
        → IsPosition k y
        → D.le x y ≡ true
        → percentile_at R v x ≤ℤ percentile_at R v y
    percentile_at_mono x y p q h =
        let near_x = position_small k x small p in
        let near_y = position_small k y small q in
        let (lu, ul) = I.floor_ceil x p.0 near_x in
        let (lu', ul') = I.floor_ceil y q.0 near_y in
        between_mono v k sorted long samples (lower_index R x) (upper_index R x) (lower_index R y)
          (upper_index R y) (fraction R x) (fraction R y) lu ul lu' (upper-le k y small q)
          (I.floor_mono x y p.0 h near_y) (I.ceil_mono x y p.0 h near_y) ul'
          (fraction_within x p.0 near_x) (fraction_within y q.0 near_y) (λ e. fraction_mono x y e h)

samples_at :
    (l : List ℤ) (i k : ℕ) → All IsSample l → length l ≡ suc k → i ≤ k → IsSample (at (sort l) i)
samples_at l i k ps long h = at-sort IsSample l i ps (omega (arith, long))

module _ {D : Double} {R : Rounding D} (I : IsMonotone R) (a : ℤ) (l : List ℤ)
    (few : length l ≤ 2 ^ 53) (samples : All IsSample (a ∷ l)) where
  -- The percentiles lie between the ends of the sorted samples, and grow with `p`.
  pub percentile_within :
      (p : D.Num)
      → D.le D.nought p ≡ true
      → D.le p D.one ≡ true
      → (at (sort (a ∷ l)) 0 ≤ℤ percentile R (a ∷ l) p)
        × (percentile R (a ∷ l) p ≤ℤ at (sort (a ∷ l)) (length l))
  unfolding percentile
  percentile_within p p0 p1 =
      percentile_at_bounds I (sort (a ∷ l)) (length l) (sort-IsSorted (a ∷ l)) (length-sort (a ∷ l))
        few (λ i h. samples_at (a ∷ l) i (length l) samples refl h) _
        (position I (length l) p p0 p1)

  pub percentile_mono :
      (p q : D.Num)
      → D.le D.nought p ≡ true
      → D.le p q ≡ true
      → D.le q D.one ≡ true
      → percentile R (a ∷ l) p ≤ℤ percentile R (a ∷ l) q
  unfolding percentile
  percentile_mono p q p0 pq q1 =
      percentile_at_mono I (sort (a ∷ l)) (length l) (sort-IsSorted (a ∷ l)) (length-sort (a ∷ l))
        few (λ i h. samples_at (a ∷ l) i (length l) samples refl h) _ _
        (position I (length l) p p0 (I.le_trans p q D.one pq q1))
        (position I (length l) q (I.le_trans D.nought p q p0 pq) q1)
        (rw (I.of_u64 (length l)) (I.mul_mono (length l) p q p0 pq q1))
