-- ===== src/Cli/Metrics/Samples/Average.antt =====
-- The average of the samples of src/cli/process_metrics.cpp, which is added up in `long double`.
use mathlib.Core.List.Perm
use mathlib.Core.List.{Perm, foldr}
use mathlib.Core.Path.{subst}
use native.Mathlib.Decide.{ℕ_discrete}
use fin_core_streaming_syste.Prelude.{
  ℕ, ◌+◌, ◌*◌, ◌^◌, ◌≤◌, ◌<◌, ◌≡◌, refl, sym, ap, ◌∙◌, List, [], ◌∷◌, All, arith, length,
}
use fin_core_streaming_syste.Prelude.Int.{ℤ, pos, negsuc, ◌≤ℤ◌, pos_part}
use fin_core_streaming_syste.Core.Double.{Double}
use fin_core_streaming_syste.Cli.Metrics.Format.{Rounding}
use fin_core_streaming_syste.Cli.Metrics.Samples.{accumulate, average}

abbrev pub IsTime : ℤ → Type 0
IsTime (pos n) = Unit
IsTime (negsuc n) = ⊥

abbrev pub sum : List ℤ → ℕ
sum [] = 0
sum (a ∷ l) = pos_part a + sum l

-- A `long double` with 64 bits of precision holds every `std::int64_t` exactly, and its division is
-- monotone and is exact where the quotient is an integer.
pub record IsExact {D : Double} (R : Rounding D) : Type 0 where
  pub add_exact :
      (m n : ℕ)
      → m + n < 2 ^ 63
      → R.long_add (R.long_of (pos m)) (R.long_of (pos n)) ≡ R.long_of (pos (m + n))
  pub div_mono :
      (k m n : ℕ)
      → 0 < k
      → m ≤ n
      → n < 2 ^ 63
      → R.long_round (R.long_div (R.long_of (pos m)) (R.long_of (pos k)))
        ≤ℤ R.long_round (R.long_div (R.long_of (pos n)) (R.long_of (pos k)))
  pub div_exact :
      (k a : ℕ)
      → 0 < k
      → k * a < 2 ^ 63
      → R.long_round (R.long_div (R.long_of (pos (k * a))) (R.long_of (pos k))) ≡ pos a

module _ {D : Double} {R : Rounding D} (E : IsExact R) where
  accumulate-sum :
      (t : ℕ) (l : List ℤ)
      → All IsTime l
      → t + sum l < 2 ^ 63
      → accumulate R (R.long_of (pos t)) l ≡ R.long_of (pos (t + sum l))
  unfolding accumulate
  accumulate-sum t [] _ h = ap (λ n. R.long_of (pos n)) (omega arith)
  accumulate-sum t (pos a ∷ l) (p, ps) h =
      rw (E.add_exact t a (omega arith))
        (accumulate-sum (t + a) l ps (omega arith) ∙ ap (λ n. R.long_of (pos n)) (omega arith))
  accumulate-sum t (negsuc a ∷ l) (p, ps) h = absurd p

  -- The average is that of the exact sum.
  pub average-sum :
      (l : List ℤ)
      → All IsTime l
      → sum l < 2 ^ 63
      → average R l
        ≡ R.long_round (R.long_div (R.long_of (pos (sum l))) (R.long_of (pos (length l))))
  unfolding average
  average-sum l ps h =
      ap (λ t. R.long_round (R.long_div t (R.long_of (pos (length l)))))
        (accumulate-sum 0 l ps (omega arith) ∙ ap (λ n. R.long_of (pos n)) (omega arith))

sum-le : (hi : ℤ) (l : List ℤ) → All (λ x. x ≤ℤ hi) l → sum l ≤ length l * pos_part hi
sum-le hi [] _ = omega arith
sum-le hi (pos a ∷ l) (p, ps) = grind (arith, sum-le hi l ps)
sum-le hi (negsuc a ∷ l) (p, ps) = grind (arith, sum-le hi l ps)

le-sum :
    (lo : ℤ) (l : List ℤ) → All IsTime l → All (λ x. lo ≤ℤ x) l → length l * pos_part lo ≤ sum l
le-sum lo [] _ _ = omega arith
le-sum lo (pos a ∷ l) (t, ts) (p, ps) = grind (arith, le-sum lo l ts ps)
le-sum lo (negsuc a ∷ l) (t, ts) _ = absurd t

sum-foldr : (l : List ℤ) → sum l ≡ foldr (λ a t. pos_part a + t) 0 l
sum-foldr [] = refl
sum-foldr (a ∷ l) = ap (λ t. pos_part a + t) (sum-foldr l)

number_set : IsSet ℕ
number_set = hlevel (ℕ_discrete)

pub sum-perm : (l m : List ℤ) → Perm l m → sum l ≡ sum m
sum-perm l m p =
    sum-foldr l
    ∙ Perm.foldr-eq number_set (λ a t. pos_part a + t) (λ a b t. omega arith) p 0
    ∙ sym (sum-foldr m)

module _ {D : Double} {R : Rounding D} (E : IsExact R) where
  -- The average lies between any bounds of the samples.
  pub average_bounds :
      (lo hi : ℕ) (a : ℤ) (l : List ℤ)
      → All IsTime (a ∷ l)
      → All (λ x. pos lo ≤ℤ x) (a ∷ l)
      → All (λ x. x ≤ℤ pos hi) (a ∷ l)
      → length (a ∷ l) * hi < 2 ^ 63
      → (pos lo ≤ℤ average R (a ∷ l)) × (average R (a ∷ l) ≤ℤ pos hi)
  average_bounds lo hi a l times low high small =
      let n = length (a ∷ l) in
      let upper : sum (a ∷ l) ≤ n * hi = sum-le (pos hi) (a ∷ l) high in
      let lower : n * lo ≤ sum (a ∷ l) = le-sum (pos lo) (a ∷ l) times low in
      rw (average-sum E (a ∷ l) times (omega arith)) (
        subst
            (λ x.
              x ≤ℤ R.long_round (R.long_div (R.long_of (pos (sum (a ∷ l)))) (R.long_of (pos n))))
            (E.div_exact n lo (omega arith) (omega arith))
            (E.div_mono n (n * lo) (sum (a ∷ l)) (omega arith) lower (omega arith)),
        subst
            (λ x.
              R.long_round (R.long_div (R.long_of (pos (sum (a ∷ l)))) (R.long_of (pos n))) ≤ℤ x)
            (E.div_exact n hi (omega arith) small)
            (E.div_mono n (sum (a ∷ l)) (n * hi) (omega arith) upper small),
      )
