-- ===== src/Cli/Metrics/Samples/Ends.antt =====
-- `std::minmax_element` of src/cli/process_metrics.cpp, and the ends of the sorted samples.
use mathlib.Core.Path.{subst}
use fin_core_streaming_syste.Prelude.{
  ℕ, suc, ◌≡◌, refl, sym, ap, ◌∙◌, List, [], ◌∷◌, All, arith, length, if◌then◌else◌,
}
use fin_core_streaming_syste.Prelude.Int.{ℤ, ◌≤ℤ◌, ltb_ℤ}
use fin_core_streaming_syste.Cli.Metrics.Samples.{insert, sort, at, least, greatest}
use fin_core_streaming_syste.Cli.Metrics.Samples.Sorted.{
  IsSorted, sort-IsSorted, at-mono, length-insert, length-sort, insert-IsSorted,
}

abbrev smaller : ℤ → ℤ → ℤ
smaller m a = if ltb_ℤ a m then a else m

abbrev larger : ℤ → ℤ → ℤ
larger m a = if ltb_ℤ a m then m else a

head-insert : (m a : ℤ) (s : List ℤ) → at (insert (smaller m a) s) 0 ≡ at (insert m (insert a s)) 0
head-insert m a [] = ground arith
head-insert m a (c ∷ s) = ground arith

pub least-sort : (m : ℤ) (l : List ℤ) → least m l ≡ at (sort (m ∷ l)) 0
unfolding least sort
least-sort m [] = refl
least-sort m (a ∷ l) = least-sort (smaller m a) l ∙ head-insert m a (sort l)

-- The larger of `a` and of the last sample.
abbrev top : ℤ → List ℤ → ℤ
top a [] = a
top a (c ∷ s) = larger a (at (c ∷ s) (length s))

top-insert : (a : ℤ) (s : List ℤ) → IsSorted s → at (insert a s) (length s) ≡ top a s
top-insert a [] _ = refl
top-insert a (c ∷ []) h = ground arith
top-insert a (c ∷ d ∷ s) h = ground (
  arith,
  top-insert a (d ∷ s) h.1,
  at-mono (c ∷ d ∷ s) 0 (suc (length s)) h (omega arith) (omega arith),
)

top-nonempty : (a : ℤ) (s : List ℤ) (n : ℕ) → length s ≡ suc n → top a s ≡ larger a (at s n)
top-nonempty a [] n h = absurd (omega arith)
top-nonempty a (c ∷ s) n h = ap (λ k. larger a (at (c ∷ s) k)) (omega arith)

top-larger : (m a : ℤ) (s : List ℤ) → top (larger m a) s ≡ larger m (top a s)
top-larger m a [] = refl
top-larger m a (c ∷ s) = ground arith

top-insert_twice :
    (m a : ℤ) (s : List ℤ)
    → IsSorted s
    → at (insert (larger m a) s) (length s) ≡ at (insert m (insert a s)) (suc (length s))
top-insert_twice m a s h =
    top-insert (larger m a) s h
    ∙ top-larger m a s
    ∙ ap (larger m) (sym (top-insert a s h))
    ∙ sym (top-nonempty m (insert a s) (length s) (length-insert a s))
    ∙ sym (top-insert m (insert a s) (insert-IsSorted a s h))
    ∙ ap (at (insert m (insert a s))) (length-insert a s)

pub greatest-sort : (m : ℤ) (l : List ℤ) → greatest m l ≡ at (sort (m ∷ l)) (length l)
unfolding greatest sort
greatest-sort m [] = refl
greatest-sort m (a ∷ l) =
    greatest-sort (larger m a) l
    ∙ subst (λ n. at (insert (larger m a) (sort l)) n ≡ at (insert m (insert a (sort l))) (suc n))
        (length-sort l) (top-insert_twice m a (sort l) (sort-IsSorted l))

pub least-le : (m : ℤ) (l : List ℤ) → All (λ x. least m l ≤ℤ x) (m ∷ l)
unfolding least
least-le m [] = (omega arith, tt)
least-le m (a ∷ l) =
    let (low, rest) = least-le (smaller m a) l in (ground arith, (ground arith, rest))

pub greatest-le : (m : ℤ) (l : List ℤ) → All (λ x. x ≤ℤ greatest m l) (m ∷ l)
unfolding greatest
greatest-le m [] = (omega arith, tt)
greatest-le m (a ∷ l) =
    let (high, rest) = greatest-le (larger m a) l in (ground arith, (ground arith, rest))
