-- ===== src/Cli/Metrics/Samples/Sorted.antt =====
-- What `sort` leaves: the same samples, in order, whatever order they came in.
use mathlib.Core.List.Perm
use mathlib.Core.List.{Perm, foldr}
use mathlib.Core.Path.{subst}
use native.Mathlib.Decide.{ℕ_discrete}
use fin_core_streaming_syste.Prelude.{
  ℕ, zero, suc, ◌≤◌, ◌<◌, ◌≡◌, refl, sym, ap, ◌∙◌, List, [], ◌∷◌, All, arith, length, true, false,
  inl, inr, Bool-cases,
}
use fin_core_streaming_syste.Prelude.Int.{ℤ, ◌≤ℤ◌, leb_ℤ}
use fin_core_streaming_syste.Cli.Metrics.Samples.{insert, sort, at}

abbrev pub IsSorted : List ℤ → Type 0
IsSorted [] = Unit
IsSorted (a ∷ l) = All (λ b. a ≤ℤ b) l × IsSorted l

pub ℤ-discrete : Discrete ℤ
ℤ-discrete = hlevel (ℕ_discrete)

samples_set : IsSet (List ℤ)
samples_set = hlevel (ℕ_discrete)

pub length-insert : (a : ℤ) (l : List ℤ) → length (insert a l) ≡ suc (length l)
length-insert a [] = refl
length-insert a (b ∷ l) = ground (arith, length-insert a l)

pub length-sort : (l : List ℤ) → length (sort l) ≡ length l
unfolding sort
length-sort [] = refl
length-sort (a ∷ l) = length-insert a (sort l) ∙ ap suc (length-sort l)

module _ {ℓ} (P : ℤ → Type ℓ) where
  All-insert : (a : ℤ) (l : List ℤ) → P a → All P l → All P (insert a l)
  All-insert a [] p _ = (p, tt)
  All-insert a (b ∷ l) p (q, qs) = elim (Bool-cases (leb_ℤ a b)) [
    | inl le ↦ rw le (p, (q, qs))
    | inr gt ↦ rw gt (q, All-insert a l p qs)
  ]

  pub All-sort : (l : List ℤ) → All P l → All P (sort l)
  unfolding sort
  All-sort [] _ = tt
  All-sort (a ∷ l) (p, ps) = All-insert a (sort l) p (All-sort l ps)

module _ {ℓ} (P : ℤ → Type ℓ) where
  insert-All : (a : ℤ) (l : List ℤ) → All P (insert a l) → P a × All P l
  insert-All a [] (p, _) = (p, tt)
  insert-All a (b ∷ l) ps = elim (Bool-cases (leb_ℤ a b)) [
    | inl le ↦ rw le at ps
    | inr gt ↦
        let (q, qs) : All P (b ∷ insert a l) = rw gt at ps in
        let (p, rest) = insert-All a l qs in (p, (q, rest))
  ]

  pub sort-All : (l : List ℤ) → All P (sort l) → All P l
  unfolding sort
  sort-All [] _ = tt
  sort-All (a ∷ l) ps = let (p, rest) = insert-All a (sort l) ps in (p, sort-All l rest)

All-at : (P : ℤ → Type 0) (l : List ℤ) (i : ℕ) → All P l → i < length l → P (at l i)
All-at P [] i _ h = absurd (omega arith)
All-at P (a ∷ l) zero (p, ps) h = p
All-at P (a ∷ l) (suc i) (p, ps) h = All-at P l i ps (omega arith)

below_all : (a b : ℤ) (l : List ℤ) → a ≤ℤ b → All (λ c. b ≤ℤ c) l → All (λ c. a ≤ℤ c) l
below_all a b [] h _ = tt
below_all a b (c ∷ l) h (p, ps) = (omega arith, below_all a b l h ps)

leb→le : (a b : ℤ) → leb_ℤ a b ≡ true → a ≤ℤ b
leb→le a b h = ground arith

leb→ge : (a b : ℤ) → leb_ℤ a b ≡ false → b ≤ℤ a
leb→ge a b h = ground arith

pub insert-IsSorted : (a : ℤ) (l : List ℤ) → IsSorted l → IsSorted (insert a l)
insert-IsSorted a [] _ = (tt, tt)
insert-IsSorted a (b ∷ l) (p, s) = elim (Bool-cases (leb_ℤ a b)) [
  | inl le ↦ rw le ((leb→le a b le, below_all a b l (leb→le a b le) p), (p, s))
  | inr gt ↦ rw gt (All-insert (λ c. b ≤ℤ c) a l (leb→ge a b gt) p, insert-IsSorted a l s)
]

pub sort-IsSorted : (l : List ℤ) → IsSorted (sort l)
unfolding sort
sort-IsSorted [] = tt
sort-IsSorted (a ∷ l) = insert-IsSorted a (sort l) (sort-IsSorted l)

-- A later place of a sorted list holds a larger sample.
pub at-mono : (l : List ℤ) (i j : ℕ) → IsSorted l → i ≤ j → j < length l → at l i ≤ℤ at l j
at-mono [] i j _ le h = absurd (omega arith)
at-mono (a ∷ l) zero zero s le h = omega arith
at-mono (a ∷ l) zero (suc j) (p, s) le h = All-at (λ b. a ≤ℤ b) l j p (omega arith)
at-mono (a ∷ l) (suc i) zero s le h = absurd (omega arith)
at-mono (a ∷ l) (suc i) (suc j) (p, s) le h = at-mono l i j s (omega arith) (omega arith)

-- The sample at a place of the sorted list is one of the samples.
pub at-sort : (P : ℤ → Type 0) (l : List ℤ) (i : ℕ) → All P l → i < length l → P (at (sort l) i)
at-sort P l i ps h =
    All-at P (sort l) i (All-sort P l ps) (subst (λ n. i < n) (sym (length-sort l)) h)

insert_comm : (a b : ℤ) (l : List ℤ) → insert a (insert b l) ≡ insert b (insert a l)
insert_comm a b [] = ground arith
insert_comm a b (c ∷ l) = ground (arith, insert_comm a b l)

sort-foldr : (l : List ℤ) → sort l ≡ foldr insert [] l
unfolding sort
sort-foldr [] = refl
sort-foldr (a ∷ l) = ap (insert a) (sort-foldr l)

pub sort-perm : (l m : List ℤ) → Perm l m → sort l ≡ sort m
sort-perm l m p =
    sort-foldr l ∙ Perm.foldr-eq samples_set insert insert_comm p [] ∙ sym (sort-foldr m)
