-- ===== src/Storage/Connection/Ownership/Once.antt =====
-- Each pointer of libpq is released once (src/storage/persistence/postgres/pg_connection.cpp).
use fin_core_streaming_syste.Prelude.{
  ℕ, zero, suc, ◌+◌, ◌≤◌, ◌<◌, ◌≡◌, ◌≢◌, refl, ap, ◌⊎◌, Bool, true, false, ◌&&◌, Option, none, some,
  List, [], ◌∷◌, if◌then◌else◌, ltb, ◌==◌, length, arith, inl, inr, Bool-cases,
}
use fin_core_streaming_syste.Storage.Connection.Ownership.{
  release, move_construct, move_assign, Owners, slot, set, Use, construct, move_new, move_old,
  destroy, note, moved_old, use_objects, use_all, no_objects,
}

-- How often a pointer stands in a list, and is held by objects.
abbrev pub is_held : ℕ → Option ℕ → ℕ
is_held p none = 0
is_held p (some q) = if p == q then 1 else 0

abbrev pub count : ℕ → List ℕ → ℕ
count p [] = 0
count p (q ∷ l) = (if p == q then 1 else 0) + count p l

abbrev pub held : ℕ → List (Option ℕ) → ℕ
held p [] = 0
held p (x ∷ xs) = is_held p x + held p xs

held-set :
    (p : ℕ) (xs : List (Option ℕ)) (i : ℕ) (v : Option ℕ)
    → i < length xs
    → held p (set xs i v) + is_held p (slot xs i) ≡ held p xs + is_held p v
unfolding set slot
held-set p [] i v h = absurd (omega arith)
held-set p (x ∷ xs) zero v h = omega arith
held-set p (x ∷ xs) (suc i) v h = omega (arith, held-set p xs i v)

-- A pointer is taken out of a place, which may be out of range.
held-set_none :
    (p : ℕ) (xs : List (Option ℕ)) (i : ℕ)
    → held p (set xs i none) + is_held p (slot xs i) ≡ held p xs
unfolding set slot
held-set_none p [] i = refl
held-set_none p (x ∷ xs) zero = omega arith
held-set_none p (x ∷ xs) (suc i) = omega (arith, held-set_none p xs i)

slot-set_other :
    (xs : List (Option ℕ)) (i j : ℕ) (v : Option ℕ) → i ≢ j → slot (set xs i v) j ≡ slot xs j
unfolding set slot
slot-set_other [] i j v h = refl
slot-set_other (x ∷ xs) zero zero v h = absurd (h refl)
slot-set_other (x ∷ xs) zero (suc j) v h = refl
slot-set_other (x ∷ xs) (suc i) zero v h = refl
slot-set_other (x ∷ xs) (suc i) (suc j) v h = slot-set_other xs i j v (λ e. h (omega arith))

count-release :
    (p : ℕ) (x : Option ℕ) (released : List ℕ)
    → count p (release x released) ≡ is_held p x + count p released
unfolding release
count-release p none released = omega arith
count-release p (some q) released = refl

count-note : (p : ℕ) (x : Option ℕ) (l : List ℕ) → count p (note x l) ≡ is_held p x + count p l
count-note p none l = omega arith
count-note p (some q) l = refl

-- A pointer is held or released as often as libpq has returned it.
abbrev pub IsOwned : Owners → ℕ → Type 0
IsOwned s p = held p s.objects + count p s.released ≡ count p s.returned

differ : (i j : ℕ) → (i == j) ≡ false → i ≢ j
differ i j h e = ground arith

assign-IsOwned :
    (s : Owners) (i j p : ℕ) (same : Bool)
    → (i == j) ≡ same
    → i < length s.objects
    → IsOwned s p
    → IsOwned
        (moved_old i j (move_assign same (slot s.objects i) (slot s.objects j) s.released) s)
        p
unfolding move_assign
assign-IsOwned s i j p true e hi h = rw e h
assign-IsOwned s i j p false e hi h = rw e (
    omega (
      arith,
      h,
      count-release p (slot s.objects i) s.released,
      held-set p s.objects i (slot s.objects j) hi,
      taken,
    ))
  where
    taken :
        held p (set (set s.objects i (slot s.objects j)) j none) + is_held p (slot s.objects j)
        ≡ held p (set s.objects i (slot s.objects j))
    taken = omega (
      arith,
      held-set_none p (set s.objects i (slot s.objects j)) j,
      ap (is_held p) (slot-set_other s.objects i j (slot s.objects j) (differ i j e)),
    )

use_objects-IsOwned : (u : Use) (s : Owners) (p : ℕ) → IsOwned s p → IsOwned (use_objects u s) p
unfolding use_objects move_construct
use_objects-IsOwned (construct x) s p h = omega (arith, h, count-note p x s.returned)
use_objects-IsOwned (move_new i) s p h = omega (arith, h, held-set_none p s.objects i)
use_objects-IsOwned (move_old i j) s p h =
    elim (Bool-cases (ltb i (length s.objects) && ltb j (length s.objects))) [
      | inl known ↦ rw known (assign-IsOwned s i j p (i == j) refl (ground arith) h)
      | inr unknown ↦ rw unknown h
    ]
use_objects-IsOwned (destroy i) s p h =
    omega (arith, h, held-set_none p s.objects i, count-release p (slot s.objects i) s.released)

use_all-IsOwned : (us : List Use) (s : Owners) (p : ℕ) → IsOwned s p → IsOwned (use_all us s) p
unfolding use_all
use_all-IsOwned [] s p h = h
use_all-IsOwned (u ∷ us) s p h =
    use_all-IsOwned us (use_objects u s) p (use_objects-IsOwned u s p h)

-- However PgResult and PgConnection objects are made, moved, assigned and destroyed: where libpq has
-- returned a pointer once at most, either no object holds it and it is released as often as it was
-- returned, or one object holds it and it is not released.
pub use_all-releases :
    (us : List Use) (p : ℕ)
    → count p (use_all us no_objects).returned ≤ 1
    → ((held p (use_all us no_objects).objects ≡ 0)
        × (count p (use_all us no_objects).released ≡ count p (use_all us no_objects).returned))
      ⊎ ((held p (use_all us no_objects).objects ≡ 1)
          × (count p (use_all us no_objects).released ≡ 0))
use_all-releases us p h = ground (arith, use_all-IsOwned us no_objects p refl)
