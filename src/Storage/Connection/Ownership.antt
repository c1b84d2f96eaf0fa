-- ===== src/Storage/Connection/Ownership.antt =====
-- The ownership of `PGresult` and `PGconn` pointers by `PgResult` and `PgConnection`
-- (src/storage/persistence/postgres/pg_connection.cpp): destructors and moves. A pointer is an
-- address, and `none` is the null pointer.
pub mod Once
use fin_core_streaming_syste.Prelude.{
  ℕ, zero, suc, ◌+◌, ◌≤◌, ◌<◌, ◌≡◌, ◌≢◌, refl, ap, ◌⊎◌, Bool, true, false, ◌&&◌, Option, none, some,
  List, [], ◌∷◌, ◌++◌, if◌then◌else◌, ltb, ◌==◌, length, arith, inl, inr, Bool-cases, ==_iff,
}

-- `PQclear` or `PQfinish` of a pointer, unless it is null: the latest first.
unfoldable pub release : Option ℕ → List ℕ → List ℕ
release none released = released
release (some pointer) released = pointer ∷ released

-- The move constructor: the pointers of the new object and of the old one.
unfoldable pub move_construct : Option ℕ → Option ℕ × Option ℕ
move_construct other = (other, none)

-- The move assignment, where the test tells whether both objects are the same one.
unfoldable pub move_assign : Bool → Option ℕ → Option ℕ → List ℕ → Option ℕ × Option ℕ × List ℕ
move_assign true this other released = (this, other, released)
move_assign false this other released = (other, none, release this released)

-- The objects by their number, the pointers that libpq has returned, and those that it has got back.
pub record Owners : Type 0 where
  pub objects : List (Option ℕ)
  pub returned : List ℕ
  pub released : List ℕ

unfoldable pub slot : List (Option ℕ) → ℕ → Option ℕ
slot [] i = none
slot (x ∷ xs) zero = x
slot (x ∷ xs) (suc i) = slot xs i

unfoldable pub set : List (Option ℕ) → ℕ → Option ℕ → List (Option ℕ)
set [] i v = []
set (x ∷ xs) zero v = v ∷ xs
set (x ∷ xs) (suc i) v = x ∷ set xs i v

-- What the code does with objects: `PgResult{pointer}`, a move into a new object, a move into an
-- old one, and the end of an object, which is also `close`.
pub data Use : Type 0 where
  construct : Option ℕ → Use
  move_new : ℕ → Use
  move_old : ℕ → ℕ → Use
  destroy : ℕ → Use

abbrev pub note : Option ℕ → List ℕ → List ℕ
note none returned = returned
note (some pointer) returned = pointer ∷ returned

abbrev pub moved_new : ℕ → Option ℕ × Option ℕ → Owners → Owners
moved_new i (new, old) s = record s { objects = new ∷ set s.objects i old }

abbrev pub moved_old : ℕ → ℕ → Option ℕ × Option ℕ × List ℕ → Owners → Owners
moved_old i j (this, other, released) s = record s {
  objects = if i == j then s.objects else set (set s.objects i this) j other;
  released = released;
}

-- An object that does not exist is not used.
unfoldable pub use_objects : Use → Owners → Owners
use_objects (construct pointer) s = record s {
  objects = pointer ∷ s.objects;
  returned = note pointer s.returned;
}
use_objects (move_new i) s = moved_new i (move_construct (slot s.objects i)) s
use_objects (move_old i j) s =
    if ltb i (length s.objects) && ltb j (length s.objects)
    then moved_old i j (move_assign (i == j) (slot s.objects i) (slot s.objects j) s.released) s
    else s
use_objects (destroy i) s = record s {
  objects = set s.objects i none;
  released = release (slot s.objects i) s.released;
}

unfoldable pub use_all : List Use → Owners → Owners
use_all [] s = s
use_all (u ∷ us) s = use_all us (use_objects u s)

abbrev pub no_objects : Owners
no_objects = record { objects = []; returned = []; released = [] }
