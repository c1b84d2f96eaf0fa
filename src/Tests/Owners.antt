-- ===== src/Tests/Owners.antt =====
-- Objects that own pointers of libpq, as in src/storage/persistence/postgres/pg_connection.cpp.
use fin_core_streaming_syste.Prelude.{◌≡◌, ◌⊎◌, refl, some, List, [], ◌∷◌, arith}
use fin_core_streaming_syste.Storage.Connection.Ownership.{
  Use, construct, move_old, destroy, use_all, use_objects, move_assign, set, slot, release,
  no_objects,
}
use fin_core_streaming_syste.Storage.Connection.Ownership.Once.{held, count, use_all-releases}

abbrev connections : List Use
connections = construct (some 7) ∷ construct (some 9) ∷ move_old 0 1 ∷ destroy 1 ∷ destroy 0 ∷ []

-- A connection is opened, moved into another object that held one, and both objects end.
use_all-releases_example :
    ((held 7 (use_all connections no_objects).objects ≡ 0)
      × (count 7 (use_all connections no_objects).released
          ≡ count 7 (use_all connections no_objects).returned))
    ⊎ ((held 7 (use_all connections no_objects).objects ≡ 1)
        × (count 7 (use_all connections no_objects).released ≡ 0))
unfolding use_all use_objects move_assign set slot release
use_all-releases_example = use_all-releases connections 7 (omega arith)

-- The pointer that the assignment replaces is released, then the moved one at the end of its object.
connections_released : (use_all connections no_objects).released ≡ 7 ∷ 9 ∷ []
unfolding use_all use_objects move_assign set slot release
connections_released = refl
