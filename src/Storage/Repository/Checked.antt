-- ===== src/Storage/Repository/Checked.antt =====
-- The validation of a batch in src/storage/persistence/postgres/postgres_market_data_repository.cpp.
use fin_core_streaming_syste.Prelude.{
  ◌≡◌, refl, ap, List, [], ◌∷◌, ◌++◌, All, Result, ok, err, Exception,
}
use fin_core_streaming_syste.Storage.Repository.{validate_all}

-- A batch of which the rows in `before` are valid, and the next one throws `e`.
pub record Invalid {R : Type 0} (validate : R → Result (Unit {0})) (batch : List R) (e : Exception)
    : Type 0 where
  pub before : List R
  pub row : R
  pub after : List R
  pub parts : batch ≡ before ++ (row ∷ after)
  pub valid : All (λ r. validate r ≡ ok tt) before
  pub thrown : validate row ≡ err e

module _ {R : Type 0} (validate : R → Result (Unit {0})) where
  -- What the loop over the rows finds.
  abbrev pub Checked : List R → Result (Unit {0}) → Type 0
  Checked batch (ok done) = All (λ r. validate r ≡ ok tt) batch
  Checked batch (err e) = Invalid validate batch e

  later :
      (row : R) (rest : List R) (r : Result (Unit {0}))
      → validate row ≡ ok tt
      → Checked rest r
      → Checked (row ∷ rest) r
  later row rest (ok done) v h = (v, h)
  later row rest (err e) v h = record {
    before = row ∷ h.before;
    row = h.row;
    after = h.after;
    parts = ap (λ t. row ∷ t) h.parts;
    valid = (v, h.valid);
    thrown = h.thrown;
  }

  first_row :
      (row : R) (rest : List R) (r : Result (Unit {0}))
      → validate row ≡ r
      → Checked rest (validate_all validate rest)
      → Checked (row ∷ rest) (elim r as (λ _. Result (Unit {0})) [
        | ok done ↦ validate_all validate rest
        | err e ↦ err e
      ])
  first_row row rest (ok tt) v h = later row rest _ v h
  first_row row rest (err e) v h = record {
    before = [];
    row = row;
    after = rest;
    parts = refl;
    valid = tt;
    thrown = v;
  }

  pub validate_all-Checked : (batch : List R) → Checked batch (validate_all validate batch)
  unfolding validate_all
  validate_all-Checked [] = tt
  validate_all-Checked (row ∷ rest) =
      first_row row rest (validate row) refl (validate_all-Checked rest)
