-- ===== src/Prelude/Io.antt =====
-- Code that changes a world and may throw: what it did to the world stays done after an exception.
use mathlib.Core.Path.{◌≡◌, refl}
use fin_core_streaming_syste.Prelude.Exceptions.{Result, ok, err, Exception}

abbrev pub Io : Type 0 → Type 0 → Type 0
Io W A = W → Result A × W

module _ {W : Type 0} where
  unfoldable pub pure : {A : Type 0} → A → Io W A
  pure a w = (ok a, w)

  unfoldable pub throw : {A : Type 0} → Exception → Io W A
  throw e w = (err e, w)

  -- A computation that leaves the world alone.
  unfoldable pub lift : {A : Type 0} → Result A → Io W A
  lift r w = (r, w)

  abbrev pub bind_result : {A B : Type 0} → Result A × W → (A → Io W B) → Result B × W
  bind_result (ok a, w) f = f a w
  bind_result (err e, w) f = (err e, w)

  infixl 5 ◌>>=◌ ◌>>◌
  unfoldable pub ◌>>=◌ : {A B : Type 0} → Io W A → (A → Io W B) → Io W B
  ◌>>=◌ m f w = bind_result (m w) f

  unfoldable pub ◌>>◌ : {B : Type 0} → Io W (Unit {0}) → Io W B → Io W B
  m >> k = m >>= λ _. k

  abbrev pub handle_result : {A : Type 0} → Result A × W → (Exception → Io W A) → Result A × W
  handle_result (ok a, w) h = (ok a, w)
  handle_result (err e, w) h = h e w

  -- `try { m } catch (...) { h }`.
  unfoldable pub catching : {A : Type 0} → Io W A → (Exception → Io W A) → Io W A
  catching m h w = handle_result (m w) h

  -- What is read of the world.
  unfoldable pub observe : {A : Type 0} → (W → A) → Io W A
  observe f w = (ok (f w), w)

  -- A call that changes the world and does not throw.
  unfoldable pub act : {A : Type 0} → (W → A × W) → Io W A
  act f w = let (a, w') = f w in (ok a, w')

  -- Both parts of a sequence that ends well have done so.
  pub bind-eq-ok :
      {A B : Type 0} (r : Result A × W) (f : A → Io W B) (b : B) (w' : W)
      → bind_result r f ≡ (ok b, w')
      → (a : A) × (w : W) × (r ≡ (ok a, w)) × (f a w ≡ (ok b, w'))
  bind-eq-ok (ok a, w) f b w' e = (a, w, refl, e)
  bind-eq-ok (err x, w) f b w' e = cc
