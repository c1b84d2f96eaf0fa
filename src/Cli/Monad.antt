-- ===== src/Cli/Monad.antt =====
-- Methods of `class FinCoreCli` (src/cli/fincore_cli.cpp) as actions on its state: what is written
-- stays written after an exception.
use fin_core_streaming_syste.Prelude.{
  Bool, true, false, Option, none, some, List, [], ◌∷◌, Text, text_eq, Result, ok, err, Exception,
  if◌then◌else◌,
}
use fin_core_streaming_syste.Prelude.Int.{ℤ, ◌-ℤ◌}
use fin_core_streaming_syste.Core.Double.{Double}
use fin_core_streaming_syste.Cli.Metrics.{OperationMetrics, ProcessSnapshot}
use fin_core_streaming_syste.Cli.Services.{Services, Line, State}

module _ {D : Double} (S : Services D) where
  abbrev pub Action : Type 0 → Type 0
  Action A = State D S → Result A × State D S

module _ {D : Double} {S : Services D} where
  unfoldable pub pure : {A : Type 0} → A → Action S A
  pure a s = (ok a, s)

  unfoldable pub throw : {A : Type 0} → Exception → Action S A
  throw e s = (err e, s)

  abbrev pub bind_result :
      {A B : Type 0} → Result A × State D S → (A → Action S B) → Result B × State D S
  bind_result (ok a, s) f = f a s
  bind_result (err e, s) f = (err e, s)

  infixl 5 ◌>>=◌ ◌>>◌
  unfoldable pub ◌>>=◌ : {A B : Type 0} → Action S A → (A → Action S B) → Action S B
  ◌>>=◌ m f s = bind_result (m s) f

  unfoldable pub ◌>>◌ : {B : Type 0} → Action S (Unit {0}) → Action S B → Action S B
  m >> k = m >>= λ _. k

  abbrev pub handle_result :
      {A : Type 0} → Result A × State D S → (Exception → Action S A) → Result A × State D S
  handle_result (ok a, s) h = (ok a, s)
  handle_result (err e, s) h = h e s

  -- `try { m } catch (...) { h }`.
  unfoldable pub catching : {A : Type 0} → Action S A → (Exception → Action S A) → Action S A
  catching m h s = handle_result (m s) h

  unfoldable pub gets : {A : Type 0} → (State D S → A) → Action S A
  gets f s = (ok (f s), s)

  unfoldable pub modify : (State D S → State D S) → Action S (Unit {0})
  modify f s = (ok tt, f s)

  -- A call of a service.
  unfoldable pub call : {A : Type 0} → (S.World → Result A × S.World) → Action S A
  call f s = let (r, w) = f s.world in (r, record s { world = w })

  unfoldable pub call_pure : {A : Type 0} → (S.World → A × S.World) → Action S A
  call_pure f s = let (a, w) = f s.world in (ok a, record s { world = w })

  unfoldable pub write : Line D → Action S (Unit {0})
  write line = modify (λ s. record s { out = line ∷ s.out })

  unfoldable pub write_if : Bool → Line D → Action S (Unit {0})
  write_if true line = write line
  write_if false line = pure tt

  unfoldable pub set_metrics : (OperationMetrics → OperationMetrics) → Action S (Unit {0})
  set_metrics f = modify (λ s. record s { metrics = f s.metrics })

  unfoldable pub steady_now : Action S ℤ
  steady_now = call_pure S.steady_now

  -- `elapsed_us(started)`.
  unfoldable pub elapsed_us : ℤ → Action S ℤ
  elapsed_us started = do now ← steady_now; pure (now -ℤ started)

  unfoldable pub read_process_snapshot : Action S ProcessSnapshot
  read_process_snapshot = call S.read_process_snapshot

module _ {V : Type 0} where
  -- `unordered_map::find`, and an assignment to the value that is found.
  unfoldable pub lookup : Text → List (Text × V) → Option V
  lookup k [] = none
  lookup k ((j, v) ∷ m) = if text_eq j k then some v else lookup k m

  unfoldable pub replace_at : Text → V → List (Text × V) → List (Text × V)
  replace_at k v [] = []
  replace_at k v ((j, w) ∷ m) = if text_eq j k then (j, v) ∷ m else (j, w) ∷ replace_at k v m

  -- `try_emplace`.
  unfoldable pub try_emplace : Text → V → List (Text × V) → List (Text × V)
  try_emplace k v [] = (k, v) ∷ []
  try_emplace k v ((j, w) ∷ m) = if text_eq j k then (j, w) ∷ m else (j, w) ∷ try_emplace k v m
