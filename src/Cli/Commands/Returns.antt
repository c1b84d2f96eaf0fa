-- ===== src/Cli/Commands/Returns.antt =====
-- `run` of src/cli/fincore_cli.cpp always returns: what a command throws is caught.
use fin_core_streaming_syste.Prelude.{
  ◌≡◌, refl, Bool, true, false, List, [], ◌∷◌, Text, Result, ok, err, Exception,
}
use fin_core_streaming_syste.Core.Double.{Double}
use fin_core_streaming_syste.Cli.Commands.{when, handle_line, run_lines, run}
use fin_core_streaming_syste.Cli.Monad.{
  Action, pure, ◌>>=◌, ◌>>◌, catching, gets, modify, write, bind_result, handle_result,
}
use fin_core_streaming_syste.Cli.Services.{
  Services, State, Line, banner, prompt, end_of_input, error,
}

module _ {D : Double} {S : Services D} where
  pub data Returned {A : Type 0} : Result A × State D S → Type 0 where
    returned : (a : A) (s : State D S) → Returned (ok a, s)

  pub Returned-inv :
      {A : Type 0} (r : Result A × State D S)
      → Returned r
      → (a : A) × (s : State D S) × (r ≡ (ok a, s))
  Returned-inv _ (returned a s) = (a, s, refl)

  bind-Returned :
      {A B : Type 0} (r : Result A × State D S) (f : A → Action S B)
      → Returned r
      → ((a : A) (s : State D S) → Returned (f a s))
      → Returned (bind_result r f)
  bind-Returned _ f (returned a s) h = h a s

  handle-Returned :
      {A : Type 0} (r : Result A × State D S) (f : Exception → Action S A)
      → ((e : Exception) (s : State D S) → Returned (f e s))
      → Returned (handle_result r f)
  handle-Returned (ok a, s) f h = returned a s
  handle-Returned (err e, s) f h = h e s

  write-Returned : (line : Line D) (s : State D S) → Returned (write line s)
  unfolding write modify
  write-Returned line s = returned tt _

  when-Returned :
      (b : Bool) (m : Action S (Unit {0}))
      → ((s : State D S) → Returned (m s))
      → (s : State D S) → Returned (when b m s)
  unfolding when pure
  when-Returned true m h s = h s
  when-Returned false m h s = returned tt s

  then-Returned :
      {A : Type 0} (m : Action S (Unit {0})) (k : Action S A)
      → ((s : State D S) → Returned (m s))
      → ((s : State D S) → Returned (k s))
      → (s : State D S) → Returned ((m >> k) s)
  unfolding ◌>>◌ ◌>>=◌
  then-Returned m k h g s = bind-Returned (m s) (λ _. k) (h s) (λ _. g)

  safe-Returned :
      (line : Text) (s : State D S)
      → Returned (catching (handle_line line) (λ e. write (error e)) s)
  unfolding catching
  safe-Returned line s = handle-Returned _ _ (λ e. write-Returned (error e))

  run_lines-Returned : (lines : List Text) (s : State D S) → Returned (run_lines lines s)
  unfolding run_lines ◌>>=◌ gets
  run_lines-Returned [] s =
      when-Returned s.running _
        (then-Returned _ _ (write-Returned prompt) (write-Returned end_of_input)) s
  run_lines-Returned (line ∷ lines) s =
      when-Returned s.running _
        (then-Returned _ _ (write-Returned prompt)
          (then-Returned _ _ (safe-Returned line) (run_lines-Returned lines)))
        s

  pub run-Returned : (lines : List Text) (s : State D S) → Returned (run lines s)
  unfolding run
  run-Returned lines s = then-Returned _ _ (write-Returned banner) (run_lines-Returned lines) s
