-- ===== src/Cli/Commands/Keeps.antt =====
-- Actions and the consistency of the session statistics (src/cli/fincore_cli.cpp): one rule for each
-- way to build an action.
use fin_core_streaming_syste.Prelude.{
  ◌≡◌, Bool, true, false, if◌then◌else◌, Result, ok, err, Exception,
}
use fin_core_streaming_syste.Prelude.Int.{ℤ}
use fin_core_streaming_syste.Core.Double.{Double}
use fin_core_streaming_syste.Cli.Metrics.{OperationMetrics, record_metrics, reset}
use fin_core_streaming_syste.Cli.Metrics.Invariant.{
  IsConsistent, record_metrics-IsConsistent, reset-new_session, new_session-IsConsistent,
}
use fin_core_streaming_syste.Cli.Services.{Services, State, Line}
use fin_core_streaming_syste.Cli.Monad.{
  Action, pure, throw, bind_result, handle_result, ◌>>=◌, ◌>>◌, catching, gets, modify, call,
  call_pure, write, write_if, set_metrics, steady_now, elapsed_us, read_process_snapshot,
}
use fin_core_streaming_syste.Cli.Fetch.Frame.{
  Frame, Frame-pure, Frame-throw, Frame-gets, Frame-call, Frame-call_pure, Frame-write,
  Frame-write_if, Frame-steady_now, Frame-elapsed_us, Frame-read_process_snapshot,
}

module _ {D : Double} {S : Services D} where
  -- An action that leaves consistent statistics consistent, whatever its outcome.
  pub record Keeps {A : Type 0} (m : Action S A) : Type 0 where
    pub keeps : (s : State D S) → IsConsistent s.stats → IsConsistent (m s).1.stats

  pub Keeps-Frame : {A : Type 0} (m : Action S A) → Frame m → Keeps m
  Keeps-Frame m f = record { keeps = λ s h. rw ((f.keeps s).stats) h }

  pub Keeps-result :
      {A B : Type 0} (r : Result A × State D S) (f : A → Action S B)
      → IsConsistent r.1.stats
      → ((a : A) → Keeps (f a))
      → IsConsistent (bind_result r f).1.stats
  Keeps-result (ok a, t) f h k = (k a).keeps t h
  Keeps-result (err e, t) f h k = h

  pub Keeps-bind :
      {A B : Type 0} (m : Action S A) (f : A → Action S B)
      → Keeps m
      → ((a : A) → Keeps (f a))
      → Keeps (m >>= f)
  unfolding ◌>>=◌
  Keeps-bind m f h k = record { keeps = λ s c. Keeps-result (m s) f (h.keeps s c) k }

  pub Keeps-then :
      {B : Type 0} (m : Action S (Unit {0})) (k : Action S B) → Keeps m → Keeps k → Keeps (m >> k)
  unfolding ◌>>◌
  Keeps-then m k h j = Keeps-bind m (λ _. k) h (λ _. j)

  pub Keeps-handled :
      {A : Type 0} (r : Result A × State D S) (f : Exception → Action S A)
      → IsConsistent r.1.stats
      → ((e : Exception) → Keeps (f e))
      → IsConsistent (handle_result r f).1.stats
  Keeps-handled (ok a, t) f h k = h
  Keeps-handled (err e, t) f h k = (k e).keeps t h

  pub Keeps-catching :
      {A : Type 0} (m : Action S A) (f : Exception → Action S A)
      → Keeps m
      → ((e : Exception) → Keeps (f e))
      → Keeps (catching m f)
  unfolding catching
  Keeps-catching m f h k = record { keeps = λ s c. Keeps-handled (m s) f (h.keeps s c) k }

  pub Keeps-if :
      {A : Type 0} (b : Bool) (m k : Action S A) → Keeps m → Keeps k → Keeps (if b then m else k)
  Keeps-if true m k h j = h
  Keeps-if false m k h j = j

  pub Keeps-pure : {A : Type 0} (a : A) → Keeps (pure a)
  Keeps-pure a = Keeps-Frame _ (Frame-pure a)

  pub Keeps-throw : {A : Type 0} (e : Exception) → Keeps {A = A} (throw e)
  Keeps-throw e = Keeps-Frame _ (Frame-throw e)

  pub Keeps-gets : {A : Type 0} (f : State D S → A) → Keeps (gets f)
  Keeps-gets f = Keeps-Frame _ (Frame-gets f)

  pub Keeps-call : {A : Type 0} (f : S.World → Result A × S.World) → Keeps (call f)
  Keeps-call f = Keeps-Frame _ (Frame-call f)

  pub Keeps-call_pure : {A : Type 0} (f : S.World → A × S.World) → Keeps (call_pure f)
  Keeps-call_pure f = Keeps-Frame _ (Frame-call_pure f)

  pub Keeps-write : (line : Line D) → Keeps (write line)
  Keeps-write line = Keeps-Frame _ (Frame-write line)

  pub Keeps-write_if : (b : Bool) (line : Line D) → Keeps (write_if b line)
  Keeps-write_if b line = Keeps-Frame _ (Frame-write_if b line)

  pub Keeps-steady_now : Keeps (steady_now {D = D} {S = S})
  Keeps-steady_now = Keeps-Frame _ Frame-steady_now

  pub Keeps-elapsed_us : (started : ℤ) → Keeps (elapsed_us {D = D} {S = S} started)
  Keeps-elapsed_us started = Keeps-Frame _ (Frame-elapsed_us started)

  pub Keeps-read_process_snapshot : Keeps (read_process_snapshot {D = D} {S = S})
  Keeps-read_process_snapshot = Keeps-Frame _ Frame-read_process_snapshot

  pub Keeps-set_metrics : (f : OperationMetrics → OperationMetrics) → Keeps (set_metrics f)
  unfolding set_metrics modify
  Keeps-set_metrics f = record { keeps = λ s h. h }

  -- A change of the state that leaves the statistics alone.
  pub Keeps-modify :
      (f : State D S → State D S) → ((s : State D S) → (f s).stats ≡ s.stats) → Keeps (modify f)
  unfolding modify
  Keeps-modify f same = record { keeps = λ s h. rw (same s) h }

  pub Keeps-record : Keeps (modify (λ s. record s { stats = record_metrics s.metrics s.stats }))
  unfolding modify
  Keeps-record = record { keeps = λ s h. record_metrics-IsConsistent s.metrics h }

  pub Keeps-reset : Keeps (modify (λ s. record s { stats = reset s.stats }))
  unfolding modify
  Keeps-reset = record { keeps = λ s h. rw (reset-new_session s.stats) new_session-IsConsistent }

pub ruleset keeping = (
  Keeps-bind, Keeps-then, Keeps-catching, Keeps-if, Keeps-pure, Keeps-throw, Keeps-gets, Keeps-call,
  Keeps-call_pure, Keeps-write, Keeps-write_if, Keeps-steady_now, Keeps-elapsed_us,
  Keeps-read_process_snapshot, Keeps-set_metrics,
)
