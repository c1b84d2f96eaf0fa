-- ===== src/Cli/Fetch/Ends.antt =====
-- The ways a fetch can end (src/cli/fincore_cli.cpp).
use fin_core_streaming_syste.Prelude.{
  ◌≡◌, refl, ◌∙◌, sym, ap, Bool, true, false, List, Text, Result, ok, err,
}
use fin_core_streaming_syste.Core.Double.{Double}
use fin_core_streaming_syste.Core.Types.{Quote, OrderBookSnapshot}
use fin_core_streaming_syste.Cli.Metrics.{OperationMetrics, record_metrics}
use fin_core_streaming_syste.Cli.Services.{
  Services, State, Line, fetched, missed, quote_table, snapshot_table, metrics_table,
}
use fin_core_streaming_syste.Cli.Monad.{
  Action, pure, bind_result, ◌>>=◌, ◌>>◌, gets, modify, write, write_if,
}
use fin_core_streaming_syste.Cli.Fetch.Frame.{Same, Same-trans}

-- What the recorded metrics say of a result: an exception is not a success.
abbrev pub succeeded : Result Bool → Bool
succeeded (ok b) = b
succeeded (err e) = false

module _ {D : Double} {S : Services D} where
  -- Between the two states exactly one operation was recorded, with these metrics.
  pub record Once (symbol : Text) (s s' : State D S) (m : OperationMetrics) : Type 0 where
    pub stats : s'.stats ≡ record_metrics m s.stats
    pub symbols : s'.symbols ≡ s.symbols
    pub symbol_of : m.symbol ≡ symbol

  -- How a call ends that records at its end: with a result, which says whether the operation was a
  -- success, or before the recording, with an exception.
  unfoldable pub Ends : State D S → Result Bool × State D S → Type 0
  Ends s (ok b, s') = (m : OperationMetrics) × Once s.metrics.symbol s s' m × (m.success ≡ b)
  Ends s (err e, s') = Same s s'

  pub Ends-trans : (s t : State D S) (r : Result Bool × State D S) → Same s t → Ends t r → Ends s r
  unfolding Ends
  Ends-trans s t (ok b, s') h (m, once, e) = (
    m,
    record {
      stats = once.stats ∙ ap (record_metrics m) h.stats;
      symbols = once.symbols ∙ h.symbols;
      symbol_of = once.symbol_of ∙ h.symbol;
    },
    e,
  )
  Ends-trans s t (err e, s') h k = Same-trans h k

  pub Ends-bind :
      {A : Type 0} (s : State D S) (r : Result A × State D S) (f : A → Action S Bool)
      → Same s r.1
      → ((a : A) (t : State D S) → Same s t → Ends t (f a t))
      → Ends s (bind_result r f)
  unfolding Ends
  Ends-bind s (ok a, t) f h k = Ends-trans s t (f a t) h (k a t h)
  Ends-bind s (err e, t) f h k = h

  -- What is left of the call after the recording reports the success and writes.
  pub record Reports (t : State D S) (r : Result Bool × State D S) : Type 0 where
    pub after : State D S
    pub reported : r ≡ (ok t.metrics.success, after)
    pub stats : after.stats ≡ t.stats
    pub symbols : after.symbols ≡ t.symbols

  Reports-out :
      (t : State D S) (b : Bool) (out : List (Line D))
      → t.metrics.success ≡ b
      → Reports t (ok b, record t { out = out })
  Reports-out t b out e = record {
    after = record t { out = out };
    reported = ap (λ c. (ok c, record t { out = out })) (sym e);
    stats = refl;
    symbols = refl;
  }

  -- What a fetch does whatever its outcome.
  pub record FetchedOnce (symbol : Text) (s : State D S) (r : Result Bool × State D S)
      : Type 0 where
    pub m : OperationMetrics
    pub once : Once symbol s r.1 m
    pub tells : m.success ≡ succeeded r.0

  pub missed-Reports :
      (symbol : Text) (print_metrics : Bool) (t : State D S)
      → t.metrics.success ≡ false
      → Reports t (
          (do
            m ← gets (λ s. s.metrics)
            write (missed symbol)
            write_if print_metrics (metrics_table m)
            pure false)
            t)
  unfolding ◌>>=◌ ◌>>◌ gets write write_if modify pure
  missed-Reports symbol true t e = Reports-out t false _ e
  missed-Reports symbol false t e = Reports-out t false _ e

  pub fetched-Reports :
      (symbol : Text) (quote : Quote D) (snap : OrderBookSnapshot D) (enabled stored kept : Bool)
      (print_data print_metrics : Bool) (t : State D S)
      → Reports t (
          (do
            m ← gets (λ s. s.metrics)
            write (fetched symbol m enabled stored kept)
            write_if print_data (quote_table quote)
            write_if print_data (snapshot_table snap)
            write_if print_metrics (metrics_table m)
            pure m.success)
            t)
  unfolding ◌>>=◌ ◌>>◌ gets write write_if modify pure
  fetched-Reports symbol quote snap enabled stored kept true true t =
      Reports-out t t.metrics.success _ refl
  fetched-Reports symbol quote snap enabled stored kept true false t =
      Reports-out t t.metrics.success _ refl
  fetched-Reports symbol quote snap enabled stored kept false true t =
      Reports-out t t.metrics.success _ refl
  fetched-Reports symbol quote snap enabled stored kept false false t =
      Reports-out t t.metrics.success _ refl
