-- ===== src/Cli/Fetch/Recorded.antt =====
-- How often a fetch is recorded (src/cli/fincore_cli.cpp).
use fin_core_streaming_syste.Prelude.{
  ◌≡◌, refl, ◌∙◌, ap, Bool, true, false, Option, none, some, Text, Result, ok, err,
}
use fin_core_streaming_syste.Prelude.Int.{ℤ, ◌-ℤ◌}
use fin_core_streaming_syste.Core.Double.{Double}
use fin_core_streaming_syste.Core.Types.{Quote}
use fin_core_streaming_syste.Cli.Metrics.{
  OperationMetrics, ProcessSnapshot, process_delta, record_metrics,
}
use fin_core_streaming_syste.Cli.Parse.{normalize_symbol}
use fin_core_streaming_syste.Cli.Services.{Services, State, UsageWorks}
use fin_core_streaming_syste.Cli.Monad.{
  Action, pure, throw, handle_result, ◌>>=◌, ◌>>◌, catching, gets, modify, call, call_pure,
  set_metrics, steady_now, elapsed_us, read_process_snapshot,
}
use fin_core_streaming_syste.Cli.Fetch.{
  fresh_metrics, is_configured, read_cache, cache_or_api, conclude, store_all, finish, try_fetch,
  measured_fetch, fetch_symbol,
}
use fin_core_streaming_syste.Cli.Fetch.Frame.{read_cache-Frame, cache_or_api-Frame, store_all-Frame}
use fin_core_streaming_syste.Cli.Fetch.Ends.{
  Once, Ends, Ends-bind, Reports, FetchedOnce, missed-Reports, fetched-Reports,
}

module _ {D : Double} {S : Services D} where
  module _ (usage : UsageWorks S) where
    record Concluded (s : State D S) (r : Result (Unit {0}) × State D S) : Type 0 where
      after : State D S
      is_ok : r ≡ (ok tt, after)
      once : Once s.metrics.symbol s after after.metrics
      success : after.metrics.success ≡ s.metrics.success

    conclude-Concluded :
        (before : ProcessSnapshot) (started : ℤ) (s : State D S)
        → Concluded s (conclude before started s)
    unfolding conclude ◌>>=◌ ◌>>◌ elapsed_us steady_now call_pure pure set_metrics modify
        read_process_snapshot call
    conclude-Concluded before started s =
        let (p, w, e) = usage (S.steady_now s.world).1 in
        let m : OperationMetrics = record s.metrics {
          total_us = (S.steady_now s.world).0 -ℤ started;
          process = process_delta before p;
        } in
        rw e (record {
          after = record s { stats = record_metrics m s.stats; metrics = m; world = w };
          is_ok = refl;
          once = record { stats = refl; symbols = refl; symbol_of = refl };
          success = refl;
        })

    conclude-Ends :
        (before : ProcessSnapshot) (started : ℤ) (u s : State D S) (k : Action S Bool)
        → s.stats ≡ u.stats
        → s.symbols ≡ u.symbols
        → s.metrics.symbol ≡ u.metrics.symbol
        → ((t : State D S) → t.metrics.success ≡ s.metrics.success → Reports t (k t))
        → Ends u ((conclude before started >> k) s)
    unfolding ◌>>=◌ ◌>>◌ Ends
    conclude-Ends before started u s k same_stats same_symbols same_symbol h =
        let c = conclude-Concluded before started s in
        let r = h c.after c.success in
        rw c.is_ok (
          rw r.reported (
            c.after.metrics,
            record {
              stats = r.stats ∙ c.once.stats ∙ ap (record_metrics c.after.metrics) same_stats;
              symbols = r.symbols ∙ c.once.symbols ∙ same_symbols;
              symbol_of = c.once.symbol_of ∙ same_symbol;
            },
            refl,
          ))

    finish-Ends :
        (symbol : Text) (print_data print_metrics : Bool) (before : ProcessSnapshot) (started : ℤ)
        (quote : Option (Quote D)) (s : State D S)
        → s.metrics.success ≡ false
        → Ends s (finish symbol print_data print_metrics before started quote s)
    unfolding finish ◌>>=◌ ◌>>◌ set_metrics modify
    finish-Ends symbol print_data print_metrics before started none s unset =
        conclude-Ends before started s s _ refl refl refl
          (λ t e. missed-Reports symbol print_metrics t (e ∙ unset))
    finish-Ends symbol print_data print_metrics before started (some quote) s unset =
        Ends-bind s (store_all symbol quote s) _ ((store_all-Frame symbol quote).keeps s)
          (λ (snap, enabled, quote_stored, snapshot_stored) t h.
            conclude-Ends before started t _ _ refl refl refl (λ u e.
              fetched-Reports symbol quote snap enabled quote_stored snapshot_stored print_data
                print_metrics u))

    try_fetch-Ends :
        (symbol : Text) (print_data print_metrics : Bool) (before : ProcessSnapshot) (started : ℤ)
        (s : State D S)
        → s.metrics.success ≡ false
        → Ends s (try_fetch symbol print_data print_metrics before started s)
    unfolding try_fetch ◌>>=◌
    try_fetch-Ends symbol print_data print_metrics before started s unset =
        Ends-bind s (read_cache symbol s)
          (λ cached.
            cache_or_api symbol cached >>= finish symbol print_data print_metrics before started)
          ((read_cache-Frame symbol).keeps s)
          (λ cached t h.
            Ends-bind t (cache_or_api symbol cached t)
              (finish symbol print_data print_metrics before started)
              ((cache_or_api-Frame symbol cached).keeps t)
              (λ quote u k.
                finish-Ends symbol print_data print_metrics before started quote u
                  (k.success ∙ h.success ∙ unset)))

    catching-Ends :
        (before : ProcessSnapshot) (started : ℤ) (s : State D S) (r : Result Bool × State D S)
        → s.metrics.success ≡ false
        → Ends s r
        → FetchedOnce s.metrics.symbol s
            (handle_result r (λ e. do conclude before started; throw e))
    unfolding Ends ◌>>◌ ◌>>=◌ throw
    catching-Ends before started s (ok b, t) unset (m, once, e) = record {
      m = m;
      once = once;
      tells = e;
    }
    catching-Ends before started s (err x, t) unset h =
        let c = conclude-Concluded before started t in
        rw c.is_ok (record {
          m = c.after.metrics;
          once = record {
            stats = c.once.stats ∙ ap (record_metrics c.after.metrics) h.stats;
            symbols = c.once.symbols ∙ h.symbols;
            symbol_of = c.once.symbol_of ∙ h.symbol;
          };
          tells = c.success ∙ h.success ∙ unset;
        })

    measured_fetch-Once :
        (symbol : Text) (print_data print_metrics : Bool) (s : State D S)
        → FetchedOnce symbol s (measured_fetch symbol print_data print_metrics s)
    unfolding measured_fetch ◌>>◌ ◌>>=◌ modify read_process_snapshot call steady_now call_pure
        catching
    measured_fetch-Once symbol print_data print_metrics s =
        let (p, w, e) = usage s.world in
        let u : State D S = record s {
          metrics = fresh_metrics symbol;
          world = (S.steady_now w).1;
        } in
        let started = (S.steady_now w).0 in
        let r =
          catching-Ends p started u (try_fetch symbol print_data print_metrics p started u) refl
            (try_fetch-Ends symbol print_data print_metrics p started u refl) in
        rw e (record {
          m = r.m;
          once = record {
            stats = r.once.stats;
            symbols = r.once.symbols;
            symbol_of = r.once.symbol_of;
          };
          tells = r.tells;
        })

    -- Where the process statistics can be read, a fetch of a configured symbol is recorded exactly
    -- once, under its normalized name, whatever the services return or throw, and what is recorded
    -- says it was a success just where the call returns true. The configured symbols stay.
    pub fetch_symbol-FetchedOnce :
        (raw : Text) (print_data print_metrics : Bool) (s : State D S)
        → is_configured (normalize_symbol raw) s ≡ true
        → FetchedOnce (normalize_symbol raw) s (fetch_symbol raw print_data print_metrics s)
    unfolding fetch_symbol ◌>>=◌ gets
    fetch_symbol-FetchedOnce raw print_data print_metrics s configured =
        rw configured (measured_fetch-Once (normalize_symbol raw) print_data print_metrics s)
