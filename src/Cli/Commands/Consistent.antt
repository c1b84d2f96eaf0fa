-- ===== src/Cli/Commands/Consistent.antt =====
-- The session statistics through the commands (src/cli/fincore_cli.cpp).
use fin_core_streaming_syste.Prelude.{
  ℕ, zero, suc, refl, Bool, true, false, Option, none, some, List, [], ◌∷◌, Text, Result, ok, err,
}
use fin_core_streaming_syste.Prelude.Int.{ℤ}
use fin_core_streaming_syste.Core.Double.{Double}
use fin_core_streaming_syste.Core.OrderBook.{OrderBook}
use fin_core_streaming_syste.Cli.Metrics.Invariant.{IsConsistent, new_session-IsConsistent}
use fin_core_streaming_syste.Cli.Services.{Services}
use fin_core_streaming_syste.Cli.Monad.{Action, modify}
use fin_core_streaming_syste.Cli.Fetch.{or_missing}
use fin_core_streaming_syste.Cli.Commands.{
  initial, lift, when, discard, sleep, print_summary, handle_symbols, handle_fetch,
  require_configured, show_book, handle_book, measure_lookup, handle_lookup, watch_rounds, watch,
  handle_watch, poll_cycles, poll, handle_poll, handle_redis, handle_stats, dispatch, handle_tokens,
  handle_line, run_lines, run,
}
use fin_core_streaming_syste.Cli.Commands.Keeps.{
  keeping, Keeps, Keeps-bind, Keeps-pure, Keeps-throw, Keeps-modify, Keeps-reset, Keeps-write,
}
use fin_core_streaming_syste.Cli.Commands.Fetching.{fetch_symbol-Keeps, fetch_all-Keeps}

module _ {D : Double} {S : Services D} where
  lift-Keeps : {A : Type 0} (r : Result A) → Keeps (lift {D = D} {S = S} r)
  unfolding lift
  lift-Keeps (ok a) = Keeps-pure a
  lift-Keeps (err e) = Keeps-throw e

  when-Keeps : (b : Bool) (m : Action S (Unit {0})) → Keeps m → Keeps (when b m)
  unfolding when
  when-Keeps true m h = h
  when-Keeps false m h = Keeps-pure tt

  discard-Keeps : {A : Type 0} (m : Action S A) → Keeps m → Keeps (discard m)
  unfolding discard
  discard-Keeps m h = Keeps-bind _ _ h (λ _. Keeps-pure tt)

  sleep-Keeps : (ms : ℕ) → Keeps (sleep {D = D} {S = S} ms)
  unfolding sleep
  sleep-Keeps ms = Keeps-modify _ (λ s. refl)

  print_summary-Keeps : Keeps (print_summary {D = D} {S = S})
  unfolding print_summary
  print_summary-Keeps = search keeping depth 24

  handle_symbols-Keeps : (args : List Text) → Keeps (handle_symbols {D = D} {S = S} args)
  unfolding handle_symbols
  handle_symbols-Keeps [] = search keeping depth 24
  handle_symbols-Keeps (_ ∷ _) = Keeps-throw _

  handle_fetch-Keeps : (args : List Text) → Keeps (handle_fetch {D = D} {S = S} args)
  unfolding handle_fetch
  handle_fetch-Keeps [] = Keeps-throw _
  handle_fetch-Keeps (arg ∷ []) =
      search (keeping, fetch_all-Keeps, discard-Keeps, fetch_symbol-Keeps) depth 24
  handle_fetch-Keeps (_ ∷ (_ ∷ _)) = Keeps-throw _

  require_configured-Keeps : (symbol : Text) → Keeps (require_configured {D = D} {S = S} symbol)
  unfolding require_configured
  require_configured-Keeps symbol = search (keeping, when-Keeps) depth 24

  or_missing-Keeps : (o : Option (OrderBook D)) → Keeps (or_missing {D = D} {S = S} o)
  unfolding or_missing
  or_missing-Keeps none = Keeps-throw _
  or_missing-Keeps (some book) = Keeps-pure book

  show_book-Keeps : (symbol : Text) (b : Bool) → Keeps (show_book {D = D} {S = S} symbol b)
  unfolding show_book
  show_book-Keeps symbol false = Keeps-write _
  show_book-Keeps symbol true = search (keeping, or_missing-Keeps) depth 24

  handle_book-Keeps : (args : List Text) → Keeps (handle_book {D = D} {S = S} args)
  unfolding handle_book
  handle_book-Keeps [] = Keeps-throw _
  handle_book-Keeps (arg ∷ []) =
      search (keeping, require_configured-Keeps, show_book-Keeps) depth 24
  handle_book-Keeps (_ ∷ (_ ∷ _)) = Keeps-throw _

  measure_lookup-Keeps :
      (symbol : Text) (count : ℕ) → Keeps (measure_lookup {D = D} {S = S} symbol count)
  unfolding measure_lookup
  measure_lookup-Keeps symbol count = search (keeping, require_configured-Keeps) depth 40

  handle_lookup-Keeps : (args : List Text) → Keeps (handle_lookup {D = D} {S = S} args)
  unfolding handle_lookup
  handle_lookup-Keeps [] = Keeps-throw _
  handle_lookup-Keeps (arg ∷ []) = measure_lookup-Keeps _ _
  handle_lookup-Keeps (arg ∷ (count_text ∷ [])) =
      search (keeping, lift-Keeps, measure_lookup-Keeps) depth 24
  handle_lookup-Keeps (_ ∷ (_ ∷ (_ ∷ _))) = Keeps-throw _

  watch_rounds-Keeps :
      (target : Text) (count interval_ms left : ℕ)
      → Keeps (watch_rounds {D = D} {S = S} target count interval_ms left)
  unfolding watch_rounds
  watch_rounds-Keeps target count interval_ms zero = Keeps-pure tt
  watch_rounds-Keeps target count interval_ms (suc left) =
      let rest = watch_rounds-Keeps target count interval_ms left in
      search (keeping, fetch_all-Keeps, discard-Keeps, fetch_symbol-Keeps, when-Keeps, sleep-Keeps)
        depth 24

  watch-Keeps :
      (target : Text) (count interval_ms : ℕ)
      → Keeps (watch {D = D} {S = S} target count interval_ms)
  unfolding watch
  watch-Keeps target count interval_ms =
      search
        (keeping, when-Keeps, require_configured-Keeps, watch_rounds-Keeps, print_summary-Keeps)
        depth 24

  handle_watch-Keeps : (args : List Text) → Keeps (handle_watch {D = D} {S = S} args)
  unfolding handle_watch
  handle_watch-Keeps [] = Keeps-throw _
  handle_watch-Keeps (arg ∷ []) = watch-Keeps _ _ _
  handle_watch-Keeps (arg ∷ (count_text ∷ [])) = search (keeping, lift-Keeps, watch-Keeps) depth 24
  handle_watch-Keeps (arg ∷ (count_text ∷ (interval_text ∷ []))) =
      search (keeping, lift-Keeps, watch-Keeps) depth 24
  handle_watch-Keeps (_ ∷ (_ ∷ (_ ∷ (_ ∷ _)))) = Keeps-throw _

  poll_cycles-Keeps :
      (count seconds left : ℕ) → Keeps (poll_cycles {D = D} {S = S} count seconds left)
  unfolding poll_cycles
  poll_cycles-Keeps count seconds zero = Keeps-pure tt
  poll_cycles-Keeps count seconds (suc left) =
      let rest = poll_cycles-Keeps count seconds left in
      search (keeping, fetch_all-Keeps, when-Keeps, sleep-Keeps) depth 24

  poll-Keeps : (count seconds : ℕ) → Keeps (poll {D = D} {S = S} count seconds)
  unfolding poll
  poll-Keeps count seconds = search (keeping, poll_cycles-Keeps, print_summary-Keeps) depth 24

  handle_poll-Keeps : (args : List Text) → Keeps (handle_poll {D = D} {S = S} args)
  unfolding handle_poll
  handle_poll-Keeps [] = search (keeping, poll-Keeps) depth 24
  handle_poll-Keeps (count_text ∷ []) = search (keeping, lift-Keeps, poll-Keeps) depth 24
  handle_poll-Keeps (count_text ∷ (seconds_text ∷ [])) =
      search (keeping, lift-Keeps, poll-Keeps) depth 24
  handle_poll-Keeps (_ ∷ (_ ∷ (_ ∷ _))) = Keeps-throw _

  handle_redis-Keeps : (args : List Text) → Keeps (handle_redis {D = D} {S = S} args)
  unfolding handle_redis
  handle_redis-Keeps [] = Keeps-throw _
  handle_redis-Keeps (arg ∷ []) = search keeping depth 24
  handle_redis-Keeps (_ ∷ (_ ∷ _)) = Keeps-throw _

  handle_stats-Keeps : (args : List Text) → Keeps (handle_stats {D = D} {S = S} args)
  unfolding handle_stats
  handle_stats-Keeps [] = print_summary-Keeps
  handle_stats-Keeps (arg ∷ []) = search (keeping, Keeps-reset) depth 24
  handle_stats-Keeps (_ ∷ (_ ∷ _)) = Keeps-throw _

  stop-Keeps : Keeps {D = D} {S = S} (modify (λ s. record s { running = false }))
  stop-Keeps = Keeps-modify _ (λ s. refl)

  dispatch-Keeps :
      (command : Text) (args : List Text) → Keeps (dispatch {D = D} {S = S} command args)
  unfolding dispatch
  dispatch-Keeps command args =
      search
        (
          keeping, handle_symbols-Keeps, handle_fetch-Keeps, handle_book-Keeps, handle_lookup-Keeps,
          handle_watch-Keeps, handle_poll-Keeps, handle_redis-Keeps, handle_stats-Keeps, stop-Keeps,
        )
        depth 40

  handle_tokens-Keeps : (tokens : List Text) → Keeps (handle_tokens {D = D} {S = S} tokens)
  unfolding handle_tokens
  handle_tokens-Keeps [] = Keeps-pure tt
  handle_tokens-Keeps (command ∷ args) = dispatch-Keeps _ args

  run_lines-Keeps : (lines : List Text) → Keeps (run_lines {D = D} {S = S} lines)
  unfolding run_lines handle_line
  run_lines-Keeps [] = search (keeping, when-Keeps) depth 24
  run_lines-Keeps (line ∷ lines) =
      let rest = run_lines-Keeps lines in search (keeping, when-Keeps, handle_tokens-Keeps) depth 24

-- However a session goes, with any input, services that return or throw anything, and any
-- configured symbols, the session statistics end consistent: attempts are successes and
-- failures, and as many as the total times, and the hits and misses of each stage are as many as
-- its samples, modulo 2^64.
pub run-IsConsistent :
    {D : Double} (S : Services D) (symbols : List Text) (default_poll_seconds : ℤ) (world : S.World)
    (books : List (Text × OrderBook D)) (lines : List Text)
    → IsConsistent (run lines (initial S symbols default_poll_seconds world books)).1.stats
unfolding run initial
run-IsConsistent {D} S symbols default_poll_seconds world books lines =
    let all : Keeps (run {D = D} {S = S} lines) = search (keeping, run_lines-Keeps) depth 24 in
    all.keeps (initial S symbols default_poll_seconds world books) new_session-IsConsistent
