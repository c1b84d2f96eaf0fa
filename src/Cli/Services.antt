-- ===== src/Cli/Services.antt =====
-- `struct CliServices` of include/cli/fincore_cli.hpp, with the clocks, the sleep and `getrusage`:
-- what src/cli/fincore_cli.cpp calls and does not implement. A call may change the world and throw.
use fin_core_streaming_syste.Prelude.{ℕ, ◌≡◌, Bool, Option, List, Text, Result, ok, Exception}
use fin_core_streaming_syste.Prelude.Int.{ℤ}
use fin_core_streaming_syste.Core.Double.{Double}
use fin_core_streaming_syste.Core.Levels.{Levels}
use fin_core_streaming_syste.Core.Types.{Quote, OrderBookSnapshot, TimePoint}
use fin_core_streaming_syste.Core.OrderBook.{OrderBook}
use fin_core_streaming_syste.Cli.Metrics.{ProcessSnapshot, OperationMetrics, SessionStats}

pub record Services (D : Double) : Type 1 where
  pub World : Type 0
  pub get_quote : Text → World → Result (Option (Quote D)) × World
  pub last_was_cached : World → Result Bool × World
  pub redis_is_connected : World → Result Bool × World
  pub get_cached_quote : Text → World → Result (Option (Quote D)) × World
  pub store_quote : Text → Quote D → World → Result Bool × World
  pub update_order_book : Text → Levels D.Num → Levels D.Num → World → Result Bool × World
  pub persist_quote : Option (Quote D → World → Result Bool × World)
  pub persist_snapshot : Option (OrderBookSnapshot D → Text → World → Result Bool × World)
  pub steady_now : World → ℤ × World
  pub system_now : World → TimePoint × World
  pub read_process_snapshot : World → Result ProcessSnapshot × World
  pub sleep_ms : ℕ → World → World

-- `getrusage(RUSAGE_SELF, &usage)` with a valid address does not fail.
abbrev pub UsageWorks : {D : Double} → Services D → Type 0
UsageWorks S =
    (w : S.World)
    → (p : ProcessSnapshot) × (w' : S.World) × (S.read_process_snapshot w ≡ (ok p, w'))

-- What is written to `out_`, a constructor for each kind of output.
pub data Line (D : Double) : Type 0 where
  fetched : Text → OperationMetrics → Bool → Bool → Bool → Line D
  missed : Text → Line D
  quote_table : Quote D → Line D
  snapshot_table : OrderBookSnapshot D → Line D
  metrics_table : OperationMetrics → Line D
  redis_warning : Line D
  batch : ℕ → ℕ → ℕ → Line D
  watching : Text → ℕ → ℕ → Line D
  watch_round : ℕ → ℕ → Line D
  cycle : ℕ → ℕ → Line D
  sleeping : ℕ → Line D
  help_text : Line D
  symbol_list : List Text → Line D
  no_book : Text → Line D
  book_time : ℤ → Line D
  benchmark : Text → ℕ → ℕ → ℕ → Line D
  redis_status : Bool → Line D
  summary : SessionStats → Line D
  last_metrics : Option OperationMetrics → Line D
  stats_reset : Line D
  bye : Line D
  unknown_command : Text → Line D
  banner : Line D
  prompt : Line D
  end_of_input : Line D
  error : Exception → Line D

-- The fields of `class FinCoreCli`; `metrics` is the local of that name in `fetch_symbol`, and `out`
-- the output so far, latest first.
pub record State (D : Double) (S : Services D) : Type 0 where
  pub symbols : List Text
  pub books : List (Text × OrderBook D)
  pub books_with_data : List Text
  pub default_poll_seconds : ℤ
  pub running : Bool
  pub stats : SessionStats
  pub metrics : OperationMetrics
  pub out : List (Line D)
  pub world : S.World
