-- ===== src/Cli/Metrics.antt =====
-- The session statistics of include/cli/process_metrics.hpp and src/cli/process_metrics.cpp. Signed
-- 64-bit times and sizes are integers: their sums are taken not to overflow, which would be
-- undefined. The counters are `uint64_t` and wrap around.
pub mod Accounts
pub mod Invariant
pub mod Format
pub mod Samples
pub mod Printed
pub mod Usage
use fin_core_streaming_syste.Prelude.{
  ℕ, ◌+◌, ◌%◌, ◌^◌, ◌≡◌, refl, Bool, true, false, not, ◌&&◌, Option, none, some, List, [], ◌∷◌,
  ◌++◌, if◌then◌else◌, Text, is_some,
}
use fin_core_streaming_syste.Prelude.Int.{ℤ, pos, ltb_ℤ, ◌+ℤ◌, ◌-ℤ◌}

pub record ProcessSnapshot : Type 0 where
  pub user_cpu_us : ℤ
  pub system_cpu_us : ℤ
  pub current_rss_kb : ℤ
  pub peak_rss_kb : ℤ
  pub minor_faults : ℤ
  pub major_faults : ℤ
  pub voluntary_context_switches : ℤ
  pub involuntary_context_switches : ℤ

pub record ProcessDelta : Type 0 where
  pub user_cpu_us : ℤ
  pub system_cpu_us : ℤ
  pub rss_delta_kb : ℤ
  pub current_rss_kb : ℤ
  pub peak_rss_kb : ℤ
  pub minor_faults : ℤ
  pub major_faults : ℤ
  pub voluntary_context_switches : ℤ
  pub involuntary_context_switches : ℤ

unfoldable pub total_cpu_us : ProcessDelta → ℤ
total_cpu_us d = d.user_cpu_us +ℤ d.system_cpu_us

unfoldable pub process_delta : ProcessSnapshot → ProcessSnapshot → ProcessDelta
process_delta before after = record {
  user_cpu_us = after.user_cpu_us -ℤ before.user_cpu_us;
  system_cpu_us = after.system_cpu_us -ℤ before.system_cpu_us;
  rss_delta_kb = after.current_rss_kb -ℤ before.current_rss_kb;
  current_rss_kb = after.current_rss_kb;
  peak_rss_kb = after.peak_rss_kb;
  minor_faults = after.minor_faults -ℤ before.minor_faults;
  major_faults = after.major_faults -ℤ before.major_faults;
  voluntary_context_switches =
      after.voluntary_context_switches -ℤ before.voluntary_context_switches;
  involuntary_context_switches =
      after.involuntary_context_switches -ℤ before.involuntary_context_switches;
}

abbrev pub no_delta : ProcessDelta
no_delta = record {
  user_cpu_us = pos 0;
  system_cpu_us = pos 0;
  rss_delta_kb = pos 0;
  current_rss_kb = pos 0;
  peak_rss_kb = pos 0;
  minor_faults = pos 0;
  major_faults = pos 0;
  voluntary_context_switches = pos 0;
  involuntary_context_switches = pos 0;
}

pub record OperationMetrics : Type 0 where
  pub symbol : Text
  pub success : Bool
  pub api_cached : Bool
  pub redis_cache_hit : Bool
  pub redis_quote_stored : Bool
  pub redis_book_stored : Bool
  pub api_us : Option ℤ
  pub redis_read_us : Option ℤ
  pub redis_quote_us : Option ℤ
  pub book_build_us : Option ℤ
  pub redis_book_us : Option ℤ
  pub total_us : ℤ
  pub process : ProcessDelta

pub record SessionStats : Type 0 where
  pub attempts : ℕ
  pub successes : ℕ
  pub failures : ℕ
  pub api_cache_hits : ℕ
  pub api_cache_misses : ℕ
  pub redis_cache_hits : ℕ
  pub redis_cache_misses : ℕ
  pub redis_quote_successes : ℕ
  pub redis_quote_failures : ℕ
  pub redis_book_successes : ℕ
  pub redis_book_failures : ℕ
  pub measured_user_cpu_us : ℤ
  pub measured_system_cpu_us : ℤ
  pub last_current_rss_kb : ℤ
  pub peak_rss_kb : ℤ
  pub api : List ℤ
  pub redis_read : List ℤ
  pub api_cached : List ℤ
  pub api_external : List ℤ
  pub redis_quote : List ℤ
  pub book_build : List ℤ
  pub redis_book : List ℤ
  pub total : List ℤ
  pub last : Option OperationMetrics

-- The two `LatencySeries::add`.
unfoldable pub add_sample : Option ℤ → List ℤ → List ℤ
add_sample none samples = samples
add_sample (some sample) samples = samples ++ (sample ∷ [])

-- `++counter` if the test holds.
unfoldable pub bump : Bool → ℕ → ℕ
bump true counter = (counter + 1) % 2 ^ 64
bump false counter = counter

abbrev pub max_ℤ : ℤ → ℤ → ℤ
max_ℤ a b = if ltb_ℤ a b then b else a

-- A sample that is kept only if the test holds.
abbrev pub only_if : Bool → Option ℤ → Option ℤ
only_if true sample = sample
only_if false sample = none

unfoldable pub record_metrics : OperationMetrics → SessionStats → SessionStats
record_metrics m s = record {
  attempts = bump true s.attempts;
  successes = bump m.success s.successes;
  failures = bump (not m.success) s.failures;
  api_cache_hits = bump (is_some m.api_us && m.api_cached) s.api_cache_hits;
  api_cache_misses = bump (is_some m.api_us && not m.api_cached) s.api_cache_misses;
  redis_cache_hits = bump (is_some m.redis_read_us && m.redis_cache_hit) s.redis_cache_hits;
  redis_cache_misses = bump (is_some m.redis_read_us && not m.redis_cache_hit) s.redis_cache_misses;
  redis_quote_successes =
      bump (is_some m.redis_quote_us && m.redis_quote_stored) s.redis_quote_successes;
  redis_quote_failures =
      bump (is_some m.redis_quote_us && not m.redis_quote_stored) s.redis_quote_failures;
  redis_book_successes =
      bump (is_some m.redis_book_us && m.redis_book_stored) s.redis_book_successes;
  redis_book_failures =
      bump (is_some m.redis_book_us && not m.redis_book_stored) s.redis_book_failures;
  measured_user_cpu_us = s.measured_user_cpu_us +ℤ m.process.user_cpu_us;
  measured_system_cpu_us = s.measured_system_cpu_us +ℤ m.process.system_cpu_us;
  last_current_rss_kb = m.process.current_rss_kb;
  peak_rss_kb = max_ℤ s.peak_rss_kb m.process.peak_rss_kb;
  api = add_sample m.api_us s.api;
  redis_read = add_sample m.redis_read_us s.redis_read;
  api_cached = add_sample (only_if m.api_cached m.api_us) s.api_cached;
  api_external = add_sample (only_if (not m.api_cached) m.api_us) s.api_external;
  redis_quote = add_sample m.redis_quote_us s.redis_quote;
  book_build = add_sample m.book_build_us s.book_build;
  redis_book = add_sample m.redis_book_us s.redis_book;
  total = add_sample (some m.total_us) s.total;
  last = some m;
}

-- A new session, with the initialisers of the class.
abbrev pub new_session : SessionStats
new_session = record {
  attempts = 0;
  successes = 0;
  failures = 0;
  api_cache_hits = 0;
  api_cache_misses = 0;
  redis_cache_hits = 0;
  redis_cache_misses = 0;
  redis_quote_successes = 0;
  redis_quote_failures = 0;
  redis_book_successes = 0;
  redis_book_failures = 0;
  measured_user_cpu_us = pos 0;
  measured_system_cpu_us = pos 0;
  last_current_rss_kb = pos 0;
  peak_rss_kb = pos 0;
  api = [];
  redis_read = [];
  api_cached = [];
  api_external = [];
  redis_quote = [];
  book_build = [];
  redis_book = [];
  total = [];
  last = none;
}

unfoldable pub reset : SessionStats → SessionStats
reset s = record s {
  attempts = 0;
  successes = 0;
  failures = 0;
  api_cache_hits = 0;
  api_cache_misses = 0;
  redis_cache_hits = 0;
  redis_cache_misses = 0;
  redis_quote_successes = 0;
  redis_quote_failures = 0;
  redis_book_successes = 0;
  redis_book_failures = 0;
  measured_user_cpu_us = pos 0;
  measured_system_cpu_us = pos 0;
  last_current_rss_kb = pos 0;
  peak_rss_kb = pos 0;
  api = [];
  redis_read = [];
  api_cached = [];
  api_external = [];
  redis_quote = [];
  book_build = [];
  redis_book = [];
  total = [];
  last = none;
}
