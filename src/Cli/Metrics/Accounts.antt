-- ===== src/Cli/Metrics/Accounts.antt =====
-- What `SessionStats` holds after any session (src/cli/process_metrics.cpp).
use fin_core_streaming_syste.Prelude.{
  ℕ, ◌+◌, ◌%◌, ◌^◌, ◌≡◌, ◌∙◌, sym, Bool, true, false, not, ◌&&◌, Option, none, some, List, [], ◌∷◌,
  ◌++◌, append_assoc, append-nil, suc, if◌then◌else◌, arith, length, is_some,
}
use fin_core_streaming_syste.Prelude.Int.{ℤ}
use fin_core_streaming_syste.Cli.Metrics.{
  OperationMetrics, SessionStats, add_sample, bump, only_if, record_metrics,
}

-- The session's operations, in order.
pub record_all : List OperationMetrics → SessionStats → SessionStats
record_all [] s = s
record_all (m ∷ ms) s = record_all ms (record_metrics m s)

abbrev pub count : (OperationMetrics → Bool) → List OperationMetrics → ℕ
count p [] = 0
count p (m ∷ ms) = (if p m then 1 else 0) + count p ms

abbrev pub samples : (OperationMetrics → Option ℤ) → List OperationMetrics → List ℤ
samples f [] = []
samples f (m ∷ ms) = elim (f m) [ none ↦ samples f ms | some x ↦ x ∷ samples f ms ]

-- Each counter and each series of `s'` is that of `s`, and what the operations add to it.
pub record Accounts (s : SessionStats) (ms : List OperationMetrics) (s' : SessionStats)
    : Type 0 where
  pub attempts : s'.attempts % 2 ^ 64 ≡ (s.attempts + length ms) % 2 ^ 64
  pub successes : s'.successes % 2 ^ 64 ≡ (s.successes + count (λ m. m.success) ms) % 2 ^ 64
  pub failures : s'.failures % 2 ^ 64 ≡ (s.failures + count (λ m. not m.success) ms) % 2 ^ 64
  pub api_cache_hits :
      s'.api_cache_hits % 2 ^ 64
      ≡ (s.api_cache_hits + count (λ m. is_some m.api_us && m.api_cached) ms) % 2 ^ 64
  pub api_cache_misses :
      s'.api_cache_misses % 2 ^ 64
      ≡ (s.api_cache_misses + count (λ m. is_some m.api_us && not m.api_cached) ms) % 2 ^ 64
  pub redis_cache_hits :
      s'.redis_cache_hits % 2 ^ 64
      ≡ (s.redis_cache_hits + count (λ m. is_some m.redis_read_us && m.redis_cache_hit) ms) % 2 ^ 64
  pub redis_cache_misses :
      s'.redis_cache_misses % 2 ^ 64
      ≡ (s.redis_cache_misses + count (λ m. is_some m.redis_read_us && not m.redis_cache_hit) ms)
        % 2 ^ 64
  pub redis_quote_successes :
      s'.redis_quote_successes % 2 ^ 64
      ≡ (s.redis_quote_successes + count (λ m. is_some m.redis_quote_us && m.redis_quote_stored) ms)
        % 2 ^ 64
  pub redis_quote_failures :
      s'.redis_quote_failures % 2 ^ 64
      ≡ (s.redis_quote_failures
          + count (λ m. is_some m.redis_quote_us && not m.redis_quote_stored) ms)
        % 2 ^ 64
  pub redis_book_successes :
      s'.redis_book_successes % 2 ^ 64
      ≡ (s.redis_book_successes + count (λ m. is_some m.redis_book_us && m.redis_book_stored) ms)
        % 2 ^ 64
  pub redis_book_failures :
      s'.redis_book_failures % 2 ^ 64
      ≡ (s.redis_book_failures + count (λ m. is_some m.redis_book_us && not m.redis_book_stored) ms)
        % 2 ^ 64
  pub api : s'.api ≡ s.api ++ samples (λ m. m.api_us) ms
  pub redis_read : s'.redis_read ≡ s.redis_read ++ samples (λ m. m.redis_read_us) ms
  pub api_cached : s'.api_cached ≡ s.api_cached ++ samples (λ m. only_if m.api_cached m.api_us) ms
  pub api_external :
      s'.api_external ≡ s.api_external ++ samples (λ m. only_if (not m.api_cached) m.api_us) ms
  pub redis_quote : s'.redis_quote ≡ s.redis_quote ++ samples (λ m. m.redis_quote_us) ms
  pub book_build : s'.book_build ≡ s.book_build ++ samples (λ m. m.book_build_us) ms
  pub redis_book : s'.redis_book ≡ s.redis_book ++ samples (λ m. m.redis_book_us) ms
  pub total : s'.total ≡ s.total ++ samples (λ m. some m.total_us) ms

counter-step :
    (b : Bool) (c n r : ℕ)
    → r % 2 ^ 64 ≡ (bump b c + n) % 2 ^ 64
    → r % 2 ^ 64 ≡ (c + ((if b then 1 else 0) + n)) % 2 ^ 64
unfolding bump
counter-step true c n r h = omega arith
counter-step false c n r h = omega arith

series-step :
    (o : Option ℤ) (old new rest : List ℤ)
    → new ≡ add_sample o old ++ rest
    → new ≡ old ++ elim o [ none ↦ rest | some x ↦ x ∷ rest ]
unfolding add_sample
series-step none old new rest h = h
series-step (some x) old new rest h = h ∙ append_assoc old (x ∷ []) rest

suc_one : (n : ℕ) → suc n ≡ 1 + n
suc_one n = omega arith

-- What the rest of the session adds after one operation, added to what that operation adds.
Accounts-step :
    (m : OperationMetrics) (ms : List OperationMetrics) (s s' : SessionStats)
    → Accounts (record_metrics m s) ms s'
    → Accounts s (m ∷ ms) s'
unfolding record_metrics
Accounts-step m ms s s' a = record {
  attempts = rw (suc_one (length ms)) (counter-step true s.attempts _ _ a.attempts);
  successes = counter-step m.success s.successes _ _ a.successes;
  failures = counter-step (not m.success) s.failures _ _ a.failures;
  api_cache_hits =
      counter-step (is_some m.api_us && m.api_cached) s.api_cache_hits _ _ a.api_cache_hits;
  api_cache_misses =
      counter-step (is_some m.api_us && not m.api_cached) s.api_cache_misses _ _ a.api_cache_misses;
  redis_cache_hits =
      counter-step (is_some m.redis_read_us && m.redis_cache_hit) s.redis_cache_hits _ _
        a.redis_cache_hits;
  redis_cache_misses =
      counter-step (is_some m.redis_read_us && not m.redis_cache_hit) s.redis_cache_misses _ _
        a.redis_cache_misses;
  redis_quote_successes =
      counter-step (is_some m.redis_quote_us && m.redis_quote_stored) s.redis_quote_successes _ _
        a.redis_quote_successes;
  redis_quote_failures =
      counter-step (is_some m.redis_quote_us && not m.redis_quote_stored) s.redis_quote_failures _ _
        a.redis_quote_failures;
  redis_book_successes =
      counter-step (is_some m.redis_book_us && m.redis_book_stored) s.redis_book_successes _ _
        a.redis_book_successes;
  redis_book_failures =
      counter-step (is_some m.redis_book_us && not m.redis_book_stored) s.redis_book_failures _ _
        a.redis_book_failures;
  api = series-step m.api_us s.api _ _ a.api;
  redis_read = series-step m.redis_read_us s.redis_read _ _ a.redis_read;
  api_cached = series-step (only_if m.api_cached m.api_us) s.api_cached _ _ a.api_cached;
  api_external =
      series-step (only_if (not m.api_cached) m.api_us) s.api_external _ _ a.api_external;
  redis_quote = series-step m.redis_quote_us s.redis_quote _ _ a.redis_quote;
  book_build = series-step m.book_build_us s.book_build _ _ a.book_build;
  redis_book = series-step m.redis_book_us s.redis_book _ _ a.redis_book;
  total = series-step (some m.total_us) s.total _ _ a.total;
}

Accounts-refl : (s : SessionStats) → Accounts s [] s
Accounts-refl s = record {
  attempts = omega arith;
  successes = omega arith;
  failures = omega arith;
  api_cache_hits = omega arith;
  api_cache_misses = omega arith;
  redis_cache_hits = omega arith;
  redis_cache_misses = omega arith;
  redis_quote_successes = omega arith;
  redis_quote_failures = omega arith;
  redis_book_successes = omega arith;
  redis_book_failures = omega arith;
  api = sym (append-nil s.api);
  redis_read = sym (append-nil s.redis_read);
  api_cached = sym (append-nil s.api_cached);
  api_external = sym (append-nil s.api_external);
  redis_quote = sym (append-nil s.redis_quote);
  book_build = sym (append-nil s.book_build);
  redis_book = sym (append-nil s.redis_book);
  total = sym (append-nil s.total);
}

-- After any sequence of operations each counter has grown by the number of operations that it
-- counts, modulo 2^64, and each latency series has grown by the samples of the operations that
-- reached the stage, in order.
pub record_all-Accounts :
    (ms : List OperationMetrics) (s : SessionStats) → Accounts s ms (record_all ms s)
unfolding record_all
record_all-Accounts [] s = Accounts-refl s
record_all-Accounts (m ∷ ms) s =
    Accounts-step m ms s _ (record_all-Accounts ms (record_metrics m s))
