-- ===== src/Cli/Metrics/Invariant.antt =====
-- How the counters and the series of `SessionStats` agree (src/cli/process_metrics.cpp).
use fin_core_streaming_syste.Prelude.{
  ℕ, ◌+◌, ◌%◌, ◌^◌, ◌≡◌, refl, Bool, true, false, not, ◌&&◌, Option, none, some, List, [], ◌∷◌,
  arith, length, length-append, is_some, if◌then◌else◌,
}
use fin_core_streaming_syste.Prelude.Int.{ℤ}
use fin_core_streaming_syste.Cli.Metrics.{
  OperationMetrics, SessionStats, add_sample, bump, only_if, record_metrics, new_session, reset,
}

-- The measured events of a session.
pub data Event : Type 0 where
  measured : OperationMetrics → Event
  cleared : Event

pub apply : Event → SessionStats → SessionStats
apply (measured m) s = record_metrics m s
apply cleared s = reset s

pub session : List Event → SessionStats → SessionStats
session [] s = s
session (e ∷ es) s = session es (apply e s)

abbrev pub word : ℕ → ℕ
word n = n % 2 ^ 64

-- Every attempt is a success or a failure, and has one total time; every API call is a hit or a
-- miss of the client's cache, and stands in the series for its kind; so for Redis.
pub record IsConsistent (s : SessionStats) : Type 0 where
  pub attempts : word s.attempts ≡ word (s.successes + s.failures)
  pub totals : word s.attempts ≡ word (length s.total)
  pub api : word (s.api_cache_hits + s.api_cache_misses) ≡ word (length s.api)
  pub hits : word s.api_cache_hits ≡ word (length s.api_cached)
  pub misses : word s.api_cache_misses ≡ word (length s.api_external)
  pub reads : word (s.redis_cache_hits + s.redis_cache_misses) ≡ word (length s.redis_read)
  pub quotes : word (s.redis_quote_successes + s.redis_quote_failures) ≡ word (length s.redis_quote)
  pub books : word (s.redis_book_successes + s.redis_book_failures) ≡ word (length s.redis_book)

one_if : Bool → ℕ
one_if b = if b then 1 else 0

word-bump : (b : Bool) (c : ℕ) → word (bump b c) ≡ word (c + one_if b)
unfolding bump one_if
word-bump true c = omega arith
word-bump false c = omega arith

length-add_sample :
    (o : Option ℤ) (xs : List ℤ) → length (add_sample o xs) ≡ length xs + one_if (is_some o)
unfolding add_sample one_if
length-add_sample none xs = omega arith
length-add_sample (some x) xs = omega (arith, length-append xs (x ∷ []))

-- A pair of counters for a stage: one of them counts the event if the stage was reached.
pair-step :
    (o : Option ℤ) (flag : Bool) (yes_count no_count : ℕ) (xs : List ℤ)
    → word (yes_count + no_count) ≡ word (length xs)
    → word (bump (is_some o && flag) yes_count + bump (is_some o && not flag) no_count)
      ≡ word (length (add_sample o xs))
unfolding one_if
pair-step o flag y n xs h = ground (
  arith,
  word-bump (is_some o && flag) y,
  word-bump (is_some o && not flag) n,
  length-add_sample o xs,
)

single-step :
    (o : Option ℤ) (flag : Bool) (c : ℕ) (xs : List ℤ)
    → word c ≡ word (length xs)
    → word (bump (is_some o && flag) c) ≡ word (length (add_sample (only_if flag o) xs))
unfolding one_if
single-step o flag c xs h =
    ground (arith, word-bump (is_some o && flag) c, length-add_sample (only_if flag o) xs)

-- Where the flag itself decides, as for a success.
both-step :
    (flag : Bool) (a y n : ℕ)
    → word a ≡ word (y + n)
    → word (bump true a) ≡ word (bump flag y + bump (not flag) n)
unfolding one_if
both-step flag a y n h = ground (arith, word-bump true a, word-bump flag y, word-bump (not flag) n)

pub record_metrics-IsConsistent :
    (m : OperationMetrics) {s : SessionStats} → IsConsistent s → IsConsistent (record_metrics m s)
unfolding record_metrics one_if
record_metrics-IsConsistent m {s} h = record {
  attempts = both-step m.success s.attempts s.successes s.failures h.attempts;
  totals =
      ground
        (arith, word-bump true s.attempts, length-add_sample (some m.total_us) s.total, h.totals);
  api = pair-step m.api_us m.api_cached s.api_cache_hits s.api_cache_misses s.api h.api;
  hits = single-step m.api_us m.api_cached s.api_cache_hits s.api_cached h.hits;
  misses = single-step m.api_us (not m.api_cached) s.api_cache_misses s.api_external h.misses;
  reads =
      pair-step m.redis_read_us m.redis_cache_hit s.redis_cache_hits s.redis_cache_misses
        s.redis_read h.reads;
  quotes =
      pair-step m.redis_quote_us m.redis_quote_stored s.redis_quote_successes s.redis_quote_failures
        s.redis_quote h.quotes;
  books =
      pair-step m.redis_book_us m.redis_book_stored s.redis_book_successes s.redis_book_failures
        s.redis_book h.books;
}

pub reset-new_session : (s : SessionStats) → reset s ≡ new_session
unfolding reset
reset-new_session s = refl

pub new_session-IsConsistent : IsConsistent new_session
new_session-IsConsistent = ground arith

session-keeps : (es : List Event) (s : SessionStats) → IsConsistent s → IsConsistent (session es s)
unfolding session apply
session-keeps [] s h = h
session-keeps (measured m ∷ es) s h =
    session-keeps es (record_metrics m s) (record_metrics-IsConsistent m h)
session-keeps (cleared ∷ es) s h =
    session-keeps es (reset s) (rw (reset-new_session s) new_session-IsConsistent)

-- In every session, through any measurements and resets, the counters and the series agree (modulo
-- 2^64, where the counters wrap): attempts are successes and failures, and as many as the total
-- times; the hits and misses of each stage are as many as its samples.
session-IsConsistent : (es : List Event) → IsConsistent (session es new_session)
session-IsConsistent es = session-keeps es new_session new_session-IsConsistent
