-- ===== src/Cli/Fetch/Frame.antt =====
-- What the stages of a fetch leave alone (src/cli/fincore_cli.cpp).
use fin_core_streaming_syste.Prelude.{
  ◌≡◌, refl, ◌∙◌, Bool, true, false, Option, none, some, Text, Result, ok, err, Exception,
}
use fin_core_streaming_syste.Prelude.Int.{ℤ}
use fin_core_streaming_syste.Core.Double.{Double}
use fin_core_streaming_syste.Core.Types.{Quote, OrderBookSnapshot}
use fin_core_streaming_syste.Core.OrderBook.{OrderBook}
use fin_core_streaming_syste.Cli.Metrics.{OperationMetrics}
use fin_core_streaming_syste.Cli.Services.{Services, State, Line}
use fin_core_streaming_syste.Cli.Monad.{
  Action, pure, throw, bind_result, ◌>>=◌, ◌>>◌, gets, modify, call, call_pure, write, write_if,
  set_metrics, steady_now, elapsed_us, read_process_snapshot,
}
use fin_core_streaming_syste.Cli.Fetch.{
  read_cache, ask_api, cache_or_api, store_quote, or_missing, populate_at, rebuild_book, store_book,
  persist, store_all, insert_name,
}

module _ {D : Double} {S : Services D} where
  -- What stays: the statistics, the configured symbols, and, of the metrics, the symbol that is
  -- measured and whether it is a success.
  pub record Same (s s' : State D S) : Type 0 where
    pub stats : s'.stats ≡ s.stats
    pub symbols : s'.symbols ≡ s.symbols
    pub symbol : s'.metrics.symbol ≡ s.metrics.symbol
    pub success : s'.metrics.success ≡ s.metrics.success

  pub Same-refl : (s : State D S) → Same s s
  Same-refl s = record { stats = refl; symbols = refl; symbol = refl; success = refl }

  pub Same-trans : {s t u : State D S} → Same s t → Same t u → Same s u
  Same-trans a b = record {
    stats = b.stats ∙ a.stats;
    symbols = b.symbols ∙ a.symbols;
    symbol = b.symbol ∙ a.symbol;
    success = b.success ∙ a.success;
  }

  pub record Frame {A : Type 0} (m : Action S A) : Type 0 where
    pub keeps : (s : State D S) → Same s (m s).1

  pub Frame-pure : {A : Type 0} (a : A) → Frame (pure a)
  unfolding pure
  Frame-pure a = record { keeps = Same-refl }

  pub Frame-throw : {A : Type 0} (e : Exception) → Frame {A = A} (throw e)
  unfolding throw
  Frame-throw e = record { keeps = Same-refl }

  Same-bind_result :
      {A B : Type 0} (s : State D S) (r : Result A × State D S) (f : A → Action S B)
      → Same s r.1
      → ((a : A) → Frame (f a))
      → Same s (bind_result r f).1
  Same-bind_result s (ok a, t) f h k = Same-trans h ((k a).keeps t)
  Same-bind_result s (err e, t) f h k = h

  pub Frame-bind :
      {A B : Type 0} (m : Action S A) (f : A → Action S B)
      → Frame m
      → ((a : A) → Frame (f a))
      → Frame (m >>= f)
  unfolding ◌>>=◌
  Frame-bind m f h k = record { keeps = λ s. Same-bind_result s (m s) f (h.keeps s) k }

  pub Frame-gets : {A : Type 0} (f : State D S → A) → Frame (gets f)
  unfolding gets
  Frame-gets f = record { keeps = Same-refl }

  pub Frame-call : {A : Type 0} (f : S.World → Result A × S.World) → Frame (call f)
  unfolding call
  Frame-call f = record {
    keeps = λ s. record { stats = refl; symbols = refl; symbol = refl; success = refl };
  }

  pub Frame-call_pure : {A : Type 0} (f : S.World → A × S.World) → Frame (call_pure f)
  unfolding call_pure
  Frame-call_pure f = record {
    keeps = λ s. record { stats = refl; symbols = refl; symbol = refl; success = refl };
  }

  pub Frame-write : (line : Line D) → Frame (write line)
  unfolding write modify
  Frame-write line = record {
    keeps = λ s. record { stats = refl; symbols = refl; symbol = refl; success = refl };
  }

  pub Frame-write_if : (b : Bool) (line : Line D) → Frame (write_if b line)
  unfolding write_if
  Frame-write_if true line = Frame-write line
  Frame-write_if false line = Frame-pure tt

  pub Frame-set_metrics :
      (f : OperationMetrics → OperationMetrics)
      → ((m : OperationMetrics) → (f m).symbol ≡ m.symbol)
      → ((m : OperationMetrics) → (f m).success ≡ m.success)
      → Frame (set_metrics f)
  unfolding set_metrics modify
  Frame-set_metrics f h k = record {
    keeps =
        λ s. record { stats = refl; symbols = refl; symbol = h s.metrics; success = k s.metrics };
  }

  pub Frame-then :
      {B : Type 0} (m : Action S (Unit {0})) (k : Action S B) → Frame m → Frame k → Frame (m >> k)
  unfolding ◌>>◌
  Frame-then m k h j = Frame-bind m (λ _. k) h (λ _. j)

  pub Frame-steady_now : Frame (steady_now {D = D} {S = S})
  unfolding steady_now
  Frame-steady_now = Frame-call_pure S.steady_now

  pub Frame-elapsed_us : (started : ℤ) → Frame (elapsed_us {D = D} {S = S} started)
  unfolding elapsed_us
  Frame-elapsed_us started = Frame-bind _ _ Frame-steady_now (λ now. Frame-pure _)

  pub Frame-read_process_snapshot : Frame (read_process_snapshot {D = D} {S = S})
  unfolding read_process_snapshot
  Frame-read_process_snapshot = Frame-call S.read_process_snapshot

ruleset frames = (
  Frame-pure, Frame-throw, Frame-bind, Frame-then, Frame-gets, Frame-call, Frame-call_pure,
  Frame-write, Frame-write_if, Frame-steady_now, Frame-elapsed_us, Frame-read_process_snapshot,
)

module _ {D : Double} {S : Services D} where
  pub read_cache-Frame : (symbol : Text) → Frame (read_cache {D = D} {S = S} symbol)
  unfolding read_cache
  read_cache-Frame symbol = search (frames, Frame-set_metrics) depth 20

  ask_api-Frame : (symbol : Text) → Frame (ask_api {D = D} {S = S} symbol)
  unfolding ask_api
  ask_api-Frame symbol = search (frames, Frame-set_metrics) depth 20

  pub cache_or_api-Frame :
      (symbol : Text) (q : Option (Quote D)) → Frame (cache_or_api {D = D} {S = S} symbol q)
  unfolding cache_or_api
  cache_or_api-Frame symbol none = ask_api-Frame symbol
  cache_or_api-Frame symbol (some quote) = Frame-pure _

  store_quote-Frame :
      (symbol : Text) (quote : Quote D) (hit : Bool)
      → Frame (store_quote {D = D} {S = S} symbol quote hit)
  unfolding store_quote
  store_quote-Frame symbol quote true = Frame-set_metrics _ (λ m. refl) (λ m. refl)
  store_quote-Frame symbol quote false = search (frames, Frame-set_metrics) depth 20

  or_missing-Frame : (o : Option (OrderBook D)) → Frame (or_missing {D = D} {S = S} o)
  unfolding or_missing
  or_missing-Frame none = Frame-throw _
  or_missing-Frame (some book) = Frame-pure book

  populate_at-Frame :
      (symbol : Text) (quote : Quote D) (book : OrderBook D)
      → Frame (populate_at {D = D} {S = S} symbol quote book)
  unfolding populate_at
  populate_at-Frame symbol quote book = record {
    keeps = λ s. record { stats = refl; symbols = refl; symbol = refl; success = refl };
  }

  Frame-add_name :
      (symbol : Text)
      → Frame {D = D} {S = S}
          (modify (λ s. record s { books_with_data = insert_name symbol s.books_with_data }))
  unfolding modify
  Frame-add_name symbol = record {
    keeps = λ s. record { stats = refl; symbols = refl; symbol = refl; success = refl };
  }

  rebuild_book-Frame :
      (symbol : Text) (quote : Quote D) → Frame (rebuild_book {D = D} {S = S} symbol quote)
  unfolding rebuild_book
  rebuild_book-Frame symbol quote =
      search (frames, Frame-set_metrics, or_missing-Frame, populate_at-Frame, Frame-add_name) depth
        24

  store_book-Frame :
      (symbol : Text) (book : OrderBook D) → Frame (store_book {D = D} {S = S} symbol book)
  unfolding store_book
  store_book-Frame symbol book = search (frames, Frame-set_metrics) depth 20

  persist-Frame :
      (p : Option (Quote D → S.World → Result Bool × S.World))
      (q : Option (OrderBookSnapshot D → Text → S.World → Result Bool × S.World)) (quote : Quote D)
      (snap : OrderBookSnapshot D)
      → Frame (persist {D = D} {S = S} p q quote snap)
  unfolding persist
  persist-Frame (some p) (some q) quote snap = search frames depth 20
  persist-Frame (some p) none quote snap = Frame-pure _
  persist-Frame none q quote snap = Frame-pure _

  pub store_all-Frame :
      (symbol : Text) (quote : Quote D) → Frame (store_all {D = D} {S = S} symbol quote)
  unfolding store_all
  store_all-Frame symbol quote =
      search (frames, store_quote-Frame, rebuild_book-Frame, store_book-Frame, persist-Frame) depth
        24
