-- ===== src/Cli/Wiring.antt =====
-- `make_cli_services` of src/cli/fincore_cli.cpp: the clients put together into the services of the
-- command line.
pub mod Persisted
use fin_core_streaming_syste.Prelude.{
  ℕ, zero, suc, ◌+◌, ◌*◌, ◌%◌, ◌^◌, ◌==◌, ◌≡◌, Bool, true, false, ◌||◌, Option, none, some, List,
  [], ◌∷◌, if◌then◌else◌, Text, Result, ok, err, ◌>>=◌, Exception, invalid_argument, lit,
}
use fin_core_streaming_syste.Prelude.Int.{ℤ, pos, negsuc}
use fin_core_streaming_syste.Prelude.Io.{Io, bind_result}
use fin_core_streaming_syste.Api.AlphaVantage
use fin_core_streaming_syste.Cli.Metrics.{ProcessSnapshot}
use fin_core_streaming_syste.Cli.Services.{Services}
use fin_core_streaming_syste.Core.Double.{Double}
use fin_core_streaming_syste.Core.Levels.{Levels}
use fin_core_streaming_syste.Core.Types.{Quote, OrderBookSnapshot, TimePoint}
use fin_core_streaming_syste.Domain.Decimal.{Decimal, from_string, to_text}
use fin_core_streaming_syste.Domain.MarketData as Domain
use fin_core_streaming_syste.Storage.Port.{MarketDataRepository}
use fin_core_streaming_syste.Storage.Redis
use fin_core_streaming_syste.Storage.Repository.{InsertSummary, duplicates}

-- The test for a finite number, and its text with eight fixed decimals.
pub record Printing (D : Double) : Type 0 where
  pub is_finite : D.Num → Bool
  pub fixed_text : D.Num → Text

-- The worlds of the clients, and that of the clocks.
pub record Backends (A C W E : Type 0) : Type 0 where
  pub api : A
  pub redis : C
  pub database : W
  pub machine : E

abbrev pub is_stored : InsertSummary → Bool
is_stored result = result.inserted == 1 || duplicates result == 1

module _ {W : Type 0} where
  abbrev pub judge : Result InsertSummary × W → Result Bool × W
  judge (ok result, w) = (ok (is_stored result), w)
  judge (err e, w) = (err e, w)

  abbrev pub insert_one : {A : Type 0} → (List A → Io W InsertSummary) → Result A → Io W Bool
  insert_one insert (ok stored) w = judge (insert (stored ∷ []) w)
  insert_one insert (err e) w = (err e, w)

module _ {D : Double} (T : Printing D) where
  unfoldable pub decimal_from : D.Num → Result Decimal
  decimal_from value =
      if T.is_finite value
      then from_string (T.fixed_text value)
      else err (invalid_argument (lit "market value must be finite before PostgreSQL persistence"))

  -- That of a `Volume`.
  unfoldable pub decimal_from_volume : ℕ → Result Decimal
  decimal_from_volume value = from_string (to_text value)

  -- The time now for a time that is not set; microseconds in nanoseconds, within their range.
  unfoldable pub domain_timestamp : TimePoint → TimePoint → Domain.Timestamp
  domain_timestamp now (pos zero) = now
  domain_timestamp now (pos (suc n)) = pos ((n + 1) * 1_000)
  domain_timestamp now (negsuc n) = negsuc (n * 1_000 + 999)

  unfoldable pub stored_quote : TimePoint → Quote D → Result Domain.Quote
  unfolding decimal_from decimal_from_volume domain_timestamp
  stored_quote now quote = do
    price ← decimal_from quote.price
    opening ← decimal_from quote.opening
    high ← decimal_from quote.high
    low ← decimal_from quote.low
    volume ← decimal_from_volume quote.volume
    change_pct ← decimal_from quote.change_pct
    ok (record {
      symbol = quote.symbol;
      source = quote.source;
      timestamp = domain_timestamp now quote.timestamp;
      price = price;
      opening = opening;
      high = high;
      low = low;
      volume = volume;
      change_pct = some change_pct;
    })

  unfoldable pub stored_snapshot :
      TimePoint → OrderBookSnapshot D → Text → Result Domain.OrderBookSnapshot
  unfolding decimal_from decimal_from_volume domain_timestamp
  stored_snapshot now snapshot source = do
    best_bid ← decimal_from snapshot.best_bid
    best_ask ← decimal_from snapshot.best_ask
    imbalance ← decimal_from snapshot.imbalance
    total_bid_volume ← decimal_from_volume snapshot.total_bid_vol
    total_ask_volume ← decimal_from_volume snapshot.total_ask_vol
    ok (record {
      symbol = snapshot.symbol;
      source = source;
      snapshot_time = domain_timestamp now snapshot.snapshot_time;
      best_bid = best_bid;
      best_ask = best_ask;
      imbalance = imbalance;
      total_bid_volume = total_bid_volume;
      total_ask_volume = total_ask_volume;
    })

  module _ {W : Type 0} (R : MarketDataRepository W) (now : W → TimePoint) where
    unfoldable pub persist_quote : Quote D → Io W Bool
    persist_quote quote w = insert_one R.insert_quotes (stored_quote (now w) quote) w

    unfoldable pub persist_snapshot : OrderBookSnapshot D → Text → Io W Bool
    persist_snapshot snapshot source w =
        insert_one R.insert_order_book_snapshots (stored_snapshot (now w) snapshot source) w

-- What is called on one of the worlds.
module _ {A C W E : Type 0} where
  abbrev pub put_api : {X : Type 0} → Backends A C W E → X × A → X × Backends A C W E
  put_api b (x, a) = (x, record b { api = a })

  abbrev pub put_redis : {X : Type 0} → Backends A C W E → X × C → X × Backends A C W E
  put_redis b (x, c) = (x, record b { redis = c })

  abbrev pub put_database : {X : Type 0} → Backends A C W E → X × W → X × Backends A C W E
  put_database b (x, w) = (x, record b { database = w })

  abbrev pub put_machine : {X : Type 0} → Backends A C W E → X × E → X × Backends A C W E
  put_machine b (x, e) = (x, record b { machine = e })

-- `static_cast<bool>` of what `RedisClient::update_order_book` returns.
abbrev pub update_order_book_checked : {W : Type 0} → Io W Bool → Io W Bool
update_order_book_checked update w = update w

-- The clocks, the sleep and `getrusage` of a machine.
pub record Machine : Type 1 where
  pub State : Type 0
  pub steady_now : State → ℤ × State
  pub system_now : State → TimePoint × State
  pub read_process_snapshot : State → Result ProcessSnapshot × State
  pub sleep_ms : ℕ → State → State

module _ {D : Double} (T : Printing D) (V : AlphaVantage.Web D) (C : Redis.Commands D) (M : Machine)
    (W : Type 0) where
  abbrev pub Joint : Type 0
  Joint = Backends (AlphaVantage.Client V) C.World W M.State

  abbrev pub with_repository :
      {X Y : Type 0}
      → (MarketDataRepository W → (W → TimePoint) → X → Io W Y)
      → MarketDataRepository W
      → X
      → Io Joint Y
  with_repository f R x b = put_database b (f R (λ w. (M.system_now b.machine).0) x b.database)

  abbrev pub map_repository :
      {X : Type 0} → (MarketDataRepository W → X) → Option (MarketDataRepository W) → Option X
  map_repository f none = none
  map_repository f (some R) = some (f R)

  -- The persistence functions are set where there is a repository.
  unfoldable pub make_cli_services : Text → ℤ → ℤ → Option (MarketDataRepository W) → Services D
  make_cli_services api_key cache_ttl quote_ttl postgres = record {
    World = Joint;
    get_quote = λ symbol b. put_api b (AlphaVantage.get_quote V api_key cache_ttl symbol b.api);
    last_was_cached = λ b. (ok b.api.last_was_cached, b);
    redis_is_connected = λ b. put_redis b (Redis.is_connected C b.redis);
    get_cached_quote = λ symbol b. put_redis b (Redis.get_quote C symbol b.redis);
    store_quote =
        λ symbol quote b. put_redis b (Redis.store_quote C quote_ttl symbol quote b.redis);
    update_order_book = λ symbol bids asks b.
        put_redis b
          (update_order_book_checked (Redis.update_order_book C symbol bids asks) b.redis);
    persist_quote = map_repository (with_repository (persist_quote T)) postgres;
    persist_snapshot =
        map_repository
          (λ R snapshot source.
            with_repository (λ R' now s. persist_snapshot T R' now s source) R snapshot)
          postgres;
    steady_now = λ b. put_machine b (M.steady_now b.machine);
    system_now = λ b. put_machine b (M.system_now b.machine);
    read_process_snapshot = λ b. put_machine b (M.read_process_snapshot b.machine);
    sleep_ms = λ n b. record b { machine = M.sleep_ms n b.machine };
  }
