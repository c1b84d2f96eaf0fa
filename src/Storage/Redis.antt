-- ===== src/Storage/Redis.antt =====
-- `class RedisClient` of include/storage/redis_client.hpp and src/storage/redis_client.cpp. What it
-- writes to the standard streams is not modelled.
pub mod Kept
pub mod Book
use fin_core_streaming_syste.Prelude.{
  ℕ, ◌+◌, ◌-◌, ◌*◌, ◌/◌, ◌%◌, ◌^◌, ◌≡◌, Bool, true, false, not, ◌||◌, ◌&&◌, Option, none, some,
  List, [], ◌∷◌, ◌++◌, if◌then◌else◌, Text, codes, text_eq, Result, ok, err, Exception,
  invalid_argument, lit,
}
use fin_core_streaming_syste.Prelude.Int.{ℤ, pos, leb_ℤ}
use fin_core_streaming_syste.Prelude.Io.{
  Io, pure, throw, lift, ◌>>=◌, ◌>>◌, observe, catching, bind_result,
}
use fin_core_streaming_syste.Cli.Parse.{stoull}
use fin_core_streaming_syste.Cli.Postgres.Requests.{stol}
use fin_core_streaming_syste.Core.Double.{Double}
use fin_core_streaming_syste.Core.Levels.{Levels}
use fin_core_streaming_syste.Core.Types.{Quote, Tick, TimePoint, side_name, quote_is_valid}
use fin_core_streaming_syste.Domain.Decimal.{to_text}
use fin_core_streaming_syste.Storage.Numbers.{signed_text}

abbrev pub Fields : Type 0
Fields = List (Text × Text)

-- The commands of redis-plus-plus over a world; each may throw a `sw::redis::Error`, which is an `other`
-- exception here. With them the conversions of `double`: `std::to_string`, and `std::stod`, `none` where it throws.
pub record Commands (D : Double) : Type 1 where
  pub World : Type 0
  pub open_redis : Text → World → Result (Unit {0}) × World
  pub ping : World → Result (Unit {0}) × World
  pub hmset : Text → Fields → World → Result (Unit {0}) × World
  pub hset : Text → Text → Text → World → Result (Unit {0}) × World
  pub hgetall : Text → World → Result Fields × World
  pub expire : Text → ℤ → World → Result (Unit {0}) × World
  pub lpush : Text → Text → World → Result (Unit {0}) × World
  pub ltrim : Text → ℤ → ℤ → World → Result (Unit {0}) × World
  pub xadd : Text → Text → Fields → World → Result (Unit {0}) × World
  pub set : Text → Text → World → Result (Unit {0}) × World
  pub del : Text → World → Result (Unit {0}) × World
  pub system_now : World → TimePoint
  pub double_text : D.Num → Text
  pub stod : Text → Option D.Num

unfoldable pub quote_key : Text → Text
quote_key symbol = codes "quote:" ++ symbol

unfoldable pub quote_history_key : Text → Text
quote_history_key symbol = codes "quote_history:" ++ symbol

unfoldable pub tick_stream_key : Text → Text
tick_stream_key symbol = codes "ticks:" ++ symbol

abbrev pub bids_key : Text → Text
bids_key symbol = codes "order_book:" ++ (symbol ++ codes ":bids")

abbrev pub asks_key : Text → Text
asks_key symbol = codes "order_book:" ++ (symbol ++ codes ":asks")

abbrev pub time_key : Text → Text
time_key symbol = codes "order_book:" ++ (symbol ++ codes ":timestamp")

-- `fields.find(key)`.
unfoldable pub find_field : Text → Fields → Option Text
find_field key [] = none
find_field key ((k, v) ∷ fields) = if text_eq key k then some v else find_field key fields

abbrev pub number_value : Result (ℕ × ℕ) → ℕ
number_value (ok r) = r.0
number_value (err e) = 0

-- `get_uint64`.
abbrev pub uint64_of : Option Text → ℕ
uint64_of none = 0
uint64_of (some text) = number_value (stoull 0 text)

abbrev pub time_value : Result (ℤ × ℕ) → TimePoint
time_value (ok r) = r.0
time_value (err e) = pos 0

abbrev pub time_of : Option Text → TimePoint
time_of none = pos 0
time_of (some text) = time_value (stol 0 text)

abbrev pub source_of : Option Text → Text
source_of none = codes "ALPHA_VANTAGE"
source_of (some text) = text

-- A handler that returns `false` on an error of redis; other exceptions go on.
abbrev pub false_on_error : {W : Type 0} → Exception → Io W Bool
false_on_error (Exception.other message) = pure false
false_on_error e = throw e

module _ {D : Double} (C : Commands D) where
  -- The constructor, with the text of the connection.
  unfoldable pub make_client : Text → ℤ → ℤ → Io C.World (Unit {0})
  make_client host port quote_ttl =
      if leb_ℤ quote_ttl (pos 0)
      then throw (invalid_argument (lit "RedisClient: quote TTL must be positive"))
      else (do C.open_redis (codes "tcp://" ++ (host ++ (b':' ∷ signed_text port))); C.ping)

  unfoldable pub is_connected : Io C.World Bool
  is_connected = catching (do C.ping; pure true) (λ e. pure false)

  abbrev pub quote_fields : Quote D → Fields
  quote_fields quote =
      (codes "price", C.double_text quote.price)
      ∷ (codes "open", C.double_text quote.opening)
      ∷ (codes "high", C.double_text quote.high)
      ∷ (codes "low", C.double_text quote.low)
      ∷ (codes "volume", to_text quote.volume)
      ∷ (codes "change_pct", C.double_text quote.change_pct)
      ∷ (codes "source", quote.source)
      ∷ (codes "timestamp", signed_text quote.timestamp)
      ∷ []

  abbrev pub history_entry : Quote D → Text
  history_entry quote =
      signed_text quote.timestamp
      ++ (b':' ∷ (C.double_text quote.price ++ (b':' ∷ to_text quote.volume)))

  unfoldable pub store_quote : ℤ → Text → Quote D → Io C.World Bool
  store_quote quote_ttl symbol quote =
      catching
        (do
          C.hmset (quote_key symbol) (quote_fields quote)
          C.expire (quote_key symbol) quote_ttl
          C.lpush (quote_history_key symbol) (history_entry quote)
          C.ltrim (quote_history_key symbol) (pos 0) (pos 999)
          pure true)
        false_on_error

  -- `get_double`.
  abbrev pub double_or_nought : Option D.Num → D.Num
  double_or_nought none = D.nought
  double_or_nought (some x) = x

  abbrev pub double_of : Option Text → D.Num
  double_of none = D.nought
  double_of (some text) = double_or_nought (C.stod text)

  abbrev pub quote_of_fields : Text → Fields → Quote D
  quote_of_fields symbol fields = record {
    symbol = symbol;
    price = double_of (find_field (codes "price") fields);
    opening = double_of (find_field (codes "open") fields);
    high = double_of (find_field (codes "high") fields);
    low = double_of (find_field (codes "low") fields);
    volume = uint64_of (find_field (codes "volume") fields);
    change_pct = double_of (find_field (codes "change_pct") fields);
    source = source_of (find_field (codes "source") fields);
    timestamp = time_of (find_field (codes "timestamp") fields);
  }

  unfoldable pub read_quote : Text → Fields → Option (Quote D)
  read_quote symbol [] = none
  read_quote symbol (f ∷ fields) =
      let q = quote_of_fields symbol (f ∷ fields) in if quote_is_valid q then some q else none

  unfoldable pub get_quote : Text → Io C.World (Option (Quote D))
  get_quote symbol =
      catching (do fields ← C.hgetall (quote_key symbol); pure (read_quote symbol fields))
        (λ e. pure none)

  abbrev pub tick_fields : Tick D → Fields
  tick_fields tick =
      (codes "symbol", tick.symbol)
      ∷ (codes "price", C.double_text tick.price)
      ∷ (codes "size", to_text tick.size)
      ∷ (codes "side", side_name tick.side)
      ∷ (codes "timestamp", signed_text tick.timestamp)
      ∷ []

  unfoldable pub store_tick : Tick D → Io C.World Bool
  store_tick tick =
      catching
        (do
          C.xadd (tick_stream_key tick.symbol) (codes "*") (tick_fields tick)
          C.set (codes "latest_tick:" ++ tick.symbol)
              (C.double_text tick.price ++ (b':' ∷ to_text tick.size))
          pure true)
        false_on_error

  -- One `hset` for each level.
  unfoldable pub set_levels : Text → Levels D.Num → Io C.World (Unit {0})
  set_levels key [] = pure tt
  set_levels key ((price, volume) ∷ levels) = do
    C.hset key (C.double_text price) (to_text volume)
    set_levels key levels

  unfoldable pub update_order_book : Text → Levels D.Num → Levels D.Num → Io C.World Bool
  update_order_book symbol bids asks =
      catching
        (do
          C.del (bids_key symbol)
          C.del (asks_key symbol)
          set_levels (bids_key symbol) bids
          set_levels (asks_key symbol) asks
          now ← observe C.system_now
          C.set (time_key symbol) (signed_text now)
          pure true)
        false_on_error
